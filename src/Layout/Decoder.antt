-- ===== src/Layout/Decoder.antt =====
-- `text_decoder_init` and `text_decoder_filter` of app/eedit/core/filters/text_decoder.cpp. `none` is
-- a fault: the assertion that a code point lies within the buffer fails.
use ewlibs.Base.{
  ltb, leb, ◌==◌, if◌then◌else◌, ◌>>=◌, length, ℕ, zero, suc, ◌+◌, ◌-◌, ◌%◌, ◌^◌, Bool, true, false,
  not, ◌||◌, Option, none, some, List, [], ◌∷◌, ◌++◌,
}
use ewlibs.Layout.{FilterIo, unicode, Buffer, CodecIo}
use ewlibs.Screen.{CodepointInfo}

-- `text_codec_read_forward(io_ctx, iovc, iocnt)` for one buffer: the count that it returns, `none`
-- for an error, and the array `iovc` after it.
abbrev pub ReadForward : Type 0
ReadForward = (ℕ → CodecIo) → ℕ → Option ℕ × (ℕ → CodecIo)

-- `text_decoder_context_t`
pub record TextDecoderContext : Type 0 where
  pub next_offset : ℕ
  pub buffer_size : ℕ
  pub end_of_buffer : FilterIo
  pub iovc : ℕ → CodecIo
  pub iocnt : ℕ
  pub split_count : ℕ
  pub split_flag : ℕ
  pub cur_cp_index : ℕ

-- The part of the context that the first cell takes from the cell where the layout starts.
unfoldable pub resume_from :
    {F : Type 0} → Option (CodepointInfo F) → TextDecoderContext → TextDecoderContext
resume_from none ctx = ctx
resume_from (some cpi) ctx =
    if not cpi.used
    then ctx
    else if cpi.split_count == 0
    then record ctx { cur_cp_index = cpi.cp_index }
    else record ctx {
      cur_cp_index = cpi.cp_index;
      split_count = cpi.split_count;
      split_flag = cpi.split_flag;
    }

-- `text_decoder_init(blayout_ctx, out)`. What `new` leaves undefined is `fresh` and `iovc`.
unfoldable pub text_decoder_init :
    {F : Type 0}
    → (start_offset size : ℕ) (start_cpi : Option (CodepointInfo F)) (fresh : FilterIo)
      (iovc : ℕ → CodecIo)
    → TextDecoderContext
text_decoder_init start_offset size start_cpi fresh iovc = resume_from start_cpi (record {
  next_offset = start_offset;
  buffer_size = size;
  end_of_buffer = record fresh {
    is_selected = true;
    end_of_pipe = true;
    content_type = unicode;
    offset = size;
    cp = 32;
    real_cp = 32;
    valid = true;
  };
  iovc = iovc;
  iocnt = 1024;
  split_count = 0;
  split_flag = 0;
  cur_cp_index = 0;
})

-- One cell, written over `old`.
abbrev pub decoded_cell : TextDecoderContext → CodecIo → FilterIo → FilterIo
decoded_cell ctx io old = record old {
  end_of_pipe = false;
  content_type = unicode;
  offset = io.offset;
  cp = io.cp;
  real_cp = io.cp;
  valid = true;
  is_selected = false;
  cp_index = ctx.cur_cp_index;
  split_flag = ctx.split_flag;
  split_count = ctx.split_count;
}

abbrev pub is_new_line : ℕ → Bool
is_new_line cp = (cp == 13) || (cp == 10)

-- The context after one code point.
unfoldable pub count_cp : ℕ → TextDecoderContext → TextDecoderContext
count_cp cp ctx = record ctx {
  split_count = 0;
  split_flag = 0;
  cur_cp_index = if is_new_line cp then 0 else (ctx.cur_cp_index + 1) % 2 ^ 64;
}

-- The loop over the code points: `left` of them remain, `i` is its index.
unfoldable pub decode_cells :
    TextDecoderContext → ℕ → ℕ → Buffer → Option (List FilterIo × TextDecoderContext)
decode_cells ctx zero i out = some ([], ctx)
decode_cells ctx (suc left) i out =
    let io = ctx.iovc i in
    let rest = decode_cells (count_cp io.cp ctx) left (i + 1) out in
    if not (leb io.offset ctx.buffer_size)
    then none
    else rest >>= λ (cells, ctx'). some (decoded_cell ctx io (out i) ∷ cells, ctx')

-- `ret <= 0`
abbrev pub read_count : Option ℕ → ℕ
read_count none = 0
read_count (some n) = n

-- `ctx->iovc[0].offset = ctx->next_offset`
abbrev pub aim : ℕ → (ℕ → CodecIo) → ℕ → CodecIo
aim offset iovc i = if i == 0 then record (iovc 0) { offset = offset } else iovc i

-- The offset of the next call, when `index` cells are written.
abbrev pub next_read : TextDecoderContext → ℕ → ℕ
next_read ctx index =
    if index == 0
    then ctx.buffer_size
    else let last = ctx.iovc (index - 1) in (last.offset + last.size) % 2 ^ 64

-- `text_decoder_filter(blctx, ctx, in, nr_in, out, max_out, nr_out)`: what it writes to `out`.
unfoldable pub text_decoder_filter :
    ReadForward → TextDecoderContext → Buffer → Option (List FilterIo × TextDecoderContext)
text_decoder_filter read ctx out =
    let (ret, iovc) = read (aim ctx.next_offset ctx.iovc) ctx.iocnt in
    let index = read_count ret in
    decode_cells (record ctx { iovc = iovc }) index 0 out >>= λ (cells, ctx').
    let cells' = if ltb index ctx'.iocnt then cells ++ ctx'.end_of_buffer ∷ [] else cells in
    some (cells', record ctx' { next_offset = next_read ctx' (length cells') })

-- ===== src/Layout/Decoding.antt =====
-- What `text_decoder_filter` writes, over a codec that reads forward: it never fails the assertion,
-- and either it ends the pipe or the next call starts further in the buffer.
use ewlibs.Base.{
  length, ℕ, zero, suc, ◌+◌, ◌≤◌, ◌<◌, ◌≡◌, refl, ap, true, some, List, [], ◌∷◌, arith, ltb,
  Bool-cases, length-append, ◌^◌, sym, ◌∙◌, ◌⊎◌, inl, inr, Option, none, ◌++◌,
}
use ewlibs.Base.Every.{All, All-append}
use ewlibs.Layout.{FilterIo, Buffer, CodecIo}
use ewlibs.Layout.Decoder.{
  ReadForward, TextDecoderContext, decoded_cell, count_cp, decode_cells, read_count, aim, next_read,
  text_decoder_filter,
}
use ewlibs.Layout.Expanding.{Splits, last_or, last_or-append}

-- What the layout relies on of a codec's `read_forward`, in a buffer of `size` bytes and for the
-- 1024 code points that the decoder asks for: no more of them, each within the buffer, and the last
-- one ends further on, within the buffer.
pub record Reads (size : ℕ) (read : ReadForward) : Type 0 where
  pub few : (iovc iovc' : ℕ → CodecIo) (n : ℕ) → read iovc 1024 ≡ (some n, iovc') → n ≤ 1024
  pub inside :
      (iovc iovc' : ℕ → CodecIo) (n : ℕ)
      → (iovc 0).offset ≤ size
      → read iovc 1024 ≡ (some n, iovc')
      → (i : ℕ) → i < n
      → (iovc' i).offset ≤ size
  pub onward :
      (iovc iovc' : ℕ → CodecIo) (n : ℕ)
      → (iovc 0).offset ≤ size
      → read iovc 1024 ≡ (some (suc n), iovc')
      → ((iovc 0).offset < (iovc' n).offset + (iovc' n).size)
        × ((iovc' n).offset + (iovc' n).size ≤ size)

-- The context between two calls.
pub record Serving (size : ℕ) (ctx : TextDecoderContext) : Type 0 where
  pub whole : ctx.buffer_size ≡ size
  pub reached : ctx.next_offset ≤ size
  pub asked : ctx.iocnt ≡ 1024
  pub blank : ctx.end_of_buffer.cp ≡ 32
  pub closing : ctx.end_of_buffer.end_of_pipe ≡ true
  pub split : ctx.split_count < 8

-- A context that differs in the counters alone.
record Kept (ctx ctx' : TextDecoderContext) : Type 0 where
  whole : ctx'.buffer_size ≡ ctx.buffer_size
  asked : ctx'.iocnt ≡ ctx.iocnt
  eof : ctx'.end_of_buffer ≡ ctx.end_of_buffer
  read : ctx'.iovc ≡ ctx.iovc
  split : ctx'.split_count < 8

-- The loop over the code points fails no assertion when they lie within the buffer.
decode_cells-Kept :
    (ctx : TextDecoderContext) (left i : ℕ) (out : Buffer)
    → ctx.split_count < 8
    → ((j : ℕ) → j < i + left → (ctx.iovc j).offset ≤ ctx.buffer_size)
    → (cells : List FilterIo) × (ctx' : TextDecoderContext) × (decode_cells ctx left i out
        ≡ some (cells, ctx'))
      × (length cells ≡ left)
      × All Splits cells
      × Kept ctx ctx'
unfolding decode_cells count_cp
decode_cells-Kept ctx zero i out h inside = (
  [],
  ctx,
  refl,
  refl,
  tt,
  record { whole = refl; asked = refl; eof = refl; read = refl; split = h },
)
decode_cells-Kept ctx (suc left) i out h inside =
    let io = ctx.iovc i in
    let (cells, ctx', e, n, splits, k) =
      decode_cells-Kept (count_cp io.cp ctx) left (i + 1) out (omega arith)
        (λ j hj. inside j (omega (arith, hj))) in
    let here = inside i (omega arith) in
    (
      decoded_cell ctx io (out i) ∷ cells,
      ctx',
      rw e (ground (arith, here)),
      ap suc n,
      ((λ _. h), splits),
      record { whole = k.whole; asked = k.asked; eof = k.eof; read = k.read; split = k.split },
    )

module _ (size : ℕ) (small : size < 2 ^ 64) (read : ReadForward) (law : Reads size read)
    (ctx : TextDecoderContext) (w : Serving size ctx) (out : Buffer) where
  -- What a call leaves: cells for the next filter, and a pipe that ends or a context that goes on.
  abbrev pub Served : List FilterIo → TextDecoderContext → Type 0
  Served cells ctx' =
      (0 < length cells)
      × (length cells ≤ 1024)
      × All Splits cells
      × (((d : FilterIo) → (last_or d cells).end_of_pipe ≡ true)
          ⊎ (Serving size ctx' × (ctx.next_offset < ctx'.next_offset)))

  module _ (ret : Option ℕ) (iovc : ℕ → CodecIo)
      (e : read (aim ctx.next_offset ctx.iovc) ctx.iocnt ≡ (ret, iovc)) where
    run_1024 : read (aim ctx.next_offset ctx.iovc) 1024 ≡ (ret, iovc)
    run_1024 = ap (read (aim ctx.next_offset ctx.iovc)) (sym w.asked) ∙ e

    abbrev read_ctx : TextDecoderContext
    read_ctx = record ctx { iovc = iovc }

    read-inside :
        (o : Option ℕ)
        → ret ≡ o
        → (read_count o ≤ 1024) × ((j : ℕ) → j < read_count o → (iovc j).offset ≤ ctx.buffer_size)
    read-inside none h = (omega arith, λ j hj. omega (arith, hj))
    read-inside (some n) h =
        let run = run_1024 ∙ ap (λ o. (o, iovc)) h in
        (
          omega (arith, law.few (aim ctx.next_offset ctx.iovc) iovc n run, w.asked),
          λ j hj.
              omega (
                arith,
                w.whole,
                law.inside (aim ctx.next_offset ctx.iovc) iovc n w.reached run j hj,
              ),
        )

    read-onward :
        (o : Option ℕ)
        → ret ≡ o
        → read_count o ≡ 1024
        → (ctx.next_offset < (iovc 1023).offset + (iovc 1023).size)
          × ((iovc 1023).offset + (iovc 1023).size ≤ size)
    read-onward none h full = absurd (omega (arith, full))
    read-onward (some n) h full =
        law.onward (aim ctx.next_offset ctx.iovc) iovc 1023 w.reached
          (run_1024 ∙ ap (λ o. (o, iovc)) (h ∙ ap some full))

    module _ (cells : List FilterIo) (ctx' : TextDecoderContext) (k : Kept read_ctx ctx') where
      blank : ctx'.end_of_buffer.cp ≡ 32
      blank = ap (λ c. c.cp) k.eof ∙ w.blank

      closing : ctx'.end_of_buffer.end_of_pipe ≡ true
      closing = ap (λ c. c.end_of_pipe) k.eof ∙ w.closing

      go_on :
          length cells ≡ read_count ret
          → read_count ret ≡ 1024
          → Serving size (record ctx' { next_offset = next_read ctx' (length cells) })
            × (ctx.next_offset < next_read ctx' (length cells))
      go_on n full =
          let (further, within) = read-onward ret refl full in
          let next : next_read ctx' (length cells) ≡ (iovc 1023).offset + (iovc 1023).size =
            rw (n, full, k.read) (omega (arith, within, small)) in
          (
            record {
              whole = k.whole ∙ w.whole;
              reached = omega (arith, next, within);
              asked = k.asked ∙ w.asked;
              blank = blank;
              closing = closing;
              split = k.split;
            },
            omega (arith, next, further),
          )

    served :
        (cells : List FilterIo) × (ctx' : TextDecoderContext) × (text_decoder_filter read ctx out
          ≡ some (cells, ctx'))
        × Served cells ctx'
    unfolding text_decoder_filter
    served =
        let (few, inside) = read-inside ret refl in
        let (cells, ctx', run, n, splits, k) =
          decode_cells-Kept read_ctx (read_count ret) 0 out w.split
            (λ j hj. inside j (omega (arith, hj))) in
        elim (Bool-cases (ltb (read_count ret) ctx'.iocnt)) [
          | inl less ↦
              let all = cells ++ ctx'.end_of_buffer ∷ [] in
              (
                all,
                record ctx' { next_offset = next_read ctx' (length all) },
                rw (e, run, less) refl,
                (
                  omega (arith, length-append cells (ctx'.end_of_buffer ∷ [])),
                  ground (
                    arith,
                    less,
                    k.asked,
                    w.asked,
                    n,
                    length-append cells (ctx'.end_of_buffer ∷ []),
                  ),
                  All-append Splits cells _ splits
                      (λ q. absurd (omega (arith, q, blank cells ctx' k)), tt),
                  inl (λ d.
                      ap (λ c. c.end_of_pipe) (last_or-append d cells _) ∙ closing cells ctx' k),
                ),
              )
          | inr full ↦ (
            cells,
            record ctx' { next_offset = next_read ctx' (length cells) },
            rw (e, run, full) refl,
            (
              ground (arith, full, k.asked, w.asked, n),
              omega (arith, n, few),
              splits,
              inr (go_on cells ctx' k n (ground (arith, full, k.asked, w.asked, few))),
            ),
          )
        ]

  -- A call fails no assertion, and writes at least one cell and at most 1024.
  pub text_decoder_filter-Served :
      (cells : List FilterIo) × (ctx' : TextDecoderContext) × (text_decoder_filter read ctx out
        ≡ some (cells, ctx'))
      × Served cells ctx'
  text_decoder_filter-Served =
      let r = read (aim ctx.next_offset ctx.iovc) ctx.iocnt in served r.0 r.1 refl

-- ===== src/Codec/Ascii.antt =====
-- The ascii codec of app/eedit/modules/codec/text/module_text_codec_ascii.cpp.
use ewlibs.Base.{
  ltb, ◌==◌, if◌then◌else◌, ◌>>=◌, length, take, ℕ, zero, suc, ◌+◌, ◌-◌, min, not, Option, none,
  some, List, [], ◌∷◌, ◌++◌, leb, ◌%◌, ◌^◌, ◌||◌,
}
use ewlibs.Layout.{CodecIo}

-- `byte_buffer_read(bid, offset, buff, to_read, &nb_read)` for one buffer: the bytes that it reads,
-- `none` when it does not return 0.
abbrev pub ReadBytes : Type 0
ReadBytes = ℕ → ℕ → Option (List ℕ)

-- `for (j = 0; j < nb_read; j++) iovc[i + j] = ...`
unfoldable pub decode_bytes : List ℕ → ℕ → ℕ → (ℕ → CodecIo) → ℕ → CodecIo
decode_bytes [] i offset iovc = iovc
decode_bytes (b ∷ buff) i offset iovc =
    decode_bytes buff (i + 1) (offset + 1)
      (λ k. if k == i then record { offset = offset; cp = b; size = 1 } else iovc k)

-- A block of bytes that is read at `offset` and decoded from `iovc[i]` on: how many, and `iovc`.
unfoldable pub ascii_block : ReadBytes → ℕ → ℕ → (ℕ → CodecIo) → ℕ → Option (ℕ × (ℕ → CodecIo))
ascii_block read i offset iovc iocnt = read offset (16384 - i) >>= λ buff.
    let got = take iocnt buff in some (length got, decode_bytes got i offset iovc)

-- The loop of `ascii_read_forward`, on fuel: `i` code points are read. The outer `none` is no more
-- fuel, the inner one is the result -1.
unfoldable pub ascii_read_loop :
    ReadBytes → ℕ → ℕ → ℕ → (ℕ → CodecIo) → ℕ → Option (Option ℕ × (ℕ → CodecIo))
ascii_read_loop read zero i offset iovc iocnt = none
ascii_read_loop read (suc fuel) i offset iovc iocnt =
    if not (ltb i iocnt) then some (some i, iovc) else elim (ascii_block read i offset iovc iocnt) [
      | none ↦ some (none, iovc)
      | some (nb_read, iovc') ↦
          let rest = ascii_read_loop read fuel (i + nb_read) (offset + nb_read) iovc' iocnt in
          if ltb nb_read 16384 then some (some (i + nb_read), iovc') else rest
    ]

-- `ascii_read_forward(io_ctx, iovc, iocnt)`; the loop runs at most twice, as the second call asks
-- for no byte.
unfoldable pub ascii_read_forward :
    ReadBytes → (ℕ → CodecIo) → ℕ → Option (Option ℕ × (ℕ → CodecIo))
ascii_read_forward read iovc iocnt = ascii_read_loop read 3 0 ((iovc 0).offset) iovc iocnt

-- The cells of a block that is read backwards, from its last byte on.
unfoldable pub backward_cells : ℕ → List ℕ → List CodecIo
backward_cells offset [] = []
backward_cells offset (b ∷ buff) =
    backward_cells (offset + 1) buff ++ record { offset = offset; cp = b; size = 1 } ∷ []

-- The loop of `ascii_read_backward`, on fuel: what it writes to `iovc`.
unfoldable pub ascii_backward_loop : ReadBytes → ℕ → ℕ → ℕ → Option (Option (List CodecIo))
ascii_backward_loop read zero first_offset last_offset = none
ascii_backward_loop read (suc fuel) first_offset last_offset =
    if first_offset == last_offset
    then some (some [])
    else let max_read = min 16384 (first_offset - last_offset) in
      elim (read (first_offset - max_read) max_read) [
        | none ↦ some none
        | some buff ↦
            let start = first_offset - length buff in
            ascii_backward_loop read fuel start last_offset >>= λ cells.
            some (cells >>= λ later. some (backward_cells start buff ++ later))
      ]

-- `ascii_read_backward(io_ctx, iovc, iocnt)`
unfoldable pub ascii_read_backward : ReadBytes → ℕ → ℕ → Option (Option (List CodecIo))
ascii_read_backward read first_offset iocnt =
    if first_offset == 0
    then some (some [])
    else ascii_backward_loop read (first_offset + 1) first_offset (first_offset - iocnt)

-- The loop of `ascii_write` that encodes, from `iovc[i]` on: a code point of 128 and more is left
-- out; `cp` is signed, so that a negative one is a byte.
unfoldable pub encode_cps : ℕ → ℕ → (ℕ → CodecIo) → List ℕ
encode_cps zero i iovc = []
encode_cps (suc n) i iovc =
    let cp = (iovc i).cp in
    let rest = encode_cps n (i + 1) iovc in
    if ltb cp 128 || leb (2 ^ 31) cp then cp % 2 ^ 8 ∷ rest else rest

-- The loop that fixes the offsets and sizes.
unfoldable pub fix_ios : ℕ → ℕ → ℕ → (ℕ → CodecIo) → ℕ → CodecIo
fix_ios zero j start_offset iovc = iovc
fix_ios (suc n) j start_offset iovc =
    fix_ios n (j + 1) start_offset
      (λ k. if k == j then record (iovc j) { offset = start_offset + j; size = 1 } else iovc k)

-- `byte_buffer_write(bid, offset, in, to_ins, &nb_written)` for the buffers S: the count, and the
-- buffers after it; `none` when it fails.
abbrev pub WriteBytes : Type 0 → Type 0
WriteBytes S = S → ℕ → List ℕ → Option (ℕ × S)

-- `ascii_write(io_ctx, iovc, iocnt)`: its result, `iovc`, and the buffers.
unfoldable pub ascii_write :
    {S : Type 0} → WriteBytes S → S → (ℕ → CodecIo) → ℕ → ℕ × (ℕ → CodecIo) × S
ascii_write write s iovc iocnt =
    let start_offset = (iovc 0).offset in
    elim (write s start_offset (encode_cps iocnt 0 iovc)) [
      | none ↦ (0, iovc, s)
      | some (nb_written, s') ↦ (nb_written, fix_ios nb_written 0 start_offset iovc, s')
    ]

-- ===== src/Utf8/Survival.antt =====
-- Which code points decode from the bytes that `put_cp` writes for them, and `count` on such bytes.
use ewlibs.Utf8.Encoding.{encoded, needed, put_cp-encoded}
use ewlibs.Base.{
  ltb, leb, ◌==◌, if◌then◌else◌, ℕ, ◌+◌, ◌/◌, ◌%◌, ◌^◌, ◌<◌, ◌≡◌, true, false, ◌||◌, none, some,
  List, [], ◌∷◌, ◌++◌, arith, Bool-cases, length, ◌*◌, ◌≤◌, ◌∙◌, ◌↔◌, inl, inr, Bool, not, ◌&&◌,
  map, take, refl, sym, ap, ap₂,
}
use mathlib.Core.List.{flatten}
use ewlibs.Base.Cuts.{take-length_append}
use ewlibs.Base.Memory.{Memory}
use ewlibs.Utf8.Advance.{tables}
use ewlibs.Base.Every.{All}
use ewlibs.Utf8.Counting.{Decodes, occurrences, count-Decodes}
use ewlibs.Utf8.Codec.{count, complete, put_cp}
use ewlibs.Base.Memory.{in_range}
use ewlibs.Utf8.Table.{mask}
use ewlibs.Utf8.Sequence.{
  sequence_value, lead, three_low, three, three_surrogate, four_low, four, four_high, bad,
}

-- The code points that survive the round trip. Bit 12 must be clear from three bytes on, since it
-- lands in the marker bits of a continuation byte, and likewise bit 18 at four bytes; lead 0xee is
-- not in the table, lead 0xf0 takes two bytes more there, and after 0xf4 the third byte ends at 0x9f.
unfoldable pub survives : ℕ → Bool
survives cp =
    ltb cp 0x800
    || (ltb cp 0xffff && ((cp / 4096 % 2 == 0) && not (cp / 4096 == 14)))
    || (in_range 0x80000 0xbffff cp && (cp / 4096 % 2 == 0))
    || (in_range 0x100000 0x10fffe cp && (cp / 2048 % 4 == 0))

survives-one :
    (cp : ℕ)
    → (leb (2 ^ 31) cp || ltb cp 0x80) ≡ true
    → (sequence_value (encoded cp) ≡ some cp) ↔ (survives cp ≡ true)
unfolding sequence_value encoded survives
survives-one cp h = ground arith

lead_three :
    (q : ℕ)
    → q < 16
    → lead (0xe0 + q) ≡ (
        if q == 0
        then three_low
        else if q == 13
        then three_surrogate
        else if q == 14
        then bad
        else three)
unfolding lead
lead_three q h = ground arith

lead_four :
    (q : ℕ)
    → q < 5
    → lead (0xf0 + q) ≡ (if q == 0 then four_low else if q == 4 then four_high else four)
unfolding lead
lead_four q h = ground arith

mask_bytes :
    (q x : ℕ)
    → q < 16
    → x < 64
    → (mask (0xe0 + q) ≡ q) × (mask (0x80 + x) ≡ x) × (q < 5 → mask (0xf0 + q) ≡ q)
unfolding mask
mask_bytes q x h k = ground arith

-- When a three byte sequence with these parts is accepted, and as what.
three_value :
    (q x y : ℕ)
    → q < 16
    → x < 128
    → y < 64
    → sequence_value ((0xe0 + q) ∷ (0x80 + x) ∷ (0x80 + y) ∷ []) ≡ (
        if ltb x 64 && (if q == 0 then leb 32 x else if q == 13 then ltb x 32 else not (q == 14))
        then some ((q * 64 + x) * 64 + y)
        else none)
unfolding sequence_value
three_value q x y hq hx hy =
    rw (lead_three q hq) (ground (arith, mask_bytes q y hq hy, mask_bytes q x hq))

four_value :
    (q x y z : ℕ)
    → q < 5
    → x < 128
    → y < 128
    → z < 64
    → sequence_value ((0xf0 + q) ∷ (0x80 + x) ∷ (0x80 + y) ∷ (0x80 + z) ∷ []) ≡ (
        if (ltb x 64 && ltb y 64)
          && (if q == 0 then false else if q == 4 then ltb x 16 && ltb y 32 else true)
        then some (((q * 64 + x) * 64 + y) * 64 + z)
        else none)
unfolding sequence_value
four_value q x y z hq hx hy hz = rw (lead_four q hq) (
    ground (
      arith,
      mask_bytes q z (omega arith) hz,
      mask_bytes q x (omega arith),
      mask_bytes q y (omega arith),
    ))

module _ (cp : ℕ) where
  encoded-two : 0x80 ≤ cp → cp < 0x800 → encoded cp ≡ (0xc0 + cp / 64) ∷ (0x80 + cp % 64) ∷ []
  unfolding encoded
  encoded-two h k =
      let first : (leb (2 ^ 31) cp || ltb cp 0x80) ≡ false = ground arith in
      let second : ltb cp 0x800 ≡ true = ground arith in rw (first, second)

  encoded-three :
      0x800 ≤ cp
      → cp < 0xffff
      → encoded cp ≡ (0xe0 + cp / 4096) ∷ (0x80 + cp / 64 % 128) ∷ (0x80 + cp % 64) ∷ []
  unfolding encoded
  encoded-three h k =
      let first : (leb (2 ^ 31) cp || ltb cp 0x80) ≡ false = ground arith in
      let second : ltb cp 0x800 ≡ false = ground arith in
      let third : ltb cp 0xffff ≡ true = ground arith in rw (first, second, third)

  encoded-four :
      0xffff ≤ cp
      → cp < 0x10ffff
      → encoded cp
        ≡ (0xf0 + cp / 2 ^ 18)
          ∷ (0x80 + cp / 4096 % 128)
          ∷ (0x80 + cp / 64 % 128)
          ∷ (0x80 + cp % 64)
          ∷ []
  unfolding encoded
  encoded-four h k =
      let first : (leb (2 ^ 31) cp || ltb cp 0x80) ≡ false = ground arith in
      let second : ltb cp 0x800 ≡ false = ground arith in
      let third : ltb cp 0xffff ≡ false = ground arith in rw (first, second, third)

  survives-two :
      0x80 ≤ cp → cp < 0x800 → (sequence_value (encoded cp) ≡ some cp) ↔ (survives cp ≡ true)
  unfolding sequence_value survives
  survives-two h k = rw (encoded-two h k) (unfold mask in ground arith)

  survives-three :
      0x800 ≤ cp → cp < 0xffff → (sequence_value (encoded cp) ≡ some cp) ↔ (survives cp ≡ true)
  unfolding survives
  survives-three h k =
      rw
        (
          encoded-three h k,
          three_value (cp / 4096) (cp / 64 % 128) (cp % 64) (omega arith) (omega arith)
              (omega arith),
        )
        (ground arith)

  survives-four :
      0xffff ≤ cp → cp < 0x10ffff → (sequence_value (encoded cp) ≡ some cp) ↔ (survives cp ≡ true)
  unfolding survives
  survives-four h k =
      rw
        (
          encoded-four h k,
          four_value (cp / 2 ^ 18) (cp / 4096 % 128) (cp / 64 % 128) (cp % 64) (omega arith)
              (omega arith) (omega arith) (omega arith),
        )
        (ground arith)

  survives_iff :
      {n : ℕ} → needed cp ≡ some n → (sequence_value (encoded cp) ≡ some cp) ↔ (survives cp ≡ true)
  unfolding needed
  survives_iff e = elim (Bool-cases (leb (2 ^ 31) cp || ltb cp 0x80)) [
    | inl a ↦ survives-one cp a
    | inr a ↦ elim (Bool-cases (ltb cp 0x800)) [
      | inl b ↦ survives-two (ground arith) (ground arith)
      | inr b ↦ elim (Bool-cases (ltb cp 0xffff)) [
        | inl d ↦ survives-three (ground arith) (ground arith)
        | inr d ↦ survives-four (ground arith) (ground arith)
      ]
    ]
  ]

  length-encoded : {n : ℕ} → needed cp ≡ some n → length (encoded cp) ≡ n
  unfolding needed encoded
  length-encoded e = ground arith

  encoded-IsBytes : {n : ℕ} → needed cp ≡ some n → All (λ b. b < 256) (encoded cp)
  unfolding needed encoded
  encoded-IsBytes e = ground arith

  pub survives-needed : survives cp ≡ true → (n : ℕ) × (needed cp ≡ some n)
  unfolding needed survives
  survives-needed h = (
    if leb (2 ^ 31) cp || ltb cp 0x80
        then 1
        else if ltb cp 0x800
        then 2
        else if ltb cp 0xffff
        then 3
        else 4,
    ground arith,
  )

-- The bytes that `put_cp` writes before the terminator, with `room` bytes to write to.
abbrev pub put_bytes : ℕ → ℕ → List ℕ
put_bytes room cp = let p = put_cp cp room in take p.sz p.bytes

needed-most : (cp n : ℕ) → needed cp ≡ some n → n ≤ 4
unfolding needed
needed-most cp n e = ground arith

put_bytes-encoded : (room cp : ℕ) → 4 < room → survives cp ≡ true → put_bytes room cp ≡ encoded cp
put_bytes-encoded room cp h e =
    let (n, f) = survives-needed cp e in
    let fits : ltb room (n + 1) ≡ false = ground (arith, h, needed-most cp n f) in
    let run : put_cp cp room ≡ record { done = true; bytes = encoded cp ++ 0 ∷ []; sz = n } =
      put_cp-encoded cp room ∙ rw (f, fits) refl in
    ap (λ p. take p.sz p.bytes) run
    ∙ ap (λ k. take k (encoded cp ++ 0 ∷ [])) (sym (length-encoded cp f))
    ∙ take-length_append (encoded cp) (0 ∷ [])

Decodes-encoded :
    (cps : List ℕ) → All (λ cp. survives cp ≡ true) cps → Decodes (map encoded cps) cps
Decodes-encoded [] h = tt
Decodes-encoded (cp ∷ cps) h =
    let (n, e) = survives-needed cp h.0 in
    (encoded-IsBytes cp e, (survives_iff cp e).1 h.0, Decodes-encoded cps h.1)

map-put_bytes :
    (room : ℕ) (cps : List ℕ)
    → 4 < room
    → All (λ cp. survives cp ≡ true) cps
    → map (put_bytes room) cps ≡ map encoded cps
map-put_bytes room [] h hs = refl
map-put_bytes room (cp ∷ cps) h (e, hs) =
    ap₂ (λ w ws. w ∷ ws) (put_bytes-encoded room cp h e) (map-put_bytes room cps h hs)

-- The bytes that `put_cp` writes for code points that survive (`survives`: all below 0x800, and of the
-- others those whose bytes the table of `init` accepts for them), each with room for four bytes and the
-- terminator, one after the other: on them `count` finds every code point and no error, counts the
-- occurrences of `c`, and reports a complete text.
pub count-put_cp :
    (states masks : Memory) (c room : ℕ) (cps : List ℕ)
    → 4 < room
    → All (λ cp. survives cp ≡ true) cps
    → count (tables states masks) (flatten (map (put_bytes room) cps)) c
      ≡ some (record {
        nr_ok = length cps;
        nr_error = 0;
        nr_count = occurrences c cps;
        verdict = complete;
      })
count-put_cp states masks c room cps h hs =
    ap (λ ws. count (tables states masks) (flatten ws) c) (map-put_bytes room cps h hs)
    ∙ count-Decodes states masks c (map encoded cps) cps (Decodes-encoded cps hs)

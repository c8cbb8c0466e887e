-- ===== src/Utf8/Totality.antt =====
-- `count` and `decode` never read outside the state table, and how far their counters go.
use Prim.Native.Nat.{bit_or}
use ewlibs.Base.{
  ℕ, ◌+◌, ◌*◌, ◌%◌, ◌^◌, ◌<◌, ◌≤◌, Bool-cases, ◌≡◌, refl, ◌∙◌, ap, some, List, [], ◌∷◌, ◌==◌,
  if◌then◌else◌, arith, length, inl, inr, ◌⊎◌,
}
use ewlibs.Base.Memory.{Memory}
use ewlibs.Utf8.Table.{s0, transition}
use ewlibs.Utf8.Codec.{
  Tables, count_loop, tally, count, decode_loop, decode, Counting, Counts, start, finish,
}
use ewlibs.Utf8.Advance.{tables, step-init, transition_range}
use ewlibs.Utf8.Counting.{IsBytes}

-- The counters after some bytes, against those before.
record Grows (n : ℕ) (k r : Counting) : Type 0 where
  sum : r.n_ok + r.n_error ≤ k.n_ok + k.n_error + n
  found : r.local_count + k.n_ok ≤ k.local_count + r.n_ok

tally-Grows : (c : ℕ) (rest : List ℕ) (k : Counting) (r : ℕ × ℕ) → Grows 1 k (tally c rest k r)
unfolding tally
tally-Grows c rest k r = ground arith

-- Where a byte follows, the state is one of the table's eight.
tally-proper :
    (c : ℕ) (rest : List ℕ) (k : Counting) (s u : ℕ)
    → s < 9
    → ((tally c rest k (s, u)).s < 8) ⊎ (rest ≡ [])
unfolding tally
tally-proper c [] k s u h = inr refl
tally-proper c (b ∷ rest) k s u h = inl (ground arith)

module _ (states masks : Memory) (c : ℕ) where
  abbrev t : Tables
  t = tables states masks

  count_loop_total :
      (buffer : List ℕ) (k : Counting)
      → IsBytes buffer
      → (k.s < 8) ⊎ (buffer ≡ [])
      → (r : Counting) × (count_loop t c buffer k ≡ some r) × Grows (length buffer) k r
  unfolding count_loop
  count_loop_total [] k bytes h = (k, refl, record { sum = omega arith; found = omega arith })
  count_loop_total (b ∷ rest) k bytes (inr e) = absurd (cc)
  count_loop_total (b ∷ rest) k bytes (inl h) =
      let run = step-init states masks b k.s k.unic h bytes.0 in
      let q : ℕ × ℕ = (transition k.s b, bit_or (k.unic * 64 % 2 ^ 32) (t.masks b)) in
      let g = tally-Grows c rest k q in
      let (r, e, g') =
        count_loop_total rest (tally c rest k q) bytes.1
          (tally-proper c rest k q.0 q.1 (transition_range k.s b)) in
      (
        r,
        rw run e,
        record { sum = omega (arith, g.sum, g'.sum); found = omega (arith, g.found, g'.found) },
      )

  -- On every buffer of bytes `count` returns: no read leaves the state table. The characters and
  -- the errors are together at most the bytes, and at most the characters are counted.
  pub count_total :
      (buffer : List ℕ)
      → IsBytes buffer
      → (r : Counts) × (count t buffer c ≡ some r)
        × (r.nr_ok + r.nr_error ≤ length buffer)
        × (r.nr_count ≤ r.nr_ok)
  unfolding count
  count_total buffer bytes =
      let (k, e, g) = count_loop_total buffer start bytes (inl (omega arith)) in
      (finish k, rw e refl, omega (arith, g.sum), omega (arith, g.found))

-- The bytes before the first zero.
abbrev pub c_length : List ℕ → ℕ
c_length [] = 0
c_length (b ∷ rest) = if b == 0 then 0 else c_length rest + 1

module _ (states masks : Memory) where
  decode_loop-c_length :
      (s : List ℕ) (cp state len : ℕ)
      → IsBytes s
      → state < 8
      → decode_loop (tables states masks) s cp state len ≡ some (len + c_length s)
  unfolding decode_loop
  decode_loop-c_length [] cp state len bytes h = ap some (omega arith)
  decode_loop-c_length (b ∷ rest) cp state len bytes h = elim (Bool-cases (b == 0)) [
    | inl e ↦ rw (e, decode_loop) (ap some (omega arith))
    | inr e ↦
        rw (e, decode_loop, step-init states masks b state cp h bytes.0)
          (decode_loop-c_length rest _ _ (len + 1) bytes.1
              (ground (arith, transition_range state b))
            ∙ ap some (omega arith))
  ]

  -- `decode` returns on every string of bytes, with the number of bytes before the first zero.
  pub decode-c_length :
      (s : List ℕ) → IsBytes s → decode (tables states masks) s ≡ some (c_length s)
  unfolding decode
  decode-c_length s bytes =
      decode_loop-c_length s 0 s0 0 bytes (omega arith) ∙ ap some (omega arith)

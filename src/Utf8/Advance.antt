-- ===== src/Utf8/Advance.antt =====
-- What `step` does on the bytes of an accepted sequence: six more bits, without a wrap and
-- whatever the tables held before `init`.
use Prim.Native.Nat.{bit_or}
use ewlibs.Base.{
  zero, suc, ℕ, ◌+◌, ◌*◌, ◌%◌, ◌^◌, ◌<◌, ◌≤◌, Bool-cases, ◌≡◌, ◌≢◌, refl, ◌∙◌, ap, ap₂, some, ◌||◌,
  leb, ◌==◌, if◌then◌else◌, arith, inl, inr,
}
use ewlibs.Base.Memory.{Memory}
use ewlibs.Base.Bits.{bit_or-shifted, zero-bit_or}
use ewlibs.Utf8.Table.{
  s0, s1, s3, s6, error, transition, mask, init_states-transition, init_masks-mask,
}
use ewlibs.Utf8.Codec.{Tables, init, step, read_state}

module _ (states masks : Memory) where
  abbrev pub tables : Tables
  tables = init states masks

  pub step-init :
      (b s cp : ℕ)
      → s < 8
      → b < 256
      → step tables b (s, cp) ≡ some (transition s b, bit_or (cp * 64 % 2 ^ 32) (tables.masks b))
  unfolding step read_state init
  step-init b s cp hs hb = rw (init_states-transition states s b hs hb) (ground arith)

-- A bound on the code point in each state, small enough that six more bits never wrap.
unfoldable pub room : ℕ → ℕ
room s =
    if s == s0
    then 1
    else if s == s1
    then 2 ^ 19
    else if leb s s3 || leb s6 s
    then 2 ^ 13
    else 2 ^ 7

room_large : (s : ℕ) → s ≢ s0 → 128 ≤ room s
unfolding room
room_large s h = ground arith

mask_first : (b : ℕ) → transition s0 b ≢ s0 → transition s0 b ≢ error → mask b < 64
unfolding transition mask
mask_first b n m = ground arith

-- The three shapes of a transition after the first byte: a continuation byte is needed, and the
-- bound grows by the six bits.
room_shape :
    (s b : ℕ)
    → s < 8
    → s ≢ s0
    → transition s b ≢ s0
    → transition s b ≢ error
    → (0x80 ≤ b) × (b ≤ 0xbf) × (room s * 64 ≤ room (transition s b))
room_shape zero b hs h n m = absurd (h refl)
room_shape (suc zero) b hs h n m = unfold transition in ground arith
room_shape (suc (suc zero)) b hs h n m = unfold transition room in ground arith
room_shape (suc (suc (suc zero))) b hs h n m = unfold transition room in ground arith
room_shape (suc (suc (suc (suc zero)))) b hs h n m = unfold transition room in ground arith
room_shape (suc (suc (suc (suc (suc zero))))) b hs h n m = unfold transition room in ground arith
room_shape (suc (suc (suc (suc (suc (suc zero)))))) b hs h n m =
    unfold transition room in ground arith
room_shape (suc (suc (suc (suc (suc (suc (suc zero))))))) b hs h n m =
    unfold transition room in ground arith
room_shape (suc (suc (suc (suc (suc (suc (suc (suc s)))))))) b hs h n m = absurd (omega arith)

mask-cont : (b : ℕ) → 0x80 ≤ b → b ≤ 0xbf → mask b < 64
unfolding mask
mask-cont b lo hi = ground arith

pub room_step :
    (s b cp : ℕ)
    → s < 8
    → cp < room s
    → transition s b ≢ s0
    → transition s b ≢ error
    → cp * 64 + mask b < room (transition s b)
room_step s b cp hs h n m = elim (Bool-cases (s == s0)) [
  | inl e ↦ let z : s ≡ s0 = ground arith in first z
  | inr e ↦
      let (lo, hi, grows) = room_shape s b hs (ground arith) n m in omega (arith, mask-cont b lo hi)
]
  where
    first : s ≡ s0 → cp * 64 + mask b < room (transition s b)
    first z =
        let n' : transition s0 b ≢ s0 = rw z at n in
        let m' : transition s0 b ≢ error = rw z at m in
        let h' : cp < 1 = unfold room in (rw z at h) in
        omega (arith, mask_first b n' m', room_large (transition s b) n)

-- What one accepted byte does: the code point keeps its bound, and a byte after the first has six
-- bits.
record Advance (s b cp : ℕ) : Type 0 where
  low : s ≢ s0 → mask b < 64
  first : s ≡ s0 → cp ≡ 0
  proper : b < 0xf8
  small : cp < 2 ^ 20

advance : (s b cp : ℕ) → s < 8 → cp < room s → transition s b ≢ error → Advance s b cp
unfolding transition room mask
advance s b cp hs h m = record {
  low = ground arith;
  first = ground arith;
  proper = ground arith;
  small = ground arith;
}

pub transition_range : (s b : ℕ) → transition s b < 9
unfolding transition
transition_range s b = ground arith

module _ (states masks : Memory) where
  -- On an accepted byte `step` takes the transition and appends the byte's bits, with no wrap and
  -- whatever the two tables held before `init`.
  pub step-accepted :
      (s b cp : ℕ)
      → s < 8
      → b < 256
      → cp < room s
      → transition s b ≢ error
      → step (tables states masks) b (s, cp) ≡ some (transition s b, cp * 64 + mask b)
  step-accepted s b cp hs hb h m =
      let a = advance s b cp hs h m in
      let fits : cp * 64 % 2 ^ 32 ≡ cp * 64 = omega (arith, a.small) in
      let masked : (tables states masks).masks b ≡ mask b =
        unfold init in init_masks-mask masks b a.proper in
      step-init states masks b s cp hs hb
      ∙ ap (λ x. some (transition s b, x)) (ap₂ bit_or fits masked ∙ join a)
    where
      join : Advance s b cp → bit_or (cp * 64) (mask b) ≡ cp * 64 + mask b
      join a = elim (Bool-cases (s == s0)) [
        | inl e ↦
            let z : cp ≡ 0 = a.first (ground arith) in rw (z) (zero-bit_or (mask b) ∙ omega arith)
        | inr n ↦ bit_or-shifted cp (mask b) (a.low (ground arith))
      ]

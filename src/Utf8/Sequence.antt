-- ===== src/Utf8/Sequence.antt =====
-- Which byte sequences the automaton of utf8.cpp accepts, and the code point that it computes.
use ewlibs.Base.{
  ℕ, ◌+◌, ◌*◌, ◌≡◌, refl, Bool, false, Option, none, some, List, [], ◌∷◌, ◌&&◌, ◌||◌, leb, ◌==◌,
  if◌then◌else◌, arith,
}
use ewlibs.Base.Memory.{in_range}
use ewlibs.Utf8.Table.{s0, s1, s2, s3, s4, s5, s6, s7, error, transition, mask}

abbrev pub cont : ℕ → Bool
cont b = in_range 0x80 0xbf b

-- The classes of a first byte that the automaton tells apart.
pub data Lead : Type 0 where
  ascii two three_low three three_surrogate four_low four four_high bad : Lead

unfoldable pub lead : ℕ → Lead
lead a =
    if leb a 0x7f
    then ascii
    else if in_range 0xc2 0xdf a
    then two
    else if a == 0xe0
    then three_low
    else if in_range 0xe1 0xec a || (a == 0xef)
    then three
    else if a == 0xed
    then three_surrogate
    else if a == 0xf0
    then four_low
    else if in_range 0xf1 0xf3 a
    then four
    else if a == 0xf4
    then four_high
    else bad

-- The bytes that may follow a first byte in an accepted sequence of two, three and four bytes.
-- After 0xf0 the automaton ends with the third byte, and 0xee is no first byte.
abbrev pub follows₁ : Lead → ℕ → Bool
follows₁ two b = cont b
follows₁ _ b = false

abbrev pub follows₂ : Lead → ℕ → ℕ → Bool
follows₂ three b c = cont b && cont c
follows₂ three_low b c = in_range 0xa0 0xbf b && cont c
follows₂ four_low b c = in_range 0xa0 0xbf b && cont c
follows₂ three_surrogate b c = in_range 0x80 0x9f b && cont c
follows₂ _ b c = false

abbrev pub follows₃ : Lead → ℕ → ℕ → ℕ → Bool
follows₃ four b c d = cont b && (cont c && cont d)
follows₃ four_high b c d = in_range 0x80 0x8f b && (in_range 0x80 0x9f c && cont d)
follows₃ _ b c d = false

-- The code point of an accepted sequence, six bits from each byte after the first.
unfoldable pub sequence_value : List ℕ → Option ℕ
unfolding lead
sequence_value [] = none
sequence_value (a ∷ []) = if leb a 0x7f then some a else none
sequence_value (a ∷ b ∷ []) = if follows₁ (lead a) b then some (mask a * 64 + mask b) else none
sequence_value (a ∷ b ∷ c ∷ []) =
    if follows₂ (lead a) b c then some ((mask a * 64 + mask b) * 64 + mask c) else none
sequence_value (a ∷ b ∷ c ∷ d ∷ []) =
    if follows₃ (lead a) b c d
    then some (((mask a * 64 + mask b) * 64 + mask c) * 64 + mask d)
    else none
sequence_value (a ∷ b ∷ c ∷ d ∷ e ∷ rest) = none

-- The automaton run on a whole sequence: its code point if the last byte, and no earlier one,
-- reaches the final state.
unfoldable pub accept : List ℕ → ℕ → ℕ → Option ℕ
accept [] s cp = none
accept (b ∷ []) s cp = if transition s b == s0 then some (cp * 64 + mask b) else none
accept (b ∷ c ∷ rest) s cp =
    if (transition s b == s0) || (transition s b == error)
    then none
    else accept (c ∷ rest) (transition s b) (cp * 64 + mask b)

state_of : Lead → ℕ
state_of ascii = s0
state_of two = s1
state_of three_low = s6
state_of three = s2
state_of three_surrogate = s3
state_of four_low = s7
state_of four = s4
state_of four_high = s5
state_of bad = error

transition-lead : (a : ℕ) → transition s0 a ≡ state_of (lead a)
unfolding transition lead state_of
transition-lead a = ground arith

-- What `accept` does once the first byte is read.
after : Lead → List ℕ → ℕ → Option ℕ
after k rest cp =
    if (state_of k == s0) || (state_of k == error) then none else accept rest (state_of k) cp

after-one :
    (k : Lead) (b cp : ℕ)
    → after k (b ∷ []) cp ≡ (if follows₁ k b then some (cp * 64 + mask b) else none)
unfolding after state_of accept transition
after-one ascii b cp = ground arith
after-one _ b cp = ground arith

after-two :
    (k : Lead) (b c cp : ℕ)
    → after k (b ∷ c ∷ []) cp
      ≡ (if follows₂ k b c then some ((cp * 64 + mask b) * 64 + mask c) else none)
unfolding after state_of accept transition
after-two ascii b c cp = ground arith
after-two _ b c cp = ground arith

after-three :
    (k : Lead) (b c d cp : ℕ)
    → after k (b ∷ c ∷ d ∷ []) cp
      ≡ (if follows₃ k b c d then some (((cp * 64 + mask b) * 64 + mask c) * 64 + mask d) else none)
unfolding after state_of accept transition
after-three ascii b c d cp = ground arith
after-three _ b c d cp = ground arith

after-more :
    (k : Lead) (b c d e : ℕ) (rest : List ℕ) (cp : ℕ) → after k (b ∷ c ∷ d ∷ e ∷ rest) cp ≡ none
unfolding after state_of accept transition
after-more ascii b c d e rest cp = ground arith
after-more _ b c d e rest cp = ground arith

zero_shift : (m : ℕ) → 0 * 64 + m ≡ m
zero_shift m = omega arith

-- The automaton accepts exactly the sequences that have a value, and computes it.
pub accept-sequence_value : (w : List ℕ) → accept w s0 0 ≡ sequence_value w
unfolding accept sequence_value
accept-sequence_value [] = refl
accept-sequence_value (a ∷ []) = unfold transition mask in ground arith
accept-sequence_value (a ∷ b ∷ []) =
    rw (transition-lead a, zero_shift (mask a)) (unfold after in after-one (lead a) b _)
accept-sequence_value (a ∷ b ∷ c ∷ []) =
    rw (transition-lead a, zero_shift (mask a)) (unfold after in after-two (lead a) b c _)
accept-sequence_value (a ∷ b ∷ c ∷ d ∷ []) =
    rw (transition-lead a, zero_shift (mask a)) (unfold after in after-three (lead a) b c d _)
accept-sequence_value (a ∷ b ∷ c ∷ d ∷ e ∷ rest) =
    rw (transition-lead a, zero_shift (mask a)) (unfold after in after-more (lead a) b c d e rest _)

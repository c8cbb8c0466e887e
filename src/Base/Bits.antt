-- ===== src/Base/Bits.antt =====
-- `bit_or` where the operands share no bit, and properties of a byte by evaluation.
use Prim.Native.Nat.{
  ℕ, zero, suc, ◌+◌, ◌*◌, ◌/◌, ◌%◌, ◌^◌, ◌≤◌, ◌<◌, max, bit_or, digits, bit_or-bitwise,
}
use mathlib.Core.Path.{◌≡◌, refl, ap, ap₂, ◌∙◌}
use mathlib.Core.Bool.{Bool, true, ◌&&◌}
use native.Mathlib.Omega.{arith}
use native.Mathlib.Nat.{pow-suc}

-- Over a small range, a test of every value.
unfoldable pub every_below : ℕ → (ℕ → Bool) → Bool
every_below zero test = true
every_below (suc top) test = test top && every_below top test

pub every_below_sound :
    (bound : ℕ) (test : ℕ → Bool) (value : ℕ)
    → value < bound
    → every_below bound test ≡ true
    → test value ≡ true
unfolding every_below
every_below_sound zero test value small all = absurd (omega arith)
every_below_sound (suc top) test value small all = ground (arith, every_below_sound top test value)

-- The law for the lowest digit.
abbrev or_digits : ℕ → ℕ → ℕ → ℕ
or_digits n a b = digits (λ b. b) max n a b

or_digits_fuel : (n m a b : ℕ) → a ≤ n → a ≤ m → or_digits n a b ≡ or_digits m a b
or_digits_fuel zero zero a b p q = refl
or_digits_fuel zero (suc m) zero b p q = refl
or_digits_fuel zero (suc m) (suc a) b p q = absurd (omega arith)
or_digits_fuel (suc n) zero zero b p q = refl
or_digits_fuel (suc n) zero (suc a) b p q = absurd (omega arith)
or_digits_fuel (suc n) (suc m) zero b p q = refl
or_digits_fuel (suc n) (suc m) (suc a) b p q =
    omega (arith, or_digits_fuel n m (suc a / 2) (b / 2) (omega arith) (omega arith))

pub zero-bit_or : (b : ℕ) → bit_or 0 b ≡ b
zero-bit_or b = bit_or-bitwise 0 b

bit_or_step : (a b : ℕ) → bit_or a b ≡ bit_or (a / 2) (b / 2) * 2 + max (a % 2) (b % 2)
bit_or_step zero b = omega (arith, zero-bit_or b, zero-bit_or (b / 2))
bit_or_step (suc a) b = omega (
  arith,
  bit_or-bitwise (suc a) b,
  bit_or-bitwise (suc a / 2) (b / 2),
  or_digits_fuel a (suc a / 2) (suc a / 2) (b / 2) (omega arith) (omega arith),
)

bit_or-zero_fuel : (n a : ℕ) → a ≤ n → bit_or a 0 ≡ a
bit_or-zero_fuel n zero h = refl
bit_or-zero_fuel zero (suc a) h = absurd (omega arith)
bit_or-zero_fuel (suc n) (suc a) h =
    omega (arith, bit_or_step (suc a) 0, bit_or-zero_fuel n (suc a / 2) (omega arith))

pub bit_or-zero : (a : ℕ) → bit_or a 0 ≡ a
bit_or-zero a = bit_or-zero_fuel a a (omega arith)

-- One digit of the second operand, under an even first operand.
bit_or_even : (a b r : ℕ) → bit_or a (b / 2) ≡ r → bit_or (a * 2) b ≡ r * 2 + b % 2
bit_or_even a b r h =
    bit_or_step (a * 2) b
    ∙ ap₂ (λ x y. bit_or x (b / 2) * 2 + y) (omega arith) (omega arith)
    ∙ ap (λ x. x * 2 + b % 2) h

-- Six bits below a number that is shifted by six.
pub bit_or-shifted : (c m : ℕ) → m < 64 → bit_or (c * 64) m ≡ c * 64 + m
bit_or-shifted c m h =
    ap (λ x. bit_or x m) (omega arith)
    ∙ bit_or_even (c * 2 * 2 * 2 * 2 * 2) m _ (
        bit_or_even (c * 2 * 2 * 2 * 2) (m / 2) _ (
          bit_or_even (c * 2 * 2 * 2) (m / 2 / 2) _ (
            bit_or_even (c * 2 * 2) (m / 2 / 2 / 2) _ (
              bit_or_even (c * 2) (m / 2 / 2 / 2 / 2) _ (
                bit_or_even c (m / 2 / 2 / 2 / 2 / 2) c
                  (ap (bit_or c) (omega arith) ∙ bit_or-zero c))))))
    ∙ omega arith

-- 0x80 in front of seven bits; the bits above the byte stay.
pub bit_or_0x80 : (y : ℕ) → bit_or 0x80 y ≡ y / 256 * 256 + 0x80 + y % 128
bit_or_0x80 y =
    bit_or_even 64 y _ (
      bit_or_even 32 (y / 2) _ (
        bit_or_even 16 (y / 2 / 2) _ (
          bit_or_even 8 (y / 2 / 2 / 2) _ (
            bit_or_even 4 (y / 2 / 2 / 2 / 2) _ (
              bit_or_even 2 (y / 2 / 2 / 2 / 2 / 2) _ (
                bit_or_even 1 (y / 2 / 2 / 2 / 2 / 2 / 2) (y / 256 * 2 + 1) (
                  bit_or_step 1 (y / 2 / 2 / 2 / 2 / 2 / 2 / 2)
                  ∙ omega (arith, zero-bit_or (y / 2 / 2 / 2 / 2 / 2 / 2 / 2 / 2)))))))))
    ∙ omega arith

-- A number of fewer than k bits below one that is shifted by k.
pub bit_or-below : (k a b : ℕ) → a < 2 ^ k → bit_or a (b * 2 ^ k) ≡ a + b * 2 ^ k
bit_or-below zero a b h = ap₂ bit_or (omega arith) (omega arith) ∙ zero-bit_or b ∙ omega arith
bit_or-below (suc k) a b h =
    let twice : 2 ^ suc k ≡ 2 * 2 ^ k = pow-suc 2 k ∙ omega arith in
    let even : b * 2 ^ suc k ≡ b * 2 ^ k * 2 = rw twice (grind arith) in
    let ih = bit_or-below k (a / 2) b (omega arith) in
    ap (bit_or a) even
    ∙ bit_or_step a (b * 2 ^ k * 2)
    ∙ ap₂ (λ x y. bit_or (a / 2) x * 2 + y) (omega arith) (omega arith)
    ∙ ap (λ x. x * 2 + a % 2) ih
    ∙ omega (arith, even)

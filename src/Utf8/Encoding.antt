-- ===== src/Utf8/Encoding.antt =====
-- `put_cp`: when it refuses, and the bytes that it writes, in plain arithmetic.
use Prim.Native.Nat.{bit_or}
use ewlibs.Base.{
  ltb, leb, ◌==◌, if◌then◌else◌, ==_iff, ℕ, ◌+◌, ◌/◌, ◌%◌, ◌^◌, ◌<◌, ◌≡◌, refl, true, false, ◌||◌,
  Option, none, some, List, [], ◌∷◌, ◌++◌, arith,
}
use ewlibs.Base.Bits.{every_below, every_below_sound, bit_or_0x80}
use ewlibs.Utf8.Codec.{put_cp, Put, to_u8}

-- A continuation byte as `put_cp` writes it: seven bits of the number stay, not six.
trail_byte : (y : ℕ) → to_u8 (bit_or 0x80 y) ≡ 0x80 + y % 128
trail_byte y = omega (arith, bit_or_0x80 y)

lead₁_table : every_below 32 (λ x. bit_or 0xc0 x == 0xc0 + x) ≡ true
unfolding every_below
lead₁_table = refl

lead₂_table : every_below 16 (λ x. bit_or 0xe0 x == 0xe0 + x) ≡ true
unfolding every_below
lead₂_table = refl

lead₃_table : every_below 8 (λ x. bit_or 0xf0 x == 0xf0 + x) ≡ true
unfolding every_below
lead₃_table = refl

lead₁_byte : (x : ℕ) → x < 32 → to_u8 (bit_or 0xc0 x) ≡ 0xc0 + x
lead₁_byte x h = omega (arith, (==_iff _ _).0 (every_below_sound 32 _ x h lead₁_table))

lead₂_byte : (x : ℕ) → x < 16 → to_u8 (bit_or 0xe0 x) ≡ 0xe0 + x
lead₂_byte x h = omega (arith, (==_iff _ _).0 (every_below_sound 16 _ x h lead₂_table))

lead₃_byte : (x : ℕ) → x < 8 → to_u8 (bit_or 0xf0 x) ≡ 0xf0 + x
lead₃_byte x h = omega (arith, (==_iff _ _).0 (every_below_sound 8 _ x h lead₃_table))

-- The bytes before the terminator, in plain arithmetic.
unfoldable pub encoded : ℕ → List ℕ
encoded cp =
    if leb (2 ^ 31) cp || ltb cp 0x80
    then (cp % 128) ∷ []
    else if ltb cp 0x800
    then (0xc0 + cp / 64) ∷ (0x80 + cp % 64) ∷ []
    else if ltb cp 0xffff
    then (0xe0 + cp / 4096) ∷ (0x80 + cp / 64 % 128) ∷ (0x80 + cp % 64) ∷ []
    else (0xf0 + cp / 2 ^ 18)
      ∷ (0x80 + cp / 4096 % 128)
      ∷ (0x80 + cp / 64 % 128)
      ∷ (0x80 + cp % 64)
      ∷ []

-- What `put_cp` asks for: the bytes and the terminator, and a code point below 0x10ffff or negative.
unfoldable pub needed : ℕ → Option ℕ
needed cp =
    if leb (2 ^ 31) cp || ltb cp 0x80
    then some 1
    else if ltb cp 0x800
    then some 2
    else if ltb cp 0xffff
    then some 3
    else if ltb cp 0x10ffff
    then some 4
    else none

abbrev pub put_of : ℕ → ℕ → Option ℕ → Put
put_of cp sz none = record { done = false; bytes = []; sz = sz }
put_of cp sz (some n) =
    if ltb sz (n + 1)
    then record { done = false; bytes = []; sz = sz }
    else record { done = true; bytes = encoded cp ++ 0 ∷ []; sz = n }

-- `put_cp` writes exactly the encoded bytes and a zero, and sets `*sz` to their number, if the room
-- holds them and the code point is in its range; else it changes nothing and says so.
pub put_cp-encoded : (cp sz : ℕ) → put_cp cp sz ≡ put_of cp sz (needed cp)
unfolding put_cp encoded needed
put_cp-encoded cp sz = ground (
  arith,
  lead₁_byte (cp / 64),
  lead₂_byte (cp / 4096),
  lead₃_byte (cp / 2 ^ 18),
  trail_byte (cp % 64),
  trail_byte (cp / 64),
  trail_byte (cp / 4096),
)

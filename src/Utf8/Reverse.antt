-- ===== src/Utf8/Reverse.antt =====
-- `rget_cp` reads backwards what the decoder reads forwards.
use Prim.Native.Nat.{bit_and, bit_or}
use ewlibs.Base.{
  leb, ◌==◌, if◌then◌else◌, ==_iff, some_inj, length, get_elem?, ℕ, ◌+◌, ◌*◌, ◌%◌, ◌^◌, ◌<◌, ◌≡◌,
  refl, sym, ap, ◌∙◌, ◌≢◌, Bool, true, false, not, none, some, List, [], ◌∷◌, arith,
}
use mathlib.Core.List.{reverse_aux}
use ewlibs.Base.Memory.{Memory}
use ewlibs.Base.Bits.{every_below, every_below_sound, bit_or-below, zero-bit_or}
use ewlibs.Utf8.Table.{mask, init_masks-mask}
use ewlibs.Utf8.Codec.{Tables, init}
use ewlibs.Utf8.Search.{rget_last, rget_loop, rget_cp}
use ewlibs.Utf8.Sequence.{
  sequence_value, lead, Lead, two, three, four, bad, follows₁, follows₂, follows₃, cont,
}
use ewlibs.Utf8.Advance.{tables}
use ewlibs.Utf8.Counting.{IsBytes}

eqb : Bool → Bool → Bool
eqb true b = b
eqb false b = not b

eqb_sound : (a b : Bool) → eqb a b ≡ true → a ≡ b
unfolding eqb
eqb_sound true b h = sym h
eqb_sound false true h = cc
eqb_sound false false h = refl

cont_table : every_below 256 (λ b. eqb (bit_and b 0xc0 == 0x80) (cont b)) ≡ true
unfolding every_below eqb
cont_table = refl

cont_test : (b : ℕ) → b < 256 → (bit_and b 0xc0 == 0x80) ≡ cont b
cont_test b h = eqb_sound _ _ (every_below_sound 256 _ b h cont_table)

low_table : every_below 256 (λ b. bit_and b 0x3f == b % 64) ≡ true
unfolding every_below
low_table = refl

low_bits : (b : ℕ) → b < 256 → bit_and b 0x3f ≡ b % 64
low_bits b h = (==_iff _ _).0 (every_below_sound 256 _ b h low_table)

mask-cont : (b : ℕ) → cont b ≡ true → mask b ≡ b % 64
unfolding mask
mask-cont b h = ground arith

first_byte : (a : ℕ) → lead a ≢ bad → (a < 0xf8) × (cont a ≡ false)
unfolding lead
first_byte a h = ground arith

follows₁_parts : (k : Lead) (b : ℕ) → follows₁ k b ≡ true → (k ≢ bad) × (cont b ≡ true)
follows₁_parts two b h = ground arith
follows₁_parts _ b h = ground arith

follows₂_parts :
    (k : Lead) (b c : ℕ) → follows₂ k b c ≡ true → (k ≢ bad) × (cont b ≡ true) × (cont c ≡ true)
follows₂_parts three b c h = ground arith
follows₂_parts _ b c h = ground arith

follows₃_parts :
    (k : Lead) (b c d : ℕ)
    → follows₃ k b c d ≡ true
    → (k ≢ bad) × (cont b ≡ true) × (cont c ≡ true) × (cont d ≡ true)
follows₃_parts four b c d h = ground arith
follows₃_parts _ b c d h = ground arith

guarded : (c : Bool) (x v : ℕ) → (if c then some x else none) ≡ some v → (c ≡ true) × (x ≡ v)
guarded true x v h = (refl, some_inj h)
guarded false x v h = cc

mask_small : (b : ℕ) → cont b ≡ true → mask b < 64
unfolding mask
mask_small b h = ground arith

-- The code point as the backward loop joins it, the last byte first.
join₁ : (a b : ℕ) → b < 64 → bit_or (bit_or 0 (b * 2 ^ 0)) (a * 2 ^ 6) ≡ a * 64 + b
join₁ a b h =
    ap (λ x. bit_or x (a * 2 ^ 6)) (zero-bit_or (b * 2 ^ 0) ∙ omega arith)
    ∙ bit_or-below 6 b a h
    ∙ omega arith

join₂ :
    (a b c : ℕ)
    → b < 64
    → c < 64
    → bit_or (bit_or (bit_or 0 (c * 2 ^ 0)) (b * 2 ^ 6)) (a * 2 ^ 12) ≡ (a * 64 + b) * 64 + c
join₂ a b c h k =
    ap (λ x. bit_or x (a * 2 ^ 12)) (join₁ b c k)
    ∙ bit_or-below 12 (b * 64 + c) a (omega arith)
    ∙ omega arith

join₃ :
    (a b c d : ℕ)
    → b < 64
    → c < 64
    → d < 64
    → bit_or (bit_or (bit_or (bit_or 0 (d * 2 ^ 0)) (c * 2 ^ 6)) (b * 2 ^ 12)) (a * 2 ^ 18)
      ≡ ((a * 64 + b) * 64 + c) * 64 + d
join₃ a b c d h k m =
    ap (λ x. bit_or x (a * 2 ^ 18)) (join₂ b c d k m)
    ∙ bit_or-below 18 ((b * 64 + c) * 64 + d) a (omega arith)
    ∙ omega arith

module _ (states masks : Memory) where
  abbrev t : Tables
  t = tables states masks

  -- A continuation byte with a byte before it.
  trail :
      (b c : ℕ) (rest : List ℕ) (i shift cp used : ℕ)
      → b < 256
      → cont b ≡ true
      → get_elem? (0 ∷ 6 ∷ 12 ∷ 18 ∷ []) i ≡ some shift
      → rget_loop t b (c ∷ rest) i cp used
        ≡ rget_loop t c rest (i + 1) (bit_or cp (mask b * 2 ^ shift)) (used + 1)
  trail b c rest i shift cp used h k e =
      let test : (bit_and b 0xc0 == 0x80) ≡ true = cont_test b h ∙ k in
      let bits : bit_and b 0x3f ≡ mask b = low_bits b h ∙ sym (mask-cont b k) in
      unfold rget_loop in rw (test, rget_loop, e, bits)

  -- A first byte ends the walk.
  head :
      (a : ℕ) (pre : List ℕ) (i shift cp used : ℕ)
      → a < 0xf8
      → cont a ≡ false
      → get_elem? (0 ∷ 6 ∷ 12 ∷ 18 ∷ []) i ≡ some shift
      → rget_loop t a pre i cp used ≡ some (bit_or cp (mask a * 2 ^ shift), used + 1)
  head a [] i shift cp used h k e =
      unfold rget_loop rget_last init in rw (e, init_masks-mask masks a h)
  head a (c ∷ pre) i shift cp used h k e =
      let test : (bit_and a 0xc0 == 0x80) ≡ false = cont_test a (omega arith) ∙ k in
      unfold rget_loop rget_last init in rw (test, rget_loop, e, init_masks-mask masks a h)

  -- Reading backwards from the end of an accepted sequence gives its code point and its length.
  pub rget_cp-sequence :
      (w pre : List ℕ) (v : ℕ)
      → IsBytes w
      → sequence_value w ≡ some v
      → rget_cp t (reverse_aux w pre) ≡ some (v, length w)
  unfolding rget_cp sequence_value
  rget_cp-sequence [] pre v bytes e = cc
  rget_cp-sequence (a ∷ []) pre v bytes e =
      let (low, same) = guarded (leb a 0x7f) a v e in
      let plain : mask a * 2 ^ 0 ≡ v = unfold mask in ground arith in
      head a pre 0 0 0 0 (ground arith) (ground arith) refl
      ∙ ap (λ x. some (x, 1)) (zero-bit_or (mask a * 2 ^ 0) ∙ plain)
  rget_cp-sequence (a ∷ b ∷ []) pre v bytes e =
      let (g, same) = guarded (follows₁ (lead a) b) _ v e in
      let (l, kb) = follows₁_parts (lead a) b g in
      let (low, out) = first_byte a l in
      trail b a pre 0 0 0 0 bytes.1.0 kb refl
      ∙ head a pre 1 6 _ 1 low out refl
      ∙ ap (λ x. some (x, 2)) (join₁ (mask a) (mask b) (mask_small b kb) ∙ same)
  rget_cp-sequence (a ∷ b ∷ c ∷ []) pre v bytes e =
      let (g, same) = guarded (follows₂ (lead a) b c) _ v e in
      let (l, kb, kc) = follows₂_parts (lead a) b c g in
      let (low, out) = first_byte a l in
      trail c b (a ∷ pre) 0 0 0 0 bytes.1.1.0 kc refl
      ∙ trail b a pre 1 6 _ 1 bytes.1.0 kb refl
      ∙ head a pre 2 12 _ 2 low out refl
      ∙ ap (λ x. some (x, 3))
          (join₂ (mask a) (mask b) (mask c) (mask_small b kb) (mask_small c kc) ∙ same)
  rget_cp-sequence (a ∷ b ∷ c ∷ d ∷ []) pre v bytes e =
      let (g, same) = guarded (follows₃ (lead a) b c d) _ v e in
      let (l, kb, kc, kd) = follows₃_parts (lead a) b c d g in
      let (low, out) = first_byte a l in
      trail d c (b ∷ a ∷ pre) 0 0 0 0 bytes.1.1.1.0 kd refl
      ∙ trail c b (a ∷ pre) 1 6 _ 1 bytes.1.1.0 kc refl
      ∙ trail b a pre 2 12 _ 2 bytes.1.0 kb refl
      ∙ head a pre 3 18 _ 3 low out refl
      ∙ ap (λ x. some (x, 4))
          (join₃ (mask a) (mask b) (mask c) (mask d) (mask_small b kb) (mask_small c kc)
              (mask_small d kd)
            ∙ same)
  rget_cp-sequence (a ∷ b ∷ c ∷ d ∷ f ∷ rest) pre v bytes e = cc

-- ===== src/Utf8/Table.antt =====
-- The tables of implementation/common/codecs/text/unicode/utf8/utf8.cpp as `init` builds them, and
-- the transition of the decoder in closed form.
use Prim.Native.Nat.{bit_and}
use ewlibs.Base.{
  ℕ, ◌+◌, ◌-◌, ◌*◌, ◌/◌, ◌%◌, ◌<◌, ◌≡◌, refl, ◌∙◌, ap₂, true, arith, ◌&&◌, ltb, leb, ◌==◌, ==_iff,
  if◌then◌else◌, suc,
}
use ewlibs.Base.Memory.{Memory, fill, fill-lookup, in_range}
use ewlibs.Base.Bits.{every_below, every_below_sound}

-- `enum state`; `F` and `S0` are one value, so `s0` is also the final state.
abbrev pub s0 : ℕ
s0 = 0

abbrev pub s1 : ℕ
s1 = 1

abbrev pub s2 : ℕ
s2 = 2

abbrev pub s3 : ℕ
s3 = 3

abbrev pub s4 : ℕ
s4 = 4

abbrev pub s5 : ℕ
s5 = 5

abbrev pub s6 : ℕ
s6 = 6

abbrev pub s7 : ℕ
s7 = 7

abbrev pub error : ℕ
error = 8

-- `for (i = lo; i <= hi; i++) STATE.set((256 * s) + i, v)`
abbrev set_states : ℕ → ℕ → ℕ → ℕ → Memory → Memory
set_states s lo hi v = fill (suc hi - lo) (256 * s + lo) (λ _. v)

-- The loops of `init` over `STATE`, in the order of the code.
unfoldable pub init_states : Memory → Memory
init_states m =
    let m = fill 2048 0 (λ _. error) m in
    let m = set_states s0 0x00 0x7f s0 m in
    let m = set_states s0 0xc2 0xdf s1 m in
    let m = set_states s0 0xe0 0xe0 s6 m in
    let m = set_states s0 0xe1 0xec s2 m in
    let m = set_states s0 0xed 0xed s3 m in
    let m = set_states s0 0xef 0xef s2 m in
    let m = set_states s0 0xf0 0xf3 s7 m in
    let m = set_states s0 0xf1 0xf3 s4 m in
    let m = set_states s0 0xf4 0xf4 s5 m in
    let m = set_states s1 0x80 0xbf s0 m in
    let m = set_states s2 0x80 0xbf s1 m in
    let m = set_states s3 0x80 0x9f s1 m in
    let m = set_states s4 0x80 0xbf s2 m in
    let m = set_states s5 0x80 0x8f s3 m in
    let m = set_states s6 0xa0 0xbf s1 m in set_states s7 0xa0 0xbf s1 m

-- `for (i = lo; i <= hi; i++) utf8_mask_slot_rw(i) = i & bits`
abbrev set_masks : ℕ → ℕ → ℕ → Memory → Memory
set_masks lo hi bits = fill (suc hi - lo) lo (λ i. bit_and i bits)

-- The loops of `init` over `utf8_mask_table`. Slots 0xf8 to 0xff keep what `new u8[256]` holds.
unfoldable pub init_masks : Memory → Memory
init_masks m =
    let m = set_masks 0 0x7f 0x7f m in
    let m = set_masks 0x80 0xbf 0x3f m in
    let m = set_masks 0xc0 0xdf 0x1f m in
    let m = set_masks 0xe0 0xef 0xf m in set_masks 0xf0 0xf7 0x7 m

-- The transition out of each state, as ranges of bytes.
abbrev pub from_start : ℕ → ℕ
from_start b =
    if leb b 0x7f
    then s0
    else if in_range 0xc2 0xdf b
    then s1
    else if b == 0xe0
    then s6
    else if in_range 0xe1 0xec b
    then s2
    else if b == 0xed
    then s3
    else if b == 0xef
    then s2
    else if b == 0xf0
    then s7
    else if in_range 0xf1 0xf3 b
    then s4
    else if b == 0xf4
    then s5
    else error

abbrev within : ℕ → ℕ → ℕ → ℕ → ℕ
within lo hi next b = if in_range lo hi b then next else error

-- What the loops of `init` write, a state and a byte at a time. The table in the comment of utf8.cpp is
-- another one: see Utf8/Documented.
unfoldable pub transition : ℕ → ℕ → ℕ
transition s b =
    if s == s0
    then from_start b
    else if s == s1
    then within 0x80 0xbf s0 b
    else if s == s2
    then within 0x80 0xbf s1 b
    else if s == s3
    then within 0x80 0x9f s1 b
    else if s == s4
    then within 0x80 0xbf s2 b
    else if s == s5
    then within 0x80 0x8f s3 b
    else if s == s6
    then within 0xa0 0xbf s1 b
    else if s == s7
    then within 0xa0 0xbf s1 b
    else error

over : ℕ → ℕ → ℕ → ℕ → ℕ → ℕ → ℕ
over s lo hi v j old =
    if leb (256 * s + lo) j && ltb j (256 * s + lo + (suc hi - lo)) then v else old

-- One slot of the table: the last loop that wrote it decides.
slot_of : Memory → ℕ → ℕ
unfolding over
slot_of m j =
    let v = if leb 0 j && ltb j (0 + 2048) then error else m j in
    let v = over s0 0x00 0x7f s0 j v in
    let v = over s0 0xc2 0xdf s1 j v in
    let v = over s0 0xe0 0xe0 s6 j v in
    let v = over s0 0xe1 0xec s2 j v in
    let v = over s0 0xed 0xed s3 j v in
    let v = over s0 0xef 0xef s2 j v in
    let v = over s0 0xf0 0xf3 s7 j v in
    let v = over s0 0xf1 0xf3 s4 j v in
    let v = over s0 0xf4 0xf4 s5 j v in
    let v = over s1 0x80 0xbf s0 j v in
    let v = over s2 0x80 0xbf s1 j v in
    let v = over s3 0x80 0x9f s1 j v in
    let v = over s4 0x80 0xbf s2 j v in
    let v = over s5 0x80 0x8f s3 j v in
    let v = over s6 0xa0 0xbf s1 j v in let v = over s7 0xa0 0xbf s1 j v in v

init_states-slot : (m : Memory) (j : ℕ) → init_states m j ≡ slot_of m j
unfolding init_states slot_of
init_states-slot m j = simp fill-lookup

slots_agree :
    (m : Memory) → every_below 2048 (λ j. slot_of m j == transition (j / 256) (j % 256)) ≡ true
unfolding every_below slot_of transition
slots_agree m = refl

-- The table that `init` builds holds the transition, whatever the memory held before.
pub init_states-transition :
    (m : Memory) (s b : ℕ) → s < 8 → b < 256 → init_states m (256 * s + b) ≡ transition s b
init_states-transition m s b hs hb =
    init_states-slot m (256 * s + b)
    ∙ (==_iff _ _).0 (every_below_sound 2048 _ (256 * s + b) (omega arith) (slots_agree m))
    ∙ ap₂ transition (omega arith) (omega arith)

-- The mask of each byte: what it adds to the code point.
unfoldable pub mask : ℕ → ℕ
mask b =
    if leb b 0x7f
    then b
    else if leb b 0xbf
    then b - 0x80
    else if leb b 0xdf
    then b - 0xc0
    else if leb b 0xef
    then b - 0xe0
    else b - 0xf0

over_mask : ℕ → ℕ → ℕ → ℕ → ℕ → ℕ
over_mask lo hi bits j old = if leb lo j && ltb j (lo + (suc hi - lo)) then bit_and j bits else old

mask_slot : Memory → ℕ → ℕ
unfolding over_mask
mask_slot m j =
    let v = over_mask 0 0x7f 0x7f j (m j) in
    let v = over_mask 0x80 0xbf 0x3f j v in
    let v = over_mask 0xc0 0xdf 0x1f j v in
    let v = over_mask 0xe0 0xef 0xf j v in over_mask 0xf0 0xf7 0x7 j v

init_masks-slot : (m : Memory) (j : ℕ) → init_masks m j ≡ mask_slot m j
unfolding init_masks mask_slot
init_masks-slot m j = simp fill-lookup

masks_agree : (m : Memory) → every_below 0xf8 (λ j. mask_slot m j == mask j) ≡ true
unfolding every_below mask_slot mask
masks_agree m = refl

-- Every slot below 0xf8 is written, whatever the memory held before.
pub init_masks-mask : (m : Memory) (b : ℕ) → b < 0xf8 → init_masks m b ≡ mask b
init_masks-mask m b h =
    init_masks-slot m b ∙ (==_iff _ _).0 (every_below_sound 0xf8 _ b h (masks_agree m))

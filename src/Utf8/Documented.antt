-- ===== src/Utf8/Documented.antt =====
-- The table of transitions in the comment at the top of
-- implementation/common/codecs/text/unicode/utf8/utf8.cpp, and the table that `init` builds.
use ewlibs.Base.{
  leb, ◌==◌, if◌then◌else◌, ==_iff, Bool-cases, ℕ, ◌+◌, ◌*◌, ◌/◌, ◌%◌, ◌<◌, ◌≡◌, refl, sym, ap₂,
  ◌∙◌, subst, ◌↔◌, inl, inr, Bool, true, false, not, ◌&&◌, ◌||◌, arith,
}
use ewlibs.Base.Memory.{Memory, in_range}
use ewlibs.Base.Bits.{every_below, every_below_sound}
use ewlibs.Utf8.Table.{
  s0, s1, s2, s3, s4, s5, s6, s7, error, init_states, transition, init_states-transition,
}

-- A row of the table that has one entry.
abbrev only : ℕ → ℕ → ℕ → ℕ → ℕ
only lo hi next b = if in_range lo hi b then next else error

-- The first row.
abbrev documented_start : ℕ → ℕ
documented_start b =
    if leb b 0x7f
    then s0
    else if in_range 0xc2 0xdf b
    then s1
    else if b == 0xe0
    then s6
    else if in_range 0xe1 0xec b
    then s2
    else if b == 0xed
    then s3
    else if b == 0xef
    then s2
    else if b == 0xf0
    then s4
    else if in_range 0xf1 0xf3 b
    then s7
    else if b == 0xf4
    then s5
    else error

-- The table of the comment; an empty entry is an error.
unfoldable pub documented : ℕ → ℕ → ℕ
documented s b =
    if s == s0
    then documented_start b
    else if s == s1
    then only 0x80 0xbf s0 b
    else if s == s2
    then only 0x80 0xbf s1 b
    else if s == s3
    then only 0x80 0x9f s1 b
    else if s == s4
    then only 0x90 0xbf s2 b
    else if s == s5
    then only 0x80 0x8f s3 b
    else if s == s6
    then only 0xa0 0xbf s1 b
    else if s == s7
    then only 0x90 0x9f s2 b
    else error

-- The entries in which the two differ.
unfoldable pub diverges : ℕ → ℕ → Bool
diverges s b =
    ((s == s0) && in_range 0xf0 0xf3 b)
    || ((s == s4) && in_range 0x80 0x8f b)
    || ((s == s7) && in_range 0x90 0xbf b)

-- That a state and a byte have the same entry, and that they are none of the entries that differ.
abbrev agrees : ℕ → ℕ → Bool
agrees s b = transition s b == documented s b

abbrev settled : ℕ → ℕ → Bool
settled s b = if agrees s b then not (diverges s b) else diverges s b

entries_settled : every_below 2048 (λ j. settled (j / 256) (j % 256)) ≡ true
unfolding every_below transition documented diverges
entries_settled = refl

settled_iff :
    (s b : ℕ) → settled s b ≡ true → (transition s b ≡ documented s b) ↔ (diverges s b ≡ false)
settled_iff s b h = elim (Bool-cases (agrees s b)) [
  | inl e ↦ ((λ q. ground (arith, h, e)), (λ q. (==_iff _ _).0 e))
  | inr e ↦ ((λ q. absurd (ground (arith, e, q))), (λ q. absurd (ground (arith, h, e, q))))
]

-- The table that `init` builds, whatever the memory held before, has the entry of the comment's table at
-- every state and byte but these: the first bytes F0 to F3, the bytes 80 to 8F in state S4, and the bytes
-- 90 to BF in state S7; there it has another.
pub init_states-documented :
    (m : Memory) (s b : ℕ)
    → s < 8
    → b < 256
    → (init_states m (256 * s + b) ≡ documented s b) ↔ (diverges s b ≡ false)
init_states-documented m s b hs hb =
    let run = init_states-transition m s b hs hb in
    let same : settled s b ≡ true =
      ap₂ settled (omega arith) (omega arith)
      ∙ every_below_sound 2048 _ (256 * s + b) (omega arith) entries_settled in
    subst (λ v. (v ≡ documented s b) ↔ (diverges s b ≡ false)) (sym run) (settled_iff s b same)

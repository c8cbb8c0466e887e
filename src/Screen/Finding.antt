-- ===== src/Screen/Finding.antt =====
-- `screen_get_line_by_offset` as a search for the first cell in use with an offset.
use ewlibs.Base.{
  ltb, ◌==◌, if◌then◌else◌, ==_iff, Bool-cases, ◌>>=◌, get_elem?, get_elem?-some, ℕ, zero, suc, ◌+◌,
  ◌^◌, ◌≤◌, ◌<◌, ◌≡◌, refl, sym, ap, ◌∙◌, ◌≢◌, inl, inr, true, false, Option, none, some, List,
  arith,
}
use ewlibs.Screen.{ScreenLine}
use ewlibs.Screen.Grid.{Screen}
use ewlibs.Screen.Lookup.{
  offset_line, offset_lines, screen_contains_offset, screen_get_line_by_offset,
}
use ewlibs.Screen.Bounds.{FitsLine, Fits}
use ewlibs.Screen.Scanning.{First, absent, found, offset_at, Filled, offset_line-First}

-- The offset of a cell in use.
abbrev pub used_offset : {F : Type 0} → List (ScreenLine F) → ℕ → ℕ → Option ℕ
used_offset lines i j = get_elem? lines i >>= λ l.
    if ltb j l.line_used then (get_elem? l.cpinfo_array j >>= λ cpi. some cpi.offset) else none

-- No cell in use from line `first` to below line `bound` has the offset, or the result is the first
-- that has it, line by line.
pub data Located {F : Type 0} (lines : List (ScreenLine F)) (offset first bound : ℕ)
    : Option (ℕ × ℕ) → Type 0 where
  nowhere :
      ((i j : ℕ) → first ≤ i → i < bound → used_offset lines i j ≢ some offset)
      → Located lines offset first bound none
  located :
      (i j : ℕ)
      → first ≤ i
      → i < bound
      → used_offset lines i j ≡ some offset
      → ((j' : ℕ) → j' < j → used_offset lines i j' ≢ some offset)
      → ((i' j' : ℕ) → first ≤ i' → i' < i → used_offset lines i' j' ≢ some offset)
      → Located lines offset first bound (some (i, j))

module _ {F : Type 0} (lines : List (ScreenLine F)) (offset first bound : ℕ) (l : ScreenLine F)
    (here : get_elem? lines first ≡ some l) where
  Located-here :
      (k : ℕ)
      → first < bound
      → used_offset lines first k ≡ some offset
      → ((j : ℕ) → j < k → used_offset lines first j ≢ some offset)
      → Located lines offset first bound (some (first, k))
  Located-here k lt e before =
      located first k (omega arith) lt e before (λ i j p q. absurd (omega arith))

  skip_line :
      ((j : ℕ) → used_offset lines first j ≢ some offset)
      → (i j : ℕ) → first ≤ i
      → (first < i → used_offset lines i j ≢ some offset)
      → used_offset lines i j ≢ some offset
  skip_line n i j p rest e = elim (Bool-cases (i == first)) [
    | inl q ↦ n j (ap (λ i. used_offset lines i j) (sym ((==_iff _ _).0 q)) ∙ e)
    | inr q ↦ rest (ground arith) e
  ]

  Located-later :
      (r : Option (ℕ × ℕ))
      → ((j : ℕ) → used_offset lines first j ≢ some offset)
      → Located lines offset (first + 1) bound r
      → Located lines offset first bound r
  Located-later none n (nowhere rest) =
      nowhere (λ i j p q. skip_line n i j p (λ lt. rest i j (omega arith) q))
  Located-later (some _) n (located i j p q e before above) =
      located i j (omega arith) q e before
        (λ i' j' a b. skip_line n i' j' a (λ lt. above i' j' (omega arith) b))

module _ {F : Type 0} (columns : ℕ) (narrow : columns < 2 ^ 31) (lines : List (ScreenLine F))
    (offset bound : ℕ)
    (good : (i : ℕ)
      → i < bound
      → (l : ScreenLine F) × (get_elem? lines i ≡ some l) × FitsLine columns l × Filled l) where
  -- One turn of the outer loop, after the inner one.
  one_line :
      (n line : ℕ) (l : ScreenLine F) (fits : FitsLine columns l) (rest : Option (ℕ × ℕ))
      (r : Option ℕ)
      → line < bound
      → get_elem? lines line ≡ some l
      → offset_lines lines offset n (line + 1) ≡ some rest
      → Located lines offset (line + 1) bound rest
      → offset_line l offset ≡ some r
      → First (offset_at columns narrow l fits) offset 0 l.line_used r
      → (r' : Option (ℕ × ℕ)) × (offset_lines lines offset (suc n) line ≡ some r')
        × Located lines offset line bound r'
  unfolding offset_lines
  one_line n line l fits rest none lt here run later scan (absent none_there) = (
    rest,
    rw (here, scan, run),
    Located-later lines offset line bound l here rest
        (λ j h. none_there j (omega arith) (ground (arith, here)) (ground (arith, here))) later,
  )
  one_line n line l fits rest (some _) lt here run later scan (found k p q e before) = (
    some (line, k),
    rw (here, scan),
    Located-here lines offset line bound l here k lt (ground (arith, here, q, e))
        (λ j a h. before j (omega arith) a (ground (arith, here))),
  )

  offset_lines-Located :
      (n line : ℕ)
      → line + n ≡ bound
      → (r : Option (ℕ × ℕ)) × (offset_lines lines offset n line ≡ some r)
        × Located lines offset line bound r
  unfolding offset_lines
  offset_lines-Located zero line h = (none, refl, nowhere (λ i j p q e. absurd (omega arith)))
  offset_lines-Located (suc n) line h =
      let (l, here, fits, full) = good line (omega arith) in
      let (rest, run, later) = offset_lines-Located n (line + 1) (omega arith) in
      let (r, scan, first) = offset_line-First columns narrow l offset fits full in
      one_line n line l fits rest r (omega arith) here run later scan first

-- Every line that the screen uses is filled.
abbrev pub FilledLines : {F : Type 0} → Screen F → Type 0
FilledLines {F} scr =
    (i : ℕ) (l : ScreenLine F) → i < scr.used_l → get_elem? scr.line_array i ≡ some l → Filled l

good_lines :
    {F : Type 0} (scr : Screen F)
    → Fits scr
    → FilledLines scr
    → (i : ℕ) → i < scr.used_l
    → (l : ScreenLine F) × (get_elem? scr.line_array i ≡ some l) × FitsLine scr.max_c l × Filled l
good_lines scr w full i lt =
    let (l, here) = get_elem?-some scr.line_array i (omega (arith, w.lines, w.used)) in
    (l, here, w.each i l here, full i l lt here)

-- On a screen within its limits that shows its first and its last cell, with filled lines, the search
-- for an offset between theirs gives the first cell in use that has it, line by line, or says that
-- there is none.
pub screen_get_line_by_offset-Located :
    {F : Type 0} (scr : Screen F) (offset : ℕ)
    → Fits scr
    → FilledLines scr
    → scr.first_cpinfo.used ≡ true
    → scr.last_cpinfo.used ≡ true
    → scr.first_cpinfo.offset ≤ offset
    → offset ≤ scr.last_cpinfo.offset
    → (r : Option (ℕ × ℕ)) × (screen_get_line_by_offset scr offset ≡ some r)
      × Located scr.line_array offset 0 scr.used_l r
unfolding screen_get_line_by_offset screen_contains_offset
screen_get_line_by_offset-Located scr offset w full uf ul low high =
    let (r, run, place) =
      offset_lines-Located scr.max_c w.narrow scr.line_array offset scr.used_l
        (good_lines scr w full) scr.used_l 0 (omega arith) in
    let below : ltb scr.last_cpinfo.offset offset ≡ false = ground arith in
    let above : ltb offset scr.first_cpinfo.offset ≡ false = ground arith in
    (r, rw (uf, ul, below, above) run, place)

-- ===== src/Screen/Scanning.antt =====
-- The first place of a range at which a number stands, and the inner loop of
-- `screen_get_line_by_offset` as a search for it.
use ewlibs.Base.{
  ltb, ◌==◌, ==_iff, Bool-cases, ◌>>=◌, get_elem?, get_elem?-some, ℕ, zero, suc, ◌+◌, ◌-◌, ◌%◌, ◌^◌,
  ◌≤◌, ◌<◌, ◌≡◌, refl, sym, ap, ◌∙◌, ◌≢◌, inl, inr, true, false, Option, none, some, arith,
}
use ewlibs.Screen.{
  CodepointInfo, screen_line_get_last_cpinfo, ScreenLine, no_column_fix, screen_line_get_cpinfo,
}
use ewlibs.Screen.Lookup.{offset_columns, offset_line}
use ewlibs.Screen.Bounds.{FitsLine}

-- No place from `first` to below `bound` has the value, or the result is the first that has it.
pub data First (at : ℕ → Option ℕ) (value first bound : ℕ) : Option ℕ → Type 0 where
  absent : ((j : ℕ) → first ≤ j → j < bound → at j ≢ some value) → First at value first bound none
  found :
      (k : ℕ)
      → first ≤ k
      → k < bound
      → at k ≡ some value
      → ((j : ℕ) → first ≤ j → j < k → at j ≢ some value)
      → First at value first bound (some k)

module _ (at : ℕ → Option ℕ) (value first bound : ℕ) where
  First-here : first < bound → at first ≡ some value → First at value first bound (some first)
  First-here lt e = found first (omega arith) lt e (λ j p q. absurd (omega arith))

  skip :
      at first ≢ some value
      → (j : ℕ) → first ≤ j
      → ((first < j) → at j ≢ some value)
      → at j ≢ some value
  skip n j p rest e = elim (Bool-cases (j == first)) [
    | inl q ↦ n (ap at (sym ((==_iff _ _).0 q)) ∙ e)
    | inr q ↦ rest (ground arith) e
  ]

  First-later :
      (r : Option ℕ)
      → at first ≢ some value
      → First at value (first + 1) bound r
      → First at value first bound r
  First-later none n (absent none_there) =
      absent (λ j p q. skip n j p (λ lt. none_there j (omega arith) q))
  First-later (some _) n (found k p q e before) =
      found k (omega arith) q e (λ j a b. skip n j a (λ lt. before j (omega arith) b))

module _ {F : Type 0} (columns : ℕ) (narrow : columns < 2 ^ 31) (l : ScreenLine F)
    (fits : FitsLine columns l) where
  abbrev pub offset_at : ℕ → Option ℕ
  offset_at j = get_elem? l.cpinfo_array j >>= λ cpi. some cpi.offset

  cpinfo_run :
      (column : ℕ) → column < columns → screen_line_get_cpinfo l column no_column_fix ≡ some column
  cpinfo_run column h = ground (arith, fits.cells)

  -- The inner loop finds the first column of its range that has the offset.
  pub offset_columns-First :
      (offset n column bound : ℕ)
      → column + n ≡ bound
      → bound ≤ columns
      → (r : Option ℕ) × (offset_columns l offset n column ≡ some r)
        × First offset_at offset column bound r
  unfolding offset_columns
  offset_columns-First offset zero column bound h hb =
      (none, refl, absent (λ j p q e. absurd (omega arith)))
  offset_columns-First offset (suc n) column bound h hb =
      let (cpi, here) = get_elem?-some l.cpinfo_array column (omega (arith, fits.cells)) in
      let run = cpinfo_run column (omega arith) in
      let (r, rest, first) = offset_columns-First offset n (column + 1) bound (omega arith) hb in
      elim (Bool-cases (cpi.offset == offset)) [
        | inl e ↦ (
          some column,
          rw (run, here, e),
          First-here offset_at offset column bound (omega arith)
              (rw here (ap some ((==_iff _ _).0 e))),
        )
        | inr e ↦ (
          r,
          rw (run, here, e, rest),
          First-later offset_at offset column bound r (λ q. ground (arith, here)) first,
        )
      ]

-- The line uses a column, and no cell in use is further in the buffer than the last one.
pub record Filled {F : Type 0} (l : ScreenLine F) : Type 0 where
  pub some_used : 0 < l.line_used
  pub last_highest :
      (j : ℕ) (cpi last : CodepointInfo F)
      → j < l.line_used
      → get_elem? l.cpinfo_array j ≡ some cpi
      → get_elem? l.cpinfo_array (l.line_used - 1) ≡ some last
      → cpi.offset ≤ last.offset

module _ {F : Type 0} (columns : ℕ) (narrow : columns < 2 ^ 31) where
  last_run :
      (l : ScreenLine F)
      → FitsLine columns l
      → Filled l
      → screen_line_get_last_cpinfo l ≡ l.line_used - 1
  last_run l fits full = ground (arith, fits.used, full.some_used)

  -- The two ways through `offset_line`.
  module _ (l : ScreenLine F) (fits : FitsLine columns l) (full : Filled l) (last : CodepointInfo F)
      (here : get_elem? l.cpinfo_array (l.line_used - 1) ≡ some last) (offset : ℕ) where
    too_low : ltb last.offset offset ≡ true → offset_line l offset ≡ some none
    too_low e = rw (last_run l fits full, here, e)

    scanned :
        (r : Option ℕ)
        → ltb last.offset offset ≡ false
        → offset_columns l offset l.line_used 0 ≡ some r
        → offset_line l offset ≡ some r
    scanned r e scan =
        let count : (l.line_used - 1 + 1) % 2 ^ 64 ≡ l.line_used =
          omega (arith, narrow, fits.used, full.some_used) in
        rw (last_run l fits full, here, e, count, scan)

    too_low-absent :
        ltb last.offset offset ≡ true
        → First (offset_at columns narrow l fits) offset 0 l.line_used none
    too_low-absent e = absent (λ j p q h.
        let (cpi, this) = get_elem?-some l.cpinfo_array j (omega (arith, fits.cells, fits.used)) in
        let low = full.last_highest j cpi last q this here in ground (arith, this))

  -- The search in one line finds the first column in use that has the offset.
  pub offset_line-First :
      (l : ScreenLine F) (offset : ℕ) (fits : FitsLine columns l)
      → Filled l
      → (r : Option ℕ) × (offset_line l offset ≡ some r)
        × First (offset_at columns narrow l fits) offset 0 l.line_used r
  offset_line-First l offset fits full =
      let (last, here) =
        get_elem?-some l.cpinfo_array (l.line_used - 1)
          (omega (arith, fits.cells, fits.used, full.some_used)) in
      let (r, scan, first) =
        offset_columns-First columns narrow l fits offset l.line_used 0 l.line_used (omega arith)
          fits.used in
      elim (Bool-cases (ltb last.offset offset)) [
        | inl e ↦ (
          none,
          too_low l fits full last here offset e,
          too_low-absent l fits full last here offset e,
        )
        | inr e ↦ (r, scanned l fits full last here offset r e scan, first)
      ]

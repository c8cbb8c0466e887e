-- ===== src/Screen/Pointing.antt =====
-- `screen_get_codepoint_by_coords` as a search for the cell under a point.
use ewlibs.Base.{
  ◌==◌, ==_iff, Bool-cases, ◌>>=◌, get_elem?, get_elem?-some, ℕ, zero, suc, ◌+◌, ◌%◌, ◌^◌, ◌≤◌, ◌<◌,
  ◌≡◌, refl, ap, ◌∙◌, inl, inr, Bool, true, false, Option, none, some, List, arith,
}
use ewlibs.Screen.{
  screen_line_get_last_cpinfo, Floats, CodepointInfo, ScreenLine, no_column_fix,
  screen_line_get_cpinfo,
}
use ewlibs.Screen.Grid.{Screen}
use ewlibs.Screen.Lookup.{on_line, coords_columns, coords_lines, screen_get_codepoint_by_coords}
use ewlibs.Screen.Bounds.{FitsLine, Fits}

-- The last of the first `bound` places at which a test holds, or that there is none.
pub data Last (test : ℕ → Option Bool) (bound : ℕ) : Option ℕ → Type 0 where
  no_place : ((j : ℕ) → j < bound → test j ≡ some false) → Last test bound none
  last_place :
      (k : ℕ)
      → k < bound
      → test k ≡ some true
      → ((j : ℕ) → k < j → j < bound → test j ≡ some false)
      → Last test bound (some k)

module _ (test : ℕ → Option Bool) (n : ℕ) where
  skip_top :
      test n ≡ some false
      → (j : ℕ) → j < suc n
      → (j < n → test j ≡ some false)
      → test j ≡ some false
  skip_top e j lt rest = elim (Bool-cases (j == n)) [
    | inl q ↦ ap test ((==_iff _ _).0 q) ∙ e
    | inr q ↦ rest (ground arith)
  ]

  Last-below : (r : Option ℕ) → test n ≡ some false → Last test n r → Last test (suc n) r
  Last-below none e (no_place rest) = no_place (λ j lt. skip_top e j lt (rest j))
  Last-below (some _) e (last_place k p q above) =
      last_place k (omega arith) q (λ j a lt. skip_top e j lt (above j a))

module _ {F : Type 0} (f : Floats F) where
  -- The point is not left of the cell; the point is above the line.
  abbrev pub reaches : ScreenLine F → ℕ → ℕ → Option Bool
  reaches l x j = get_elem? l.cpinfo_array j >>= λ cpi. some (f.at_least x cpi.x)

  abbrev pub is_past : List (ScreenLine F) → ℕ → ℕ → Option Bool
  is_past lines y i =
      get_elem? lines i >>= λ l. get_elem? l.cpinfo_array 0 >>= λ cpi. some (f.above y cpi.y)

  module _ (columns : ℕ) (narrow : columns < 2 ^ 31) where
    coords_columns-Last :
        (l : ScreenLine F) (x n : ℕ)
        → FitsLine columns l
        → n ≤ columns
        → (r : Option ℕ) × (coords_columns f l x n ≡ some r) × Last (reaches l x) n r
    unfolding coords_columns
    coords_columns-Last l x zero fits h = (none, refl, no_place (λ j lt. absurd (omega arith)))
    coords_columns-Last l x (suc n) fits h =
        let (cpi, here) = get_elem?-some l.cpinfo_array n (omega (arith, fits.cells)) in
        let run : screen_line_get_cpinfo l n no_column_fix ≡ some n = ground (arith, fits.cells) in
        let (r, rest, last) = coords_columns-Last l x n fits (omega arith) in
        elim (Bool-cases (f.at_least x cpi.x)) [
          | inl e ↦ (
            some n,
            rw (run, here, e),
            last_place n (omega arith) (rw (here, e)) (λ j a b. absurd (omega arith)),
          )
          | inr e ↦ (r, rw (run, here, e, rest), Last-below (reaches l x) n r (rw (here, e)) last)
        ]

    -- The first line that the point is not past decides: the result is its last column in use that
    -- is not right of the point.
    pub data Pointed (lines : List (ScreenLine F)) (x y first bound : ℕ)
        : Option (ℕ × ℕ) → Type 0 where
      past_all :
          ((i : ℕ) → first ≤ i → i < bound → is_past lines y i ≡ some true)
          → Pointed lines x y first bound none
      left_of :
          (i : ℕ) (l : ScreenLine F)
          → first ≤ i
          → i < bound
          → ((i' : ℕ) → first ≤ i' → i' < i → is_past lines y i' ≡ some true)
          → is_past lines y i ≡ some false
          → get_elem? lines i ≡ some l
          → Last (reaches l x) l.line_used none
          → Pointed lines x y first bound none
      hit :
          (i j : ℕ) (l : ScreenLine F)
          → first ≤ i
          → i < bound
          → ((i' : ℕ) → first ≤ i' → i' < i → is_past lines y i' ≡ some true)
          → is_past lines y i ≡ some false
          → get_elem? lines i ≡ some l
          → Last (reaches l x) l.line_used (some j)
          → Pointed lines x y first bound (some (i, j))

  module _ (columns : ℕ) (narrow : columns < 2 ^ 31) (lines : List (ScreenLine F)) (x y : ℕ) where
    skip_past :
        (first : ℕ)
        → is_past lines y first ≡ some true
        → (i : ℕ) → first ≤ i
        → (first < i → is_past lines y i ≡ some true)
        → is_past lines y i ≡ some true
    skip_past first e i le rest = elim (Bool-cases (i == first)) [
      | inl q ↦ ap (is_past lines y) ((==_iff _ _).0 q) ∙ e
      | inr q ↦ rest (ground arith)
    ]

    Pointed-later :
        (first bound : ℕ) (r : Option (ℕ × ℕ))
        → is_past lines y first ≡ some true
        → Pointed columns narrow lines x y (first + 1) bound r
        → Pointed columns narrow lines x y first bound r
    Pointed-later first bound none e (past_all rest) =
        past_all (λ i le lt. skip_past first e i le (λ a. rest i (omega arith) lt))
    Pointed-later first bound none e (left_of i l le lt above here at last) =
        left_of i l (omega arith) lt
          (λ i' a b. skip_past first e i' a (λ c. above i' (omega arith) b)) here at last
    Pointed-later first bound (some _) e (hit i j l le lt above here at last) =
        hit i j l (omega arith) lt
          (λ i' a b. skip_past first e i' a (λ c. above i' (omega arith) b)) here at last

    Pointed-here :
        (first bound : ℕ) (l : ScreenLine F) (r : Option ℕ)
        → first < bound
        → is_past lines y first ≡ some false
        → get_elem? lines first ≡ some l
        → Last (reaches l x) l.line_used r
        → Pointed columns narrow lines x y first bound (on_line first r)
    Pointed-here first bound l none lt e at last =
        left_of first l (omega arith) lt (λ i a b. absurd (omega arith)) e at last
    Pointed-here first bound l (some j) lt e at last =
        hit first j l (omega arith) lt (λ i a b. absurd (omega arith)) e at last

    coords_run :
        (l : ScreenLine F)
        → FitsLine columns l
        → (screen_line_get_last_cpinfo l + 1) % 2 ^ 32 ≡ l.line_used
    coords_run l fits = ground (arith, fits.used)

    last_cell :
        (l : ScreenLine F)
        → FitsLine columns l
        → 0 < l.line_used
        → (cpi : CodepointInfo F) × (get_elem? l.cpinfo_array (screen_line_get_last_cpinfo l)
            ≡ some cpi)
    last_cell l fits pos =
        get_elem?-some l.cpinfo_array (screen_line_get_last_cpinfo l)
          (ground (arith, fits.used, fits.cells, pos))

    decided :
        (n line : ℕ) (l : ScreenLine F) (cpi : CodepointInfo F) (r : Option ℕ)
        → FitsLine columns l
        → 0 < l.line_used
        → get_elem? lines line ≡ some l
        → get_elem? l.cpinfo_array 0 ≡ some cpi
        → f.above y cpi.y ≡ false
        → coords_columns f l x l.line_used ≡ some r
        → coords_lines f lines x y (suc n) line ≡ some (on_line line r)
    unfolding coords_lines
    decided n line l cpi r fits pos here this e scan =
        let (last_cpi, last) = last_cell l fits pos in
        rw (here, this, e, last, coords_run l fits, scan)

    coords_lines-Pointed :
        (bound n line : ℕ)
        → 0 < columns
        → ((i : ℕ)
            → i < bound
            → (l : ScreenLine F) × (get_elem? lines i ≡ some l)
              × FitsLine columns l
              × (0 < l.line_used))
        → line + n ≡ bound
        → (r : Option (ℕ × ℕ)) × (coords_lines f lines x y n line ≡ some r)
          × Pointed columns narrow lines x y line bound r
    unfolding coords_lines
    coords_lines-Pointed bound zero line wide good h =
        (none, refl, past_all (λ i p q. absurd (omega arith)))
    coords_lines-Pointed bound (suc n) line wide good h =
        let (l, here, fits, pos) = good line (omega arith) in
        let (cpi, this) = get_elem?-some l.cpinfo_array 0 (omega (arith, fits.cells)) in
        let (rest, run, later) = coords_lines-Pointed bound n (line + 1) wide good (omega arith) in
        let (r, scan, last) = coords_columns-Last columns narrow l x l.line_used fits fits.used in
        elim (Bool-cases (f.above y cpi.y)) [
          | inl e ↦ (
            rest,
            rw (here, this, e, run),
            Pointed-later line bound rest (rw (here, this, e)) later,
          )
          | inr e ↦ (
            on_line line r,
            decided n line l cpi r fits pos here this e scan,
            Pointed-here line bound l r (omega arith) (rw (here, this, e)) here last,
          )
        ]

-- On a screen within its limits that has a column, and on which every line in use has a column in use:
-- the search for a point fails no assertion and reads no cell that is not there, and it gives the last
-- column in use that the point is not left of, on the first line that it is not past, or says that there
-- is none.
pub screen_get_codepoint_by_coords-Pointed :
    {F : Type 0} (f : Floats F) (scr : Screen F) (x y : ℕ) (w : Fits scr)
    → 0 < scr.max_c
    → ((i : ℕ) (l : ScreenLine F)
        → i < scr.used_l
        → get_elem? scr.line_array i ≡ some l
        → 0 < l.line_used)
    → (r : Option (ℕ × ℕ)) × (screen_get_codepoint_by_coords f scr x y ≡ some r)
      × Pointed f scr.max_c w.narrow scr.line_array x y 0 scr.used_l r
unfolding screen_get_codepoint_by_coords
screen_get_codepoint_by_coords-Pointed f scr x y w wide filled =
    coords_lines-Pointed f scr.max_c w.narrow scr.line_array x y scr.used_l scr.used_l 0 wide
      (λ i lt.
        let (l, here) = get_elem?-some scr.line_array i (omega (arith, w.lines, w.used)) in
        (l, here, w.each i l here, filled i l lt here))
      (omega arith)

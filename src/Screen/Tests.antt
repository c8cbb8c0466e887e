-- ===== src/Screen/Tests.antt =====
-- The theorems about screens on small grids.
use ewlibs.Base.{
  ltb, leb, get_elem?, ℕ, zero, suc, ◌*◌, ◌≤◌, ◌<◌, ◌≡◌, refl, true, Option, none, some, [], ◌∷◌,
  arith,
}
use ewlibs.Screen.{Floats, CodepointInfo, ScreenLine, zero_cpinfo, codepoint_info_reset}
use ewlibs.Screen.Grid.{Screen, new_screen, screen_alloc, screen_resize, screen_put_cp, each_line}
use ewlibs.Screen.Lookup.{screen_get_line_by_offset, screen_get_codepoint_by_coords}
use ewlibs.Screen.Bounds.{Fits, FitsLine, Each-cons}
use ewlibs.Screen.Edits.{Reach, allocated, edited, writing, Reach-Fits}
use ewlibs.Screen.Scanning.{Filled}
use ewlibs.Screen.Finding.{Located, FilledLines, screen_get_line_by_offset-Located}
use ewlibs.Screen.Pointing.{Pointed, screen_get_codepoint_by_coords-Pointed}

-- Multiples of a quarter.
abbrev quarters : Floats ℕ
quarters = record {
  nought = 0;
  quarter = 1;
  unit = 4;
  above = λ y v. ltb v (4 * y);
  at_least = λ x v. leb v (4 * x);
}

abbrev allocated_screen : Screen ℕ
allocated_screen = elim (screen_alloc quarters 2 3 20 10) [
  | none ↦ new_screen (zero_cpinfo quarters)
  | some s ↦ s
]

abbrev written_screen : Screen ℕ
written_screen = elim (screen_put_cp allocated_screen 65 66 1 2) [
  | none ↦ allocated_screen
  | some s ↦ s
]

allocated-Reach : Reach quarters allocated_screen
unfolding screen_alloc screen_resize each_line
allocated-Reach = allocated 2 3 20 10 (omega arith) (omega arith) refl

written-Reach : Reach quarters written_screen
unfolding screen_alloc screen_resize each_line screen_put_cp
written-Reach = edited allocated-Reach (writing 65 66 1 2 (omega arith) (omega arith) refl)

Reach-Fits_example : Fits written_screen
Reach-Fits_example = Reach-Fits quarters written-Reach

-- A cell of the line at y = 0, four quarters wide.
abbrev shown : ℕ → ℕ → CodepointInfo ℕ
shown column position = record (codepoint_info_reset quarters (zero_cpinfo quarters)) {
  used = true;
  offset = position;
  size = 1;
  x = 4 * column;
}

abbrev shown_line : ScreenLine ℕ
shown_line = record {
  cpinfo_array = shown 0 10 ∷ shown 1 12 ∷ zero_cpinfo quarters ∷ [];
  line_used = 2;
}

abbrev shown_screen : Screen ℕ
shown_screen = record (new_screen (shown 0 10)) {
  max_l = 1;
  max_c = 3;
  used_l = 1;
  last_cpinfo = shown 1 12;
  line_array = shown_line ∷ [];
}

shown-Fits : Fits shown_screen
shown-Fits = record {
  lines = refl;
  used = omega arith;
  each =
      Each-cons (FitsLine 3) shown_line [] (record { cells = refl; used = omega arith })
        (λ i l h. cc);
  narrow = omega arith;
  short = omega arith;
}

shown_highest :
    (j : ℕ) (cpi last : CodepointInfo ℕ)
    → j < 2
    → get_elem? shown_line.cpinfo_array j ≡ some cpi
    → get_elem? shown_line.cpinfo_array 1 ≡ some last
    → cpi.offset ≤ last.offset
shown_highest zero cpi last h e e' = ground arith
shown_highest (suc zero) cpi last h e e' = ground arith
shown_highest (suc (suc j)) cpi last h e e' = absurd (omega arith)

shown-FilledLines : FilledLines shown_screen
shown-FilledLines i l lt =
    Each-cons Filled shown_line []
      (record { some_used = omega arith; last_highest = shown_highest }) (λ i l h. cc) i l

screen_get_line_by_offset-Located_example :
    (r : Option (ℕ × ℕ)) × (screen_get_line_by_offset shown_screen 12 ≡ some r)
    × Located shown_screen.line_array 12 0 1 r
screen_get_line_by_offset-Located_example =
    screen_get_line_by_offset-Located shown_screen 12 shown-Fits shown-FilledLines refl refl
      (omega arith) (omega arith)

shown-used :
    (i : ℕ) (l : ScreenLine ℕ) → get_elem? shown_screen.line_array i ≡ some l → 0 < l.line_used
shown-used = Each-cons (λ l. 0 < l.line_used) shown_line [] (omega arith) (λ i l h. cc)

screen_get_codepoint_by_coords-Pointed_example :
    (r : Option (ℕ × ℕ)) × (screen_get_codepoint_by_coords quarters shown_screen 1 0 ≡ some r)
    × Pointed quarters 3 shown-Fits.narrow shown_screen.line_array 1 0 0 1 r
screen_get_codepoint_by_coords-Pointed_example =
    screen_get_codepoint_by_coords-Pointed quarters shown_screen 1 0 shown-Fits (omega arith)
      (λ i l lt. shown-used i l)

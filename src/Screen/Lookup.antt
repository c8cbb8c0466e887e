-- ===== src/Screen/Lookup.antt =====
-- The searches of app/eedit/api/src/screen.cpp: a cell by its offset in the buffer, and a cell by its
-- place on the screen. A result is the line and the column of the cell; `none` is a fault.
use ewlibs.Base.{
  ltb, ◌==◌, if◌then◌else◌, ◌>>=◌, get_elem?, ℕ, zero, suc, ◌+◌, ◌%◌, ◌^◌, Bool, true, false, not,
  Option, none, some, List,
}
use ewlibs.Screen.{
  Floats, ScreenLine, no_column_fix, screen_line_get_cpinfo, screen_line_get_first_cpinfo,
  screen_line_get_last_cpinfo,
}
use ewlibs.Screen.Grid.{Screen}

-- A column of a line.
abbrev pub on_line : ℕ → Option ℕ → Option (ℕ × ℕ)
on_line line none = none
on_line line (some column) = some (line, column)

module _ {F : Type 0} where
  -- `screen_contains_offset(scr, offset)`
  unfoldable pub screen_contains_offset : Screen F → ℕ → Option Bool
  screen_contains_offset scr offset =
      if not scr.first_cpinfo.used
      then none
      else if not scr.last_cpinfo.used
      then none
      else if ltb scr.last_cpinfo.offset offset
      then some false
      else if ltb offset scr.first_cpinfo.offset
      then some false
      else some true

  -- The inner loop of `screen_get_line_by_offset`, with n columns to go.
  unfoldable pub offset_columns : ScreenLine F → ℕ → ℕ → ℕ → Option (Option ℕ)
  offset_columns l offset zero column = some none
  offset_columns l offset (suc n) column = screen_line_get_cpinfo l column no_column_fix >>= λ k.
      get_elem? l.cpinfo_array k >>= λ cpi.
      let rest = offset_columns l offset n (column + 1) in
      if cpi.offset == offset then some (some column) else rest

  -- The columns up to the last one that is used.
  abbrev pub offset_line : ScreenLine F → ℕ → Option (Option ℕ)
  offset_line l offset =
      let last = screen_line_get_last_cpinfo l in
      get_elem? l.cpinfo_array last >>= λ cpi.
      if ltb cpi.offset offset then some none else offset_columns l offset ((last + 1) % 2 ^ 64) 0

  -- The outer loop, with n lines to go.
  unfoldable pub offset_lines : List (ScreenLine F) → ℕ → ℕ → ℕ → Option (Option (ℕ × ℕ))
  offset_lines lines offset zero line = some none
  offset_lines lines offset (suc n) line =
      let rest = offset_lines lines offset n (line + 1) in
      get_elem? lines line >>= λ l. offset_line l offset >>= λ found. elim found [
        | none ↦ rest
        | some column ↦ some (some (line, column))
      ]

  -- `screen_get_line_by_offset(scr, offset, l, scr_line_index, scr_col_index)`
  unfoldable pub screen_get_line_by_offset : Screen F → ℕ → Option (Option (ℕ × ℕ))
  screen_get_line_by_offset scr offset = screen_contains_offset scr offset >>= λ on_screen.
      if on_screen then offset_lines scr.line_array offset scr.used_l 0 else some none

  -- The inner loop of `screen_get_codepoint_by_coords`, from the column below `column` down to 0.
  unfoldable pub coords_columns : Floats F → ScreenLine F → ℕ → ℕ → Option (Option ℕ)
  coords_columns f l x zero = some none
  coords_columns f l x (suc column) = screen_line_get_cpinfo l column no_column_fix >>= λ k.
      get_elem? l.cpinfo_array k >>= λ cpi.
      let rest = coords_columns f l x column in
      if f.at_least x cpi.x then some (some column) else rest

  -- The outer loop, with n lines to go: the first line that is not above `y` decides.
  unfoldable pub coords_lines :
      Floats F → List (ScreenLine F) → ℕ → ℕ → ℕ → ℕ → Option (Option (ℕ × ℕ))
  coords_lines f lines x y zero line = some none
  coords_lines f lines x y (suc n) line =
      let rest = coords_lines f lines x y n (line + 1) in
      get_elem? lines line >>= λ l.
      get_elem? l.cpinfo_array (screen_line_get_first_cpinfo l) >>= λ cpi.
      if f.above y cpi.y
      then rest
      else get_elem? l.cpinfo_array (screen_line_get_last_cpinfo l) >>= λ last_cpi.
          coords_columns f l x ((screen_line_get_last_cpinfo l + 1) % 2 ^ 32) >>= λ found.
          some (on_line line found)

  -- `screen_get_codepoint_by_coords(scr, x, y, out_cpi)`
  unfoldable pub screen_get_codepoint_by_coords :
      Floats F → Screen F → ℕ → ℕ → Option (Option (ℕ × ℕ))
  screen_get_codepoint_by_coords f scr x y = coords_lines f scr.line_array x y scr.used_l 0

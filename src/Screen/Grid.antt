-- ===== src/Screen/Grid.antt =====
-- `screen_s` of app/eedit/api/src/screen.cpp: a grid of lines, its limits, and the operations that
-- allocate, resize, reset, copy and read it, and that put a code point in a cell.
use ewlibs.Base.{
  ◌==◌, if◌then◌else◌, ◌>>=◌, get_elem?, set, ℕ, ◌+◌, ◌-◌, ◌%◌, ◌^◌, max, true, ◌||◌, Option, none,
  some, List, [], ◌∷◌,
}
use ewlibs.Screen.{
  Floats, CodepointInfo, zero_cpinfo, codepoint_info_reset, ScreenLine, resize, Hint, no_column_fix,
  screen_line_resize, screen_line_get_number_of_used_columns,
  screen_line_set_number_of_used_columns, screen_line_get_cpinfo,
}

pub record Screen (F : Type 0) : Type 0 where
  pub max_l : ℕ
  pub max_c : ℕ
  pub used_l : ℕ
  pub max_width_px : ℕ
  pub max_height_px : ℕ
  pub buffer_size : ℕ
  pub start_offset : ℕ
  pub id : ℕ
  pub internal_index : ℕ
  pub first_cpinfo : CodepointInfo F
  pub last_cpinfo : CodepointInfo F
  pub ready : ℕ
  pub line_array : List (ScreenLine F)

-- `screen_dimension_t`, `screen_dimension_reset(sd)`
pub record ScreenDimension : Type 0 where
  pub l : ℕ
  pub c : ℕ
  pub w : ℕ
  pub h : ℕ

abbrev pub screen_dimension_reset : ScreenDimension → ScreenDimension
screen_dimension_reset sd = record sd { l = 0; c = 0; w = 0; h = 0 }

-- A loop over the lines that may meet a fault.
unfoldable pub each_line : {A : Type 0} → (A → Option A) → List A → Option (List A)
each_line run [] = some []
each_line run (l ∷ ls) = run l >>= λ l'. each_line run ls >>= λ ls'. some (l' ∷ ls')

module _ {F : Type 0} where
  -- `new screen_t`. The two cells have no initial value in the source; every caller sets them.
  abbrev pub new_screen : CodepointInfo F → Screen F
  new_screen cpi = record {
    max_l = 0;
    max_c = 0;
    used_l = 0;
    max_width_px = 0;
    max_height_px = 0;
    buffer_size = 0;
    start_offset = 0;
    id = 0;
    internal_index = 2 ^ 32 - 1;
    first_cpinfo = cpi;
    last_cpinfo = cpi;
    ready = 0;
    line_array = [];
  }

  -- The setters.
  abbrev pub screen_set_max_number_of_lines : Screen F → ℕ → Screen F
  screen_set_max_number_of_lines scr max = record scr { max_l = max }

  abbrev pub screen_set_max_number_of_columns : Screen F → ℕ → Screen F
  screen_set_max_number_of_columns scr max = record scr { max_c = max }

  abbrev pub screen_set_number_of_used_lines : Screen F → ℕ → Screen F
  screen_set_number_of_used_lines scr max = record scr { used_l = max }

  abbrev pub screen_set_start_offset : Screen F → ℕ → Screen F
  screen_set_start_offset scr offset = record scr { start_offset = offset }

  -- `screen_get_start_offset(scr)`
  abbrev pub screen_get_start_offset : Screen F → ℕ
  screen_get_start_offset scr = scr.first_cpinfo.offset

  abbrev pub screen_get_dimension : Screen F → ScreenDimension
  screen_get_dimension scr = record {
    l = scr.max_l;
    c = scr.max_c;
    w = scr.max_width_px;
    h = scr.max_height_px;
  }

  -- `screen_resize(scr, l, c)`
  unfoldable pub screen_resize : Floats F → Screen F → ℕ → ℕ → Option (Screen F)
  screen_resize f scr l c =
      let empty : ScreenLine F = record { cpinfo_array = []; line_used = 0 } in
      let fit = λ (ln : ScreenLine F).
        screen_line_set_number_of_used_columns (screen_line_resize f ln c) 0 in
      each_line fit (resize l empty scr.line_array) >>= λ lines.
      let cleared = record scr {
        line_array = lines;
        first_cpinfo = codepoint_info_reset f scr.first_cpinfo;
        last_cpinfo = codepoint_info_reset f scr.last_cpinfo;
      } in
      some (
        screen_set_number_of_used_lines
          (screen_set_max_number_of_columns (screen_set_max_number_of_lines cleared l) c) 0)

  -- `screen_alloc(scr, called_by, l, c, w, h)`, `screen_alloc_with_dimension(scr, called_by, dim)`
  unfoldable pub screen_alloc : Floats F → ℕ → ℕ → ℕ → ℕ → Option (Screen F)
  screen_alloc f l c w h =
      if l == 0 || c == 0
      then none
      else screen_resize f
          (record (new_screen (zero_cpinfo f)) { max_width_px = w; max_height_px = h }) l c
        >>= λ s. some (record s {
          first_cpinfo = codepoint_info_reset f s.first_cpinfo;
          last_cpinfo = codepoint_info_reset f s.last_cpinfo;
        })

  unfoldable pub screen_alloc_with_dimension : Floats F → ScreenDimension → Option (Screen F)
  screen_alloc_with_dimension f dim = screen_alloc f dim.l dim.c dim.w dim.h

  -- `screen_copy(dst, orig)`, `screen_clone(scr)`
  abbrev pub screen_copy : Screen F → Screen F → Screen F
  screen_copy dst orig = record dst {
    max_width_px = orig.max_width_px;
    max_height_px = orig.max_height_px;
    max_l = orig.max_l;
    max_c = orig.max_c;
    used_l = orig.used_l;
    buffer_size = orig.buffer_size;
    line_array = orig.line_array;
    first_cpinfo = orig.first_cpinfo;
    last_cpinfo = orig.last_cpinfo;
  }

  unfoldable pub screen_clone : Screen F → Screen F
  screen_clone scr = screen_copy (new_screen scr.first_cpinfo) scr

  -- `screen_reset_lines(scr)`, `screen_reset(scr)`
  unfoldable pub screen_reset_lines : Screen F → Option (Screen F)
  screen_reset_lines scr =
      each_line (λ l. screen_line_set_number_of_used_columns l 0) scr.line_array >>= λ lines.
      some (screen_set_number_of_used_lines (record scr { line_array = lines }) 0)

  unfoldable pub screen_reset : Floats F → Screen F → Option (Screen F)
  screen_reset f scr = screen_reset_lines scr >>= λ s. some (record s {
    first_cpinfo = codepoint_info_reset f s.first_cpinfo;
    last_cpinfo = codepoint_info_reset f s.last_cpinfo;
  })

  -- `screen_get_line(scr, line_index, l)`
  abbrev pub screen_get_line : Screen F → ℕ → Option (ScreenLine F)
  screen_get_line scr line_index = get_elem? scr.line_array line_index

  -- `screen_get_last_line(scr, l, index)`: the index that it sets.
  abbrev pub screen_get_last_line : Screen F → ℕ
  screen_get_last_line scr = if scr.used_l == 0 then 0 else scr.used_l - 1

  -- `screen_get_codepoint_info(scr, line, column, l, cpi, h)`: the line, and the column of the cell.
  abbrev pub screen_get_codepoint_info : Screen F → ℕ → ℕ → Hint → Option (ScreenLine F × ℕ)
  screen_get_codepoint_info scr line column h =
      screen_get_line scr line >>= λ l. screen_line_get_cpinfo l column h >>= λ cpi. some (l, cpi)

  abbrev pub screen_get_line_by_coords : Screen F → ℕ → ℕ → Option (ScreenLine F × ℕ)
  screen_get_line_by_coords scr line column =
      screen_get_codepoint_info scr line column no_column_fix

  -- The cell after `screen_put_cp`.
  abbrev pub put_cell : ℕ → ℕ → CodepointInfo F → CodepointInfo F
  put_cell real_cp vcp cpi = record cpi { codepoint = vcp; real_codepoint = real_cp; used = true }

  -- `screen_put_cp(scr, real_cp, vcp, line, column, l, cpi)`
  unfoldable pub screen_put_cp : Screen F → ℕ → ℕ → ℕ → ℕ → Option (Screen F)
  screen_put_cp scr real_cp vcp line column =
      screen_get_codepoint_info scr line column no_column_fix >>= λ (l, cpi).
      let old_used = screen_line_get_number_of_used_columns l % 2 ^ 32 in
      screen_line_set_number_of_used_columns l (max ((column + 1) % 2 ^ 32) old_used) >>= λ rw_l.
      get_elem? rw_l.cpinfo_array cpi >>= λ old.
      let rw_l' = record rw_l {
        cpinfo_array = set rw_l.cpinfo_array cpi (put_cell real_cp vcp old);
      } in
      some (
        screen_set_number_of_used_lines (record scr { line_array = set scr.line_array line rw_l' })
          (max ((line + 1) % 2 ^ 32) scr.used_l))

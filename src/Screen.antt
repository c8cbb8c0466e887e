-- ===== src/Screen.antt =====
-- `codepoint_info_s` (app/eedit/api/include/codepoint_info.h) and `screen_line_s`
-- (app/eedit/api/src/screen.cpp). A 32-bit field, signed or not, is its bit pattern. A pointer to a
-- cell is its column. `none` is a fault: an assertion that fails, or an index out of range.
pub mod Grid
pub mod Lookup
pub mod Bounds
pub mod Writing
pub mod Edits
pub mod Scanning
pub mod Finding
pub mod Pointing
mod Tests
use ewlibs.Base.{
  ltb, leb, ◌==◌, if◌then◌else◌, ==_iff, ==_refl, Bool-cases, Option-cases, ◌>>=◌, some_inj, length,
  get_elem?, set, take, drop, replicate, length-append, length-set, get_elem?-set_self,
  get_elem?-set_ne, get_elem?-lt, get_elem?-some, get_elem?-append_left, get_elem?-append_right,
  get_elem?-set, get_elem?-push, take-append-drop, length-take, length-drop, length-replicate,
  length-map, ℕ, zero, suc, ◌+◌, ◌-◌, ◌*◌, ◌/◌, ◌%◌, ◌^◌, ◌≤◌, ◌<◌, min, max, ◌≡◌, refl, sym, ap,
  ap₂, ◌∙◌, fun_ext, subst, ◌≢◌, ◌↔◌, ◌⊎◌, inl, inr, Bool, true, false, not, ◌&&◌, ◌||◌, Option,
  none, some, List, [], ◌∷◌, ◌++◌, map, append_assoc, append-nil, arith,
}

-- What the screen uses of `float`, which is the compiler's: three constants, and the comparisons of
-- an `int32_t` with a `float`.
pub record Floats (F : Type 0) : Type 0 where
  pub nought : F
  pub quarter : F
  pub unit : F
  pub above : ℕ → F → Bool
  pub at_least : ℕ → F → Bool

pub record CodepointInfo (F : Type 0) : Type 0 where
  pub codepoint : ℕ
  pub real_codepoint : ℕ
  pub split_flag : ℕ
  pub split_count : ℕ
  pub cp_index : ℕ
  pub is_selected : Bool
  pub used : Bool
  pub italic : Bool
  pub bold : Bool
  pub underline : Bool
  pub offset : ℕ
  pub size : ℕ
  pub x : F
  pub y : F
  pub w : ℕ
  pub h : ℕ
  pub r : F
  pub g : F
  pub b : F
  pub a : F

-- The element that `vector::resize` appends: all zero.
abbrev pub zero_cpinfo : {F : Type 0} → Floats F → CodepointInfo F
zero_cpinfo f = record {
  codepoint = 0;
  real_codepoint = 0;
  split_flag = 0;
  split_count = 0;
  cp_index = 0;
  is_selected = false;
  used = false;
  italic = false;
  bold = false;
  underline = false;
  offset = 0;
  size = 0;
  x = f.nought;
  y = f.nought;
  w = 0;
  h = 0;
  r = f.nought;
  g = f.nought;
  b = f.nought;
  a = f.nought;
}

-- `codepoint_info_reset(info)` assigns every field.
abbrev pub codepoint_info_reset : {F : Type 0} → Floats F → CodepointInfo F → CodepointInfo F
codepoint_info_reset f info = record info {
  codepoint = 32;
  real_codepoint = 32;
  split_flag = 0;
  split_count = 0;
  cp_index = 2 ^ 64 - 1;
  is_selected = false;
  used = false;
  italic = false;
  bold = false;
  underline = false;
  offset = 0;
  size = 0;
  x = f.nought;
  y = f.nought;
  w = 0;
  h = 0;
  r = f.quarter;
  g = f.quarter;
  b = f.quarter;
  a = f.unit;
}

-- `screen_line_s`; `m_used` is an `int`.
pub record ScreenLine (F : Type 0) : Type 0 where
  pub cpinfo_array : List (CodepointInfo F)
  pub line_used : ℕ

-- `vector::resize`
abbrev pub resize : {A : Type 0} → ℕ → A → List A → List A
resize n v vec = take n vec ++ replicate (n - length vec) v

-- An `int` as a `size_t`.
abbrev pub sign_extend : ℕ → ℕ
sign_extend i = if ltb i (2 ^ 31) then i else i + (2 ^ 64 - 2 ^ 32)

pub data Hint : Type 0 where
  no_column_fix : Hint
  fix_column_overflow : Hint

abbrev pub is_fix : Hint → Bool
is_fix no_column_fix = false
is_fix fix_column_overflow = true

module _ {F : Type 0} where
  -- `screen_line_resize(l, nr_cp)`
  abbrev pub screen_line_resize : Floats F → ScreenLine F → ℕ → ScreenLine F
  screen_line_resize f l nr_cp = record {
    cpinfo_array = map (codepoint_info_reset f) (resize nr_cp (zero_cpinfo f) l.cpinfo_array);
    line_used = 0;
  }

  -- `screen_line_alloc(l, nr_cp)`: a fresh line is resized, and its cells are reset once more.
  abbrev pub screen_line_alloc : Floats F → ℕ → ScreenLine F
  screen_line_alloc f nr_cp =
      let l = screen_line_resize f (record { cpinfo_array = []; line_used = 0 }) nr_cp in
      record l { cpinfo_array = map (codepoint_info_reset f) l.cpinfo_array }

  -- `screen_line_copy(dst, orig)`, for two different lines.
  abbrev pub screen_line_copy : ScreenLine F → ScreenLine F → ScreenLine F
  screen_line_copy dst orig = record dst {
    cpinfo_array = orig.cpinfo_array;
    line_used = orig.line_used;
  }

  abbrev pub screen_line_capacity : ScreenLine F → ℕ
  screen_line_capacity l = length l.cpinfo_array

  abbrev pub screen_line_get_number_of_used_columns : ScreenLine F → ℕ
  screen_line_get_number_of_used_columns l = sign_extend l.line_used

  abbrev pub screen_line_set_number_of_used_columns : ScreenLine F → ℕ → Option (ScreenLine F)
  screen_line_set_number_of_used_columns l nr =
      if leb nr (screen_line_capacity l) then some (record l { line_used = nr % 2 ^ 32 }) else none

  -- `screen_line_get_cpinfo(l, column, cpi, h)`: the column of the cell.
  abbrev pub screen_line_get_cpinfo : ScreenLine F → ℕ → Hint → Option ℕ
  screen_line_get_cpinfo l column h =
      let sz = screen_line_capacity l in
      if sz == 0
      then none
      else if leb sz column && not (is_fix h)
      then none
      else some (min column ((sz - 1) % 2 ^ 32))

  -- `screen_line_get_first_cpinfo`, `screen_line_get_last_cpinfo`: the index that they set.
  abbrev pub screen_line_get_first_cpinfo : ScreenLine F → ℕ
  screen_line_get_first_cpinfo l = 0

  abbrev pub screen_line_get_last_cpinfo : ScreenLine F → ℕ
  screen_line_get_last_cpinfo l =
      let nr = screen_line_get_number_of_used_columns l in if nr == 0 then 2 ^ 64 - 1 else nr - 1

  -- `screen_line_first_offset`, `screen_line_last_offset`
  abbrev pub screen_line_first_offset : ScreenLine F → Option ℕ
  screen_line_first_offset l = get_elem? l.cpinfo_array (screen_line_get_first_cpinfo l) >>= λ cpi.
      if cpi.size == 0 then none else some cpi.offset

  abbrev pub screen_line_last_offset : ScreenLine F → Option ℕ
  screen_line_last_offset l = get_elem? l.cpinfo_array (screen_line_get_last_cpinfo l) >>= λ cpi.
      if cpi.size == 0 then none else some ((cpi.offset + cpi.size) % 2 ^ 64)

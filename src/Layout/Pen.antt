-- ===== src/Layout/Pen.antt =====
-- The screen filter of app/eedit/core/filters/screen_layout.cpp: where the next code point goes.
use ewlibs.Base.{
  ltb, leb, ◌==◌, if◌then◌else◌, ◌>>=◌, ℕ, ◌+◌, ◌-◌, ◌/◌, ◌%◌, ◌^◌, max, Bool, true, false, not,
  ◌&&◌, ◌||◌, Option, none, some,
}
use ewlibs.Layout.Glyphs.{FontGlyphInfo, Glyph, Font, Cache, get_codepoint_glyph_info}
use ewlibs.Screen.{Floats}
use ewlibs.Screen.Grid.{Screen, screen_resize}

-- `layout_status_e` (core/text_layout.hpp)
pub data LayoutStatus : Type 0 where
  layout_ok : LayoutStatus
  layout_font_error : LayoutStatus
  no_layout_space_left : LayoutStatus

-- `build_layout_action_e`, of which `filter_codepoint` and the filter set these two.
pub data LayoutAction : Type 0 where
  move_pen_to_next_char : LayoutAction
  move_pen_to_next_line : LayoutAction

abbrev pub is_next_line : LayoutAction → Bool
is_next_line move_pen_to_next_char = false
is_next_line move_pen_to_next_line = true

-- `struct advance`
pub record Advance : Type 0 where
  pub x : ℕ
  pub y : ℕ

-- What `codepoint_fits` leaves.
pub record Fitting : Type 0 where
  pub status : LayoutStatus
  pub adv : Advance
  pub cp_filtered : ℕ
  pub cache : Cache

abbrev pub fitting : Glyph → LayoutStatus → Advance → Fitting
fitting g status adv = record {
  status = status;
  adv = adv;
  cp_filtered = g.cp_filtered;
  cache = g.cache;
}

-- `codepoint_fits(cp, max_width, x, y, ft, adv, cp_filtered)`. `none` is an assertion that fails;
-- `fresh` is the local variable before it is set.
unfoldable pub codepoint_fits :
    Font → FontGlyphInfo → Cache → (cp max_width x cp_filtered : ℕ) → Option Fitting
codepoint_fits ft fresh cache cp max_width x cp_filtered =
    let g = get_codepoint_glyph_info ft cache cp cp_filtered fresh in
    let adv : Advance = record { x = g.glyph_info.hori_advance; y = g.glyph_info.vert_advance } in
    if not g.found
    then some (fitting g layout_font_error (record { x = 0; y = 0 }))
    else if (adv.x == 0) || (adv.y == 0)
    then none
    else if leb max_width ((x + adv.x) % 2 ^ 32)
    then some (fitting g no_layout_space_left adv)
    else some (fitting g layout_ok adv)

-- The columns, or lines, that `px` pixels take: one more for the remaining pixels.
abbrev pub count_cells : ℕ → ℕ → ℕ
count_cells px advance = if px % advance == 0 then px / advance else (px / advance + 1) % 2 ^ 32

-- `maximize_screen(max_width, max_height, ft, output_screen)`. `none` is also a division by zero.
unfoldable pub maximize_screen :
    {F : Type 0} → Floats F → Font → FontGlyphInfo → Cache → Screen F → Option (Cache × Screen F)
maximize_screen f ft fresh cache scr =
    let g = get_codepoint_glyph_info ft cache 32 32 fresh in
    let space = g.glyph_info in
    if (space.hori_advance == 0) || (space.vert_advance == 0)
    then none
    else screen_resize f scr (count_cells scr.max_height_px space.vert_advance)
        (count_cells scr.max_width_px space.hori_advance)
      >>= λ scr'. some (g.cache, scr')

-- `filter_codepoint(previous_cp, cur_cp, fcp, action)`, with `*action` as the caller sets it.
unfoldable pub filter_codepoint : ℕ → ℕ → ℕ × LayoutAction
filter_codepoint previous_cp cur_cp =
    if cur_cp == 13
    then (32, move_pen_to_next_line)
    else if cur_cp == 10
    then (32, if previous_cp == 13 then move_pen_to_next_line else move_pen_to_next_line)
    else if cur_cp == 2 ^ 32 - 1
    then (65533, move_pen_to_next_char)
    else if cur_cp == 127
    then (65533, move_pen_to_next_char)
    else if cur_cp == 9
    then (32, move_pen_to_next_char)
    else if ltb cur_cp 32 || leb (2 ^ 31) cur_cp
    then (32, move_pen_to_next_char)
    else (cur_cp, move_pen_to_next_char)

-- `screen_mode_context_t`, and of the layout's context what the filter changes: `out`, `nr_put`, and
-- the cache of glyphs.
pub record ScreenModeContext (F : Type 0) : Type 0 where
  pub max_width_px : ℕ
  pub max_height_px : ℕ
  pub x : ℕ
  pub y : ℕ
  pub col : ℕ
  pub row : ℕ
  pub max_col : ℕ
  pub max_row : ℕ
  pub cp_count : ℕ
  pub previous_cp : ℕ
  pub space_glyph_info : FontGlyphInfo
  pub out : Screen F
  pub nr_put : ℕ
  pub cache : Cache

module _ {F : Type 0} where
  abbrev pub start_context : Screen F → FontGlyphInfo → Screen F → Cache → ScreenModeContext F
  start_context scr space scr' cache = record {
    max_width_px = scr.max_width_px;
    max_height_px = scr.max_height_px;
    x = 0;
    y = 0;
    col = 0;
    row = 0;
    max_col = 0;
    max_row = 0;
    cp_count = 0;
    previous_cp = 0;
    space_glyph_info = space;
    out = scr';
    nr_put = 0;
    cache = cache;
  }

  -- `screen_mode_init(blayout_ctx, out)`
  unfoldable pub screen_mode_init :
      Floats F → Font → FontGlyphInfo → Cache → Screen F → Option (ScreenModeContext F)
  screen_mode_init f ft fresh cache scr =
      let g = get_codepoint_glyph_info ft cache 32 32 fresh in
      if not g.found
      then none
      else maximize_screen f ft fresh g.cache scr >>= λ (cache', scr').
          some (start_context scr g.glyph_info scr' cache')

  -- `y + space_glyph_info.vert_advance`
  abbrev pub below : ScreenModeContext F → ℕ
  below ctx = (ctx.y + ctx.space_glyph_info.vert_advance) % 2 ^ 32

  -- No line is left.
  abbrev pub is_full : ScreenModeContext F → Bool
  is_full ctx = leb ctx.max_height_px (below ctx)

  abbrev pub next_line : ScreenModeContext F → ScreenModeContext F
  next_line ctx = record ctx {
    x = 0;
    y = below ctx;
    max_col = max ctx.col ctx.max_col;
    col = 0;
    row = (ctx.row + 1) % 2 ^ 32;
  }

  -- The pen after a code point that is put: past it, and then on the next line where one begins.
  abbrev pub pass_char : LayoutAction → ℕ → ScreenModeContext F → ScreenModeContext F
  pass_char action advance ctx =
      if is_next_line action
      then ctx
      else record ctx { col = (ctx.col + 1) % 2 ^ 32; x = (ctx.x + advance) % 2 ^ 32 }

  abbrev pub ends_line : LayoutAction → ScreenModeContext F → Bool
  ends_line action ctx = is_next_line action || leb ctx.max_width_px ctx.x

  unfoldable pub move_pen : LayoutAction → ℕ → ScreenModeContext F → ScreenModeContext F
  move_pen action advance ctx =
      let moved = pass_char action advance ctx in
      if ends_line action moved then next_line moved else moved

  -- `out.quit = true` after the last line.
  unfoldable pub quits : LayoutAction → ℕ → ScreenModeContext F → Bool
  quits action advance ctx =
      ends_line action (pass_char action advance ctx) && is_full (move_pen action advance ctx)

-- ===== src/Layout/Screening.antt =====
-- `screen_mode_filter` of app/eedit/core/filters/screen_layout.cpp: it puts the code points on the
-- screen. `none` is a fault: an assertion that fails, a cell that is not there, or no more fuel.
use ewlibs.Base.{
  if◌then◌else◌, ◌>>=◌, length, get_elem?, set, ℕ, zero, suc, ◌+◌, ◌%◌, ◌^◌, max, true, false, ◌||◌,
  Option, none, some, List, [], ◌∷◌,
}
use ewlibs.Layout.{FilterIo, Buffer}
use ewlibs.Layout.Glyphs.{FontGlyphInfo, Font}
use ewlibs.Layout.Pen.{
  Fitting, layout_ok, layout_font_error, no_layout_space_left, LayoutAction, codepoint_fits,
  filter_codepoint, ScreenModeContext, below, is_full, next_line, move_pen, quits,
}
use ewlibs.Screen.{CodepointInfo, ScreenLine}
use ewlibs.Screen.Grid.{Screen, screen_put_cp}
use ewlibs.Screen.Writing.{cell_at}

-- What the filter is given: the font, `float(u32)`, and a local variable before it is set.
pub record Device (F : Type 0) : Type 0 where
  pub ft : Font
  pub to_float : ℕ → F
  pub fresh : FontGlyphInfo

-- The copy of the input, when `do_fetch`; `pending` is the cell of an input that did not fit.
unfoldable pub fetch : Option FilterIo → FilterIo → FilterIo → FilterIo
fetch (some pending) old io = pending
fetch none old io = record old {
  end_of_pipe = false;
  quit = io.end_of_pipe;
  cp = io.cp;
  real_cp = io.real_cp;
  offset = io.offset;
  cp_index = io.cp_index;
  is_selected = io.is_selected;
  split_flag = io.split_flag;
  split_count = io.split_count;
}

-- A round of the loop: it ends with the cells that are written, of which the second part is not
-- counted, it tries the same input again, or it goes on to the next one.
pub data Round (F : Type 0) : Type 0 where
  ended : List FilterIo → List FilterIo → ScreenModeContext F → Round F
  again : FilterIo → ScreenModeContext F → Round F
  put : FilterIo → ScreenModeContext F → Round F

module _ {F : Type 0} where
  -- `cp_count++`
  unfoldable pub count_fetch : Option FilterIo → ScreenModeContext F → ScreenModeContext F
  count_fetch (some pending) ctx = ctx
  count_fetch none ctx = record ctx { cp_count = (ctx.cp_count + 1) % 2 ^ 32 }

  -- The assignments through `cpi`.
  abbrev pub place_cell :
      (ℕ → F) → ScreenModeContext F → FilterIo → CodepointInfo F → CodepointInfo F
  place_cell to_float ctx cur cpi = record cpi {
    x = to_float ctx.x;
    y = to_float (below ctx);
    w = ctx.space_glyph_info.hori_advance;
    h = ctx.space_glyph_info.vert_advance;
    offset = cur.offset;
    is_selected = cur.is_selected;
    split_flag = cur.split_flag;
    split_count = cur.split_count;
    cp_index = cur.cp_index;
    used = true;
  }

  -- `*cpi = cell`, for the cell of a line and a column.
  abbrev pub set_in_line : ℕ → CodepointInfo F → ScreenLine F → ScreenLine F
  set_in_line column cell l = record l { cpinfo_array = set l.cpinfo_array column cell }

  unfoldable pub set_cell : ℕ → ℕ → CodepointInfo F → Screen F → Option (Screen F)
  set_cell line column cell scr = get_elem? scr.line_array line >>= λ l.
      some (record scr { line_array = set scr.line_array line (set_in_line column cell l) })

  -- The first cell of the screen when it has none, and the last one.
  abbrev pub mark_ends : CodepointInfo F → Screen F → Screen F
  mark_ends cell scr = record scr {
    first_cpinfo = if scr.first_cpinfo.used then scr.first_cpinfo else cell;
    last_cpinfo = cell;
  }

  -- `screen_put_cp`, and what the filter writes to the cell and to the ends of the screen.
  unfoldable pub put_cpinfo : (ℕ → F) → ScreenModeContext F → ℕ → FilterIo → Option (Screen F)
  put_cpinfo to_float ctx real_cp cur =
      screen_put_cp ctx.out real_cp cur.cp ctx.row ctx.col >>= λ scr.
      cell_at scr ctx.row ctx.col >>= λ cpi.
      let cell = place_cell to_float ctx cur cpi in
      set_cell ctx.row ctx.col cell scr >>= λ scr'. some (mark_ends cell scr')

  -- `case layout_ok`
  unfoldable pub put_round :
      (ℕ → F) → LayoutAction → ℕ → ScreenModeContext F → ℕ → FilterIo → Option (Round F)
  put_round to_float action advance ctx real_cp cur = put_cpinfo to_float ctx real_cp cur >>= λ scr.
      let done = record ctx { out = scr; nr_put = (ctx.nr_put + 1) % 2 ^ 32 } in
      some (
        put (record cur { valid = true; quit = quits action advance done || cur.quit })
          (move_pen action advance done))

  -- `case no_layout_space_left`
  unfoldable pub wrap_round : ScreenModeContext F → FilterIo → Round F
  wrap_round ctx cur =
      let ctx' = next_line ctx in
      if is_full ctx' then ended [] (record cur { quit = true } ∷ []) ctx' else again cur ctx'

  -- `switch (layout_error)`
  unfoldable pub switch_round :
      (ℕ → F) → LayoutAction → Fitting → ScreenModeContext F → ℕ → FilterIo → Option (Round F)
  switch_round to_float action fitting ctx real_cp cur = elim fitting.status [
    | layout_font_error ↦ some (again cur ctx)
    | no_layout_space_left ↦ some (wrap_round ctx cur)
    | layout_ok ↦ put_round to_float action fitting.adv.x ctx real_cp cur
  ]

  -- One round, for the input `io`: the rest of it, from the test that a line is left.
  unfoldable pub counted_round :
      Device F → ScreenModeContext F → FilterIo → FilterIo → Option (Round F)
  counted_round d ctx cur io =
      if is_full ctx
      then some (ended (record cur { valid = false; quit = true; end_of_pipe = true } ∷ []) [] ctx)
      else let (fcp, action) = filter_codepoint ctx.previous_cp io.cp in
        codepoint_fits d.ft d.fresh ctx.cache fcp ctx.max_width_px ctx.x fcp >>= λ fitting.
        switch_round d.to_float action fitting
          (record ctx { previous_cp = io.cp; cache = fitting.cache }) io.real_cp
          (record cur { cp = fitting.cp_filtered })

  -- The whole of it; `old` is the element of `out`.
  unfoldable pub screen_round :
      Device F → ScreenModeContext F → Option FilterIo → FilterIo → FilterIo → Option (Round F)
  screen_round d ctx pending old io =
      counted_round d (count_fetch pending ctx) (fetch pending old io) io

  -- The loop, on fuel, from the element `at` of `out`: the cells that are counted, those that are
  -- written only, and the context.
  unfoldable pub screen_loop :
      Device F
      → ℕ
      → List FilterIo
      → ScreenModeContext F
      → Option FilterIo
      → Buffer
      → ℕ
      → Option (List FilterIo × List FilterIo × ScreenModeContext F)
  screen_loop d zero ios ctx pending out at = none
  screen_loop d (suc fuel) [] ctx pending out at = some ([], [], ctx)
  screen_loop d (suc fuel) (io ∷ ios) ctx pending out at =
      screen_round d ctx pending (out at) io >>= λ round. elim round [
        | ended cells rest ctx' ↦ some (cells, rest, ctx')
        | again cur ctx' ↦ screen_loop d fuel (io ∷ ios) ctx' (some cur) out at
        | put cell ctx' ↦ screen_loop d fuel ios ctx' none out (at + 1) >>= λ (cells, rest, ctx'').
            some (cell ∷ cells, rest, ctx'')
      ]

  -- `screen_mode_filter(blctx, ctx, in, nr_in, out, max_out, nr_out)`
  unfoldable pub screen_mode_filter :
      Device F
      → List FilterIo
      → ScreenModeContext F
      → Buffer
      → Option (List FilterIo × List FilterIo × ScreenModeContext F)
  screen_mode_filter d ios ctx out =
      screen_loop d (length ios + ctx.max_height_px + 1) ios ctx none out 0
      >>= λ (cells, rest, ctx').
          some (cells, rest, record ctx' { max_row = max ctx'.col ctx'.max_col })

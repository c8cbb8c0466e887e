-- ===== src/Layout/Finishing.antt =====
-- `build_screen_layout` ends and fails no assertion.
use ewlibs.Base.{
  ◌==◌, if◌then◌else◌, Bool-cases, Option-cases, some_inj, ℕ, zero, suc, ◌+◌, ◌-◌, ◌^◌, ◌≤◌, ◌<◌,
  ◌≡◌, refl, sym, ap, ◌∙◌, subst, ◌⊎◌, inl, inr, true, false, not, ◌||◌, Option, none, some, arith,
  [], ◌++◌,
}
use ewlibs.Layout.{FilterIo, CodecIo}
use ewlibs.Layout.Decoder.{resume_from, text_decoder_init}
use ewlibs.Layout.Decoding.{Reads, Serving}
use ewlibs.Layout.Room.{Fonts, Cached, InRoom, screen_mode_init-InRoom}
use ewlibs.Layout.Building.{
  Env, ModeCtx, mode_list, Pipe, quits_pipe, run_modes, layout_loop, init_modes, build_layout,
  layout_start, start_modes, start_pipe, is_used, build_screen_layout,
}
use ewlibs.Layout.Gathering.{mark_get_offsets-gather_marks}
use ewlibs.Layout.Running.{Ready, run_modes-Ready}
use ewlibs.Screen.{CodepointInfo, codepoint_info_reset, screen_line_set_number_of_used_columns}
use ewlibs.Screen.Grid.{Screen, each_line, screen_reset_lines, screen_reset}
use ewlibs.Screen.Bounds.{Fits, screen_reset-Fits}

-- A layout starts at a cell of an earlier one: within the buffer, and within the columns of a tab.
pub record Start {F : Type 0} (size : ℕ) (start_cpi : Option (CodepointInfo F)) : Type 0 where
  pub used : is_used start_cpi ≡ true
  pub within : layout_start start_cpi ≤ size
  pub split : (cpi : CodepointInfo F) → start_cpi ≡ some cpi → cpi.split_count < 8

text_decoder_init-Serving :
    {F : Type 0} (size : ℕ) (start_cpi : Option (CodepointInfo F)) (fresh : FilterIo)
    (iovc : ℕ → CodecIo)
    → Start size start_cpi
    → Serving size (text_decoder_init (layout_start start_cpi) size start_cpi fresh iovc)
unfolding text_decoder_init resume_from
text_decoder_init-Serving size none fresh iovc w = record {
  whole = refl;
  reached = w.within;
  asked = refl;
  blank = refl;
  closing = refl;
  split = omega arith;
}
text_decoder_init-Serving size (some cpi) fresh iovc w = elim (Bool-cases (cpi.split_count == 0)) [
  | inl e ↦
      rw (w.used, e)
        (record {
          whole = refl;
          reached = w.within;
          asked = refl;
          blank = refl;
          closing = refl;
          split = omega arith;
        })
  | inr e ↦
      rw (w.used, e)
        (record {
          whole = refl;
          reached = w.within;
          asked = refl;
          blank = refl;
          closing = refl;
          split = w.split cpi refl;
        })
]

-- A reset leaves the size in pixels.
screen_reset-px :
    {F : Type 0} (env : Env F) (scr scr' : Screen F)
    → screen_reset env.floats scr ≡ some scr'
    → (scr'.max_width_px ≡ scr.max_width_px) × (scr'.max_height_px ≡ scr.max_height_px)
unfolding screen_reset screen_reset_lines
screen_reset-px {F} env scr scr' e =
    elim (Option-cases
      (each_line (λ l. screen_line_set_number_of_used_columns l 0) scr.line_array)) [
        | inl q ↦ absurd (bad (sym e ∙ rw q refl))
        | inr (ls, q) ↦
            let cleared : Screen F = record scr {
              line_array = ls;
              used_l = 0;
              first_cpinfo = codepoint_info_reset env.floats scr.first_cpinfo;
              last_cpinfo = codepoint_info_reset env.floats scr.last_cpinfo;
            } in
            let same : scr' ≡ cleared = some_inj (sym e ∙ rw q refl) in
            (ap (λ r. r.max_width_px) same, ap (λ r. r.max_height_px) same)
      ]
  where
    bad : {A : Type 0} {a : A} → some a ≡ none → ⊥
    bad h = cc

module _ {F : Type 0} (env : Env F) (s v : ℕ) (font : Fonts s v env.device.ft env.device.fresh)
    (small : env.buffer_size < 2 ^ 64) (law : Reads env.buffer_size env.read_forward) where
  -- The pipe has ended, or the fuel is enough for the rest of the buffer.
  abbrev Enough : ℕ → ModeCtx F → Pipe → Type 0
  Enough fuel ctx pipe =
      (pipe.end_of_pipe ≡ true)
      ⊎ (Ready env s v ctx × (env.buffer_size - ctx.decoder.next_offset + 1 ≤ fuel))

  -- A round that is not the last one.
  loop_next :
      (fuel : ℕ) (ctx ctx' : ModeCtx F) (pipe pipe' : Pipe)
      → pipe.end_of_pipe ≡ false
      → run_modes env mode_list ctx (record pipe { nr_in = 0 }) ≡ some (ctx', pipe')
      → layout_loop env (suc fuel) ctx pipe
        ≡ (if quits_pipe pipe' then some (ctx', pipe') else layout_loop env fuel ctx' pipe')
  unfolding layout_loop
  loop_next fuel ctx ctx' pipe pipe' e run = rw (run, e) refl

  -- The loop ends, as each round but the last reads on in the buffer.
  layout_loop-InRoom :
      (fuel : ℕ) (ctx : ModeCtx F) (pipe : Pipe)
      → InRoom s v ctx.screen
      → Enough fuel ctx pipe
      → (ctx' : ModeCtx F) × (pipe' : Pipe) × (layout_loop env (suc fuel) ctx pipe
          ≡ some (ctx', pipe'))
        × InRoom s v ctx'.screen
  unfolding layout_loop
  layout_loop-InRoom fuel ctx pipe room (inl e) = (ctx, pipe, rw e refl, room)
  layout_loop-InRoom zero ctx pipe room (inr (w, h)) = absurd (omega (arith, h))
  layout_loop-InRoom (suc fuel) ctx pipe room (inr (w, h)) =
      let (ctx', pipe', run, room', next) =
        run_modes-Ready env s v font small law ctx (record pipe { nr_in = 0 }) w refl in
      let go : Enough fuel ctx' pipe' = elim next [
        | inl e ↦ inl e
        | inr (w', further) ↦ inr (w', omega (arith, h, further, w'.decoder.reached))
      ] in
      let (ctx'', pipe'', run', room'') = layout_loop-InRoom fuel ctx' pipe' room' go in
      elim (Bool-cases pipe.end_of_pipe) [
        | inl e ↦ (ctx, pipe, rw e refl, room)
        | inr e ↦ elim (Bool-cases (quits_pipe pipe')) [
          | inl q ↦ (ctx', pipe', loop_next (suc fuel) ctx ctx' pipe pipe' e run ∙ rw q refl, room')
          | inr q ↦
              (ctx'', pipe'', loop_next (suc fuel) ctx ctx' pipe pipe' e run ∙ rw q run', room'')
        ]
      ]

  module _ (cached : Cached s v env.cache) (buffer_moving : env.buffer_marks.fixed ≡ [])
      (view_moving : env.view_marks.fixed ≡ []) (start_cpi : Option (CodepointInfo F))
      (w : Start env.buffer_size start_cpi) where
    build_layout-Fits :
        (out : Screen F)
        → out.max_width_px < 2 ^ 31
        → out.max_height_px < 2 ^ 31
        → (out' : Screen F) × (build_layout env (layout_start start_cpi) start_cpi out ≡ some out')
          × Fits out'
    unfolding build_layout init_modes
    build_layout-Fits out small_w small_h =
        let (scr, e, room, _) =
          screen_mode_init-InRoom s v env.device.ft env.device.fresh font env.floats env.cache out
            cached small_w small_h in
        let offsets = env.buffer_marks.moving ++ env.view_marks.moving in
        let marks =
          mark_get_offsets-gather_marks env.buffer_marks env.view_marks buffer_moving view_moving in
        let ctx = start_modes env (layout_start start_cpi) start_cpi offsets scr in
        let ready : Ready env s v ctx = record {
          decoder =
              text_decoder_init-Serving env.buffer_size start_cpi env.fresh_io env.fresh_iovc w;
          tabs = refl;
          screen = room;
        } in
        let (ctx', pipe', run, room') =
          layout_loop-InRoom (env.buffer_size + 1) ctx (start_pipe env) room
            (inr (ready, omega arith)) in
        let fuel : env.buffer_size + 2 ≡ suc (env.buffer_size + 1) = omega arith in
        (ctx'.screen.out, rw (marks, e, fuel, run) refl, room'.fits)

    -- The layout of a buffer of fewer than 2 ^ 64 bytes ends, fails no assertion, and leaves the
    -- screen within its limits, under these conditions. The codec reads within the buffer and gets
    -- on (`Reads`, which the ascii codec satisfies). It is laid out with a font that has a glyph for
    -- the space, between 1 and 2 ^ 31 - 1 pixels wide and tall, and of which what it leaves in the
    -- metrics for any code point from the space on, those of the substitute for a glyph that it
    -- lacks included, is at least as wide as the space, below 2 ^ 31 pixels wide, and not without
    -- height; the cache holds such metrics only. There are no fixed marks. The layout starts at the
    -- start of the buffer, or at a cell in use whose offset is within the buffer and whose column of
    -- a tab is below eight. The screen is within its limits, with a line and a column, and of less
    -- than 2 ^ 31 pixels in width and height.
    pub build_screen_layout-Fits :
        (out : Screen F)
        → Fits out
        → 0 < out.max_l
        → 0 < out.max_c
        → out.max_width_px < 2 ^ 31
        → out.max_height_px < 2 ^ 31
        → (out' : Screen F) × (build_screen_layout env start_cpi out ≡ some out')
          × Fits out'
          × (out'.buffer_size ≡ env.buffer_size)
    unfolding build_screen_layout
    build_screen_layout-Fits out fits hl hc small_w small_h =
        let (out1, e1, fits1, _, _, _) = screen_reset-Fits env.floats out fits in
        let px = screen_reset-px env out out1 e1 in
        let (out2, e2, fits2) =
          build_layout-Fits out1 (subst (λ n. n < 2 ^ 31) (sym px.0) small_w)
            (subst (λ n. n < 2 ^ 31) (sym px.1) small_h) in
        let clear : (not (is_used start_cpi) || (out.max_l == 0) || (out.max_c == 0)) ≡ false =
          rw w.used (ground (arith, hl, hc)) in
        (
          record out2 { buffer_size = env.buffer_size },
          rw (clear, e1, e2) refl,
          record {
            lines = fits2.lines;
            used = fits2.used;
            each = fits2.each;
            narrow = fits2.narrow;
            short = fits2.short;
          },
          refl,
        )

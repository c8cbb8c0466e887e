-- ===== src/Layout/Running.antt =====
-- The pipe of `build_layout`: it fails no assertion, its arrays do not overflow, and it ends.
use ewlibs.Base.{
  ltb, ◌==◌, Bool-cases, length, ℕ, suc, ◌-◌, ◌^◌, ◌≤◌, ◌<◌, ◌≡◌, refl, ap, ◌∙◌, ◌⊎◌, inl, inr,
  Bool, true, false, ◌||◌, some, List, [], ◌∷◌, ◌++◌, arith,
}
use ewlibs.Layout.{FilterIo, Buffer, overlay}
use ewlibs.Layout.Decoding.{Reads, Serving, text_decoder_filter-Served}
use ewlibs.Layout.Tabs.{tab_expansion_init, tab_expansion_filter}
use ewlibs.Layout.Expanding.{last_or, tab_expansion_filter-bounds}
use ewlibs.Layout.Marks.{MarkFilterContext, mark_cell, mark_cells, mark_filter_filter}
use ewlibs.Layout.Room.{Fonts, InRoom}
use ewlibs.Layout.Showing.{length-Laid}
use ewlibs.Layout.Ending.{screen_mode_filter-Laid}
use ewlibs.Layout.Building.{
  Env, ModeCtx, Mode, text_decoder, tab_expansion_mode, mark_filter, screen_mode, mode_list, Pipe,
  elements, pass_on, run_filter, run_modes,
}

elements-overlay :
    (xs ys : List FilterIo) (b : Buffer) → elements (length xs) (overlay (xs ++ ys) b) ≡ xs
unfolding elements overlay
elements-overlay [] ys b = refl
elements-overlay (x ∷ xs) ys b = ap (λ rest. x ∷ rest) (elements-overlay xs ys (λ j. b (suc j)))

overlay-last :
    (d : FilterIo) (xs ys : List FilterIo) (b : Buffer)
    → 0 < length xs
    → overlay (xs ++ ys) b (length xs - 1) ≡ last_or d xs
unfolding overlay
overlay-last d [] ys b h = absurd (omega (arith, h))
overlay-last d (x ∷ []) ys b h = refl
overlay-last d (x ∷ x' ∷ xs) ys b h =
    ap (overlay (x ∷ x' ∷ xs ++ ys) b) shift
    ∙ overlay-last x (x' ∷ xs) ys (λ j. b (suc j)) (omega arith)
  where
    shift : suc (suc (length xs)) - 1 ≡ suc (suc (length xs) - 1)
    shift = omega arith

length-mark_cells :
    (ctx : MarkFilterContext) (ios : List FilterIo) → length ((mark_cells ctx ios).0) ≡ length ios
unfolding mark_cells
length-mark_cells ctx [] = refl
length-mark_cells ctx (io ∷ ios) = ap suc (length-mark_cells ((mark_cell ctx io).1) ios)

pub length-mark_filter_filter :
    (ctx : MarkFilterContext) (ios : List FilterIo)
    → length ((mark_filter_filter ctx ios).0) ≡ length ios
unfolding mark_filter_filter
length-mark_filter_filter ctx ios = elim (Bool-cases ctx.skip_pass) [
  | inl e ↦ rw e refl
  | inr e ↦ simp e (length-mark_cells ctx ios)
]

pass_on-ends :
    (d : FilterIo) (cells rest : List FilterIo) (pipe : Pipe)
    → 0 < length cells
    → (last_or d cells).end_of_pipe ≡ true
    → (pass_on cells rest pipe).end_of_pipe ≡ true
pass_on-ends d cells rest pipe h e =
    ap (λ b. pipe.end_of_pipe || b)
      (ap (λ io. io.end_of_pipe) (overlay-last d cells rest pipe.pout h) ∙ e)
    ∙ either pipe.end_of_pipe
  where
    either : (b : Bool) → (b || true) ≡ true
    either true = refl
    either false = refl

pass_on-keeps :
    (cells rest : List FilterIo) (pipe : Pipe)
    → pipe.end_of_pipe ≡ true
    → (pass_on cells rest pipe).end_of_pipe ≡ true
pass_on-keeps cells rest pipe h = rw h refl

module _ {F : Type 0} (env : Env F) where
  -- A filter that writes passes its elements on to the next one.
  run_step :
      (mode : Mode) (modes : List Mode) (ctx ctx' : ModeCtx F) (pipe : Pipe)
      (cells rest : List FilterIo)
      → run_filter env mode ctx (elements pipe.nr_in pipe.pin) pipe.pout ≡ some (cells, rest, ctx')
      → length cells ≤ 8192
      → 0 < length cells
      → run_modes env (mode ∷ modes) ctx pipe ≡ run_modes env modes ctx' (pass_on cells rest pipe)
  unfolding run_modes
  run_step mode modes ctx ctx' pipe cells rest e few some_cells =
      let over : ltb 8192 (length cells) ≡ false = ground (arith, few) in
      let none_left : (length cells == 0) ≡ false = ground (arith, some_cells) in
      rw (e, over, none_left) refl

  -- The last filter ends the round, whether it writes or not.
  run_last :
      (mode : Mode) (ctx ctx' : ModeCtx F) (pipe : Pipe) (cells rest : List FilterIo)
      → run_filter env mode ctx (elements pipe.nr_in pipe.pin) pipe.pout ≡ some (cells, rest, ctx')
      → length cells ≤ 8192
      → (pipe' : Pipe) × (run_modes env (mode ∷ []) ctx pipe ≡ some (ctx', pipe'))
        × (pipe.end_of_pipe ≡ true → pipe'.end_of_pipe ≡ true)
  unfolding run_modes
  run_last mode ctx ctx' pipe cells rest e few =
      let over : ltb 8192 (length cells) ≡ false = ground (arith, few) in
      elim (Bool-cases (length cells == 0)) [
        | inl z ↦ (record pipe { pout = overlay rest pipe.pout }, rw (e, over, z) refl, λ h. h)
        | inr z ↦ (pass_on cells rest pipe, rw (e, over, z) refl, λ h. rw h refl)
      ]

  -- The state between two rounds.
  pub record Ready (s v : ℕ) (ctx : ModeCtx F) : Type 0 where
    pub decoder : Serving env.buffer_size ctx.decoder
    pub tabs : ctx.tabs ≡ tab_expansion_init
    pub screen : InRoom s v ctx.screen

  module _ (s v : ℕ) (font : Fonts s v env.device.ft env.device.fresh)
      (small : env.buffer_size < 2 ^ 64) (law : Reads env.buffer_size env.read_forward) where
    pub run_modes-Ready :
        (ctx : ModeCtx F) (pipe : Pipe)
        → Ready s v ctx
        → pipe.nr_in ≡ 0
        → (ctx' : ModeCtx F) × (pipe' : Pipe) × (run_modes env mode_list ctx pipe
            ≡ some (ctx', pipe'))
          × InRoom s v ctx'.screen
          × ((pipe'.end_of_pipe ≡ true)
              ⊎ (Ready s v ctx' × (ctx.decoder.next_offset < ctx'.decoder.next_offset)))
    unfolding run_filter
    run_modes-Ready ctx pipe w none_in =
        let (cells1, dec, e1, (some1, few1, splits, onward)) =
          text_decoder_filter-Served env.buffer_size small env.read_forward law ctx.decoder
            w.decoder pipe.pout in
        let ctx1 = record ctx { decoder = dec } in
        let pipe1 = pass_on cells1 [] pipe in
        let cells2 = tab_expansion_filter tab_expansion_init cells1 pipe1.pout 0 in
        let (least2, most2, _, _) =
          tab_expansion_filter-bounds cells1 pipe1.pout 0 (pipe.pout 0) splits in
        let pipe2 = pass_on cells2 [] pipe1 in
        let m = mark_filter_filter ctx.marks cells2 in
        let n3 = length-mark_filter_filter ctx.marks cells2 in
        let ctx3 = record ctx1 { marks = m.1 } in
        let pipe3 = pass_on (m.0) [] pipe2 in
        let (cells4, rest4, scr, e4, room, laid) =
          screen_mode_filter-Laid s v env.device font (m.0) ctx.screen pipe3.pout w.screen in
        let few4 = length-Laid scr.out (m.0) cells4 laid in
        let ctx4 = record ctx3 { screen = scr } in
        let (pipe4, run4, ends4) =
          run_last screen_mode ctx3 ctx4 pipe3 cells4 rest4
            (rw (elements-overlay (m.0) [] pipe2.pout, e4) refl)
            (omega (arith, few4, n3, most2, few1)) in
        (
          ctx4,
          pipe4,
          run_step text_decoder _ ctx ctx1 pipe cells1 [] (rw e1 refl) (omega (arith, few1)) some1
              ∙ run_step tab_expansion_mode _ ctx1 ctx1 pipe1 cells2 []
                  (rw (elements-overlay cells1 [] pipe.pout, w.tabs) refl)
                  (omega (arith, most2, few1)) (omega (arith, least2, some1))
              ∙ run_step mark_filter _ ctx1 ctx3 pipe2 (m.0) []
                  (rw (elements-overlay cells2 [] pipe1.pout) refl) (omega (arith, n3, most2, few1))
                  (omega (arith, n3, least2, some1))
              ∙ run4,
          room,
          elim onward [
            | inl closes ↦ inl (
                ends4 (
                  pass_on-keeps (m.0) [] pipe2 (
                    pass_on-keeps cells2 [] pipe1
                      (pass_on-ends (pipe.pout 0) cells1 [] pipe some1 (closes (pipe.pout 0))))))
            | inr (serving, further) ↦
                inr (record { decoder = serving; tabs = w.tabs; screen = room }, further)
          ],
        )

-- ===== src/Layout/Rounds.antt =====
-- A round of `screen_mode_filter` fails no assertion, and keeps the pen within the screen.
use ewlibs.Base.{
  if◌then◌else◌, Bool-cases, ℕ, ◌+◌, ◌*◌, ◌%◌, ◌^◌, ◌≤◌, ◌<◌, ◌≡◌, refl, ◌∙◌, subst, inl, inr,
  false, arith,
}
use ewlibs.Layout.Pen.{
  LayoutAction, is_next_line, ScreenModeContext, is_full, next_line, pass_char, ends_line, move_pen,
  below,
}
use ewlibs.Layout.Screening.{Device}
use ewlibs.Layout.Room.{Fonts, InRoom, mul_mono}

-- A position of the screen, as a number: line by line, and column by column.
abbrev pub place : ℕ → ℕ → ℕ
place i j = i * 2 ^ 32 + j

module _ {F : Type 0} (s v : ℕ) (d : Device F) (font : Fonts s v d.ft d.fresh) where
  -- The pen counts no more lines and columns than pixels.
  pen_small : (ctx : ScreenModeContext F) → InRoom s v ctx → (ctx.row < 2 ^ 31) × (ctx.col < 2 ^ 31)
  pen_small ctx w = (
    omega (arith, w.top.0, w.top.1, w.small.1, mul_mono 1 v ctx.row (omega (arith, font.height.0))),
    omega
        (arith, w.left.0, w.left.1, w.small.0, mul_mono 1 s ctx.col (omega (arith, font.width.0))),
  )

  pub next_line-InRoom :
      (ctx : ScreenModeContext F)
      → InRoom s v ctx
      → is_full ctx ≡ false
      → InRoom s v (next_line ctx)
        × ((next_line ctx).y ≡ ctx.y + v)
        × (ctx.y + v < ctx.max_height_px)
        × (place ctx.row ctx.col < place ((next_line ctx).row) ((next_line ctx).col))
  next_line-InRoom ctx w room =
      let step : below ctx ≡ ctx.y + v =
        omega (arith, w.space.1, w.top.1, w.small.1, font.height.1) in
      let less : ctx.y + v < ctx.max_height_px = ground (arith, room, step) in
      (
        record {
          fits = w.fits;
          space = w.space;
          wide = w.wide;
          tall = w.tall;
          small = w.small;
          left = (omega arith, omega arith);
          top = (
            omega (
              arith,
              step,
              w.top.0,
              mul_mono ((ctx.row + 1) % 2 ^ 32) (ctx.row + 1) v (omega arith),
            ),
            omega (arith, step, less),
          );
          cached = w.cached;
        },
        step,
        less,
        omega (arith, (pen_small ctx w).0, (pen_small ctx w).1),
      )

  pass_char-InRoom :
      (ctx : ScreenModeContext F) (action : LayoutAction) (advance : ℕ)
      → InRoom s v ctx
      → s ≤ advance
      → ctx.x + advance < ctx.max_width_px
      → InRoom s v (pass_char action advance ctx)
        × ((pass_char action advance ctx).y ≡ ctx.y)
        × ((pass_char action advance ctx).max_height_px ≡ ctx.max_height_px)
        × (is_full (pass_char action advance ctx) ≡ is_full ctx)
        × (place ctx.row ctx.col + (if is_next_line action then 0 else 1)
            ≤ place ((pass_char action advance ctx).row) ((pass_char action advance ctx).col))
  pass_char-InRoom ctx action advance w least less = elim (Bool-cases (is_next_line action)) [
    | inl e ↦ rw e (w, refl, refl, refl, omega arith)
    | inr e ↦
        let wrap : (ctx.x + advance) % 2 ^ 32 ≡ ctx.x + advance = omega (arith, less, w.small.0) in
        rw e (
          record {
            fits = w.fits;
            space = w.space;
            wide = w.wide;
            tall = w.tall;
            small = w.small;
            left = (
              omega (
                arith,
                wrap,
                w.left.0,
                least,
                mul_mono ((ctx.col + 1) % 2 ^ 32) (ctx.col + 1) s (omega arith),
              ),
              omega (arith, wrap, less),
            );
            top = w.top;
            cached = w.cached;
          },
          refl,
          refl,
          refl,
          omega (arith, (pen_small ctx w).1),
        )
  ]

  -- What a context keeps over a round.
  pub record Further (ctx ctx' : ScreenModeContext F) : Type 0 where
    pub room : InRoom s v ctx'
    pub bottom : ctx'.max_height_px ≡ ctx.max_height_px
    pub down : ctx.y ≤ ctx'.y
    pub ahead : place ctx.row ctx.col ≤ place ctx'.row ctx'.col

  pub move_pen-Further :
      (ctx : ScreenModeContext F) (action : LayoutAction) (advance : ℕ)
      → InRoom s v ctx
      → is_full ctx ≡ false
      → s ≤ advance
      → ctx.x + advance < ctx.max_width_px
      → Further ctx (move_pen action advance ctx)
        × (place ctx.row ctx.col
            < place ((move_pen action advance ctx).row) ((move_pen action advance ctx).col))
  unfolding move_pen
  move_pen-Further ctx action advance w room least less =
      let (w', hy, hh, hf, on) = pass_char-InRoom ctx action advance w least less in
      let moved = pass_char action advance ctx in
      elim (Bool-cases (ends_line action moved)) [
        | inl e ↦
            let (w'', step, _, past) = next_line-InRoom moved w' (hf ∙ room) in
            let on' : place ctx.row ctx.col ≤ place moved.row moved.col = omega (arith, on) in
            rw e (
              record {
                room = w'';
                bottom = hh;
                down = omega (arith, step, hy);
                ahead = omega (arith, on', past);
              },
              omega (arith, on', past),
            )
        | inr e ↦
            let char : is_next_line action ≡ false = ground (arith, e) in
            let on' : place ctx.row ctx.col + 1 ≤ place moved.row moved.col =
              subst (λ b. place ctx.row ctx.col + (if b then 0 else 1) ≤ place moved.row moved.col)
                char on in
            rw e (
              record {
                room = w';
                bottom = hh;
                down = omega (arith, hy);
                ahead = omega (arith, on');
              },
              omega (arith, on'),
            )
      ]

  pub move_pen-out :
      (ctx : ScreenModeContext F) (action : LayoutAction) (advance : ℕ)
      → (move_pen action advance ctx).out ≡ ctx.out
  unfolding move_pen
  move_pen-out ctx action advance =
      elim (Bool-cases (ends_line action (pass_char action advance ctx))) [
        | inl e ↦ rw e (pass_out ctx action advance)
        | inr e ↦ rw e (pass_out ctx action advance)
      ]
    where
      pass_out :
          (ctx : ScreenModeContext F) (action : LayoutAction) (advance : ℕ)
          → (pass_char action advance ctx).out ≡ ctx.out
      pass_out ctx action advance = elim (Bool-cases (is_next_line action)) [
        | inl e ↦ rw e refl
        | inr e ↦ rw e refl
      ]

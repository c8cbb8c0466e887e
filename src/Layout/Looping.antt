-- ===== src/Layout/Looping.antt =====
-- What `screen_mode_filter` leaves when it puts a code point, or goes to the next line.
use ewlibs.Base.{
  Bool-cases, length, ℕ, ◌+◌, ◌%◌, ◌^◌, ◌≤◌, ◌<◌, ◌≡◌, refl, sym, subst, inl, inr, true, false,
  ◌||◌, some, arith,
}
use ewlibs.Layout.{FilterIo}
use ewlibs.Layout.Pen.{LayoutAction, ScreenModeContext, is_full, next_line, move_pen, quits}
use ewlibs.Layout.Screening.{Device, Round, ended, again, put, place_cell, wrap_round, put_round}
use ewlibs.Layout.Room.{Fonts, InRoom}
use ewlibs.Layout.Placing.{Replaced, put_cpinfo-Placed}
use ewlibs.Base.Every.{All}
use ewlibs.Layout.Fitting.{less_of_mul}
use ewlibs.Layout.Rounds.{place, next_line-InRoom, Further, move_pen-Further, move_pen-out}
use ewlibs.Screen.{CodepointInfo}
use ewlibs.Screen.Grid.{Screen, put_cell}

-- The same input, as far as the filter copies it.
abbrev pub Copies : FilterIo → FilterIo → Type 0
Copies io io' =
    (io'.offset ≡ io.offset)
    × (io'.split_count ≡ io.split_count)
    × (io'.is_selected ≡ io.is_selected)
    × (io'.real_cp ≡ io.real_cp)

module _ {F : Type 0} (s v : ℕ) (d : Device F) (font : Fonts s v d.ft d.fresh) where
  -- The pen's cell shows what the filter writes, and no other cell has changed.
  pub record Shown (ctx : ScreenModeContext F) (real_cp : ℕ) (cell : FilterIo) (scr' : Screen F)
      : Type 0 where
    pub info : CodepointInfo F
    pub replaced : Replaced ctx.out ctx.row ctx.col info scr'
    pub shows :
        (info.real_codepoint ≡ real_cp)
        × (info.offset ≡ cell.offset)
        × (info.split_count ≡ cell.split_count)
        × (info.is_selected ≡ cell.is_selected)

  -- What a round leaves: an input that does not fit is tried again further down, one that fits is
  -- shown, and the pen moves on.
  abbrev pub After : ScreenModeContext F → ℕ → FilterIo → Round F → Type 0
  After ctx real_cp cur (ended cells rest ctx') =
      Further s v d font ctx ctx'
      × (length cells ≤ 1)
      × All (λ c. (c.valid ≡ false) × Copies cur c) cells
      × (ctx'.out ≡ ctx.out)
  After ctx real_cp cur (again cur' ctx') =
      Further s v d font ctx ctx' × (ctx.y < ctx'.y) × Copies cur cur' × (ctx'.out ≡ ctx.out)
  After ctx real_cp cur (put cell ctx') =
      Further s v d font ctx ctx'
      × Shown ctx real_cp cell ctx'.out
      × Copies cur cell
      × (place ctx.row ctx.col < place ctx'.row ctx'.col)

  pub wrap_round-After :
      (ctx : ScreenModeContext F) (real_cp : ℕ) (cur0 cur : FilterIo)
      → InRoom s v ctx
      → is_full ctx ≡ false
      → Copies cur0 cur
      → After ctx real_cp cur0 (wrap_round ctx cur)
  unfolding wrap_round
  wrap_round-After ctx real_cp cur0 cur w room copies =
      let (w', step, less, past) = next_line-InRoom s v d font ctx w room in
      let f : Further s v d font ctx (next_line ctx) = record {
        room = w';
        bottom = refl;
        down = omega (arith, step);
        ahead = omega (arith, past);
      } in
      elim (Bool-cases (is_full (next_line ctx))) [
        | inl e ↦ rw e (f, omega arith, tt, refl)
        | inr e ↦ rw e (f, omega (arith, step, font.height.0), copies, refl)
      ]

  pub put_round-After :
      (action : LayoutAction) (advance : ℕ) (ctx : ScreenModeContext F) (real_cp : ℕ)
      (cur0 cur : FilterIo)
      → InRoom s v ctx
      → is_full ctx ≡ false
      → s ≤ advance
      → ctx.x + advance < ctx.max_width_px
      → Copies cur0 cur
      → (r : Round F) × (put_round d.to_float action advance ctx real_cp cur ≡ some r)
        × After ctx real_cp cur0 r
  unfolding put_round
  put_round-After action advance ctx real_cp cur0 cur w room least less copies =
      let (_, step, top, _) = next_line-InRoom s v d font ctx w room in
      let (scr', e, p) =
        put_cpinfo-Placed d.to_float ctx real_cp cur w.fits
          (less_of_mul ctx.row ctx.out.max_l v (omega (arith, w.top.0, top, w.tall)))
          (less_of_mul ctx.col ctx.out.max_c s (omega (arith, w.left.0, less, w.wide))) in
      let done = record ctx { out = scr'; nr_put = (ctx.nr_put + 1) % 2 ^ 32 } in
      let w' : InRoom s v done = record {
        fits = p.replaced.fits;
        space = w.space;
        wide = rw (p.replaced.limits.1) w.wide;
        tall = rw (p.replaced.limits.0) w.tall;
        small = w.small;
        left = w.left;
        top = w.top;
        cached = w.cached;
      } in
      let (f, past) = move_pen-Further s v d font done action advance w' room least less in
      (
        put (record cur { valid = true; quit = quits action advance done || cur.quit })
            (move_pen action advance done),
        rw e refl,
        (
          record { room = f.room; bottom = f.bottom; down = f.down; ahead = f.ahead },
          record {
            info = place_cell d.to_float ctx cur (put_cell real_cp cur.cp p.old);
            replaced =
                subst (Replaced ctx.out ctx.row ctx.col _)
                  (sym (move_pen-out s v d font done action advance)) p.replaced;
            shows = (refl, refl, refl, refl);
          },
          copies,
          past,
        ),
      )

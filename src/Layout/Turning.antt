-- ===== src/Layout/Turning.antt =====
-- A round of `screen_mode_filter` fails no assertion: it shows its input, moves the pen to the next
-- line, or ends the loop.
use ewlibs.Base.{
  Bool-cases, ◌>>=◌, ℕ, ◌+◌, ◌%◌, ◌^◌, ◌≡◌, refl, inl, inr, true, false, Option, none, some, [],
  ◌∷◌, arith, ◌≤◌,
}
use ewlibs.Layout.{FilterIo}
use ewlibs.Layout.Glyphs.{Cache}
use ewlibs.Layout.Pen.{LayoutAction, codepoint_fits, filter_codepoint, ScreenModeContext, is_full}
use ewlibs.Layout.Screening.{
  Device, fetch, Round, ended, again, put, count_fetch, wrap_round, switch_round, counted_round,
  screen_round,
}
use ewlibs.Layout.Room.{Fonts, InRoom}
use ewlibs.Layout.Fitting.{codepoint_fits-Found}
use ewlibs.Layout.Looping.{After, wrap_round-After, put_round-After}

module _ {F : Type 0} (s v : ℕ) (d : Device F) (font : Fonts s v d.ft d.fresh) where
  -- What is counted, cached or remembered makes no difference.
  recast :
      (ctx : ScreenModeContext F) (n cp : ℕ) (cache : Cache) (real_cp : ℕ) (cur : FilterIo)
      (r : Round F)
      → After s v d font
          (record ctx { cp_count = n; previous_cp = cp; cache = cache })
          real_cp
          cur
          r
      → After s v d font ctx real_cp cur r
  recast ctx n cp cache real_cp cur (ended cells rest ctx') (f, few, all, same) =
      (record { room = f.room; bottom = f.bottom; down = f.down; ahead = f.ahead }, few, all, same)
  recast ctx n cp cache real_cp cur (again cur' ctx') (f, lower, copies, same) = (
    record { room = f.room; bottom = f.bottom; down = f.down; ahead = f.ahead },
    lower,
    copies,
    same,
  )
  recast ctx n cp cache real_cp cur (put cell ctx') (f, h, copies, past) = (
    record { room = f.room; bottom = f.bottom; down = f.down; ahead = f.ahead },
    record { info = h.info; replaced = h.replaced; shows = h.shows },
    copies,
    past,
  )

  -- The font is asked for no code point below the space.
  filter_codepoint-least : (previous_cp cp : ℕ) → 32 ≤ (filter_codepoint previous_cp cp).0
  unfolding filter_codepoint
  filter_codepoint-least previous_cp cp = ground arith

  fit_round-After :
      (fcp : ℕ) (action : LayoutAction) (ctx : ScreenModeContext F) (real_cp cp : ℕ)
      (cur : FilterIo)
      → 32 ≤ fcp
      → InRoom s v ctx
      → is_full ctx ≡ false
      → (r : Round F) × ((codepoint_fits d.ft d.fresh ctx.cache fcp ctx.max_width_px ctx.x fcp
            >>= λ fit.
                switch_round d.to_float action fit
                  (record ctx { previous_cp = cp; cache = fit.cache })
                  real_cp
                  (record cur { cp = fit.cp_filtered }))
          ≡ some r)
        × After s v d font ctx real_cp cur r
  unfolding switch_round
  fit_round-After fcp action ctx real_cp cp cur least w room =
      let (fit, e, k) =
        codepoint_fits-Found s v d font ctx.cache fcp ctx.max_width_px ctx.x least w.cached
          w.small.0 w.left.1 in
      let ctx' = record ctx { previous_cp = cp; cache = fit.cache } in
      let cur' = record cur { cp = fit.cp_filtered } in
      let w' : InRoom s v ctx' = record {
        fits = w.fits;
        space = w.space;
        wide = w.wide;
        tall = w.tall;
        small = w.small;
        left = w.left;
        top = w.top;
        cached = k.cached;
      } in
      elim k.verdict [
        | inl (ok, less) ↦
            let (r, run, after) =
              put_round-After s v d font action fit.adv.x ctx' real_cp cur cur' w' room k.wide less
                (refl, refl, refl, refl) in
            (
              r,
              rw (e, switch_round, ok) run,
              recast ctx ctx.cp_count cp fit.cache real_cp cur r after,
            )
        | inr no_room ↦ (
          wrap_round ctx' cur',
          rw (e, switch_round, no_room) refl,
          recast ctx ctx.cp_count cp fit.cache real_cp cur _
              (wrap_round-After s v d font ctx' real_cp cur cur' w' room (refl, refl, refl, refl)),
        )
      ]

  counted_round-After :
      (ctx : ScreenModeContext F) (n : ℕ) (cur io : FilterIo)
      → InRoom s v ctx
      → (r : Round F) × (counted_round d (record ctx { cp_count = n }) cur io ≡ some r)
        × After s v d font ctx io.real_cp cur r
  unfolding counted_round
  counted_round-After ctx n cur io w =
      let ctx1 = record ctx { cp_count = n } in
      let w1 : InRoom s v ctx1 = record {
        fits = w.fits;
        space = w.space;
        wide = w.wide;
        tall = w.tall;
        small = w.small;
        left = w.left;
        top = w.top;
        cached = w.cached;
      } in
      let fcp = filter_codepoint ctx.previous_cp io.cp in
      elim (Bool-cases (is_full ctx)) [
        | inl e ↦ (
          ended (record cur { valid = false; quit = true; end_of_pipe = true } ∷ []) [] ctx1,
          rw e refl,
          (
            record { room = w1; bottom = refl; down = omega arith; ahead = omega arith },
            omega arith,
            ((refl, (refl, refl, refl, refl)), tt),
            refl,
          ),
        )
        | inr e ↦
            let (r, run, after) =
              fit_round-After fcp.0 fcp.1 ctx1 io.real_cp io.cp cur
                (filter_codepoint-least ctx.previous_cp io.cp) w1 e in
            (r, rw e run, recast ctx n ctx.previous_cp ctx.cache io.real_cp cur r after)
      ]

  -- A round of the loop fails no assertion.
  pub screen_round-After :
      (ctx : ScreenModeContext F) (pending : Option FilterIo) (old io : FilterIo)
      → InRoom s v ctx
      → (r : Round F) × (screen_round d ctx pending old io ≡ some r)
        × After s v d font ctx io.real_cp (fetch pending old io) r
  unfolding screen_round count_fetch
  screen_round-After ctx none old io w =
      counted_round-After ctx ((ctx.cp_count + 1) % 2 ^ 32) (fetch none old io) io w
  screen_round-After ctx (some p) old io w =
      counted_round-After ctx ctx.cp_count (fetch (some p) old io) io w

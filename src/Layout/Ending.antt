-- ===== src/Layout/Ending.antt =====
-- The loop of `screen_mode_filter`: it ends, within its fuel, fails no assertion, and leaves on the
-- screen what it writes.
use ewlibs.Base.{
  length, ℕ, zero, suc, ◌+◌, ◌-◌, ◌<◌, max, ◌≡◌, refl, Option, none, some, List, [], ◌∷◌, arith,
}
use ewlibs.Layout.{FilterIo, Buffer}
use ewlibs.Layout.Pen.{ScreenModeContext}
use ewlibs.Layout.Screening.{
  Device, fetch, Round, ended, again, put, screen_round, screen_loop, screen_mode_filter,
}
use ewlibs.Layout.Room.{Fonts, InRoom}
use ewlibs.Layout.Looping.{After}
use ewlibs.Layout.Turning.{screen_round-After}
use ewlibs.Layout.Showing.{Pends, Laid, Looped, fetch-Copies, copy_on, go_ended, go_again, go_put}

module _ {F : Type 0} (s v : ℕ) (d : Device F) (font : Fonts s v d.ft d.fresh) where
  -- The loop from a state ends, and leaves what it should.
  abbrev Goes : ℕ → List FilterIo → ScreenModeContext F → Option FilterIo → Buffer → ℕ → Type 0
  Goes fuel ios ctx pending out at =
      (cells : List FilterIo) × (rest : List FilterIo) × (ctx' : ScreenModeContext F) × (screen_loop
          d fuel ios ctx pending out at
        ≡ some (cells, rest, ctx'))
      × Looped s v d font ios ctx cells ctx'

  -- A round that does not end the loop takes an input, or moves the pen down.
  pub screen_loop-Looped :
      (fuel : ℕ) (ios : List FilterIo) (ctx : ScreenModeContext F) (pending : Option FilterIo)
      (out : Buffer) (at : ℕ)
      → InRoom s v ctx
      → Pends ios pending
      → length ios + (ctx.max_height_px - ctx.y) < fuel
      → Goes fuel ios ctx pending out at
  unfolding screen_loop
  screen_loop-Looped zero ios ctx pending out at w p h = absurd (omega (arith, h))
  screen_loop-Looped (suc fuel) [] ctx pending out at w p h = (
    [],
    [],
    ctx,
    refl,
    record {
      further = record { room = w; bottom = refl; down = omega arith; ahead = omega arith };
      laid = tt;
      kept = λ i j h. refl;
    },
  )
  screen_loop-Looped (suc fuel) (io ∷ ios) ctx pending out at w p h =
      let (r, run, after) = screen_round-After s v d font ctx pending (out at) io w in
      next fuel io ios ctx pending out at w p h r run after (screen_loop-Looped fuel)
    where
      next :
          (fuel : ℕ) (io : FilterIo) (ios : List FilterIo) (ctx : ScreenModeContext F)
          (pending : Option FilterIo) (out : Buffer) (at : ℕ)
          → InRoom s v ctx
          → Pends (io ∷ ios) pending
          → length (io ∷ ios) + (ctx.max_height_px - ctx.y) < suc fuel
          → (r : Round F) → screen_round d ctx pending (out at) io ≡ some r
          → After s v d font ctx io.real_cp (fetch pending (out at) io) r
          → ((ios : List FilterIo) (ctx : ScreenModeContext F) (pending : Option FilterIo)
                (out : Buffer) (at : ℕ)
              → InRoom s v ctx
              → Pends ios pending
              → length ios + (ctx.max_height_px - ctx.y) < fuel
              → Goes fuel ios ctx pending out at)
          → Goes (suc fuel) (io ∷ ios) ctx pending out at
      next fuel io ios ctx pending out at w p h (ended cells rest ctx') run after ih = (
        cells,
        rest,
        ctx',
        rw run refl,
        go_ended s v d font io ios ctx ctx' (fetch pending (out at) io) cells rest
            (fetch-Copies s v d font ios pending (out at) io p) after,
      )
      next fuel io ios ctx pending out at w p h (again cur ctx') run (f, lower, copies, same) ih =
          let (cells, rest, ctx'', e, l) =
            ih (io ∷ ios) ctx' (some cur) out at f.room
              (copy_on s v d font io (fetch pending (out at) io) cur
                (fetch-Copies s v d font ios pending (out at) io p) copies)
              (omega (arith, h, lower, f.bottom, f.room.top.1)) in
          (
            cells,
            rest,
            ctx'',
            rw run e,
            go_again s v d font (io ∷ ios) ctx ctx' ctx'' cells f same l,
          )
      next fuel io ios ctx pending out at w p h (put cell ctx') run (f, shown, copies, past) ih =
          let (cells, rest, ctx'', e, l) =
            ih ios ctx' none out (at + 1) f.room tt (omega (arith, h, f.bottom, f.down)) in
          (
            cell ∷ cells,
            rest,
            ctx'',
            rw (run, e) refl,
            go_put s v d font io cell ios ctx ctx' ctx'' (fetch pending (out at) io) cells
                (fetch-Copies s v d font ios pending (out at) io p) (f, shown, copies, past) l,
          )

  -- With a font that has a glyph for the space, between 1 and 2 ^ 31 - 1 pixels wide and tall, and
  -- of which what it leaves in the metrics for any code point from the space on, those of the
  -- substitute for a glyph that it lacks included, is at least as wide as the space, below 2 ^ 31
  -- pixels wide, and not without height, and from a pen within a screen that has the lines and
  -- columns for such glyphs and a size below 2 ^ 31 pixels, with a cache of such metrics: the filter
  -- fails no assertion, ends, leaves the pen within the screen, and leaves on the screen the cells
  -- that it writes as valid; they are the inputs in their order.
  pub screen_mode_filter-Laid :
      (ios : List FilterIo) (ctx : ScreenModeContext F) (out : Buffer)
      → InRoom s v ctx
      → (cells : List FilterIo) × (rest : List FilterIo) × (ctx' : ScreenModeContext F)
        × (screen_mode_filter d ios ctx out ≡ some (cells, rest, ctx'))
        × InRoom s v ctx'
        × Laid ctx'.out ios cells
  unfolding screen_mode_filter
  screen_mode_filter-Laid ios ctx out w =
      let (cells, rest, ctx', e, l) =
        screen_loop-Looped (length ios + ctx.max_height_px + 1) ios ctx none out 0 w tt
          (omega arith) in
      let k = l.further.room in
      (
        cells,
        rest,
        record ctx' { max_row = max ctx'.col ctx'.max_col },
        rw e refl,
        record {
          fits = k.fits;
          space = k.space;
          wide = k.wide;
          tall = k.tall;
          small = k.small;
          left = k.left;
          top = k.top;
          cached = k.cached;
        },
        l.laid,
      )

-- ===== src/Layout/Showing.antt =====
-- What the loop of `screen_mode_filter` leaves on the screen, round by round.
use ewlibs.Base.{
  ◌==◌, ==_iff, Bool-cases, length, ℕ, ◌≤◌, ◌<◌, ◌≡◌, refl, sym, ap, ◌∙◌, ◌≢◌, ◌⊎◌, inl, inr, true,
  Option, none, some, List, [], ◌∷◌, arith,
}
use ewlibs.Layout.{FilterIo}
use ewlibs.Layout.Pen.{ScreenModeContext}
use ewlibs.Layout.Screening.{Device, fetch, ended, put}
use ewlibs.Layout.Room.{Fonts}
use ewlibs.Layout.Rounds.{place, Further}
use ewlibs.Layout.Looping.{Copies, After}
use ewlibs.Screen.{CodepointInfo}
use ewlibs.Screen.Grid.{Screen}
use ewlibs.Screen.Writing.{cell_at}

-- The input that did not fit is the next one.
abbrev pub Pends : List FilterIo → Option FilterIo → Type 0
Pends ios none = Unit
Pends [] (some p) = Unit
Pends (io ∷ ios) (some p) = Copies io p

module _ {F : Type 0} where
  -- A cell that the filter writes is on the screen.
  pub record OnScreen (scr : Screen F) (cell : FilterIo) : Type 0 where
    pub line : ℕ
    pub column : ℕ
    pub info : CodepointInfo F
    pub there : cell_at scr line column ≡ some info
    pub shows :
        (info.real_codepoint ≡ cell.real_cp)
        × (info.offset ≡ cell.offset)
        × (info.split_count ≡ cell.split_count)
        × (info.is_selected ≡ cell.is_selected)

  -- The cells that are counted are the inputs, in their order, as many as there is room for; those
  -- that are valid are on the screen.
  abbrev pub Laid : Screen F → List FilterIo → List FilterIo → Type 0
  Laid scr ios [] = Unit
  Laid scr [] (cell ∷ cells) = ⊥
  Laid scr (io ∷ ios) (cell ∷ cells) =
      Copies io cell × (cell.valid ≡ true → OnScreen scr cell) × Laid scr ios cells

  pub length-Laid :
      (scr : Screen F) (ios cells : List FilterIo) → Laid scr ios cells → length cells ≤ length ios
  length-Laid scr ios [] h = omega arith
  length-Laid scr [] (cell ∷ cells) h = absurd h
  length-Laid scr (io ∷ ios) (cell ∷ cells) (_, _, h) = omega (arith, length-Laid scr ios cells h)

  module _ (s v : ℕ) (d : Device F) (font : Fonts s v d.ft d.fresh) where
    -- What the loop leaves: no cell before the pen has changed.
    pub record Looped (ios : List FilterIo) (ctx : ScreenModeContext F) (cells : List FilterIo)
        (ctx' : ScreenModeContext F) : Type 0 where
      pub further : Further s v d font ctx ctx'
      pub laid : Laid ctx'.out ios cells
      pub kept :
          (i j : ℕ) → place i j < place ctx.row ctx.col → cell_at ctx'.out i j ≡ cell_at ctx.out i j

    follow :
        {ctx ctx' ctx'' : ScreenModeContext F}
        → Further s v d font ctx ctx'
        → Further s v d font ctx' ctx''
        → Further s v d font ctx ctx''
    follow f f' = record {
      room = f'.room;
      bottom = f'.bottom ∙ f.bottom;
      down = omega (arith, f.down, f'.down);
      ahead = omega (arith, f.ahead, f'.ahead);
    }

    pub fetch-Copies :
        (ios : List FilterIo) (pending : Option FilterIo) (old io : FilterIo)
        → Pends (io ∷ ios) pending
        → Copies io (fetch pending old io)
    unfolding fetch
    fetch-Copies ios none old io h = (refl, refl, refl, refl)
    fetch-Copies ios (some p) old io h = h

    pub copy_on : (a b c : FilterIo) → Copies a b → Copies b c → Copies a c
    copy_on a b c (a1, a2, a3, a4) (b1, b2, b3, b4) = (b1 ∙ a1, b2 ∙ a2, b3 ∙ a3, b4 ∙ a4)

    apart : (i j row col : ℕ) → place i j < place row col → (i ≢ row) ⊎ (j ≢ col)
    apart i j row col h = elim (Bool-cases (i == row)) [
      | inr e ↦ inl (λ q. ground (arith, e))
      | inl e ↦ inr (λ q. omega (arith, h, q, (==_iff _ _).0 e))
    ]

    pub go_ended :
        (io : FilterIo) (ios : List FilterIo) (ctx ctx' : ScreenModeContext F) (cur : FilterIo)
        (cells rest : List FilterIo)
        → Copies io cur
        → After s v d font ctx io.real_cp cur (ended cells rest ctx')
        → Looped (io ∷ ios) ctx cells ctx'
    go_ended io ios ctx ctx' cur [] rest c (f, few, all, same) = record {
      further = f;
      laid = tt;
      kept = λ i j h. rw same refl;
    }
    go_ended io ios ctx ctx' cur (cell ∷ []) rest c (f, few, ((off, c'), _), same) = record {
      further = f;
      laid = (copy_on io cur cell c c', (λ on. absurd (cc)), tt);
      kept = λ i j h. rw same refl;
    }
    go_ended io ios ctx ctx' cur (cell ∷ cell' ∷ cells) rest c (f, few, all, same) =
        absurd (omega (arith, few))

    pub go_again :
        (ios : List FilterIo) (ctx ctx' ctx'' : ScreenModeContext F) (cells : List FilterIo)
        → Further s v d font ctx ctx'
        → ctx'.out ≡ ctx.out
        → Looped ios ctx' cells ctx''
        → Looped ios ctx cells ctx''
    go_again ios ctx ctx' ctx'' cells f same l = record {
      further = follow f l.further;
      laid = l.laid;
      kept = λ i j h. l.kept i j (omega (arith, h, f.ahead)) ∙ ap (λ scr. cell_at scr i j) same;
    }

    pub go_put :
        (io cell : FilterIo) (ios : List FilterIo) (ctx ctx' ctx'' : ScreenModeContext F)
        (cur : FilterIo) (cells : List FilterIo)
        → Copies io cur
        → After s v d font ctx io.real_cp cur (put cell ctx')
        → Looped ios ctx' cells ctx''
        → Looped (io ∷ ios) ctx (cell ∷ cells) ctx''
    go_put io cell ios ctx ctx' ctx'' cur cells c (f, shown, c', past) l =
        let copied = copy_on io cur cell c c' in
        let (real, off, split, sel) = shown.shows in
        record {
          further = follow f l.further;
          laid = (
            copied,
            (λ on. record {
              line = ctx.row;
              column = ctx.col;
              info = shown.info;
              there = l.kept ctx.row ctx.col past ∙ shown.replaced.here;
              shows = (real ∙ sym (copied.3), off, split, sel);
            }),
            l.laid,
          );
          kept = λ i j h.
              l.kept i j (omega (arith, h, f.ahead))
              ∙ shown.replaced.elsewhere i j (apart i j ctx.row ctx.col h);
        }

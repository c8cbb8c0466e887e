-- ===== src/Layout/Placing.antt =====
-- What `screen_mode_filter` does to the screen when it puts a code point.
use ewlibs.Base.{
  ◌==◌, ==_iff, Bool-cases, Option-cases, ◌>>=◌, some_inj, length, get_elem?, set, length-set,
  get_elem?-set_self, get_elem?-set_ne, get_elem?-lt, ℕ, ◌<◌, ◌≡◌, refl, sym, ap, ◌∙◌, subst, ◌≢◌,
  ◌⊎◌, inl, inr, none, some, arith,
}
use ewlibs.Layout.{FilterIo}
use ewlibs.Layout.Pen.{ScreenModeContext}
use ewlibs.Layout.Screening.{place_cell, set_in_line, set_cell, mark_ends, put_cpinfo}
use ewlibs.Screen.{CodepointInfo, ScreenLine}
use ewlibs.Screen.Grid.{Screen, put_cell}
use ewlibs.Screen.Bounds.{FitsLine, Fits}
use ewlibs.Screen.Writing.{cell_at, Written, screen_put_cp-Written}

module _ {F : Type 0} where
  -- One cell of the screen is `cell`, and no other one has changed.
  pub record Replaced (scr : Screen F) (line column : ℕ) (cell : CodepointInfo F) (scr' : Screen F)
      : Type 0 where
    pub fits : Fits scr'
    pub limits : (scr'.max_l ≡ scr.max_l) × (scr'.max_c ≡ scr.max_c)
    pub here : cell_at scr' line column ≡ some cell
    pub elsewhere : (i j : ℕ) → (i ≢ line) ⊎ (j ≢ column) → cell_at scr' i j ≡ cell_at scr i j

  module _ (scr : Screen F) (w : Fits scr) (line column : ℕ) (cell : CodepointInfo F)
      (l : ScreenLine F) (row : get_elem? scr.line_array line ≡ some l)
      (inside : column < length l.cpinfo_array) where
    abbrev replaced : Screen F
    replaced = record scr { line_array = set scr.line_array line (set_in_line column cell l) }

    row_kept : (i : ℕ) → i ≢ line → get_elem? replaced.line_array i ≡ get_elem? scr.line_array i
    row_kept i h = get_elem?-set_ne scr.line_array line i _ (λ q. h (sym q))

    row_set : get_elem? replaced.line_array line ≡ some (set_in_line column cell l)
    row_set = get_elem?-set_self scr.line_array line _ (get_elem?-lt scr.line_array line row)

    replaced-each :
        (i : ℕ) (l' : ScreenLine F)
        → get_elem? replaced.line_array i ≡ some l'
        → FitsLine scr.max_c l'
    replaced-each i l' h = elim (Bool-cases (i == line)) [
      | inl e ↦
          subst (FitsLine scr.max_c)
            (some_inj
              (sym row_set ∙ ap (get_elem? replaced.line_array) (sym ((==_iff _ _).0 e)) ∙ h))
            (record {
              cells = length-set l.cpinfo_array column cell ∙ (w.each line l row).cells;
              used = (w.each line l row).used;
            })
      | inr e ↦ w.each i l' (sym (row_kept i (λ q. ground arith)) ∙ h)
    ]

    elsewhere_lem : (i j : ℕ) → (i ≢ line) ⊎ (j ≢ column) → cell_at replaced i j ≡ cell_at scr i j
    elsewhere_lem i j h = elim (Bool-cases (i == line)) [
      | inr e ↦ ap (λ o. o >>= λ m. get_elem? m.cpinfo_array j) (row_kept i (λ q. ground arith))
      | inl e ↦
          subst (λ k. cell_at replaced k j ≡ cell_at scr k j) (sym ((==_iff _ _).0 e))
            (rw (row_set, row)
              (get_elem?-set_ne l.cpinfo_array column j cell
                (λ q. elim h [ inl ne ↦ ne ((==_iff _ _).0 e) | inr ne ↦ ne (sym q) ])))
    ]

    set_cell-Replaced :
        (set_cell line column cell scr ≡ some replaced) × Replaced scr line column cell replaced
    unfolding set_cell
    set_cell-Replaced = (
      rw row refl,
      record {
        fits = record {
          lines = length-set scr.line_array line _ ∙ w.lines;
          used = w.used;
          each = replaced-each;
          narrow = w.narrow;
          short = w.short;
        };
        limits = (refl, refl);
        here = rw row_set (get_elem?-set_self l.cpinfo_array column cell inside);
        elsewhere = elsewhere_lem;
      },
    )

  -- The line of a cell that is there.
  line_of :
      (scr : Screen F) (i j : ℕ) (cell : CodepointInfo F)
      → cell_at scr i j ≡ some cell
      → (l : ScreenLine F) × (get_elem? scr.line_array i ≡ some l) × (j < length l.cpinfo_array)
  line_of scr i j cell h = elim (Option-cases (get_elem? scr.line_array i)) [
    | inl e ↦ absurd (elsewise (sym h ∙ ap (λ o. o >>= λ m. get_elem? m.cpinfo_array j) e))
    | inr (l, e) ↦ (
      l,
      e,
      get_elem?-lt l.cpinfo_array j (sym (ap (λ o. o >>= λ m. get_elem? m.cpinfo_array j) e) ∙ h),
    )
  ]
    where
      elsewise : some cell ≡ none → ⊥
      elsewise q = cc

  -- What a call leaves: the cell of the pen holds the code point and what the filter knows of it, it
  -- is the last cell, the first one too when there was none, and no other cell has changed.
  pub record Placed (to_float : ℕ → F) (ctx : ScreenModeContext F) (real_cp : ℕ) (cur : FilterIo)
      (scr' : Screen F) : Type 0 where
    pub old : CodepointInfo F
    pub there : cell_at ctx.out ctx.row ctx.col ≡ some old
    pub replaced :
        Replaced ctx.out ctx.row ctx.col
          (place_cell to_float ctx cur (put_cell real_cp cur.cp old))
          scr'
    pub last : scr'.last_cpinfo ≡ place_cell to_float ctx cur (put_cell real_cp cur.cp old)

  before :
      {real_cp vcp line column : ℕ} {scr scr1 : Screen F}
      → Written scr real_cp vcp line column scr1
      → (i j : ℕ) → (i ≢ line) ⊎ (j ≢ column)
      → cell_at scr1 i j ≡ cell_at scr i j
  before {line = line} {column = column} {scr = scr} {scr1 = scr1} k i j h =
      elim (Bool-cases (i == line)) [
        | inr e ↦
            ap (λ o. o >>= λ m. get_elem? m.cpinfo_array j) (k.other_line i (λ q. ground arith))
        | inl e ↦
            subst (λ n. cell_at scr1 n j ≡ cell_at scr n j) (sym ((==_iff _ _).0 e))
              (k.other_column j (λ q. elim h [ inl ne ↦ ne ((==_iff _ _).0 e) | inr ne ↦ ne q ]))
      ]

  -- With the pen within the screen, no assertion fails.
  pub put_cpinfo-Placed :
      (to_float : ℕ → F) (ctx : ScreenModeContext F) (real_cp : ℕ) (cur : FilterIo)
      → Fits ctx.out
      → ctx.row < ctx.out.max_l
      → ctx.col < ctx.out.max_c
      → (scr' : Screen F) × (put_cpinfo to_float ctx real_cp cur ≡ some scr')
        × Placed to_float ctx real_cp cur scr'
  unfolding put_cpinfo
  put_cpinfo-Placed to_float ctx real_cp cur w hl hc =
      let (scr1, e, k) = screen_put_cp-Written ctx.out real_cp cur.cp ctx.row ctx.col w hl hc in
      let (old, there, now) = k.cell in
      let cell = place_cell to_float ctx cur (put_cell real_cp cur.cp old) in
      let (l, row, inside) = line_of scr1 ctx.row ctx.col _ now in
      let (run, r) = set_cell-Replaced scr1 k.fits ctx.row ctx.col cell l row inside in
      let scr2 = replaced scr1 k.fits ctx.row ctx.col cell l row inside in
      (
        mark_ends cell scr2,
        rw (e, now, run) refl,
        record {
          old = old;
          there = there;
          replaced = record {
            fits = record {
              lines = r.fits.lines;
              used = r.fits.used;
              each = r.fits.each;
              narrow = r.fits.narrow;
              short = r.fits.short;
            };
            limits = (r.limits.0 ∙ k.limits.0, r.limits.1 ∙ k.limits.1);
            here = r.here;
            elsewhere = λ i j h. r.elsewhere i j h ∙ before k i j h;
          };
          last = refl;
        },
      )

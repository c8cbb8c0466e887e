-- ===== src/Screen/Writing.antt =====
-- What `screen_put_cp` changes, and the limits over any sequence of calls.
use ewlibs.Base.{
  ◌==◌, ==_iff, Bool-cases, ◌>>=◌, some_inj, length, get_elem?, set, length-set, get_elem?-set_self,
  get_elem?-set_ne, get_elem?-lt, get_elem?-some, ℕ, ◌+◌, ◌%◌, ◌^◌, ◌<◌, max, ◌≡◌, refl, sym, ap,
  ◌∙◌, subst, ◌≢◌, inl, inr, Option, some, arith,
}
use ewlibs.Screen.{
  CodepointInfo, ScreenLine, no_column_fix, screen_line_get_cpinfo,
  screen_line_get_number_of_used_columns, screen_line_set_number_of_used_columns,
}
use ewlibs.Screen.Grid.{Screen, screen_put_cp, put_cell, screen_get_line}
use ewlibs.Screen.Bounds.{FitsLine, Fits}

module _ {F : Type 0} where
  abbrev pub cell_at : Screen F → ℕ → ℕ → Option (CodepointInfo F)
  cell_at scr i j = get_elem? scr.line_array i >>= λ l. get_elem? l.cpinfo_array j

  abbrev pub columns_at : Screen F → ℕ → Option ℕ
  columns_at scr i = get_elem? scr.line_array i >>= λ l. some l.line_used

  -- One cell has the code point, the line and the screen use at least as much as it needs, no other
  -- cell or line has changed, and no other field of the screen.
  pub record Written (scr : Screen F) (real_cp vcp line column : ℕ) (scr' : Screen F) : Type 0 where
    pub fits : Fits scr'
    pub cell :
        (old : CodepointInfo F) × (cell_at scr line column ≡ some old)
        × (cell_at scr' line column ≡ some (put_cell real_cp vcp old))
    pub other_column : (j : ℕ) → j ≢ column → cell_at scr' line j ≡ cell_at scr line j
    pub other_line : (i : ℕ) → i ≢ line → screen_get_line scr' i ≡ screen_get_line scr i
    pub columns :
        (n : ℕ) → columns_at scr line ≡ some n → columns_at scr' line ≡ some (max (column + 1) n)
    pub lines : scr'.used_l ≡ max (line + 1) scr.used_l
    pub limits : (scr'.max_l ≡ scr.max_l) × (scr'.max_c ≡ scr.max_c)
    pub rest : scr' ≡ record scr { line_array = scr'.line_array; used_l = scr'.used_l }

  module _ (scr : Screen F) (w : Fits scr) (real_cp vcp line column : ℕ) (inside : line < scr.max_l)
      (l : ScreenLine F) (here : get_elem? scr.line_array line ≡ some l) (old : CodepointInfo F)
      (this : get_elem? l.cpinfo_array column ≡ some old) where
    abbrev written_line : ScreenLine F
    written_line = record {
      cpinfo_array = set l.cpinfo_array column (put_cell real_cp vcp old);
      line_used = max (column + 1) l.line_used;
    }

    abbrev written : Screen F
    written = record scr {
      line_array = set scr.line_array line written_line;
      used_l = max (line + 1) scr.used_l;
    }

    in_row : column < length l.cpinfo_array
    in_row = get_elem?-lt l.cpinfo_array column this

    used_columns : screen_line_get_number_of_used_columns l ≡ l.line_used
    used_columns = ground (arith, (w.each line l here).used, w.narrow)

    get_run : screen_line_get_cpinfo l column no_column_fix ≡ some column
    get_run = ground (arith, in_row, (w.each line l here).cells, w.narrow)

    set_run :
        screen_line_set_number_of_used_columns l
          (max ((column + 1) % 2 ^ 32) (l.line_used % 2 ^ 32))
        ≡ some (record l { line_used = max (column + 1) l.line_used })
    set_run =
        ground (arith, in_row, (w.each line l here).cells, (w.each line l here).used, w.narrow)

    put_run : screen_put_cp scr real_cp vcp line column ≡ some written
    unfolding screen_put_cp
    put_run =
        rw (here, get_run, used_columns, set_run, this)
          (ap (λ n. some (record written { used_l = n })) (omega (arith, inside, w.short)))

    row_written : get_elem? written.line_array line ≡ some written_line
    row_written =
        get_elem?-set_self scr.line_array line written_line (get_elem?-lt scr.line_array line here)

    row_kept : (i : ℕ) → i ≢ line → get_elem? written.line_array i ≡ get_elem? scr.line_array i
    row_kept i h = get_elem?-set_ne scr.line_array line i written_line (λ q. h (sym q))

    written_line-FitsLine : FitsLine scr.max_c written_line
    written_line-FitsLine = record {
      cells = length-set l.cpinfo_array column _ ∙ (w.each line l here).cells;
      used = omega (arith, in_row, (w.each line l here).cells, (w.each line l here).used);
    }

    written-each :
        (i : ℕ) (l' : ScreenLine F)
        → get_elem? written.line_array i ≡ some l'
        → FitsLine scr.max_c l'
    written-each i l' h = elim (Bool-cases (i == line)) [
      | inl e ↦
          subst (FitsLine scr.max_c)
            (some_inj
              (sym row_written ∙ ap (get_elem? written.line_array) (sym ((==_iff _ _).0 e)) ∙ h))
            written_line-FitsLine
      | inr e ↦ w.each i l' (sym (row_kept i (λ q. ground arith)) ∙ h)
    ]

    written-Written : Written scr real_cp vcp line column written
    written-Written = record {
      fits = record {
        lines = length-set scr.line_array line written_line ∙ w.lines;
        used = omega (arith, inside, w.used);
        each = written-each;
        narrow = w.narrow;
        short = w.short;
      };
      cell = (
        old,
        rw (here, this),
        rw (
          row_written,
          get_elem?-set_self l.cpinfo_array column (put_cell real_cp vcp old) in_row,
        ),
      );
      other_column = λ j h. rw (
        row_written,
        here,
        get_elem?-set_ne l.cpinfo_array column j (put_cell real_cp vcp old) (λ q. h (sym q)),
      );
      other_line = row_kept;
      columns = λ n h. rw row_written (ap some (ap (max (column + 1)) (ground (arith, here))));
      lines = refl;
      limits = (refl, refl);
      rest = refl;
    }

  pub screen_put_cp-Written :
      (scr : Screen F) (real_cp vcp line column : ℕ)
      → Fits scr
      → line < scr.max_l
      → column < scr.max_c
      → (scr' : Screen F) × (screen_put_cp scr real_cp vcp line column ≡ some scr')
        × Written scr real_cp vcp line column scr'
  screen_put_cp-Written scr real_cp vcp line column w hl hc =
      let (l, here) = get_elem?-some scr.line_array line (omega (arith, w.lines)) in
      let (old, this) =
        get_elem?-some l.cpinfo_array column (omega (arith, (w.each line l here).cells)) in
      (
        written scr w real_cp vcp line column hl l here old this,
        put_run scr w real_cp vcp line column hl l here old this,
        written-Written scr w real_cp vcp line column hl l here old this,
      )

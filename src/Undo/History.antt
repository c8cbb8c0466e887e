-- ===== src/Undo/History.antt =====
-- A text and its log: what changing the text, undoing and redoing do to both.
use ewlibs.Base.{
  ◌==◌, ==_iff, Bool-cases, some_inj, length, get_elem?, get_elem?-some, ℕ, zero, suc, ◌+◌, ◌-◌,
  ◌%◌, ◌^◌, ◌≤◌, ◌<◌, ◌≡◌, refl, sym, ap, ◌∙◌, subst, inl, inr, true, false, Option, none, some,
  List, arith,
}
use ewlibs.Undo.{Commit, Log, Edit, edit_of, inverse, get_current_commit, undo, redo}
use ewlibs.Undo.Contents.{apply, apply-inverse, content_at}
use ewlibs.Undo.Chain.{before, before-suc, Chained, Ready}
use ewlibs.Undo.Reverting.{Replayed, content_at-back}

-- A log whose chain holds and whose commits fit the text at its start; `y` is the text at the current
-- commit.
pub record Sound (text : List ℕ) (log : Log) (y : List ℕ) : Type 0 where
  pub chained : Chained log
  pub replayed : Replayed text log
  pub current : content_at log.commits text log.cur ≡ some y

pub Ready-Sound : (text : List ℕ) (log : Log) (y : List ℕ) → Ready text log y → Sound text log y
Ready-Sound text log y r = record {
  chained = r.chained;
  replayed = (y, r.content);
  current = ap (content_at log.commits text) r.at_last ∙ r.content;
}

-- Another current commit.
moved-Chained : (log : Log) (k : ℕ) → Chained log → k ≤ log.last → Chained (record log { cur = k })
moved-Chained log k ch h = record {
  first_place = ch.first_place;
  last_place = ch.last_place;
  cur_in = h;
  starts = ch.starts;
  linked = ch.linked;
}

-- The text at an earlier place is there too.
content_before :
    (cs : List Commit) (text : List ℕ) (i j : ℕ) (y : List ℕ)
    → i ≤ j
    → content_at cs text j ≡ some y
    → (x : List ℕ) × (content_at cs text i ≡ some x)
content_before cs text zero zero y h g = (y, g)
content_before cs text (suc i) zero y h g = absurd (omega (arith, h))
content_before cs text i (suc j) y h g = elim (Bool-cases (i == suc j)) [
  | inl q ↦ (y, ap (content_at cs text) ((==_iff i (suc j)).0 q) ∙ g)
  | inr q ↦
      let (x, c, at, got, made) = content_at-back cs text j y g in
      content_before cs text i j x (ground (arith, q, h)) at
]

-- The commit at a place that is not the first, and the text before it.
content_at_place :
    (cs : List Commit) (text : List ℕ) (i j : ℕ) (y : List ℕ)
    → i + 1 ≡ j
    → content_at cs text j ≡ some y
    → (x : List ℕ) × (c : Commit) × (content_at cs text i ≡ some x)
      × (get_elem? cs j ≡ some c)
      × (apply (edit_of c) x ≡ some y)
content_at_place cs text i zero y p h = absurd (omega (arith, p))
content_at_place cs text i (suc j) y p h =
    subst
      (λ k.
        (x : List ℕ) × (c : Commit) × (content_at cs text k ≡ some x)
        × (get_elem? cs (suc j) ≡ some c)
        × (apply (edit_of c) x ≡ some y))
      (omega (arith, p)) (content_at-back cs text j y h)

-- The links at the current commit.
pub current-some :
    (log : Log) → Chained log → (c : Commit) × (get_elem? log.commits log.cur ≡ some c)
current-some log ch = get_elem?-some log.commits log.cur (omega (arith, ch.cur_in, ch.last_place))

module _ (log : Log) (c : Commit) (got : get_elem? log.commits log.cur ≡ some c) where
  undo-parent :
      (p : Option ℕ)
      → c.parent ≡ p
      → undo log ≡ elim p [ none ↦ some log | some k ↦ some (record log { cur = k }) ]
  unfolding undo
  undo-parent p e = rw (undo, got) (rw e refl)

  redo-next :
      (p : Option ℕ)
      → c.next ≡ p
      → redo log ≡ elim p [ none ↦ some log | some k ↦ some (record log { cur = k }) ]
  unfolding redo
  redo-next p e = rw (redo, got) (rw e refl)

-- Undo goes from a commit to the one before it, and the inverse of the change of the commit gives the
-- text that is there.
pub undo-Sound :
    (text : List ℕ) (log : Log) (y : List ℕ)
    → Sound text log y
    → 0 < log.cur
    → (log' : Log) × (e : Edit) × (x : List ℕ) × (get_current_commit log
        ≡ some (log.cur % 2 ^ 64, e))
      × (undo log ≡ some log')
      × (log'.cur + 1 ≡ log.cur)
      × (log'.commits ≡ log.commits)
      × (apply (inverse e) y ≡ some x)
      × Sound text log' x
unfolding get_current_commit
undo-Sound text log y s h =
    let p : log.cur - 1 + 1 ≡ log.cur = omega (arith, h) in
    let (x, c, at, got, made) =
      content_at_place log.commits text (log.cur - 1) log.cur y p s.current in
    let l = s.chained.linked log.cur c got in
    (
      record log { cur = log.cur - 1 },
      edit_of c,
      x,
      rw got (ap (λ n. some (n, edit_of c)) l.rev_place),
      undo-parent log c got (some (log.cur - 1))
          (l.parent_before ∙ before-suc (log.cur - 1) log.cur p),
      p,
      refl,
      apply-inverse (edit_of c) x y made,
      record {
        chained = moved-Chained log (log.cur - 1) s.chained (omega (arith, s.chained.cur_in));
        replayed = s.replayed;
        current = at;
      },
    )

-- Redo goes from a commit that is not the last to the next one, whose change gives the text that is
-- there.
pub redo-Sound :
    (text : List ℕ) (log : Log) (y : List ℕ)
    → Sound text log y
    → log.cur < log.last
    → (log' : Log) × (e : Edit) × (x : List ℕ) × (redo log ≡ some log')
      × (get_current_commit log' ≡ some (log'.cur % 2 ^ 64, e))
      × (log'.cur ≡ log.cur + 1)
      × (log'.commits ≡ log.commits)
      × (apply e y ≡ some x)
      × Sound text log' x
unfolding get_current_commit
redo-Sound text log y s h =
    let (w, rep) = s.replayed in
    let (x, there) =
      content_before log.commits text (log.cur + 1) log.last w (omega (arith, h)) rep in
    let (y', c', at, got', made) =
      content_at_place log.commits text log.cur (log.cur + 1) x refl there in
    let (c, got) = current-some log s.chained in
    let test : (log.cur + 1 == length log.commits) ≡ false =
      ground (arith, h, s.chained.last_place) in
    let l' = s.chained.linked (log.cur + 1) c' got' in
    (
      record log { cur = log.cur + 1 },
      edit_of c',
      x,
      redo-next log c got (some (log.cur + 1))
          ((s.chained.linked log.cur c got).next_after ∙ rw test refl),
      rw got' (ap (λ n. some (n, edit_of c')) l'.rev_place),
      refl,
      refl,
      subst (λ z. apply (edit_of c') z ≡ some x) (some_inj (sym at ∙ s.current)) made,
      record {
        chained = moved-Chained log (log.cur + 1) s.chained (omega (arith, h));
        replayed = s.replayed;
        current = there;
      },
    )

-- Nothing is done at the first commit by undo, and at the last by redo.
pub undo_first :
    (text : List ℕ) (log : Log) (y : List ℕ) → Sound text log y → log.cur ≡ 0 → undo log ≡ some log
undo_first text log y s h =
    let (c, got) = current-some log s.chained in
    undo-parent log c got none ((s.chained.linked log.cur c got).parent_before ∙ ap before h)

pub redo_last :
    (text : List ℕ) (log : Log) (y : List ℕ)
    → Sound text log y
    → log.cur ≡ log.last
    → redo log ≡ some log
redo_last text log y s h =
    let (c, got) = current-some log s.chained in
    let test : (log.cur + 1 == length log.commits) ≡ true =
      ground (arith, h, s.chained.last_place) in
    redo-next log c got none ((s.chained.linked log.cur c got).next_after ∙ rw test refl)

-- ===== src/Undo/Reverting.antt =====
-- The commits that are put at the end of a log to take back those after the current one.
use ewlibs.Base.{
  ◌==◌, ==_iff, Bool-cases, Option-cases, some_inj, length, get_elem?, ℕ, zero, suc, ◌+◌, ◌-◌, ◌%◌,
  ◌^◌, ◌<◌, ◌≡◌, refl, sym, ap, ◌∙◌, subst, inl, inr, true, false, some, List, [], ◌∷◌, arith,
}
use ewlibs.Undo.{
  Commit, Log, Edit, edit_of, inverse, revert_list, insert_list, insert_revert_commits,
  insert_commit,
}
use ewlibs.Undo.Contents.{apply, apply-inverse, content_at}
use ewlibs.Undo.Chain.{Chained, Extends, Extends-refl, Extends-trans, Ready}
use ewlibs.Undo.Pushing.{ll_insert-Ready}

-- The text at every place of the log.
abbrev pub Replayed : List ℕ → Log → Type 0
Replayed text log = (x : List ℕ) × (content_at log.commits text log.last ≡ some x)

-- A text at a place comes from a text at the place before, by the change of the commit.
pub content_at-back :
    (cs : List Commit) (text : List ℕ) (i : ℕ) (y : List ℕ)
    → content_at cs text (suc i) ≡ some y
    → (x : List ℕ) × (c : Commit) × (content_at cs text i ≡ some x)
      × (get_elem? cs (suc i) ≡ some c)
      × (apply (edit_of c) x ≡ some y)
unfolding content_at
content_at-back cs text i y h = elim (Option-cases (content_at cs text i)) [
  | inl n ↦ absurd (cc (rw n at h))
  | inr (x, n) ↦ elim (Option-cases (get_elem? cs (suc i))) [
    | inl m ↦ absurd (cc (rw (n, m) at h))
    | inr (c, m) ↦ (x, c, n, m, rw (n, m) at h)
  ]
]

-- What the list of inverses does, at the end of any log that has the text from which it starts.
abbrev Reverts : List ℕ → List Edit → List ℕ → ℕ → List ℕ → Type 0
Reverts text es y n x =
    (log : Log)
    → Ready text log y
    → (log' : Log) × (insert_list log es ≡ some log') × Ready text log' x × Extends log log' n

module _ (log : Log) (ch : Chained log) (text : List ℕ) where
  -- From a place that is k after another, the first loop ends with a list that brings the text back.
  revert_list-Reverts :
      (k e b fuel : ℕ) (x y : List ℕ)
      → k + e ≡ b
      → k < fuel
      → b < length log.commits
      → content_at log.commits text e ≡ some x
      → content_at log.commits text b ≡ some y
      → (es : List Edit) × (revert_list fuel log.commits (some b) e ≡ some es)
        × Reverts text es y k x
  unfolding revert_list insert_list
  revert_list-Reverts k e b zero x y p f l h g = absurd (omega (arith, f))
  revert_list-Reverts zero e b (suc fuel) x y p f l h g =
      let same : b ≡ e = omega (arith, p) in
      let test : (b == e) ≡ true = ground (arith, same) in
      let text_same : y ≡ x = some_inj (sym g ∙ ap (content_at log.commits text) same ∙ h) in
      (
        [],
        rw test refl,
        λ log' r. (log', refl, subst (λ z. Ready text log' z) text_same r, Extends-refl log'),
      )
  revert_list-Reverts (suc k) e zero (suc fuel) x y p f l h g = absurd (omega (arith, p))
  revert_list-Reverts (suc k) e (suc b) (suc fuel) x y p f l h g =
      let test : (suc b == e) ≡ false = ground (arith, p) in
      let (x', c, at, got, made) = content_at-back log.commits text b y g in
      let (es, q, rest) =
        revert_list-Reverts k e b fuel x x' (omega (arith, p)) (omega (arith, f)) (omega (arith, l))
          h at in
      (
        inverse (edit_of c) ∷ es,
        rw (test, got, (ch.linked (suc b) c got).parent_before, q) refl,
        λ log' r.
            let (l1, p1, r1, e1) =
              ll_insert-Ready text log' y x' (inverse (edit_of c)) r
                (apply-inverse (edit_of c) x' y made) in
            let (l2, p2, r2, e2) = rest l1 r1 in
            (
              l2,
              rw p1 p2,
              r2,
              subst (λ n. Extends log' l2 n) (omega arith) (Extends-trans log' l1 l2 1 k e1 e2),
            ),
      )

-- Before a commit is added, the changes after the current commit are taken back.
pub insert_revert_commits-Ready :
    (text : List ℕ) (log : Log) (x : List ℕ)
    → Chained log
    → Replayed text log
    → content_at log.commits text log.cur ≡ some x
    → (log' : Log) × (insert_revert_commits log ≡ some log')
      × Ready text log' x
      × Extends log log' (log.last - log.cur)
unfolding insert_revert_commits
insert_revert_commits-Ready text log x ch (w, rep) h = elim (Bool-cases (log.cur == log.last)) [
  | inl q ↦
      let same : log.cur ≡ log.last = (==_iff log.cur log.last).0 q in
      (
        log,
        rw q refl,
        record {
          chained = ch;
          at_last = same;
          content = ap (content_at log.commits text) (sym same) ∙ h;
        },
        subst (λ n. Extends log log n) (omega (arith, same)) (Extends-refl log),
      )
  | inr q ↦
      let (es, p, reverts) =
        revert_list-Reverts log ch text (log.last - log.cur) log.cur log.last (length log.commits) x
          w (omega (arith, ch.cur_in)) (omega (arith, ch.last_place)) (omega (arith, ch.last_place))
          h rep in
      let (log', p', r, ext) = reverts (record log { cur = log.last }) (at_end w rep) in
      (log', rw (q, p) p', r, record { count = ext.count; kept = ext.kept })
]
  where
    at_end :
        (w : List ℕ)
        → content_at log.commits text log.last ≡ some w
        → Ready text (record log { cur = log.last }) w
    at_end w rep = record {
      chained = record {
        first_place = ch.first_place;
        last_place = ch.last_place;
        cur_in = omega arith;
        starts = ch.starts;
        linked = ch.linked;
      };
      at_last = refl;
      content = rep;
    }

-- In a log whose chain holds and whose commits fit the text, adding a change that fits the text at the
-- current commit gives a log of the same kind. The text at its current commit, which is its last, is the
-- changed one. The text at every commit that was there is as it was, and the revision is the place of
-- the new commit, behind one commit for each that was undone.
pub insert_commit-Ready :
    (text : List ℕ) (log : Log) (x y : List ℕ) (e : Edit)
    → Chained log
    → Replayed text log
    → content_at log.commits text log.cur ≡ some x
    → apply e x ≡ some y
    → (log' : Log) × (insert_commit log e
        ≡ some ((length log.commits + (log.last - log.cur)) % 2 ^ 64, log'))
      × Ready text log' y
      × Extends log log' (log.last - log.cur + 1)
unfolding insert_commit
insert_commit-Ready text log x y e ch rep h a =
    let (l1, p1, r1, e1) = insert_revert_commits-Ready text log x ch rep h in
    let (l2, p2, r2, e2) = ll_insert-Ready text l1 x y e r1 a in
    (
      l2,
      rw p1 (p2 ∙ ap (λ n. some (n % 2 ^ 64, l2)) e1.count),
      r2,
      Extends-trans log l1 l2 (log.last - log.cur) 1 e1 e2,
    )

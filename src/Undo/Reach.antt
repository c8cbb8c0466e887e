-- ===== src/Undo/Reach.antt =====
-- The logs and texts that an editor reaches.
use ewlibs.Base.{
  ◌==◌, ==_iff, Bool-cases, some_inj, ℕ, ◌≡◌, refl, sym, ap, ◌∙◌, subst, ◌≢◌, inl, inr, some, List,
  arith,
}
use ewlibs.Undo.{
  Log, Edit, new_log, new_commit, edit_of, inverse, insert_commit, get_current_commit, undo, redo,
}
use ewlibs.Undo.Contents.{edit_at, apply, change, content_at}
use ewlibs.Undo.Chain.{Chained-new_log}
use ewlibs.Undo.Reverting.{insert_commit-Ready}
use ewlibs.Undo.History.{
  Sound, Ready-Sound, current-some, undo_first, redo_last, undo-Sound, redo-Sound,
}

-- The logs and texts that changes, undo and redo lead to: the change goes to the log and to the text,
-- undo applies the inverse of the current commit, and redo the commit that it moves to.
pub data Reach (text : List ℕ) : Log → List ℕ → Type 0 where
  opened : Reach text new_log text
  changed :
      {log log' : Log} {y z : List ℕ} (e : Edit) (rev : ℕ)
      → Reach text log y
      → apply e y ≡ some z
      → insert_commit log e ≡ some (rev, log')
      → Reach text log' z
  undone :
      {log log' : Log} {y z : List ℕ} (e : Edit) (rev : ℕ)
      → Reach text log y
      → get_current_commit log ≡ some (rev, e)
      → apply (inverse e) y ≡ some z
      → undo log ≡ some log'
      → Reach text log' z
  redone :
      {log log' : Log} {y z : List ℕ} (e : Edit) (rev : ℕ)
      → Reach text log y
      → redo log ≡ some log'
      → log'.cur ≢ log.cur
      → get_current_commit log' ≡ some (rev, e)
      → apply e y ≡ some z
      → Reach text log' z

Sound-new_log : (text : List ℕ) → Sound text new_log text
unfolding content_at
Sound-new_log text = record { chained = Chained-new_log; replayed = (text, refl); current = refl }

changed-Sound :
    (text : List ℕ) (log log' : Log) (y z : List ℕ) (e : Edit) (rev : ℕ)
    → Sound text log y
    → apply e y ≡ some z
    → insert_commit log e ≡ some (rev, log')
    → Sound text log' z
changed-Sound text log log' y z e rev s a i =
    let (l, p, r, ext) = insert_commit-Ready text log y z e s.chained s.replayed s.current a in
    subst (λ x. Sound text x z) (ap (λ r. r.1) (some_inj (sym p ∙ i))) (Ready-Sound text l z r)

undone_first :
    (text : List ℕ) (log : Log) (y z : List ℕ) (e : Edit) (rev : ℕ)
    → Sound text log y
    → log.cur ≡ 0
    → get_current_commit log ≡ some (rev, e)
    → apply (inverse e) y ≡ some z
    → y ≡ z
unfolding get_current_commit change
undone_first text log y z e rev s h g a =
    let (c, got) = current-some log s.chained in
    let here : edit_of c ≡ e = ap (λ r. r.1) (some_inj (rw got at g)) in
    let at_cur : edit_at log.commits log.cur ≡ some (edit_of c) = rw got refl in
    let start : edit_of c ≡ edit_of new_commit =
      some_inj (sym at_cur ∙ ap (edit_at log.commits) h ∙ s.chained.starts) in
    some_inj (subst (λ d. apply (inverse d) y ≡ some z) (sym here ∙ start) a)

undone-Sound :
    (text : List ℕ) (log log' : Log) (y z : List ℕ) (e : Edit) (rev : ℕ)
    → Sound text log y
    → get_current_commit log ≡ some (rev, e)
    → apply (inverse e) y ≡ some z
    → undo log ≡ some log'
    → Sound text log' z
undone-Sound text log log' y z e rev s g a u = elim (Bool-cases (log.cur == 0)) [
  | inl q ↦
      let h : log.cur ≡ 0 = (==_iff log.cur 0).0 q in
      subst (λ x. Sound text x z) (some_inj (sym (undo_first text log y s h) ∙ u))
        (subst (λ x. Sound text log x) (undone_first text log y z e rev s h g a) s)
  | inr q ↦
      let (l, d, x, g', u', _, _, a', s') = undo-Sound text log y s (ground (arith, q)) in
      let same : d ≡ e = ap (λ r. r.1) (some_inj (sym g' ∙ g)) in
      subst (λ m. Sound text m z) (some_inj (sym u' ∙ u))
        (subst (λ w. Sound text l w) (some_inj (sym a' ∙ ap (λ f. apply (inverse f) y) same ∙ a))
          s')
]

redone-Sound :
    (text : List ℕ) (log log' : Log) (y z : List ℕ) (e : Edit) (rev : ℕ)
    → Sound text log y
    → redo log ≡ some log'
    → log'.cur ≢ log.cur
    → get_current_commit log' ≡ some (rev, e)
    → apply e y ≡ some z
    → Sound text log' z
redone-Sound text log log' y z e rev s u n g a = elim (Bool-cases (log.cur == log.last)) [
  | inl q ↦ absurd (
      n (
        ap (λ l. l.cur)
          (some_inj (sym u ∙ redo_last text log y s ((==_iff log.cur log.last).0 q)))))
  | inr q ↦
      let (l, d, x, u', g', _, _, a', s') =
        redo-Sound text log y s (ground (arith, q, s.chained.cur_in)) in
      let at : l ≡ log' = some_inj (sym u' ∙ u) in
      let same : d ≡ e = ap (λ r. r.1) (some_inj (sym g' ∙ ap get_current_commit at ∙ g)) in
      subst (λ m. Sound text m z) at
        (subst (λ w. Sound text l w) (some_inj (sym a' ∙ ap (λ f. apply f y) same ∙ a)) s')
]

-- However a text is changed, undone and redone, its log stays a chain, and the changes up to the current
-- commit give the text.
pub Reach-Sound : {text : List ℕ} (log : Log) (y : List ℕ) → Reach text log y → Sound text log y
Reach-Sound log y opened = Sound-new_log _
Reach-Sound log y (changed e rev r a i) = changed-Sound _ _ _ _ _ e rev (Reach-Sound _ _ r) a i
Reach-Sound log y (undone e rev r g a u) = undone-Sound _ _ _ _ _ e rev (Reach-Sound _ _ r) g a u
Reach-Sound log y (redone e rev r u n g a) =
    redone-Sound _ _ _ _ _ e rev (Reach-Sound _ _ r) u n g a

-- ===== src/Undo/Pushing.antt =====
-- A commit that is put at the end of a log.
use ewlibs.Base.{
  ◌==◌, if◌then◌else◌, ==_iff, ==_refl, Bool-cases, some_inj, length, get_elem?, set, length-append,
  length-set, get_elem?-lt, get_elem?-some, get_elem?-set, get_elem?-push, ℕ, ◌+◌, ◌%◌, ◌^◌, ◌<◌,
  ◌≡◌, refl, sym, ap, ◌∙◌, subst, inl, inr, false, none, some, List, [], ◌∷◌, ◌++◌, arith,
}
use ewlibs.Undo.{Commit, Log, Edit, ll_insert_commit}
use ewlibs.Undo.Contents.{apply, edit_at, content_at-next}
use ewlibs.Undo.Chain.{before-suc, Linked, Chained, Extends, Extends-content, Ready}

module _ (log : Log) (ch : Chained log) (at : log.cur ≡ log.last) (e : Edit) (c : Commit)
    (got : get_elem? log.commits log.last ≡ some c) where
  -- The commit that is added, and the log after it.
  abbrev added : Commit
  added = record {
    rev = (c.rev + 1) % 2 ^ 64;
    parent = some log.cur;
    prev = some log.last;
    next = none;
    op = e.op;
    offset = e.offset;
    data_bytes = e.data_bytes;
  }

  abbrev old_last : Commit
  old_last = record c { next = some (length log.commits) }

  abbrev pushed : Log
  pushed = record log {
    commits = set log.commits log.last old_last ++ added ∷ [];
    cur = length log.commits;
    last = length log.commits;
  }

  next_rev : (c.rev + 1) % 2 ^ 64 ≡ length log.commits % 2 ^ 64
  next_rev = omega (arith, (ch.linked log.last c got).rev_place, ch.last_place)

  ll_insert_pushed : ll_insert_commit log e ≡ some (length log.commits % 2 ^ 64, pushed)
  unfolding ll_insert_commit
  ll_insert_pushed = rw (ll_insert_commit, got) (ap (λ r. some (r, pushed)) next_rev)

  pushed-length : length pushed.commits ≡ length log.commits + 1
  pushed-length =
      length-append (set log.commits log.last old_last) (added ∷ [])
      ∙ rw (length-set log.commits log.last old_last) refl

  -- What stands at a place of the new store.
  pushed-at :
      (i : ℕ)
      → get_elem? pushed.commits i ≡ (
          if i == length log.commits
          then some added
          else if i == log.last
          then some old_last
          else get_elem? log.commits i)
  pushed-at i =
      get_elem?-push (set log.commits log.last old_last) i added
      ∙ rw (length-set log.commits log.last old_last, get_elem?-set log.commits log.last i old_last)
          (ground (arith, ch.last_place))

  added-Linked : Linked (length pushed.commits) (length log.commits) added
  added-Linked = record {
    parent_before =
        sym (before-suc log.cur (length log.commits) (omega (arith, ch.last_place, at)));
    prev_before = sym (before-suc log.last (length log.commits) ch.last_place);
    next_after = ground (arith, pushed-length);
    rev_place = next_rev;
  }

  old_last-Linked : Linked (length pushed.commits) log.last old_last
  old_last-Linked =
      let l = ch.linked log.last c got in
      record {
        parent_before = l.parent_before;
        prev_before = l.prev_before;
        next_after = ground (arith, pushed-length, ch.last_place);
        rev_place = l.rev_place;
      }

  kept-Linked :
      (i : ℕ) (d : Commit)
      → get_elem? log.commits i ≡ some d
      → (i == log.last) ≡ false
      → Linked (length pushed.commits) i d
  kept-Linked i d h q =
      let l = ch.linked i d h in
      record {
        parent_before = l.parent_before;
        prev_before = l.prev_before;
        next_after =
            l.next_after
            ∙ ground (arith, pushed-length, ch.last_place, get_elem?-lt log.commits i h);
        rev_place = l.rev_place;
      }

  pushed-Linked :
      (i : ℕ) (d : Commit)
      → get_elem? pushed.commits i ≡ some d
      → Linked (length pushed.commits) i d
  pushed-Linked i d h = elim (Bool-cases (i == length log.commits)) [
    | inl q ↦
        subst (λ j. Linked (length pushed.commits) j d) (sym ((==_iff i (length log.commits)).0 q))
          (subst (λ x. Linked (length pushed.commits) (length log.commits) x)
            (some_inj (rw q at h')) added-Linked)
    | inr q ↦ elim (Bool-cases (i == log.last)) [
      | inl q' ↦
          subst (λ j. Linked (length pushed.commits) j d) (sym ((==_iff i log.last).0 q'))
            (subst (λ x. Linked (length pushed.commits) log.last x) (some_inj (rw (q, q') at h'))
              old_last-Linked)
      | inr q' ↦ kept-Linked i d (rw (q, q') at h') q'
    ]
  ]
    where
      h' :
          (if i == length log.commits
            then some added
            else if i == log.last
            then some old_last
            else get_elem? log.commits i)
          ≡ some d
      h' = sym (pushed-at i) ∙ h

  pushed-edit : (i : ℕ) → i < length log.commits → edit_at pushed.commits i ≡ edit_at log.commits i
  pushed-edit i h = elim (Bool-cases (i == log.last)) [
    | inl q ↦
        let here : i ≡ log.last = (==_iff i log.last).0 q in
        rw (pushed-at i) (ground (arith, got, here, h))
    | inr q ↦ rw (pushed-at i) (ground (arith, q, h))
  ]

  pushed-Chained : Chained pushed
  pushed-Chained = record {
    first_place = ch.first_place;
    last_place = omega (arith, pushed-length);
    cur_in = omega arith;
    starts = pushed-edit 0 (omega (arith, ch.last_place)) ∙ ch.starts;
    linked = pushed-Linked;
  }

  pushed-Extends : Extends log pushed 1
  pushed-Extends = record { count = pushed-length; kept = pushed-edit }

  pushed-new : edit_at pushed.commits (length log.commits) ≡ some e
  pushed-new = rw (pushed-at (length log.commits), ==_refl (length log.commits)) refl

-- A change that fits the text goes to the end of a log that is at its last commit.
pub ll_insert-Ready :
    (text : List ℕ) (log : Log) (x y : List ℕ) (e : Edit)
    → Ready text log x
    → apply e x ≡ some y
    → (log' : Log) × (ll_insert_commit log e ≡ some (length log.commits % 2 ^ 64, log'))
      × Ready text log' y
      × Extends log log' 1
ll_insert-Ready text log x y e r h =
    let (c, got) = get_elem?-some log.commits log.last (omega (arith, r.chained.last_place)) in
    let ext = pushed-Extends log r.chained r.at_last e c got in
    let log' = pushed log r.chained r.at_last e c got in
    (
      log',
      ll_insert_pushed log r.chained r.at_last e c got,
      record {
        chained = pushed-Chained log r.chained r.at_last e c got;
        at_last = refl;
        content =
            content_at-next log'.commits text log.last (length log.commits) x y e
              r.chained.last_place
              (Extends-content log log' 1 log.last text ext (omega (arith, r.chained.last_place))
                ∙ r.content)
              (pushed-new log r.chained r.at_last e c got) h;
      },
      ext,
    )

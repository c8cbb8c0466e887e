-- ===== src/Undo/Chain.antt =====
-- The links of the commits of a log: the commits are one chain, in which the parent of a commit is the
-- commit before it.
use ewlibs.Base.{
  ◌==◌, if◌then◌else◌, some_inj, length, get_elem?, ℕ, zero, suc, ◌+◌, ◌%◌, ◌^◌, ◌≤◌, ◌<◌, ◌≡◌,
  refl, sym, ap, ◌∙◌, Option, none, some, List, arith,
}
use ewlibs.Undo.{Commit, Log, edit_of, new_commit, new_log}
use ewlibs.Undo.Contents.{edit_at, content_at, content_at-same}

abbrev pub before : ℕ → Option ℕ
before zero = none
before (suc i) = some i

pub before-suc : (i n : ℕ) → i + 1 ≡ n → before n ≡ some i
before-suc i zero h = absurd (omega arith)
before-suc i (suc n) h = ap some (omega (arith, h))

-- The links of the commit at place i of n.
pub record Linked (n i : ℕ) (c : Commit) : Type 0 where
  pub parent_before : c.parent ≡ before i
  pub prev_before : c.prev ≡ before i
  pub next_after : c.next ≡ (if i + 1 == n then none else some (i + 1))
  pub rev_place : c.rev ≡ i % 2 ^ 64

-- The invariant of a log.
pub record Chained (log : Log) : Type 0 where
  pub first_place : log.first ≡ 0
  pub last_place : log.last + 1 ≡ length log.commits
  pub cur_in : log.cur ≤ log.last
  pub starts : edit_at log.commits 0 ≡ some (edit_of new_commit)
  pub linked :
      (i : ℕ) (c : Commit) → get_elem? log.commits i ≡ some c → Linked (length log.commits) i c

pub Chained-new_log : Chained new_log
Chained-new_log = record {
  first_place = refl;
  last_place = refl;
  cur_in = omega arith;
  starts = refl;
  linked = λ i c h. only i c h;
}
  where
    only : (i : ℕ) (c : Commit) → get_elem? new_log.commits i ≡ some c → Linked 1 i c
    only zero c h =
        rw (sym (some_inj h))
          (record { parent_before = refl; prev_before = refl; next_after = refl; rev_place = refl })
    only (suc i) c h = absurd (cc h)

-- The commits of a log stay, and n more come after them.
pub record Extends (log log' : Log) (n : ℕ) : Type 0 where
  pub count : length log'.commits ≡ length log.commits + n
  pub kept : (i : ℕ) → i < length log.commits → edit_at log'.commits i ≡ edit_at log.commits i

pub Extends-refl : (log : Log) → Extends log log 0
Extends-refl log = record { count = omega arith; kept = λ i h. refl }

pub Extends-trans : (a b c : Log) (m n : ℕ) → Extends a b m → Extends b c n → Extends a c (m + n)
Extends-trans a b c m n x y = record {
  count = omega (arith, x.count, y.count);
  kept = λ i h. y.kept i (omega (arith, x.count)) ∙ x.kept i h;
}

pub Extends-content :
    (a b : Log) (n i : ℕ) (text : List ℕ)
    → Extends a b n
    → i < length a.commits
    → content_at b.commits text i ≡ content_at a.commits text i
Extends-content a b n i text x h =
    content_at-same a.commits b.commits text i (λ j k. x.kept j (omega arith))

-- A log that is at its last commit, where the text is `x`.
pub record Ready (text : List ℕ) (log : Log) (x : List ℕ) : Type 0 where
  pub chained : Chained log
  pub at_last : log.cur ≡ log.last
  pub content : content_at log.commits text log.last ≡ some x

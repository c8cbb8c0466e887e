-- ===== src/Undo/Tests.antt =====
-- The theorems about the log of a buffer on small texts.
use ewlibs.Base.{ℕ, ◌+◌, ◌%◌, ◌^◌, ◌≡◌, refl, none, some, List, [], ◌∷◌, arith}
use ewlibs.Undo.{
  Log, Edit, insert_op, new_log, new_commit, inverse, insert_commit, insert_revert_commits,
  get_current_commit, undo, ll_insert_commit,
}
use ewlibs.Undo.Contents.{apply, change, without, content_at}
use ewlibs.Undo.Chain.{Chained-new_log, Extends, Ready}
use ewlibs.Undo.Reverting.{insert_commit-Ready}
use ewlibs.Undo.History.{Sound, undo-Sound}
use ewlibs.Undo.Reach.{Reach, opened, changed, undone, Reach-Sound}

-- `ab` is put at the start of `c`.
abbrev type_ab : Edit
type_ab = record { op = insert_op; offset = 0; data_bytes = b'a' ∷ b'b' ∷ [] }

insert_commit-Ready_example :
    (log' : Log) × (insert_commit new_log type_ab ≡ some (1 % 2 ^ 64, log'))
    × Ready (b'c' ∷ []) log' (b'a' ∷ b'b' ∷ b'c' ∷ [])
    × Extends new_log log' 1
unfolding content_at change
insert_commit-Ready_example =
    insert_commit-Ready (b'c' ∷ []) new_log (b'c' ∷ []) (b'a' ∷ b'b' ∷ b'c' ∷ []) type_ab
      Chained-new_log (b'c' ∷ [], refl) refl refl

-- The log after the change.
abbrev typed : Log
typed = record {
  commits =
      record new_commit { next = some 1 }
      ∷ record {
        rev = 1;
        parent = some 0;
        prev = some 0;
        next = none;
        op = insert_op;
        offset = 0;
        data_bytes = b'a' ∷ b'b' ∷ [];
      }
      ∷ [];
  first = 0;
  cur = 1;
  last = 1;
}

typed-Reach : Reach (b'c' ∷ []) typed (b'a' ∷ b'b' ∷ b'c' ∷ [])
unfolding insert_commit insert_revert_commits ll_insert_commit change
typed-Reach = changed type_ab 1 opened refl refl

undone-Reach : Reach (b'c' ∷ []) (record typed { cur = 0 }) (b'c' ∷ [])
unfolding get_current_commit undo change without
undone-Reach = undone type_ab 1 typed-Reach refl refl refl

Reach-Sound_example : Sound (b'c' ∷ []) typed (b'a' ∷ b'b' ∷ b'c' ∷ [])
Reach-Sound_example = Reach-Sound typed (b'a' ∷ b'b' ∷ b'c' ∷ []) typed-Reach

undo-Sound_example :
    (log' : Log) × (e : Edit) × (x : List ℕ) × (get_current_commit typed ≡ some (1, e))
    × (undo typed ≡ some log')
    × (log'.cur + 1 ≡ 1)
    × (log'.commits ≡ typed.commits)
    × (apply (inverse e) (b'a' ∷ b'b' ∷ b'c' ∷ []) ≡ some x)
    × Sound (b'c' ∷ []) log' x
undo-Sound_example =
    undo-Sound (b'c' ∷ []) typed (b'a' ∷ b'b' ∷ b'c' ∷ [])
      (Reach-Sound typed (b'a' ∷ b'b' ∷ b'c' ∷ []) typed-Reach) (omega arith)

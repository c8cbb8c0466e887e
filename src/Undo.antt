-- ===== src/Undo.antt =====
-- The log of the changes of a buffer, of app/eedit/api/src/buffer_log.cpp. The commits of a log are in a
-- store, where the address of a commit is its position: a commit is allocated at the end, and freed
-- only with its log. `data` and `size` are a list of bytes; the null pointer is the empty list. What
-- is logged for debugging is not modelled, and the members `id`, `next_rev` and `table` are not used by the
-- source.
pub mod Contents
pub mod Chain
pub mod Pushing
pub mod Reverting
pub mod History
pub mod Reach
pub mod Table
mod Tests
use ewlibs.Base.{
  ltb, leb, ◌==◌, if◌then◌else◌, ==_iff, ==_refl, Bool-cases, Option-cases, ◌>>=◌, some_inj, length,
  get_elem?, set, take, drop, replicate, length-append, length-set, get_elem?-set_self,
  get_elem?-set_ne, get_elem?-lt, get_elem?-some, get_elem?-append_left, get_elem?-append_right,
  get_elem?-set, get_elem?-push, take-append-drop, length-take, length-drop, length-replicate,
  length-map, ℕ, zero, suc, ◌+◌, ◌-◌, ◌*◌, ◌/◌, ◌%◌, ◌^◌, ◌≤◌, ◌<◌, min, max, ◌≡◌, refl, sym, ap,
  ap₂, ◌∙◌, fun_ext, subst, ◌≢◌, ◌↔◌, ◌⊎◌, inl, inr, Bool, true, false, not, ◌&&◌, ◌||◌, Option,
  none, some, List, [], ◌∷◌, ◌++◌, map, append_assoc, append-nil, arith,
}

-- `buffer_log_operation_t`
pub data Operation : Type 0 where
  nop insert_op remove_op : Operation

-- `buffer_commit`
pub record Commit : Type 0 where
  pub rev : ℕ
  pub parent : Option ℕ
  pub prev : Option ℕ
  pub next : Option ℕ
  pub op : Operation
  pub offset : ℕ
  pub data_bytes : List ℕ

-- `buffer_log`, with the store of its commits.
pub record Log : Type 0 where
  pub commits : List Commit
  pub first : ℕ
  pub cur : ℕ
  pub last : ℕ

-- The payload of a commit: `op`, `offset`, `data` and `size`.
pub record Edit : Type 0 where
  pub op : Operation
  pub offset : ℕ
  pub data_bytes : List ℕ

-- `new buffer_commit`
abbrev pub new_commit : Commit
new_commit = record {
  rev = 0;
  parent = none;
  prev = none;
  next = none;
  op = nop;
  offset = 0;
  data_bytes = [];
}

-- The log that `buffer_log_init` makes.
abbrev pub new_log : Log
new_log = record { commits = new_commit ∷ []; first = 0; cur = 0; last = 0 }

-- `buffer_log_ll_insert_commit(log, op, offset, data, size, rev)`: the revision, and the log after it. A
-- pointer that is no commit is a fault.
unfoldable pub ll_insert_commit : Log → Edit → Option (ℕ × Log)
ll_insert_commit log e = get_elem? log.commits log.last >>= λ c.
    let rev = (c.rev + 1) % 2 ^ 64 in
    let here = length log.commits in
    let ci : Commit = record {
      rev = rev;
      parent = some log.cur;
      prev = some log.last;
      next = none;
      op = e.op;
      offset = e.offset;
      data_bytes = e.data_bytes;
    } in
    some (
      rev,
      record log {
        commits = set log.commits log.last (record c { next = some here }) ++ ci ∷ [];
        cur = here;
        last = here;
      },
    )

-- The operation of a commit that reverts another.
abbrev pub inverse_op : Operation → Operation
inverse_op insert_op = remove_op
inverse_op remove_op = insert_op
inverse_op nop = insert_op

abbrev pub inverse : Edit → Edit
inverse e = record e { op = inverse_op e.op }

abbrev pub edit_of : Commit → Edit
edit_of c = record { op = c.op; offset = c.offset; data_bytes = c.data_bytes }

-- The first loop of `buffer_log_insert_revert_commits`, from `b` to `e`, on fuel: the commits of `ci_list`.
-- The null pointer that is read is a fault.
unfoldable pub revert_list : ℕ → List Commit → Option ℕ → ℕ → Option (List Edit)
revert_list zero commits b e = none
revert_list (suc fuel) commits none e = none
revert_list (suc fuel) commits (some b) e =
    if b == e
    then some []
    else (get_elem? commits b >>= λ c.
        revert_list fuel commits c.parent e >>= λ rest. some (inverse (edit_of c) ∷ rest))

-- The second loop.
unfoldable pub insert_list : Log → List Edit → Option Log
insert_list log [] = some log
insert_list log (e ∷ es) = ll_insert_commit log e >>= λ (rev, log'). insert_list log' es

-- `buffer_log_insert_revert_commits(log)`: no more turns are made than there are commits.
unfoldable pub insert_revert_commits : Log → Option Log
insert_revert_commits log =
    if log.cur == log.last
    then some log
    else (revert_list (length log.commits) log.commits (some log.last) log.cur >>= λ ci_list.
        insert_list (record log { cur = log.last }) ci_list)

-- `buffer_log_insert_commit(log_id, op, offset, data, size, rev)` on a log
unfoldable pub insert_commit : Log → Edit → Option (ℕ × Log)
insert_commit log e = insert_revert_commits log >>= λ log'. ll_insert_commit log' e

-- `buffer_log_insert`, `buffer_log_remove`
abbrev pub log_insert : Log → ℕ → List ℕ → Option (ℕ × Log)
log_insert log offset bytes =
    insert_commit log (record { op = insert_op; offset = offset; data_bytes = bytes })

abbrev pub log_remove : Log → ℕ → List ℕ → Option (ℕ × Log)
log_remove log offset bytes =
    insert_commit log (record { op = remove_op; offset = offset; data_bytes = bytes })

-- `buffer_log_get_last_commit`, `buffer_log_get_current_commit`, with `buffer_commit_attr`: the
-- revision and the payload.
unfoldable pub get_last_commit : Log → Option (ℕ × Edit)
get_last_commit log = get_elem? log.commits log.last >>= λ c. some (c.rev, edit_of c)

unfoldable pub get_current_commit : Log → Option (ℕ × Edit)
get_current_commit log = get_elem? log.commits log.cur >>= λ c. some (c.rev, edit_of c)

-- `buffer_log_undo`, `buffer_log_redo`
unfoldable pub undo : Log → Option Log
undo log = get_elem? log.commits log.cur >>= λ c. elim c.parent [
  | none ↦ some log
  | some p ↦ some (record log { cur = p })
]

unfoldable pub redo : Log → Option Log
redo log = get_elem? log.commits log.cur >>= λ c. elim c.next [
  | none ↦ some log
  | some n ↦ some (record log { cur = n })
]

-- ===== src/Undo/Table.antt =====
-- The table of the logs, of app/eedit/api/src/buffer_log.cpp: giving out an id, and freeing it. The
-- operations on a log by its id fetch it from the table; an id without a log is a null pointer that is
-- read.
use ewlibs.Base.{
  leb, ◌==◌, if◌then◌else◌, ==_iff, ==_refl, Bool-cases, ◌>>=◌, ℕ, zero, suc, ◌+◌, ◌-◌, ◌%◌, ◌≤◌,
  ◌<◌, ◌≡◌, refl, sym, ap, ◌∙◌, subst, ◌≢◌, inl, inr, Bool, true, false, not, ◌||◌, Option, none,
  some, List, arith,
}
use ewlibs.Undo.{Log, new_log, log_insert, log_remove}

abbrev pub max_buffer_logs : ℕ
max_buffer_logs = 1000000

-- `log_table` and `last_id`: the null pointer is none.
pub record Logs : Type 0 where
  pub log_table : ℕ → Option Log
  pub last_id : ℕ

abbrev pub no_logs : Logs
no_logs = record { log_table = λ i. none; last_id = 1 }

abbrev pub is_null : Option Log → Bool
is_null none = true
is_null (some log) = false

abbrev write_log : (ℕ → Option Log) → ℕ → Option Log → ℕ → Option Log
write_log table id log i = if i == id then log else table i

-- `get_log_pointer(log_id)`
unfoldable pub get_log_pointer : Logs → ℕ → Option Log
get_log_pointer logs id = if leb max_buffer_logs id then none else logs.log_table id

-- The loop of `buffer_log_init` from `id`, on fuel: the free id, or none when it comes back to
-- `last_id`.
unfoldable pub free_id : ℕ → (ℕ → Option Log) → ℕ → ℕ → Option ℕ
free_id zero table last_id id = none
free_id (suc fuel) table last_id id =
    let next = (id + 1) % max_buffer_logs in
    let rest = free_id fuel table last_id next in
    if not (is_null (table id)) || id == 0
    then (if next == last_id then none else rest)
    else some id

-- `buffer_log_init(bid, allocated_id)`: the id, and the table after it; none is the result -1.
unfoldable pub buffer_log_init : Logs → Option (ℕ × Logs)
buffer_log_init logs = free_id max_buffer_logs logs.log_table logs.last_id logs.last_id >>= λ id.
    some (id, record { log_table = write_log logs.log_table id (some new_log); last_id = id })

-- `buffer_log_destroy(log_id)`; an id out of range is a write out of bounds.
unfoldable pub buffer_log_destroy : Logs → ℕ → Option Logs
buffer_log_destroy logs id =
    if leb max_buffer_logs id
    then none
    else some (record logs { log_table = write_log logs.log_table id none })

-- An operation on the log of an id.
unfoldable pub with_log : {A : Type 0} → Logs → ℕ → (Log → Option (A × Log)) → Option (A × Logs)
with_log logs id f = get_log_pointer logs id >>= λ log. f log >>= λ (a, log').
    some (a, record logs { log_table = write_log logs.log_table id (some log') })

-- `buffer_log_insert`, `buffer_log_remove`
abbrev pub buffer_log_insert : Logs → ℕ → ℕ → List ℕ → Option (ℕ × Logs)
buffer_log_insert logs id offset bytes = with_log logs id (λ log. log_insert log offset bytes)

abbrev pub buffer_log_remove : Logs → ℕ → ℕ → List ℕ → Option (ℕ × Logs)
buffer_log_remove logs id offset bytes = with_log logs id (λ log. log_remove log offset bytes)

is_null-none : (l : Option Log) → is_null l ≡ true → l ≡ none
is_null-none none h = refl
is_null-none (some log) h = absurd (cc h)

-- An id at which the loop stops.
free_test :
    (table : ℕ → Option Log) (id : ℕ)
    → (not (is_null (table id)) || id == 0) ≡ false
    → (table id ≡ none) × (0 < id)
free_test table id h = elim (Bool-cases (is_null (table id))) [
  | inl q ↦ (is_null-none (table id) q, ground (arith, q, h))
  | inr q ↦ absurd (cc (rw q at h))
]

test_free :
    (table : ℕ → Option Log) (id : ℕ)
    → table id ≡ none
    → 0 < id
    → (not (is_null (table id)) || id == 0) ≡ false
test_free table id h p = rw h (ground (arith, p))

next_ne :
    (last_id id p : ℕ)
    → last_id < max_buffer_logs
    → id ≡ (last_id + p) % max_buffer_logs
    → p + 1 < max_buffer_logs
    → ((id + 1) % max_buffer_logs == last_id) ≡ false
next_ne last_id id p l e h = elim (Bool-cases ((id + 1) % max_buffer_logs == last_id)) [
  | inr q ↦ q
  | inl q ↦ absurd (omega (arith, l, e, h, (==_iff ((id + 1) % max_buffer_logs) last_id).0 q))
]

-- What the loop gives.
abbrev pub Free : (ℕ → Option Log) → Option ℕ → Type 0
Free table r = (id : ℕ) × (r ≡ some id) × (table id ≡ none) × (0 < id) × (id < max_buffer_logs)

module _ (table : ℕ → Option Log) (last_id : ℕ) (in_range : last_id < max_buffer_logs) where
  -- With a free id q places after `last_id`, the loop that is p places after it finds one.
  free_id-Free :
      (fuel id p q : ℕ)
      → id ≡ (last_id + p) % max_buffer_logs
      → p ≤ q
      → q < max_buffer_logs
      → q - p < fuel
      → table ((last_id + q) % max_buffer_logs) ≡ none
      → 0 < (last_id + q) % max_buffer_logs
      → Free table (free_id fuel table last_id id)
  unfolding free_id
  free_id-Free zero id p q e le lt f free pos = absurd (omega (arith, f))
  free_id-Free (suc fuel) id p q e le lt f free pos =
      elim (Bool-cases (not (is_null (table id)) || id == 0)) [
        | inr t ↦ (
          id,
          rw t refl,
          (free_test table id t).0,
          (free_test table id t).1,
          omega (arith, e, mod_lt (last_id + p)),
        )
        | inl t ↦ elim (Bool-cases (p == q)) [
          | inl s ↦ absurd (taken ((==_iff p q).0 s) t)
          | inr s ↦
              let next : ((id + 1) % max_buffer_logs == last_id) ≡ false =
                next_ne last_id id p in_range e (ground (arith, s, le, lt)) in
              rw (t, next)
                (free_id-Free fuel ((id + 1) % max_buffer_logs) (p + 1) q (omega (arith, e))
                  (ground (arith, s, le)) lt (ground (arith, s, le, f)) free pos)
        ]
      ]
    where
      mod_lt : (n : ℕ) → n % max_buffer_logs < max_buffer_logs
      mod_lt n = omega arith

      taken : p ≡ q → (not (is_null (table id)) || id == 0) ≡ true → ⊥
      taken s t =
          let here : (last_id + q) % max_buffer_logs ≡ id =
            ap (λ n. (last_id + n) % max_buffer_logs) (sym s) ∙ sym e in
          absurd (
            cc (
              sym t
              ∙ test_free table id (ap table (sym here) ∙ free) (subst (λ n. 0 < n) here pos)))

-- When an id other than 0 is free, `buffer_log_init` gives out an id that was free, is not 0 and is in
-- range; its log is a new one, the other logs are as they were, and `last_id` stays in range.
pub buffer_log_init-Free :
    (logs : Logs) (f : ℕ)
    → logs.last_id < max_buffer_logs
    → 0 < f
    → f < max_buffer_logs
    → logs.log_table f ≡ none
    → (id : ℕ) × (logs' : Logs) × (buffer_log_init logs ≡ some (id, logs'))
      × (logs.log_table id ≡ none)
      × (0 < id)
      × (get_log_pointer logs' id ≡ some new_log)
      × ((j : ℕ) → j ≢ id → get_log_pointer logs' j ≡ get_log_pointer logs j)
      × (logs'.last_id < max_buffer_logs)
unfolding buffer_log_init get_log_pointer
buffer_log_init-Free logs f l pos lt free =
    let q = (f + max_buffer_logs - logs.last_id) % max_buffer_logs in
    let there : (logs.last_id + q) % max_buffer_logs ≡ f = omega (arith, l, lt) in
    let (id, e, null, p, r) =
      free_id-Free logs.log_table logs.last_id l max_buffer_logs logs.last_id 0 q (omega (arith, l))
        (omega arith) (omega arith) (omega arith) (ap logs.log_table there ∙ free)
        (subst (λ n. 0 < n) (sym there) pos) in
    (
      id,
      record { log_table = write_log logs.log_table id (some new_log); last_id = id },
      rw e refl,
      null,
      p,
      ground (arith, r, ==_refl id),
      λ j n. ground (arith, n),
      r,
    )

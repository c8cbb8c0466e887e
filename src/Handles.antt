-- ===== src/Handles.antt =====
-- `handle_index_allocator` of app/eedit/api/src/handle_table.h: a table of pointers, and the handles
-- that index it. The objects are those of the caller, with `T` for a pointer to one; what their
-- constructor and destructor do is not modelled. `none` is a fault: a read past the end of the table.
pub mod Allocation
pub mod Handing
mod Tests
use ewlibs.Base.{
  ltb, leb, ◌==◌, if◌then◌else◌, ==_iff, ==_refl, Bool-cases, Option-cases, ◌>>=◌, some_inj, length,
  get_elem?, set, take, drop, replicate, length-append, length-set, get_elem?-set_self,
  get_elem?-set_ne, get_elem?-lt, get_elem?-some, get_elem?-append_left, get_elem?-append_right,
  get_elem?-set, get_elem?-push, take-append-drop, length-take, length-drop, length-replicate,
  length-map, ℕ, zero, suc, ◌+◌, ◌-◌, ◌*◌, ◌/◌, ◌%◌, ◌^◌, ◌≤◌, ◌<◌, min, max, ◌≡◌, refl, sym, ap,
  ap₂, ◌∙◌, fun_ext, subst, ◌≢◌, ◌↔◌, ◌⊎◌, inl, inr, Bool, true, false, not, ◌&&◌, ◌||◌, Option,
  none, some, List, [], ◌∷◌, ◌++◌, map, append_assoc, append-nil, arith,
}

pub record Allocator (T : Type 0) : Type 0 where
  pub table : List (Option T)
  pub last_idx : ℕ
  pub used : ℕ

module _ {T : Type 0} where
  -- `handle_index_allocator()`
  abbrev pub new_allocator : Allocator T
  new_allocator = record { table = replicate 1000 none; last_idx = 0; used = 0 }

  -- `table.resize(table.size() + 1000)`, if every slot is counted as used.
  unfoldable pub grown : Allocator T → List (Option T)
  grown h = if length h.table == h.used then h.table ++ replicate 1000 none else h.table

  -- The loop of `get_index` from `idx`, with n slots to the end of the table: the read at the end of
  -- the table is a fault. The result 0 means that it came back to `last_idx`.
  unfoldable pub free_index : List (Option T) → ℕ → ℕ → ℕ → Option ℕ
  free_index table last_idx zero idx = none
  free_index table last_idx (suc n) idx =
      let rest = free_index table last_idx n (idx + 1) in
      get_elem? table idx >>= λ slot. elim slot [
        | some t ↦ if idx + 1 == last_idx then some 0 else rest
        | none ↦ if idx == 0 then (if idx + 1 == last_idx then some 0 else rest) else some idx
      ]

  -- `get_index()`: the index, and the allocator with the table and `last_idx` after it.
  unfoldable pub get_index : Allocator T → Option (ℕ × Allocator T)
  get_index h =
      let table = grown h in
      let next = (h.last_idx + 1) % 2 ^ 64 in
      let first = (if leb (length table) next then 1 else next) in
      free_index table h.last_idx (length table - first) first >>= λ idx.
      if idx == 0
      then some (0, record h { table = table })
      else some (idx, record h { table = table; last_idx = idx })

  -- `construct(args...)`: the new pointer `t` and its index, or the null pointer and 0.
  unfoldable pub construct : Allocator T → T → Option ((Option T × ℕ) × Allocator T)
  construct h t = get_index h >>= λ (idx, h').
      if idx == 0
      then some ((none, idx), h')
      else some (
        (some t, idx),
        record h' { table = set h'.table idx (some t); used = (h'.used + 1) % 2 ^ 64 },
      )

  -- `get(idx)`: the pointer in the slot, null for an index out of range.
  unfoldable pub get : Allocator T → ℕ → Option T
  get h idx = elim (get_elem? h.table idx) [ none ↦ none | some slot ↦ slot ]

  -- `release(idx)`
  abbrev pub release : Allocator T → ℕ → Allocator T
  release h idx = if ltb idx (length h.table) then record h { table = set h.table idx none } else h

  -- `destroy(idx)`
  unfoldable pub destroy : Allocator T → ℕ → Bool × Allocator T
  destroy h idx = elim (get h idx) [
    | none ↦ (false, h)
    | some t ↦
        let h' = release h idx in
        (true, record h' { used = (if h'.used == 0 then 2 ^ 64 - 1 else h'.used - 1) })
  ]

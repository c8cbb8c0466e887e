-- ===== src/Array.antt =====
-- `simple_array` of include/ew/core/container/simple_array.hpp, for elements that are no plain data. The
-- memory from `_base` to `_alloc` is a list of cells, none for a cell without an element; `_ptr` is
-- `_base`, since `skip` always asserts.
pub mod Elements
pub mod Growing
mod Tests
use ewlibs.Base.{
  ltb, leb, ◌==◌, if◌then◌else◌, ==_iff, ==_refl, Bool-cases, Option-cases, ◌>>=◌, some_inj, length,
  get_elem?, set, take, drop, replicate, length-append, length-set, get_elem?-set_self,
  get_elem?-set_ne, get_elem?-lt, get_elem?-some, get_elem?-append_left, get_elem?-append_right,
  get_elem?-set, get_elem?-push, take-append-drop, length-take, length-drop, length-replicate,
  length-map, ℕ, zero, suc, ◌+◌, ◌-◌, ◌*◌, ◌/◌, ◌%◌, ◌^◌, ◌≤◌, ◌<◌, min, max, ◌≡◌, refl, sym, ap,
  ap₂, ◌∙◌, fun_ext, subst, ◌≢◌, ◌↔◌, ◌⊎◌, inl, inr, Bool, true, false, not, ◌&&◌, ◌||◌, Option,
  none, some, List, [], ◌∷◌, ◌++◌, map, append_assoc, append-nil, arith,
}

-- `simple_array<T>`: the cells, and `_size - _ptr`.
pub record Array (T : Type 0) : Type 0 where
  pub cells : List (Option T)
  pub used : ℕ

module _ {T : Type 0} where
  -- The element of a cell; the read of a cell without an element, or out of the memory, is a fault.
  abbrev pub element : List (Option T) → ℕ → Option T
  element cells i = elim (get_elem? cells i) [ none ↦ none | some c ↦ c ]

  -- The loop of `erase` from `i`, with n turns to go, on an array of `size` elements.
  unfoldable pub erase_loop : ℕ → ℕ → ℕ → ℕ → List (Option T) → Option (List (Option T))
  erase_loop size len zero i cells = some cells
  erase_loop size len (suc n) i cells =
      if ltb (i + len) size
      then (element cells (i + len) >>= λ x. erase_loop size len n (i + 1) (set cells i (some x)))
      else erase_loop size len n (i + 1) (set cells i none)

  -- `erase(first, last)`
  unfoldable pub erase : Array T → ℕ → ℕ → Option (Array T)
  erase a first last = erase_loop a.used (last - first) (a.used - first) first a.cells >>= λ cells.
      some (record { cells = cells; used = a.used - (last - first) })

-- `nexthigher(start, k)`, on fuel: none when there is none left.
unfoldable pub double_up : ℕ → ℕ → ℕ → Option ℕ
double_up zero start k = none
double_up (suc fuel) start k =
    let rest = double_up fuel (start * 2 % 2 ^ 64) k in if ltb start k then rest else some start

abbrev pub nexthigher : ℕ → ℕ → Option ℕ
nexthigher start k = double_up (k + 1) (if start == 0 then 1 else start) k

module _ {T : Type 0} where
  -- The copies of n elements from a cell on.
  unfoldable pub read_range : ℕ → ℕ → List (Option T) → Option (List T)
  read_range zero i cells = some []
  read_range (suc n) i cells =
      element cells i >>= λ x. read_range n (i + 1) cells >>= λ xs. some (x ∷ xs)

  -- `resize_insert(before, first, last, nr_items)`; `pointers` says whether the iterators are pointers,
  -- for which an assertion fails, and `item_size` is `sizeof(T)`. The new memory has the elements in front
  -- of the place, the items, the elements behind it, and cells without one. Memory that is too small for
  -- what is written to it is a fault.
  unfoldable pub resize_insert : Bool → ℕ → Array T → ℕ → List T → Option (Array T)
  resize_insert pointers item_size a before items =
      let target_size = (a.used + length items) % 2 ^ 64 in
      (if a.used == 0 then some target_size else nexthigher (a.used * 2 % 2 ^ 64) target_size)
      >>= λ newsize.
          if pointers
          then none
          else read_range before 0 a.cells >>= λ front.
              read_range (a.used - before) before a.cells >>= λ back.
              if ltb (newsize * item_size % 2 ^ 64) (length (front ++ items ++ back) * item_size)
              then none
              else some (record {
                cells =
                    map (λ x. some x) (front ++ items ++ back)
                    ++ replicate (newsize - target_size) none;
                used = target_size;
              })

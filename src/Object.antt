-- ===== src/Object.antt =====
-- `ew::core::object` of implementation/common/core/object/object.cpp: parent and child links over a
-- store of objects. An object is known by its address, and each address below stands for a live
-- object. The mutexes and the destructor are not modelled.
pub mod Links
pub mod Methods
mod Tests
use ewlibs.Base.{
  ltb, leb, ◌==◌, if◌then◌else◌, ==_iff, ==_refl, Bool-cases, Option-cases, ◌>>=◌, some_inj, length,
  get_elem?, set, take, drop, replicate, length-append, length-set, get_elem?-set_self,
  get_elem?-set_ne, get_elem?-lt, get_elem?-some, get_elem?-append_left, get_elem?-append_right,
  get_elem?-set, get_elem?-push, take-append-drop, length-take, length-drop, length-replicate,
  length-map, ℕ, zero, suc, ◌+◌, ◌-◌, ◌*◌, ◌/◌, ◌%◌, ◌^◌, ◌≤◌, ◌<◌, min, max, ◌≡◌, refl, sym, ap,
  ap₂, ◌∙◌, fun_ext, subst, ◌≢◌, ◌↔◌, ◌⊎◌, inl, inr, Bool, true, false, not, ◌&&◌, ◌||◌, Option,
  none, some, List, [], ◌∷◌, ◌++◌, map, append_assoc, append-nil, arith,
}

-- `object::private_data` without the name; the vector is not allocated before the first child.
pub record Object : Type 0 where
  pub parent : Option ℕ
  pub parent_index : ℕ
  pub nr_children : ℕ
  pub children : Option (List (Option ℕ))

abbrev pub Store : Type 0
Store = ℕ → Object

-- `private_data()`
abbrev pub new_object : Object
new_object = record { parent = none; parent_index = 0; nr_children = 0; children = none }

abbrev pub write : ℕ → Object → Store → Store
write i o s = λ j. if i == j then o else s j

-- `--_nrChildren` on a `size_t`. The other way it cannot wrap: each child takes memory.
abbrev pub decrement : ℕ → ℕ
decrement n = if n == 0 then 2 ^ 64 - 1 else n - 1

-- The slots of an object; there are none before the vector is allocated.
abbrev pub slots_of : Option (List (Option ℕ)) → List (Option ℕ)
slots_of none = []
slots_of (some vec) = vec

abbrev pub slots : Store → ℕ → List (Option ℕ)
slots s p = slots_of (s p).children

-- "remove previous parent". A missing vector or an index out of its range is a fault.
abbrev clear_slot : ℕ → ℕ → Object → Store → Option Store
clear_slot p i o s = elim o.children [
  | none ↦ none
  | some vec ↦
      if ltb i (length vec)
      then some (
          write p
            (record o { children = some (set vec i none); nr_children = decrement o.nr_children })
            s)
      else none
]

unfoldable pub unlink : ℕ → Store → Option Store
unlink self s = elim (s self).parent [
  | none ↦ some s
  | some p ↦ clear_slot p (s self).parent_index (s p) s >>= λ s'.
      some (write self (record (s' self) { parent = none }) s')
]

-- The scan for an empty slot.
unfoldable pub first_empty : List (Option ℕ) → Option ℕ
first_empty [] = none
first_empty (none ∷ vec) = some 0
first_empty (some c ∷ vec) = elim (first_empty vec) [ none ↦ none | some i ↦ some (suc i) ]

-- Where the new child goes: an empty slot if the count says that there is one, or the end.
unfoldable pub chosen_slot : ℕ → List (Option ℕ) → Option ℕ
chosen_slot nr vec = if nr == length vec then none else first_empty vec

-- "select new parent"
unfoldable pub link : ℕ → ℕ → Store → Store
link self p s =
    let vec = slots s p in
    let put = λ (vec' : List (Option ℕ)) (i : ℕ).
      write self (record (s self) { parent = some p; parent_index = i })
        (write p (record (s p) { children = some vec'; nr_children = (s p).nr_children + 1 }) s) in
    elim (chosen_slot (s p).nr_children vec) [
      | some i ↦ put (set vec i (some self)) i
      | none ↦ put (vec ++ some self ∷ []) (length vec)
    ]

-- `set_parent(obj)`: `none` is the null pointer.
unfoldable pub set_parent : ℕ → Option ℕ → Store → Option (Bool × Store)
set_parent self none s = unlink self s >>= λ s'. some (true, s')
set_parent self (some obj) s =
    if self == obj then some (false, s) else unlink self s >>= λ s'. some (true, link self obj s')

-- `has_children()`, `number_of_children()`
unfoldable pub has_children : Store → ℕ → Bool
has_children s p = not ((s p).nr_children == 0)

unfoldable pub number_of_children : Store → ℕ → ℕ
number_of_children s p = (s p).nr_children

-- `get_child(nr)`: null for an empty slot, and for one out of range. Without a vector the read of
-- `children_array()` is reached only if the count is not zero, and then it is a fault.
unfoldable pub get_child : Store → ℕ → ℕ → Option (Option ℕ)
get_child s p nr = if not (has_children s p) then some none else elim (s p).children [
  | none ↦ none
  | some vec ↦ elim (get_elem? vec nr) [ none ↦ some none | some c ↦ some c ]
]

-- `add_child(child)`
unfoldable pub add_child : ℕ → ℕ → Store → Option (Bool × Store)
add_child self child s = set_parent child (some self) s

abbrev pub is_parent : Option ℕ → ℕ → Bool
is_parent none p = false
is_parent (some q) p = q == p

-- `remove_child(child)`: false for the null pointer and for an object that is no child of this one.
unfoldable pub remove_child : ℕ → Option ℕ → Store → Option (Bool × Store)
remove_child self none s = some (false, s)
remove_child self (some child) s =
    if is_parent (s child).parent self then set_parent child none s else some (false, s)

-- `is_parent_of`, `is_child_of`
unfoldable pub is_parent_of : Store → ℕ → ℕ → Bool
is_parent_of s self obj = is_parent (s obj).parent self

unfoldable pub is_child_of : Store → ℕ → ℕ → Bool
is_child_of s self obj = is_parent (s self).parent obj

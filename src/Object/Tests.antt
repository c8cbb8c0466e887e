-- ===== src/Object/Tests.antt =====
-- The theorems about `ew::core::object` on a small tree: 0 is the parent of 1 and 2.
use ewlibs.Base.{◌≡◌, refl, true, none, some, arith}
use ewlibs.Object.{
  Store, new_object, set_parent, link, unlink, add_child, remove_child, first_empty, chosen_slot,
}
use ewlibs.Object.Links.{WellFormed}
use ewlibs.Object.Methods.{
  Reach, fresh, after, adding, removing, Reach-WellFormed, Moved, set_parent-Moved,
}

abbrev one_child : Store
one_child = link 1 0 (λ _. new_object)

abbrev two_children : Store
two_children = link 2 0 one_child

one_child-Reach : Reach one_child
unfolding add_child set_parent unlink link first_empty chosen_slot
one_child-Reach = after fresh (adding 0 1 true refl)

two_children-Reach : Reach two_children
unfolding add_child set_parent unlink link first_empty chosen_slot
two_children-Reach = after one_child-Reach (adding 0 2 true refl)

two_children-WellFormed : WellFormed two_children
two_children-WellFormed = Reach-WellFormed two_children-Reach

Reach-WellFormed_example : WellFormed two_children
Reach-WellFormed_example = Reach-WellFormed two_children-Reach

set_parent-Moved_example :
    (s' : Store) × (set_parent 2 (some 1) two_children ≡ some (true, s'))
    × Moved 2 (some 1) two_children s'
set_parent-Moved_example =
    set_parent-Moved two_children 2 (some 1) two_children-WellFormed (λ h. ground arith)

-- The first child is taken out, and its slot stays empty.
abbrev hole_store : Store
hole_store = elim (unlink 1 two_children) [ none ↦ two_children | some s ↦ s ]

hole-Reach : Reach hole_store
unfolding remove_child set_parent unlink link first_empty chosen_slot
hole-Reach = after two_children-Reach (removing 0 (some 1) true refl)

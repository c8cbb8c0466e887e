-- ===== src/Object/Methods.antt =====
-- What `set_parent`, `add_child` and `remove_child` do to the links, what `get_child` reads, and what
-- a loop up to `number_of_children` reaches.
use ewlibs.Base.{
  ◌==◌, ==_iff, ==_refl, Bool-cases, Option-cases, some_inj, length, get_elem?, ℕ, zero, suc, ◌+◌,
  ◌≤◌, ◌<◌, ◌≡◌, refl, sym, ap, ◌∙◌, subst, ◌≢◌, ◌↔◌, ◌⊎◌, inl, inr, Bool, true, false, Option,
  none, some, List, [], ◌∷◌, arith,
}
use ewlibs.Object.{
  Store, new_object, slots, unlink, link, set_parent, add_child, remove_child, get_child,
  has_children, number_of_children, is_parent,
}
use ewlibs.Object.Links.{
  WellFormed, occupied, occupied-pos, unlinked, unlink-unlinked, unlinked-WellFormed,
  link-WellFormed,
}

-- `self` has the parent `obj` now, the other parents are what they were, and the links agree.
pub record Moved (self : ℕ) (obj : Option ℕ) (s s' : Store) : Type 0 where
  pub well_formed : WellFormed s'
  pub parent : (s' self).parent ≡ obj
  pub others : (c : ℕ) → c ≢ self → (s' c).parent ≡ (s c).parent

module _ (s : Store) (w : WellFormed s) (self : ℕ) where
  vector_of :
      (p i : ℕ)
      → get_elem? (slots s p) i ≡ some (some self)
      → (vec : List (Option ℕ)) × ((s p).children ≡ some vec)
  vector_of p i h = elim (Option-cases (s p).children) [ inl e ↦ absurd (ground arith) | inr r ↦ r ]

  unlink-Moved : (s' : Store) × (unlink self s ≡ some s') × Moved self none s s'
  unlink-Moved = elim (Option-cases (s self).parent) [
    | inl e ↦ (
      s,
      unfold unlink in rw (e, unlink),
      record { well_formed = w; parent = e; others = λ c h. refl },
    )
    | inr (p, e) ↦
        let (vec, has) = vector_of p (s self).parent_index (w.placed self p e) in
        (
          unlinked s w self p (s self).parent_index vec e refl has,
          unlink-unlinked s w self p (s self).parent_index vec e refl has,
          record {
            well_formed = unlinked-WellFormed s w self p (s self).parent_index vec e refl has;
            parent = ground arith;
            others = λ c h. ground arith;
          },
        )
  ]

  link_parent :
      (p c : ℕ)
      → p ≢ self
      → ((link self p s) self).parent ≡ some p
        × (c ≢ self → ((link self p s) c).parent ≡ (s c).parent)
  unfolding link
  link_parent p c h = ground arith

-- Outside the one case that it refuses, `set_parent` succeeds without a fault and moves the object.
pub set_parent-Moved :
    (s : Store) (self : ℕ) (obj : Option ℕ)
    → WellFormed s
    → obj ≢ some self
    → (s' : Store) × (set_parent self obj s ≡ some (true, s')) × Moved self obj s s'
unfolding set_parent
set_parent-Moved s self none w h = let (s', e, m) = unlink-Moved s w self in (s', rw e, m)
set_parent-Moved s self (some p) w h =
    let (s', e, m) = unlink-Moved s w self in
    let apart : p ≢ self = λ q. h (ap some q) in
    let test : (self == p) ≡ false = ground arith in
    (
      link self p s',
      rw (test, e),
      record {
        well_formed = link-WellFormed s' m.well_formed self p m.parent apart;
        parent = (link_parent s' m.well_formed self p self apart).0;
        others = λ c n. (link_parent s' m.well_formed self p c apart).1 n ∙ m.others c n;
      },
    )

-- An object is not made its own parent: the call says so and changes nothing.
pub set_parent_self : (s : Store) (self : ℕ) → set_parent self (some self) s ≡ some (false, s)
unfolding set_parent
set_parent_self s self = rw (==_refl self)

-- One call of a public method, with the result that it had.
pub data Call : Store → Store → Type 0 where
  setting :
      {s s' : Store} (self : ℕ) (obj : Option ℕ) (b : Bool)
      → set_parent self obj s ≡ some (b, s')
      → Call s s'
  adding :
      {s s' : Store} (self child : ℕ) (b : Bool) → add_child self child s ≡ some (b, s') → Call s s'
  removing :
      {s s' : Store} (self : ℕ) (child : Option ℕ) (b : Bool)
      → remove_child self child s ≡ some (b, s')
      → Call s s'

pub data Reach : Store → Type 0 where
  fresh : Reach (λ _. new_object)
  after : {s s' : Store} → Reach s → Call s s' → Reach s'

fresh-WellFormed : WellFormed (λ _. new_object)
fresh-WellFormed = record {
  linked = λ p i c h. cc;
  placed = λ c p h. cc;
  counted = λ p. refl;
  irreflexive = λ c h. cc;
}

self_cases : (obj : Option ℕ) (self : ℕ) → (obj ≡ some self) ⊎ (obj ≢ some self)
self_cases none self = inr (λ h. cc)
self_cases (some p) self = elim (Bool-cases (p == self)) [
  | inl e ↦ inl (ap some ((==_iff p self).0 e))
  | inr e ↦ inr (λ h. ground arith)
]

set_parent-WellFormed :
    {s s' : Store} (self : ℕ) (obj : Option ℕ) (b : Bool)
    → WellFormed s
    → set_parent self obj s ≡ some (b, s')
    → WellFormed s'
set_parent-WellFormed {s} {s'} self obj b w e = elim (self_cases obj self) [
  | inl q ↦
      let r : some (false, s) ≡ some (b, s') =
        sym (set_parent_self s self) ∙ ap (λ o. set_parent self o s) (sym q) ∙ e in
      subst WellFormed (ap (λ x. x.1) (some_inj r)) w
  | inr n ↦
      let (s'', run, m) = set_parent-Moved s self obj w n in
      subst WellFormed (ap (λ x. x.1) (some_inj (sym run ∙ e))) m.well_formed
]

remove_child-WellFormed :
    {s s' : Store} (self : ℕ) (child : Option ℕ) (b : Bool)
    → WellFormed s
    → remove_child self child s ≡ some (b, s')
    → WellFormed s'
unfolding remove_child
remove_child-WellFormed self none b w e = subst WellFormed (ap (λ x. x.1) (some_inj e)) w
remove_child-WellFormed {s} self (some child) b w e =
    elim (Bool-cases (is_parent (s child).parent self)) [
      | inl t ↦ set_parent-WellFormed child none b w (rw t at e)
      | inr f ↦ subst WellFormed (ap (λ x. x.1) (some_inj (rw f at e))) w
    ]

Call-WellFormed : {s s' : Store} → Call s s' → WellFormed s → WellFormed s'
Call-WellFormed (setting self obj b e) w = set_parent-WellFormed self obj b w e
Call-WellFormed (adding self child b e) w =
    set_parent-WellFormed child (some self) b w (unfold add_child in e)
Call-WellFormed (removing self child b e) w = remove_child-WellFormed self child b w e

-- In every store that calls of the methods lead to, from objects without links, the links agree.
pub Reach-WellFormed : {s : Store} → Reach s → WellFormed s
Reach-WellFormed fresh = fresh-WellFormed
Reach-WellFormed (after r c) = Call-WellFormed c (Reach-WellFormed r)

-- `get_child` at the index that a child records gives the child, and no other child stands there.
pub get_child-parent_index :
    (s : Store) (p c : ℕ) (i : ℕ)
    → WellFormed s
    → (get_child s p i ≡ some (some c)) ↔ (((s c).parent ≡ some p) × ((s c).parent_index ≡ i))
unfolding get_child has_children
get_child-parent_index s p c i w = (
  λ h. ground (arith, w.linked p i c),
  λ h. ground (arith, w.placed c p, w.counted p, occupied-pos (slots s p) i c),
)

occupied-le : (vec : List (Option ℕ)) → occupied vec ≤ length vec
occupied-le [] = omega arith
occupied-le (none ∷ vec) = omega (arith, occupied-le vec)
occupied-le (some c ∷ vec) = omega (arith, occupied-le vec)

occupied-lt :
    (vec : List (Option ℕ)) (i : ℕ) → get_elem? vec i ≡ some none → occupied vec < length vec
occupied-lt [] i h = cc
occupied-lt (none ∷ vec) i h = omega (arith, occupied-le vec)
occupied-lt (some c ∷ vec) zero h = ground arith
occupied-lt (some c ∷ vec) (suc i) h = omega (arith, occupied-lt vec i h)

-- A loop `for (i = 0; i < number_of_children(); ++i) get_child(i)` does not reach a child in the last
-- slot while another slot is empty.
pub number_of_children-missed :
    (s : Store) (p c i : ℕ)
    → WellFormed s
    → (s c).parent ≡ some p
    → (s c).parent_index + 1 ≡ length (slots s p)
    → get_elem? (slots s p) i ≡ some none
    → number_of_children s p ≤ (s c).parent_index
unfolding number_of_children
number_of_children-missed s p c i w up last hole =
    omega (arith, w.counted p, occupied-lt (slots s p) i hole)

-- ===== src/Object/Links.antt =====
-- The links of `ew::core::object` agree in both directions, and every operation keeps them so.
use ewlibs.Base.{
  Option-cases, length, get_elem?, set, get_elem?-set_self, get_elem?-set_ne, get_elem?-lt,
  get_elem?-set, get_elem?-push, ℕ, zero, suc, ◌+◌, ◌<◌, ◌≡◌, refl, sym, ◌∙◌, ◌≢◌, inl, inr, Option,
  none, some, List, [], ◌∷◌, ◌++◌, arith,
}
use ewlibs.Object.{Store, write, slots, decrement, unlink, link, first_empty, chosen_slot}

abbrev pub full : Option ℕ → ℕ
full none = 0
full (some c) = 1

-- The number of slots that hold a child.
abbrev pub occupied : List (Option ℕ) → ℕ
occupied [] = 0
occupied (o ∷ vec) = full o + occupied vec

occupied-set :
    (vec : List (Option ℕ)) (i : ℕ) (v old : Option ℕ)
    → get_elem? vec i ≡ some old
    → occupied (set vec i v) + full old ≡ occupied vec + full v
occupied-set [] i v old h = cc
occupied-set (o ∷ vec) zero v old h = ground arith
occupied-set (o ∷ vec) (suc i) v old h = omega (arith, occupied-set vec i v old h)

occupied-push :
    (vec : List (Option ℕ)) (v : Option ℕ) → occupied (vec ++ v ∷ []) ≡ occupied vec + full v
occupied-push [] v = omega arith
occupied-push (o ∷ vec) v = omega (arith, occupied-push vec v)

pub occupied-pos :
    (vec : List (Option ℕ)) (i c : ℕ) → get_elem? vec i ≡ some (some c) → 0 < occupied vec
occupied-pos [] i c h = cc
occupied-pos (o ∷ vec) zero c h = ground arith
occupied-pos (o ∷ vec) (suc i) c h = omega (arith, occupied-pos vec i c h)

first_empty-empty :
    (vec : List (Option ℕ)) (i : ℕ) → first_empty vec ≡ some i → get_elem? vec i ≡ some none
unfolding first_empty
first_empty-empty [] i h = cc
first_empty-empty (none ∷ vec) zero h = refl
first_empty-empty (none ∷ vec) (suc i) h = ground arith
first_empty-empty (some c ∷ vec) zero h = ground arith
first_empty-empty (some c ∷ vec) (suc i) h = ground (arith, first_empty-empty vec i)

-- A child stands in the slot of its parent that it names, and nothing else stands in a slot; the
-- count of an object is the number of its occupied slots; and no object is its own parent.
pub record WellFormed (s : Store) : Type 0 where
  pub linked :
      (p i c : ℕ)
      → get_elem? (slots s p) i ≡ some (some c)
      → ((s c).parent ≡ some p) × ((s c).parent_index ≡ i)
  pub placed :
      (c p : ℕ) → (s c).parent ≡ some p → get_elem? (slots s p) (s c).parent_index ≡ some (some c)
  pub counted : (p : ℕ) → (s p).nr_children ≡ occupied (slots s p)
  pub irreflexive : (c : ℕ) → (s c).parent ≢ some c

module _ (s : Store) (w : WellFormed s) (self : ℕ) where
  -- The store after the child in a known slot is taken out.
  module _ (p i : ℕ) (vec : List (Option ℕ)) (up : (s self).parent ≡ some p)
      (at : (s self).parent_index ≡ i) (has : (s p).children ≡ some vec) where
    abbrev pub unlinked : Store
    unlinked =
        write self (record (s self) { parent = none })
          (write p
            (record (s p) {
              children = some (set vec i none);
              nr_children = decrement (s p).nr_children;
            })
            s)

    held : get_elem? vec i ≡ some (some self)
    held = ground (arith, w.placed self p up)

    inside : i < length vec
    inside = get_elem?-lt vec i held

    pub unlink-unlinked : unlink self s ≡ some unlinked
    unfolding unlink
    unlink-unlinked = ground (arith, inside, w.irreflexive self)

    unlinked-linked :
        (q j c : ℕ)
        → get_elem? (slots unlinked q) j ≡ some (some c)
        → ((unlinked c).parent ≡ some q) × ((unlinked c).parent_index ≡ j)
    unlinked-linked q j c h =
        ground (arith, inside, get_elem?-set vec i j none, w.linked q j c, w.irreflexive self)

    unlinked-placed :
        (c q : ℕ)
        → (unlinked c).parent ≡ some q
        → get_elem? (slots unlinked q) (unlinked c).parent_index ≡ some (some c)
    unlinked-placed c q h = ground (
      arith,
      inside,
      held,
      get_elem?-set vec i (s c).parent_index none,
      w.placed c q,
      w.irreflexive self,
    )

    unlinked-counted : (q : ℕ) → (unlinked q).nr_children ≡ occupied (slots unlinked q)
    unlinked-counted q = ground (
      arith,
      w.counted q,
      occupied-set vec i none (some self) held,
      occupied-pos vec i self held,
      w.irreflexive self,
    )

    pub unlinked-WellFormed : WellFormed unlinked
    unlinked-WellFormed = record {
      linked = unlinked-linked;
      placed = unlinked-placed;
      counted = unlinked-counted;
      irreflexive = λ c. ground (arith, w.irreflexive c, w.irreflexive self);
    }

  -- The store after a child without a parent is put in a slot of another object.
  module _ (p i : ℕ) (vec : List (Option ℕ)) (free : (s self).parent ≡ none) (apart : p ≢ self)
      (here : get_elem? vec i ≡ some (some self))
      (rest : (j : ℕ) → j ≢ i → get_elem? vec j ≡ get_elem? (slots s p) j)
      (was : (c : ℕ) → get_elem? (slots s p) i ≢ some (some c))
      (more : occupied vec ≡ occupied (slots s p) + 1) where
    abbrev relinked : Store
    relinked =
        write self (record (s self) { parent = some p; parent_index = i })
          (write p (record (s p) { children = some vec; nr_children = (s p).nr_children + 1 }) s)

    relinked-linked :
        (q j c : ℕ)
        → get_elem? (slots relinked q) j ≡ some (some c)
        → ((relinked c).parent ≡ some q) × ((relinked c).parent_index ≡ j)
    relinked-linked q j c h = ground (arith, here, rest j, w.linked q j c)

    relinked-placed :
        (c q : ℕ)
        → (relinked c).parent ≡ some q
        → get_elem? (slots relinked q) (relinked c).parent_index ≡ some (some c)
    relinked-placed c q h = ground (arith, here, rest (s c).parent_index, was c, w.placed c q)

    relinked-counted : (q : ℕ) → (relinked q).nr_children ≡ occupied (slots relinked q)
    relinked-counted q = ground (arith, more, w.counted q)

    relinked-WellFormed : WellFormed relinked
    relinked-WellFormed = record {
      linked = relinked-linked;
      placed = relinked-placed;
      counted = relinked-counted;
      irreflexive = λ c. ground (arith, w.irreflexive c);
    }

-- The store `link` leaves is one of the two that `relinked` describes.
pub link-WellFormed :
    (s : Store) (w : WellFormed s) (self p : ℕ)
    → (s self).parent ≡ none
    → p ≢ self
    → WellFormed (link self p s)
unfolding link
link-WellFormed s w self p free apart =
    elim (Option-cases (chosen_slot (s p).nr_children (slots s p))) [
      | inl e ↦
          rw (e, link)
            (relinked-WellFormed s w self p (length vec) (vec ++ some self ∷ []) free apart
              (get_elem?-push vec (length vec) (some self) ∙ ground arith)
              (λ j h. get_elem?-push vec j (some self) ∙ ground arith)
              (λ c h. absurd (omega (arith, get_elem?-lt vec (length vec) h)))
              (occupied-push vec (some self)))
      | inr (i, e) ↦
          let empty : get_elem? vec i ≡ some none =
            unfold chosen_slot in ground (arith, first_empty-empty vec i) in
          let fits : i < length vec = get_elem?-lt vec i empty in
          rw (e, link)
            (relinked-WellFormed s w self p i (set vec i (some self)) free apart
              (get_elem?-set_self vec i (some self) fits)
              (λ j h. get_elem?-set_ne vec i j (some self) (λ q. h (sym q)))
              (λ c h. ground (arith, empty))
              (omega (arith, occupied-set vec i (some self) none empty)))
    ]
  where
    vec : List (Option ℕ)
    vec = slots s p

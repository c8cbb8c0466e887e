-- ===== src/Handles/Allocation.antt =====
-- The search for a free index, and growing the table.
use ewlibs.Base.{
  ◌==◌, ==_iff, Bool-cases, some_inj, length, get_elem?, replicate, get_elem?-lt, get_elem?-some,
  get_elem?-append_left, ℕ, zero, suc, ◌+◌, ◌≤◌, ◌<◌, ◌≡◌, refl, sym, ap, ◌∙◌, ◌≢◌, inl, inr, false,
  Option, none, some, List, [], ◌∷◌, ◌++◌, arith,
}
use ewlibs.Handles.{Allocator, grown, free_index}

module _ {T : Type 0} where
  -- The pointer in a slot, null out of range.
  abbrev pub pointer_at : List (Option T) → ℕ → Option T
  pointer_at table i = elim (get_elem? table i) [ none ↦ none | some slot ↦ slot ]

  pointer_at-replicate : (n i : ℕ) → pointer_at (replicate n none) i ≡ none
  pointer_at-replicate zero i = refl
  pointer_at-replicate (suc n) zero = refl
  pointer_at-replicate (suc n) (suc i) = pointer_at-replicate n i

  -- Slots at the end that are empty change no pointer.
  pointer_at-append :
      (table : List (Option T)) (n i : ℕ)
      → pointer_at (table ++ replicate n none) i ≡ pointer_at table i
  pointer_at-append [] n i = pointer_at-replicate n i
  pointer_at-append (slot ∷ table) n zero = refl
  pointer_at-append (slot ∷ table) n (suc i) = pointer_at-append table n i

  pub pointer_at-grown : (h : Allocator T) (i : ℕ) → pointer_at (grown h) i ≡ pointer_at h.table i
  unfolding grown
  pointer_at-grown h i = elim (Bool-cases (length h.table == h.used)) [
    | inl e ↦ rw e (pointer_at-append h.table 1000 i)
    | inr e ↦ rw e
  ]

  pub grown_free :
      (h : Allocator T) (i : ℕ)
      → get_elem? h.table i ≡ some none
      → get_elem? (grown h) i ≡ some none
  unfolding grown
  grown_free h i free = elim (Bool-cases (length h.table == h.used)) [
    | inl e ↦
        rw e (
          get_elem?-append_left h.table (replicate 1000 none) i (get_elem?-lt h.table i free)
          ∙ free)
    | inr e ↦ rw e free
  ]

  -- A free slot that the search meets.
  abbrev pub Meets : List (Option T) → ℕ → ℕ → ℕ → Type 0
  Meets table last_idx n idx =
      (i : ℕ) × (free_index table last_idx n idx ≡ some i)
      × (idx ≤ i)
      × (get_elem? table i ≡ some none)

  Meets-step :
      (table : List (Option T)) (last_idx n idx : ℕ) (slot : Option T)
      → 0 < idx
      → last_idx ≤ idx
      → get_elem? table idx ≡ some slot
      → (slot ≢ none → Meets table last_idx n (idx + 1))
      → Meets table last_idx (suc n) idx
  unfolding free_index
  Meets-step table last_idx n idx none pos near here later =
      let test : (idx == 0) ≡ false = ground arith in (idx, rw (here, test), omega arith, here)
  Meets-step table last_idx n idx (some t) pos near here later =
      let (i, run, le, free) = later (λ h. cc) in
      let test : (idx + 1 == last_idx) ≡ false = ground arith in
      (i, rw (here, test, run), omega arith, free)

  -- If a slot is free from `idx` on, and `last_idx` is not above `idx`, the search meets a free slot.
  pub free_index-Meets :
      (table : List (Option T)) (last_idx n idx j : ℕ)
      → 0 < idx
      → last_idx ≤ idx
      → idx + n ≡ length table
      → idx ≤ j
      → get_elem? table j ≡ some none
      → Meets table last_idx n idx
  free_index-Meets table last_idx zero idx j pos near e le free =
      absurd (omega (arith, get_elem?-lt table j free))
  free_index-Meets table last_idx (suc n) idx j pos near e le free =
      let (slot, here) = get_elem?-some table idx (omega arith) in
      Meets-step table last_idx n idx slot pos near here (λ busy.
        free_index-Meets table last_idx n (idx + 1) j (omega arith) (omega arith) (omega arith)
          (apart slot here busy) free)
    where
      apart : (slot : Option T) → get_elem? table idx ≡ some slot → slot ≢ none → idx + 1 ≤ j
      apart slot here busy = elim (Bool-cases (idx == j)) [
        | inl q ↦
            absurd (busy (some_inj (sym here ∙ ap (get_elem? table) ((==_iff _ _).0 q) ∙ free)))
        | inr q ↦ let ne : idx ≢ j = λ h. ground arith in omega arith
      ]

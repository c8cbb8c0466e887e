-- ===== src/Handles/Handing.antt =====
-- What `construct` and `destroy` do to the handles.
use ewlibs.Base.{
  ltb, leb, ◌==◌, Option-cases, length, get_elem?, set, get_elem?-set_self, get_elem?-set_ne,
  get_elem?-lt, ℕ, ◌+◌, ◌-◌, ◌%◌, ◌^◌, ◌<◌, ◌≡◌, refl, sym, ap, ◌∙◌, ◌≢◌, inl, inr, true, false,
  none, some, arith,
}
use ewlibs.Handles.{Allocator, grown, free_index, get_index, construct, get, destroy}
use ewlibs.Handles.Allocation.{pointer_at, pointer_at-grown, grown_free, Meets, free_index-Meets}

module _ {T : Type 0} where
  -- The index was free and is not 0, the pointer is under it now, and the other handles stay.
  pub record Handed (h : Allocator T) (t : T) (idx : ℕ) (h' : Allocator T) : Type 0 where
    pub proper : idx ≢ 0
    pub fresh : get h idx ≡ none
    pub there : get h' idx ≡ some t
    pub others : (i : ℕ) → i ≢ idx → get h' i ≡ get h i
    pub counted : h'.used ≡ (h.used + 1) % 2 ^ 64

  module _ (h : Allocator T) (t : T) (small : length (grown h) < 2 ^ 64) (j : ℕ)
      (above : h.last_idx < j) (free : get_elem? h.table j ≡ some none) where
    j_inside : j < length (grown h)
    j_inside = get_elem?-lt (grown h) j (grown_free h j free)

    meets : Meets (grown h) h.last_idx (length (grown h) - (h.last_idx + 1)) (h.last_idx + 1)
    meets =
        free_index-Meets (grown h) h.last_idx _ (h.last_idx + 1) j (omega arith) (omega arith)
          (omega (arith, j_inside)) (omega arith) (grown_free h j free)

    abbrev handed : ℕ → Allocator T
    handed idx = record {
      table = set (grown h) idx (some t);
      last_idx = idx;
      used = (h.used + 1) % 2 ^ 64;
    }

    index_run :
        (idx : ℕ)
        → free_index (grown h) h.last_idx (length (grown h) - (h.last_idx + 1)) (h.last_idx + 1)
          ≡ some idx
        → 0 < idx
        → get_index h ≡ some (idx, record h { table = grown h; last_idx = idx })
    unfolding get_index
    index_run idx run pos =
        let wrap : (h.last_idx + 1) % 2 ^ 64 ≡ h.last_idx + 1 = omega (arith, j_inside) in
        let test : leb (length (grown h)) (h.last_idx + 1) ≡ false = ground (arith, j_inside) in
        let test' : (idx == 0) ≡ false = ground arith in rw (wrap, test, run, test')

    construct_run :
        (idx : ℕ)
        → get_index h ≡ some (idx, record h { table = grown h; last_idx = idx })
        → 0 < idx
        → construct h t ≡ some ((some t, idx), handed idx)
    unfolding construct
    construct_run idx run pos = let test : (idx == 0) ≡ false = ground arith in rw (run, test)

    handed-Handed :
        (idx : ℕ) → 0 < idx → get_elem? (grown h) idx ≡ some none → Handed h t idx (handed idx)
    unfolding get
    handed-Handed idx pos empty = record {
      proper = λ e. omega arith;
      fresh = sym (pointer_at-grown h idx) ∙ rw (pointer_at, empty);
      there =
          rw (get, get_elem?-set_self (grown h) idx (some t) (get_elem?-lt (grown h) idx empty));
      others = λ i n.
          rw (get, get_elem?-set_ne (grown h) idx i (some t) (λ q. n (sym q)))
            (pointer_at-grown h i);
      counted = refl;
    }

  -- In a table of fewer than 2 ^ 64 slots with a free slot above the last handle, `construct` gives
  -- out a handle that is not 0 and not in use, and changes no other.
  pub construct-Handed :
      (h : Allocator T) (t : T) (j : ℕ)
      → length (grown h) < 2 ^ 64
      → h.last_idx < j
      → get_elem? h.table j ≡ some none
      → (idx : ℕ) × (h' : Allocator T) × (construct h t ≡ some ((some t, idx), h'))
        × Handed h t idx h'
  construct-Handed h t j small above free =
      let (idx, run, le, empty) = meets h t small j above free in
      (
        idx,
        handed h t small j above free idx,
        construct_run h t small j above free idx
            (index_run h t small j above free idx run (omega arith)) (omega arith),
        handed-Handed h t small j above free idx (omega arith) empty,
      )

  module _ (h : Allocator T) (idx : ℕ) (t : T) (e : get h idx ≡ some t) (pos : 0 < h.used) where
    held : get_elem? h.table idx ≡ some (some t)
    unfolding get
    held = elim (Option-cases (get_elem? h.table idx)) [
      | inl q ↦ absurd (ground arith)
      | inr (slot, q) ↦ q ∙ ap some (ground arith)
    ]

    abbrev destroyed : Allocator T
    destroyed = record h { table = set h.table idx none; used = h.used - 1 }

    destroy_run : destroy h idx ≡ (true, destroyed)
    unfolding destroy
    destroy_run =
        let test : ltb idx (length h.table) ≡ true =
          ground (arith, get_elem?-lt h.table idx held) in
        let test' : (h.used == 0) ≡ false = ground arith in rw (destroy, e, test, test')

    -- The handle is free, the other handles stay, and the count goes down.
    pub record Freed (h' : Allocator T) : Type 0 where
      pub gone : get h' idx ≡ none
      pub others : (i : ℕ) → i ≢ idx → get h' i ≡ get h i
      pub counted : h'.used + 1 ≡ h.used

    destroyed-Freed : Freed destroyed
    unfolding get
    destroyed-Freed = record {
      gone = rw (get, get_elem?-set_self h.table idx none (get_elem?-lt h.table idx held));
      others = λ i n. rw (get, get_elem?-set_ne h.table idx i none (λ q. n (sym q)));
      counted = omega arith;
    }

  -- While the count is not 0, `destroy` of a handle in use succeeds, frees the handle, lowers the
  -- count by one, and changes no other handle.
  pub destroy-Freed :
      (h : Allocator T) (idx : ℕ) (t : T) (e : get h idx ≡ some t) (pos : 0 < h.used)
      → (h' : Allocator T) × (destroy h idx ≡ (true, h')) × Freed h idx t e pos h'
  destroy-Freed h idx t e pos =
      (destroyed h idx t e pos, destroy_run h idx t e pos, destroyed-Freed h idx t e pos)

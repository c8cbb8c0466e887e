-- ===== src/Array/Elements.antt =====
-- An array as the list of its elements.
use ewlibs.Base.{
  ltb, ◌==◌, if◌then◌else◌, ==_iff, Bool-cases, Option-cases, length, get_elem?, set, take, drop,
  length-append, length-set, get_elem?-some, length-take, length-drop, ℕ, zero, suc, ◌+◌, ◌-◌, ◌≤◌,
  ◌<◌, ◌≡◌, refl, sym, ap, ◌∙◌, subst, inl, inr, false, Option, none, some, List, [], ◌∷◌, ◌++◌,
  arith,
}
use ewlibs.Array.{Array, element, erase_loop, erase}

module _ {T : Type 0} where
  -- The elements of the array, in order, are these; the cells after them have none.
  pub record Lists (xs : List T) (a : Array T) : Type 0 where
    pub counted : a.used ≡ length xs
    pub fits : length xs ≤ length a.cells
    pub here : (i : ℕ) → element a.cells i ≡ get_elem? xs i

  element-set :
      (cells : List (Option T)) (i j : ℕ) (v : Option T)
      → i < length cells
      → element (set cells i v) j ≡ (if i == j then v else element cells j)
  element-set [] i j v h = absurd (omega (arith, h))
  element-set (c ∷ cells) zero zero v h = ground arith
  element-set (c ∷ cells) zero (suc j) v h = ground arith
  element-set (c ∷ cells) (suc i) zero v h = ground arith
  element-set (c ∷ cells) (suc i) (suc j) v h =
      element-set cells i j v (omega (arith, h)) ∙ ground arith

  -- What a cell has after the loop has passed the cells from `first` to `i`.
  abbrev Shifted : ℕ → ℕ → ℕ → ℕ → List T → List (Option T) → Type 0
  Shifted len first i size xs cells =
      (j : ℕ)
      → element cells j ≡ (
          if ltb j first
          then get_elem? xs j
          else if ltb j i
          then get_elem? xs (j + len)
          else get_elem? xs j)

  get_elem?-beyond : (xs : List T) (i : ℕ) → length xs ≤ i → get_elem? xs i ≡ none
  get_elem?-beyond [] i h = refl
  get_elem?-beyond (x ∷ xs) zero h = absurd (omega (arith, h))
  get_elem?-beyond (x ∷ xs) (suc i) h = get_elem?-beyond xs i (omega (arith, h))

  Shifted-after :
      (len first i k size : ℕ) (xs : List T) (cells : List (Option T))
      → Shifted len first i size xs cells
      → first ≤ i
      → i ≤ k
      → element cells k ≡ get_elem? xs k
  Shifted-after len first i k size xs cells sh le h = sh k ∙ ground (arith, le, h)

  Shifted-step :
      (len first i size : ℕ) (xs : List T) (cells : List (Option T)) (v : Option T)
      → first ≤ i
      → i < length cells
      → get_elem? xs (i + len) ≡ v
      → Shifted len first i size xs cells
      → Shifted len first (i + 1) size xs (set cells i v)
  Shifted-step len first i size xs cells v le h e sh j =
      element-set cells i j v h ∙ elim (Bool-cases (i == j)) [
        | inl q ↦
            let same : i ≡ j = (==_iff i j).0 q in
            let value : get_elem? xs (j + len) ≡ v =
              ap (λ k. get_elem? xs (k + len)) (sym same) ∙ e in
            ground (arith, same, le, value)
        | inr q ↦ rw q (sh j ∙ ground (arith, q, le))
      ]

  erase_loop-Shifted :
      (xs : List T) (len first n i : ℕ) (cells : List (Option T))
      → i + n ≡ length xs
      → first ≤ i
      → length xs ≤ length cells
      → Shifted len first i (length xs) xs cells
      → (cells' : List (Option T)) × (erase_loop (length xs) len n i cells ≡ some cells')
        × (length cells' ≡ length cells)
        × Shifted len first (length xs) (length xs) xs cells'
  unfolding erase_loop
  erase_loop-Shifted xs len first zero i cells e le fit sh = (
    cells,
    refl,
    refl,
    subst (λ k. Shifted len first k (length xs) xs cells) (omega (arith, e)) sh,
  )
  erase_loop-Shifted xs len first (suc n) i cells e le fit sh =
      elim (Bool-cases (ltb (i + len) (length xs))) [
        | inl q ↦ elim (Option-cases (get_elem? xs (i + len))) [
          | inl m ↦ absurd (cc (sym (get_elem?-some xs (i + len) (ground (arith, q))).1 ∙ m))
          | inr (x, at) ↦
              let got : element cells (i + len) ≡ some x =
                Shifted-after len first i (i + len) (length xs) xs cells sh le (omega arith) ∙ at in
              let (cells', p, l, s) =
                erase_loop-Shifted xs len first n (i + 1) (set cells i (some x)) (omega (arith, e))
                  (omega (arith, le)) (omega (arith, fit, length-set cells i (some x)))
                  (Shifted-step len first i (length xs) xs cells (some x) le (omega (arith, e, fit))
                    at sh) in
              (cells', rw (q, got) p, l ∙ length-set cells i (some x), s)
        ]
        | inr q ↦
            let (cells', p, l, s) =
              erase_loop-Shifted xs len first n (i + 1) (set cells i none) (omega (arith, e))
                (omega (arith, le)) (omega (arith, fit, length-set cells i none))
                (Shifted-step len first i (length xs) xs cells none le (omega (arith, e, fit))
                  (get_elem?-beyond xs (i + len) (ground (arith, q))) sh) in
            (cells', rw q p, l ∙ length-set cells i none, s)
      ]

  get_elem?-drop : (n i : ℕ) (xs : List T) → get_elem? (drop n xs) i ≡ get_elem? xs (n + i)
  get_elem?-drop zero i xs = ap (get_elem? xs) (omega arith)
  get_elem?-drop (suc n) i [] = refl
  get_elem?-drop (suc n) i (x ∷ xs) =
      get_elem?-drop n i xs ∙ ap (λ k. get_elem? (x ∷ xs) k) (shift n)
    where
      shift : (n : ℕ) → suc (n + i) ≡ suc n + i
      shift n = omega arith

  -- What stands at a place of the list without a part.
  get_elem?-erased :
      (first last j : ℕ) (xs : List T)
      → first ≤ last
      → last ≤ length xs
      → get_elem? (take first xs ++ drop last xs) j
        ≡ (if ltb j first then get_elem? xs j else get_elem? xs (j + (last - first)))
  get_elem?-erased zero last j xs h l =
      let test : ltb j 0 ≡ false = ground arith in
      get_elem?-drop last j xs ∙ rw test (ap (get_elem? xs) (omega arith))
  get_elem?-erased (suc first) last j [] h l = absurd (omega (arith, h, l))
  get_elem?-erased (suc first) zero j (x ∷ xs) h l = absurd (omega (arith, h))
  get_elem?-erased (suc first) (suc last) zero (x ∷ xs) h l = ground arith
  get_elem?-erased (suc first) (suc last) (suc j) (x ∷ xs) h l =
      get_elem?-erased first last j xs (omega (arith, h)) (omega (arith, l)) ∙ same
    where
      shift : suc j + (suc last - suc first) ≡ suc (j + (last - first))
      shift = omega arith

      same : (if ltb j first then get_elem? xs j else get_elem? xs (j + (last - first))) ≡ (
          if ltb (suc j) (suc first)
          then get_elem? xs j
          else get_elem? (x ∷ xs) (suc j + (suc last - suc first)))
      same = ground (arith, ap (get_elem? (x ∷ xs)) shift)

  -- `erase(first, last)` on the array of a list leaves the array of the list without the elements from
  -- `first` to `last`; no cell without an element is read.
  pub erase-Lists :
      (a : Array T) (xs : List T) (first last : ℕ)
      → Lists xs a
      → first ≤ last
      → last ≤ length xs
      → (a' : Array T) × (erase a first last ≡ some a')
        × Lists (take first xs ++ drop last xs) a'
        × (length a'.cells ≡ length a.cells)
  unfolding erase
  erase-Lists a xs first last v h l =
      let n = length xs - first in
      let (cells', p, size, s) =
        erase_loop-Shifted xs (last - first) first n first a.cells (omega (arith, h, l))
          (omega arith) v.fits (λ j. v.here j ∙ ground arith) in
      (
        record { cells = cells'; used = length xs - (last - first) },
        rw (erase, v.counted, p) refl,
        record {
          counted = omega (
            arith,
            h,
            l,
            length-append (take first xs) (drop last xs),
            length-take first xs,
            length-drop last xs,
          );
          fits = omega (
            arith,
            h,
            l,
            v.fits,
            size,
            length-append (take first xs) (drop last xs),
            length-take first xs,
            length-drop last xs,
          );
          here = λ j. s j ∙ past j ∙ sym (get_elem?-erased first last j xs h l);
        },
        size,
      )
    where
      past :
          (j : ℕ)
          → (if ltb j first
              then get_elem? xs j
              else if ltb j (length xs)
              then get_elem? xs (j + (last - first))
              else get_elem? xs j)
            ≡ (if ltb j first then get_elem? xs j else get_elem? xs (j + (last - first)))
      past j = elim (Bool-cases (ltb j (length xs))) [
        | inl q ↦ rw q refl
        | inr q ↦
            let none_here : get_elem? xs j ≡ none = get_elem?-beyond xs j (ground (arith, q)) in
            let none_there : get_elem? xs (j + (last - first)) ≡ none =
              get_elem?-beyond xs (j + (last - first)) (ground (arith, q)) in
            rw q (ground (arith, none_here, none_there))
      ]

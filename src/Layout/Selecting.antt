-- ===== src/Layout/Selecting.antt =====
-- What the mark filter selects.
use ewlibs.Base.{
  ◌==◌, if◌then◌else◌, get_elem?, drop, ℕ, zero, suc, ◌+◌, ◌<◌, ◌≡◌, refl, sym, ap, ap₂, ◌∙◌, subst,
  ◌⊎◌, inl, inr, Bool, true, false, ◌||◌, List, [], ◌∷◌, map, arith,
}
use ewlibs.Base.Every.{All}
use ewlibs.Layout.{FilterIo}
use ewlibs.Layout.Marks.{
  MarkFilterContext, skip_count, is_marked, mark_cell, mark_cells, mark_filter_filter,
}

-- Numbers that increase.
abbrev pub Rising : List ℕ → Type 0
Rising [] = Unit
Rising (x ∷ xs) = All (λ y. x < y) xs × Rising xs

-- No mark stands between two code points, or before the first one.
abbrev pub Meets : List ℕ → List FilterIo → Type 0
Meets [] ios = Unit
Meets (m ∷ marks) [] = Unit
Meets (m ∷ marks) (io ∷ ios) =
    ((io.offset ≡ m) × Meets marks ios) ⊎ ((io.offset < m) × Meets (m ∷ marks) ios)

abbrev pub contains : ℕ → List ℕ → Bool
contains n [] = false
contains n (m ∷ marks) = (n == m) || contains n marks

-- A code point at a mark is selected.
abbrev pub selected : List ℕ → FilterIo → FilterIo
selected marks io = if contains io.offset marks then record io { is_selected = true } else io

not_contained : (n : ℕ) (marks : List ℕ) → All (λ m. n < m) marks → contains n marks ≡ false
not_contained n [] h = refl
not_contained n (m ∷ marks) (lt, h) =
    let miss : (n == m) ≡ false = ground (arith, lt) in
    let rest = not_contained n marks h in rw (miss, rest) refl

-- A mark before every code point selects none.
selected_past :
    (m : ℕ) (marks : List ℕ) (ios : List FilterIo)
    → All (λ y. m < y) (map (λ io. io.offset) ios)
    → map (selected (m ∷ marks)) ios ≡ map (selected marks) ios
selected_past m marks [] h = refl
selected_past m marks (io ∷ ios) (lt, h) =
    let miss : (io.offset == m) ≡ false = ground (arith, lt) in
    let here : selected (m ∷ marks) io ≡ selected marks io =
      ap (λ b. if b || contains io.offset marks then record io { is_selected = true } else io)
        miss in
    ap₂ (λ x xs. x ∷ xs) here (selected_past m marks ios h)

above : (marks : List ℕ) (m n : ℕ) → n < m → All (λ y. m < y) marks → All (λ y. n < y) marks
above [] m n h k = tt
above (y ∷ marks) m n h (lt, k) = (omega (arith, h, lt), above marks m n h k)

skip_none : (n : ℕ) (marks : List ℕ) → All (λ m. n < m) marks → skip_count n marks ≡ 0
unfolding skip_count
skip_none n [] h = refl
skip_none n (m ∷ marks) (lt, h) = let miss : (m == n) ≡ false = ground (arith, lt) in rw miss refl

head_of : {A : Type 0} (i : ℕ) (xs : List A) → get_elem? xs i ≡ get_elem? (drop i xs) 0
head_of zero [] = refl
head_of zero (x ∷ xs) = refl
head_of (suc i) [] = refl
head_of (suc i) (x ∷ xs) = head_of i xs

drop_one : {A : Type 0} (i : ℕ) (x : A) (xs ys : List A) → drop i ys ≡ x ∷ xs → drop (i + 1) ys ≡ xs
drop_one zero x xs [] h = cc
drop_one zero x xs (y ∷ ys) h = tail_eq h
  where
    tail_eq : y ∷ ys ≡ x ∷ xs → ys ≡ xs
    tail_eq e = cc
drop_one (suc i) x xs [] h = cc
drop_one (suc i) x xs (y ∷ ys) h =
    let shift : suc i + 1 ≡ suc (i + 1) = omega arith in
    ap (λ n. drop n (y ∷ ys)) shift ∙ drop_one i x xs ys h

module _ (ctx : MarkFilterContext) (io : FilterIo) where
  -- The mark that the filter looks at is the first of those that are left.
  is_marked-head :
      (m : ℕ) (marks : List ℕ)
      → drop ctx.off_index ctx.offset ≡ m ∷ marks
      → is_marked ctx io ≡ (io.offset == m)
  is_marked-head m marks e = rw (is_marked, head_of ctx.off_index ctx.offset, e) refl

  is_marked-none : drop ctx.off_index ctx.offset ≡ [] → is_marked ctx io ≡ false
  is_marked-none e = rw (is_marked, head_of ctx.off_index ctx.offset, e) refl

  cell_off : is_marked ctx io ≡ false → mark_cell ctx io ≡ (io, ctx)
  unfolding mark_cell
  cell_off h =
      ap
        (λ b.
          if b
          then (
            record io { is_selected = true },
            record ctx {
              off_index = ctx.off_index + skip_count io.offset (drop ctx.off_index ctx.offset);
            },
          )
          else (io, ctx))
        h

  cell_on :
      (n : ℕ)
      → is_marked ctx io ≡ true
      → skip_count io.offset (drop ctx.off_index ctx.offset) ≡ n
      → mark_cell ctx io
        ≡ (record io { is_selected = true }, record ctx { off_index = ctx.off_index + n })
  unfolding mark_cell
  cell_on n h k =
      ap
        (λ b.
          if b
          then (
            record io { is_selected = true },
            record ctx {
              off_index = ctx.off_index + skip_count io.offset (drop ctx.off_index ctx.offset);
            },
          )
          else (io, ctx))
        h
      ∙ ap (λ c. (record io { is_selected = true }, record ctx { off_index = ctx.off_index + c })) k

skip_one :
    (n m : ℕ) (marks : List ℕ) → n ≡ m → All (λ y. m < y) marks → skip_count n (m ∷ marks) ≡ 1
unfolding skip_count
skip_one n m marks e h =
    let hit : (m == n) ≡ true = ground (arith, e) in
    let rest : skip_count n marks ≡ 0 =
      subst (λ k. skip_count k marks ≡ 0) (sym e) (skip_none m marks h) in
    rw (hit, rest) refl

-- What is left of the marks decides.
mark_cells-selected :
    (ios : List FilterIo) (ctx : MarkFilterContext) (marks : List ℕ)
    → drop ctx.off_index ctx.offset ≡ marks
    → Rising marks
    → Rising (map (λ io. io.offset) ios)
    → Meets marks ios
    → (mark_cells ctx ios).0 ≡ map (selected marks) ios
unfolding mark_cells mark_cell
mark_cells-selected [] ctx marks e r q w = refl
mark_cells-selected (io ∷ ios) ctx [] e r (q, qs) w =
    ap (λ p. p.0 ∷ (mark_cells p.1 ios).0) (cell_off ctx io (is_marked-none ctx io e))
    ∙ ap (λ rest. io ∷ rest) (mark_cells-selected ios ctx [] e r qs tt)
mark_cells-selected (io ∷ ios) ctx (m ∷ marks) e (lt, r) (q, qs) (inl (same, w)) =
    let hit : (io.offset == m) ≡ true = ground (arith, same) in
    let skip = ap (skip_count io.offset) e ∙ skip_one io.offset m marks same lt in
    let ctx' = record ctx { off_index = ctx.off_index + 1 } in
    let here : record io { is_selected = true } ≡ selected (m ∷ marks) io =
      ap (λ b. if b || contains io.offset marks then record io { is_selected = true } else io)
        (sym hit) in
    ap (λ p. p.0 ∷ (mark_cells p.1 ios).0)
      (cell_on ctx io 1 (is_marked-head ctx io m marks e ∙ hit) skip)
    ∙ ap₂ (λ x rest. x ∷ rest) here
        (mark_cells-selected ios ctx' marks (drop_one ctx.off_index m marks ctx.offset e) r qs w
          ∙ sym (
              selected_past m marks ios
                (subst (λ k. All (λ y. k < y) (map (λ x. x.offset) ios)) same q)))
mark_cells-selected (io ∷ ios) ctx (m ∷ marks) e (lt, r) (q, qs) (inr (less, w)) =
    let miss : (io.offset == m) ≡ false = ground (arith, less) in
    let here : io ≡ selected (m ∷ marks) io =
      ap (λ b. if b then record io { is_selected = true } else io)
        (sym (not_contained io.offset (m ∷ marks) (less, above marks m io.offset less lt))) in
    ap (λ p. p.0 ∷ (mark_cells p.1 ios).0)
      (cell_off ctx io (is_marked-head ctx io m marks e ∙ miss))
    ∙ ap₂ (λ x rest. x ∷ rest) here (mark_cells-selected ios ctx (m ∷ marks) e (lt, r) qs w)

-- The filter selects the code points at which a mark stands, from the mark on at which it has
-- arrived, and leaves the others; the marks, and the offsets of the code points, increase, and no
-- mark stands where no code point begins.
pub mark_filter_filter-selected :
    (ctx : MarkFilterContext) (ios : List FilterIo)
    → ctx.skip_pass ≡ false
    → Rising (drop ctx.off_index ctx.offset)
    → Rising (map (λ io. io.offset) ios)
    → Meets (drop ctx.off_index ctx.offset) ios
    → (mark_filter_filter ctx ios).0 ≡ map (selected (drop ctx.off_index ctx.offset)) ios
unfolding mark_filter_filter
mark_filter_filter-selected ctx ios on r q w =
    ap (λ b. (if b then (ios, ctx) else mark_cells ctx ios).0) on
    ∙ mark_cells-selected ios ctx (drop ctx.off_index ctx.offset) refl r q w

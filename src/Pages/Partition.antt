-- ===== src/Pages/Partition.antt =====
-- How `build_partitions` cuts a size: pages of the full size in front, and the rest in the last one.
use ewlibs.Base.{
  ltb, leb, ◌==◌, Bool-cases, replicate, ℕ, zero, suc, ◌+◌, ◌-◌, ◌*◌, ◌/◌, ◌≤◌, ◌<◌, ◌≡◌, refl, sym,
  ap, ap₂, ◌∙◌, subst, ◌⊎◌, inl, inr, false, some, List, [], ◌∷◌, ◌++◌, append_assoc, arith,
}
use ewlibs.Pages.{Node, leaf, half_branch, branch, size, round_up, build_partitions}

-- The sizes of the leaves from left to right.
unfoldable pub leaves : Node → List ℕ
leaves (leaf n) = n ∷ []
leaves (half_branch n l) = leaves l
leaves (branch n l r) = leaves l ++ leaves r

-- The size of a node is what its children have together.
unfoldable pub WellSized : Node → Type 0
WellSized (leaf n) = n ≡ n
WellSized (half_branch n l) = (n ≡ size l) × WellSized l
WellSized (branch n l r) = (n ≡ size l + size r) × WellSized l × WellSized r

-- Full pages and one page for the rest; only full pages if the size is a multiple of theirs.
pub record Paged (page n : ℕ) (sizes : List ℕ) : Type 0 where
  pub count : ℕ
  pub rest : ℕ
  pub shape : sizes ≡ replicate count page ++ rest ∷ []
  pub total : count * page + rest ≡ n
  pub fits : rest ≤ page
  pub whole : (a : ℕ) → n ≡ a * page → 0 < n → sizes ≡ replicate a page

replicate_add :
    {A : Type 0} (i j : ℕ) (v : A) → replicate i v ++ replicate j v ≡ replicate (i + j) v
replicate_add zero j v = ap (λ (n : ℕ). replicate n v) {x = j} (omega arith)
replicate_add (suc i) j v =
    ap (λ vs. v ∷ vs) (replicate_add i j v)
    ∙ ap (λ (n : ℕ). replicate n v) {x = suc (i + j)} (omega arith)

-- Enough turns of the loop reach the multiple.
round_up_total :
    (fuel page half sz a : ℕ)
    → 0 < page
    → half ≤ sz + fuel
    → sz ≡ a * page
    → (r : ℕ) × (b : ℕ) × (round_up fuel page half sz ≡ some r)
      × (r ≡ b * page)
      × (sz ≤ r)
      × ((r ≡ sz) ⊎ ((r < half + page) × (sz < half)))
unfolding round_up
round_up_total zero page half sz a pos enough e = (sz, a, ground arith, e, omega arith, inl refl)
round_up_total (suc fuel) page half sz a pos enough e =
    let (r, b, run, e', le, bound) =
      round_up_total fuel page half (sz + page) (suc a) pos (omega arith) (grind arith) in
    elim (Bool-cases (ltb sz half)) [
      | inl t ↦
          let lt : sz < half = ground arith in
          let near : r < half + page = elim bound [ inl q ↦ omega arith | inr (q, q') ↦ q ] in
          (r, b, rw t run, e', omega arith, inr (near, lt))
      | inr t ↦ (sz, a, rw t, e, omega arith, inl refl)
    ]

suc_mul : (a page : ℕ) → suc a * page ≡ page + a * page
suc_mul a page = grind arith

single_whole : (page n a : ℕ) → n ≤ page → n ≡ a * page → 0 < n → n ∷ [] ≡ replicate a page
single_whole page n zero le e pos = absurd (omega arith)
single_whole page n (suc zero) le e pos = ap (λ v. v ∷ []) (omega (arith, suc_mul 0 page))
single_whole page n (suc (suc a)) le e pos =
    absurd (omega (arith, suc_mul (suc a) page, suc_mul a page))

single_Paged : (page n : ℕ) → n ≤ page → Paged page n (n ∷ [])
single_Paged page n le = record {
  count = 0;
  rest = n;
  shape = refl;
  total = omega arith;
  fits = le;
  whole = λ a e pos. single_whole page n a le e pos;
}

-- What is left of a multiple above a smaller one is a multiple.
multiple_rest :
    (page n a b : ℕ) → 0 < n → a * page + n ≡ b * page → (c : ℕ) × (n ≡ c * page) × (a + c ≡ b)
multiple_rest page n zero b pos e = (b, omega arith, omega arith)
multiple_rest page n (suc a) zero pos e = absurd (omega arith)
multiple_rest page n (suc a) (suc b) pos e =
    let (c, e', sum) =
      multiple_rest page n a b pos (omega (arith, suc_mul a page, suc_mul b page)) in
    (c, e', omega arith)

-- Full pages in front of a paged size.
front_Paged :
    (page a n : ℕ) (left right : List ℕ)
    → left ≡ replicate a page
    → Paged page n right
    → 0 < n
    → Paged page (a * page + n) (left ++ right)
front_Paged page a n left right e p pos = record {
  count = a + p.count;
  rest = p.rest;
  shape =
      ap₂ (λ xs ys. xs ++ ys) e p.shape
      ∙ sym (append_assoc (replicate a page) (replicate p.count page) (p.rest ∷ []))
      ∙ ap (λ xs. xs ++ p.rest ∷ []) (replicate_add a p.count page);
  total = grind (arith, p.total);
  fits = p.fits;
  whole = λ b eb _.
      let (c, ec, sum) = multiple_rest page n a b pos eb in
      ap₂ (λ xs ys. xs ++ ys) e (p.whole c ec pos)
      ∙ replicate_add a c page
      ∙ ap (λ i. replicate i page) sum;
}

-- With a turn for each unit of the size there is a tree, whose root has the size, in which every node
-- is as large as its children together, and whose leaves are full pages and one for the rest.
pub build_partitions-Paged :
    (fuel page n : ℕ)
    → 0 < page
    → n ≤ fuel
    → (t : Node) × (build_partitions fuel page n ≡ some t)
      × (size t ≡ n)
      × WellSized t
      × Paged page n (leaves t)
unfolding build_partitions leaves WellSized
build_partitions-Paged zero page n pos enough =
    (leaf n, ground arith, refl, refl, single_Paged page n (omega arith))
build_partitions-Paged (suc fuel) page n pos enough = elim (Bool-cases (leb n page)) [
  | inl e ↦ (leaf n, rw e, refl, refl, single_Paged page n (ground arith))
  | inr e ↦
      let (sz, b, run, mult, ge, bound) =
        round_up_total (n / 2) page (n / 2) page 1 pos (omega arith) (omega arith) in
      let large : page < n = ground arith in
      let less : sz < n = elim bound [ inl q ↦ omega arith | inr (q, q') ↦ omega arith ] in
      let (l, runl, sl, wl, pl) = build_partitions-Paged fuel page sz pos (omega arith) in
      let (r, runr, sr, wr, pr) = build_partitions-Paged fuel page (n - sz) pos (omega arith) in
      let some_right : (n - sz == 0) ≡ false = ground arith in
      (
        branch n l r,
        rw (e, run, runl, runr, some_right),
        refl,
        (omega arith, wl, wr),
        subst (λ m. Paged page m (leaves l ++ leaves r)) (omega arith)
            (front_Paged page b (n - sz) (leaves l) (leaves r) (pl.whole b mult (omega arith)) pr
              (omega arith)),
      )
]

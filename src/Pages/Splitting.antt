-- ===== src/Pages/Splitting.antt =====
-- How `split_node` halves a size until the leaves are small.
use ewlibs.Base.{
  leb, ◌==◌, Bool-cases, ℕ, zero, suc, ◌-◌, ◌/◌, ◌≤◌, ◌<◌, ◌≡◌, refl, ◌⊎◌, inl, inr, true, false,
  ◌||◌, some, arith,
}
use ewlibs.Pages.{Node, leaf, half_branch, branch, size, split_node}
use ewlibs.Pages.Partition.{WellSized}

-- No leaf is empty, and each is at most half of the largest page or at most the smallest.
unfoldable pub SmallLeaves : ℕ → ℕ → Node → Type 0
SmallLeaves min_size max_size (leaf n) = (0 < n) × ((n ≤ max_size / 2) ⊎ (n ≤ min_size))
SmallLeaves min_size max_size (half_branch n l) = SmallLeaves min_size max_size l
SmallLeaves min_size max_size (branch n l r) =
    SmallLeaves min_size max_size l × SmallLeaves min_size max_size r

small_enough :
    (min_size max_size n : ℕ)
    → 0 < n
    → (leb n (max_size / 2) || leb n min_size) ≡ true
    → SmallLeaves min_size max_size (leaf n)
unfolding SmallLeaves
small_enough min_size max_size n pos e = elim (Bool-cases (leb n (max_size / 2))) [
  | inl t ↦ (pos, inl (ground arith))
  | inr f ↦ (pos, inr (ground arith))
]

-- With page sizes that are not 0 and a turn for each unit of the size, which is not 0 either, the node
-- is split without a fault: the root has the size, every node is as large as its children together,
-- and the leaves are small and not empty.
pub split_node-SmallLeaves :
    (fuel min_size max_size n : ℕ)
    → 0 < min_size
    → 0 < max_size
    → 0 < n
    → n ≤ fuel
    → (t : Node) × (split_node fuel min_size max_size n ≡ some t)
      × (size t ≡ n)
      × WellSized t
      × SmallLeaves min_size max_size t
unfolding split_node WellSized SmallLeaves
split_node-SmallLeaves zero min_size max_size n pm px pos enough = absurd (omega arith)
split_node-SmallLeaves (suc fuel) min_size max_size n pm px pos enough =
    let sizes : ((min_size == 0) || (max_size == 0)) ≡ false = ground arith in
    elim (Bool-cases (leb n (max_size / 2) || leb n min_size)) [
      | inl e ↦ (leaf n, rw (sizes, e), refl, refl, small_enough min_size max_size n pos e)
      | inr e ↦
          let large : min_size < n = ground arith in
          let half_pos : (n / 2 == 0) ≡ false = ground arith in
          let rest_pos : (n - n / 2 == 0) ≡ false = ground arith in
          let (l, runl, sl, wl, pl) =
            split_node-SmallLeaves fuel min_size max_size (n / 2) pm px (omega arith)
              (omega arith) in
          let (r, runr, sr, wr, pr) =
            split_node-SmallLeaves fuel min_size max_size (n - n / 2) pm px (omega arith)
              (omega arith) in
          (
            branch n l r,
            rw (sizes, e, half_pos, runl, runr, rest_pos),
            refl,
            (omega arith, wl, wr),
            (pl, pr),
          )
    ]

-- ===== src/Pages/Cache.antt =====
-- The last leaf that `find` met is kept, with the range of its offsets: looking there first changes no
-- result.
use ewlibs.Base.{
  ltb, leb, Bool-cases, Option-cases, some_inj, ℕ, ◌+◌, ◌-◌, ◌≤◌, ◌<◌, ◌≡◌, refl, ap, ◌∙◌, ◌⊎◌, inl,
  inr, true, false, ◌&&◌, Option, none, some, List, [], ◌∷◌, arith,
}
use ewlibs.Pages.{
  Node, leaf, half_branch, branch, size, Direction, to_left, to_right, walk, find, node_at, Tree,
  find_cached,
}
use ewlibs.Pages.Partition.{WellSized}
use ewlibs.Pages.Walk.{start, Reached, find-Reached}

-- From the start of a leaf on, the walk leads to this leaf as far as its size goes.
walk-start :
    (t : Node) (path : List Direction) (n k : ℕ)
    → WellSized t
    → node_at t path ≡ some (leaf n)
    → k < n
    → (walk t (start t path + k) ≡ some (path, k)) × (start t path + k < size t)
unfolding walk WellSized node_at start
walk-start (leaf m) [] n k w e lt =
    (ap (λ (i : ℕ). some ([], i)) {x = 0 + k} (omega arith), ground arith)
walk-start (leaf m) (d ∷ path) n k w e lt = cc
walk-start (half_branch m l) [] n k w e lt = cc
walk-start (half_branch m l) (to_left ∷ path) n k (q, w) e lt =
    let (run, below) = walk-start l path n k w e lt in
    let test : ltb (start l path + k) (size l) ≡ true = ground arith in
    (rw (test, run), omega arith)
walk-start (half_branch m l) (to_right ∷ path) n k w e lt = cc
walk-start (branch m l r) [] n k w e lt = cc
walk-start (branch m l r) (to_left ∷ path) n k (q, wl, wr) e lt =
    let (run, below) = walk-start l path n k wl e lt in
    let test : ltb (start l path + k) (size l) ≡ true = ground arith in
    (rw (test, run), omega arith)
walk-start (branch m l r) (to_right ∷ path) n k (q, wl, wr) e lt =
    let (run, below) = walk-start r path n k wr e lt in
    let test : ltb (size l + start r path + k) (size l) ≡ false = ground arith in
    let rest : size l + start r path + k - size l ≡ start r path + k = omega arith in
    (rw (test, rest, run), omega arith)

-- For every offset in its range, the cached path is what `find` gives.
abbrev pub Coherent : Tree → Type 0
Coherent t =
    (path : List Direction) (offset : ℕ)
    → t.last_node ≡ some path
    → t.last_start_offset ≤ offset
    → offset < t.last_end_offset
    → find t.root offset ≡ some (some (path, offset - t.last_start_offset))

module _ (t : Tree) (offset : ℕ) (w : WellSized t.root) where
  -- The tree after a search that met a leaf.
  abbrev remembered : List Direction → ℕ → ℕ → Tree
  remembered path local n = record t {
    last_node = some path;
    last_start_offset = offset - local;
    last_end_offset = offset - local + n;
  }

  remembered-Coherent :
      (path : List Direction) (local : ℕ) (p : Reached t.root offset path local)
      → Coherent (remembered path local p.leaf_size)
  unfolding find
  remembered-Coherent path local p path' offset' e low high =
      let from : offset' ≡ start t.root path + (offset' - (offset - local)) =
        omega (arith, p.origin) in
      let (run, below) =
        walk-start t.root path p.leaf_size (offset' - (offset - local)) w p.at (omega arith) in
      let test : leb (size t.root) offset' ≡ false = ground (arith, from) in
      let met : walk t.root offset' ≡ some (path, offset' - (offset - local)) =
        ap (walk t.root) from ∙ run in
      rw (test, met)
        (ap (λ (x : List Direction). some (some (x, offset' - (offset - local)))) (some_inj e))

  hit_run :
      (path : List Direction)
      → t.last_node ≡ some path
      → (leb t.last_start_offset offset && ltb offset t.last_end_offset) ≡ true
      → find_cached t offset ≡ some (some (path, offset - t.last_start_offset), t)
  unfolding find_cached
  hit_run path e test = rw (e, test)

  miss_run :
      (path : List Direction) (local : ℕ) (p : Reached t.root offset path local)
      → find t.root offset ≡ some (some (path, local))
      → (t.last_node ≡ none)
        ⊎ ((leb t.last_start_offset offset && ltb offset t.last_end_offset) ≡ false)
      → find_cached t offset ≡ some (some (path, local), remembered path local p.leaf_size)
  unfolding find_cached
  miss_run path local p run (inl e) = rw (e, run, p.at)
  miss_run path local p run (inr test) = elim (Option-cases t.last_node) [
    | inl e ↦ rw (e, run, p.at)
    | inr (other, e) ↦ rw (e, test, run, p.at)
  ]

-- The search with the cache and the search from the root agree.
abbrev Agrees : Tree → ℕ → Type 0
Agrees t offset =
    (r : Option (List Direction × ℕ)) × (t' : Tree) × (find_cached t offset ≡ some (r, t'))
    × (find t.root offset ≡ some r)
    × (t'.root ≡ t.root)
    × Coherent t'

missed :
    (t : Tree) (offset : ℕ)
    → WellSized t.root
    → offset < size t.root
    → (t.last_node ≡ none)
      ⊎ ((leb t.last_start_offset offset && ltb offset t.last_end_offset) ≡ false)
    → Agrees t offset
missed t offset w lt h =
    let (path, local, run, p) = find-Reached t.root offset w lt in
    (
      some (path, local),
      remembered t offset w path local p.leaf_size,
      miss_run t offset w path local p run h,
      run,
      refl,
      remembered-Coherent t offset w path local p,
    )

-- In a tree whose sizes add up and whose cache is coherent, the search with the cache gives, for an
-- offset below the size, what the search from the root gives; the nodes stay, and the cache is coherent
-- again.
pub find_cached-find :
    (t : Tree) (offset : ℕ)
    → WellSized t.root
    → Coherent t
    → offset < size t.root
    → (r : Option (List Direction × ℕ)) × (t' : Tree) × (find_cached t offset ≡ some (r, t'))
      × (find t.root offset ≡ some r)
      × (t'.root ≡ t.root)
      × Coherent t'
find_cached-find t offset w c lt = elim (Option-cases t.last_node) [
  | inl e ↦ missed t offset w lt (inl e)
  | inr (cached, e) ↦
      elim (Bool-cases (leb t.last_start_offset offset && ltb offset t.last_end_offset)) [
        | inl test ↦ (
          some (cached, offset - t.last_start_offset),
          t,
          hit_run t offset w cached e test,
          c cached offset e (ground arith) (ground arith),
          refl,
          c,
        )
        | inr test ↦ missed t offset w lt (inr test)
      ]
]

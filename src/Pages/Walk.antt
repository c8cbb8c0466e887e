-- ===== src/Pages/Walk.antt =====
-- `find` on a tree whose sizes add up: the leaf that the bytes in front of an offset lead to.
use ewlibs.Base.{
  ltb, leb, Bool-cases, ℕ, ◌+◌, ◌-◌, ◌≤◌, ◌<◌, ◌≡◌, refl, sym, ap, ◌∙◌, inl, inr, true, false, some,
  List, [], ◌∷◌, ◌++◌, append_assoc, arith,
}
use ewlibs.Pages.{
  Node, leaf, half_branch, branch, size, Direction, to_left, to_right, walk, find, node_at,
}
use ewlibs.Pages.Partition.{leaves, WellSized}

unfoldable pub sum : List ℕ → ℕ
sum [] = 0
sum (n ∷ ns) = n + sum ns

sum-append : (xs ys : List ℕ) → sum (xs ++ ys) ≡ sum xs + sum ys
unfolding sum
sum-append [] ys = omega arith
sum-append (x ∷ xs) ys = omega (arith, sum-append xs ys)

-- The size in front of the node at the end of a path.
unfoldable pub start : Node → List Direction → ℕ
start n [] = 0
start (leaf n) (d ∷ path) = 0
start (half_branch n l) (d ∷ path) = start l path
start (branch n l r) (to_left ∷ path) = start l path
start (branch n l r) (to_right ∷ path) = size l + start r path

-- The path leads to a leaf; the leaves in front of it and the place in it make up the offset.
pub record Reached (t : Node) (offset : ℕ) (path : List Direction) (local : ℕ) : Type 0 where
  pub leaf_size : ℕ
  pub front : List ℕ
  pub back : List ℕ
  pub at : node_at t path ≡ some (leaf leaf_size)
  pub order : leaves t ≡ front ++ leaf_size ∷ back
  pub position : offset ≡ sum front + local
  pub inside : local < leaf_size
  pub origin : offset ≡ start t path + local

-- The leaves have the size of the node together.
pub sum-leaves : (t : Node) → WellSized t → sum (leaves t) ≡ size t
unfolding sum leaves WellSized
sum-leaves (leaf n) w = omega arith
sum-leaves (half_branch n l) (e, w) = sum-leaves l w ∙ sym e
sum-leaves (branch n l r) (e, wl, wr) =
    omega (arith, sum-append (leaves l) (leaves r), sum-leaves l wl, sum-leaves r wr)

module _ (offset : ℕ) (path : List Direction) (local : ℕ) where
  left_Reached :
      (n : ℕ) (l r : Node)
      → Reached l offset path local
      → Reached (branch n l r) offset (to_left ∷ path) local
  unfolding leaves node_at start
  left_Reached n l r p = record {
    leaf_size = p.leaf_size;
    front = p.front;
    back = p.back ++ leaves r;
    at = p.at;
    order =
        ap (λ xs. xs ++ leaves r) p.order ∙ append_assoc p.front (p.leaf_size ∷ p.back) (leaves r);
    position = p.position;
    inside = p.inside;
    origin = omega (arith, p.origin);
  }

  half_Reached :
      (n : ℕ) (l : Node)
      → Reached l offset path local
      → Reached (half_branch n l) offset (to_left ∷ path) local
  unfolding leaves node_at start
  half_Reached n l p = record {
    leaf_size = p.leaf_size;
    front = p.front;
    back = p.back;
    at = p.at;
    order = p.order;
    position = p.position;
    inside = p.inside;
    origin = omega (arith, p.origin);
  }

  right_Reached :
      (n : ℕ) (l r : Node)
      → WellSized l
      → size l ≤ offset
      → Reached r (offset - size l) path local
      → Reached (branch n l r) offset (to_right ∷ path) local
  unfolding leaves node_at start
  right_Reached n l r w le p = record {
    leaf_size = p.leaf_size;
    front = leaves l ++ p.front;
    back = p.back;
    at = p.at;
    order =
        ap (λ xs. leaves l ++ xs) p.order
        ∙ sym (append_assoc (leaves l) p.front (p.leaf_size ∷ p.back));
    position = omega (arith, p.position, sum-append (leaves l) p.front, sum-leaves l w);
    inside = p.inside;
    origin = omega (arith, p.origin);
  }

walk-Reached :
    (t : Node) (offset : ℕ)
    → WellSized t
    → offset < size t
    → (path : List Direction) × (local : ℕ) × (walk t offset ≡ some (path, local))
      × Reached t offset path local
unfolding walk WellSized node_at leaves sum start
walk-Reached (leaf n) offset w lt = (
  [],
  offset,
  refl,
  record {
    leaf_size = n;
    front = [];
    back = [];
    at = refl;
    order = refl;
    position = omega arith;
    inside = lt;
    origin = omega arith;
  },
)
walk-Reached (half_branch n l) offset (e, w) lt =
    let (path, local, run, p) = walk-Reached l offset w (omega arith) in
    let test : ltb offset (size l) ≡ true = ground arith in
    (to_left ∷ path, local, rw (test, run), half_Reached offset path local n l p)
walk-Reached (branch n l r) offset (e, wl, wr) lt = elim (Bool-cases (ltb offset (size l))) [
  | inl t ↦
      let (path, local, run, p) = walk-Reached l offset wl (ground arith) in
      (to_left ∷ path, local, rw (t, run), left_Reached offset path local n l r p)
  | inr t ↦
      let le : size l ≤ offset = ground arith in
      let (path, local, run, p) = walk-Reached r (offset - size l) wr (omega arith) in
      (to_right ∷ path, local, rw (t, run), right_Reached offset path local n l r wl le p)
]

-- In a tree whose sizes add up, `find` gives, for an offset below the size, the path to a leaf and the
-- place in it, such that the leaves in front of it and this place make up the offset.
pub find-Reached :
    (t : Node) (offset : ℕ)
    → WellSized t
    → offset < size t
    → (path : List Direction) × (local : ℕ) × (find t offset ≡ some (some (path, local)))
      × Reached t offset path local
unfolding find
find-Reached t offset w lt =
    let (path, local, run, p) = walk-Reached t offset w lt in
    let test : leb (size t) offset ≡ false = ground arith in (path, local, rw (test, run), p)

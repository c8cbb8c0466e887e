-- ===== src/Pages.antt =====
-- The tree of pages of include/ew/core/container/flexible_array.hpp: how a size is cut into pages, and
-- how the page of an offset is found. A node is the tree below it, and a pointer to a node of the tree
-- is the path to it from the root; the pages themselves and the pointers up and along the leaves are
-- not modelled. Sizes are below 2 ^ 64, and no sum below exceeds the size of the root.
pub mod Partition
pub mod Splitting
pub mod Walk
pub mod Cache
mod Tests
use ewlibs.Base.{
  ltb, leb, ◌==◌, if◌then◌else◌, ==_iff, ==_refl, Bool-cases, Option-cases, ◌>>=◌, some_inj, length,
  get_elem?, set, take, drop, replicate, length-append, length-set, get_elem?-set_self,
  get_elem?-set_ne, get_elem?-lt, get_elem?-some, get_elem?-append_left, get_elem?-append_right,
  get_elem?-set, get_elem?-push, take-append-drop, length-take, length-drop, length-replicate,
  length-map, ℕ, zero, suc, ◌+◌, ◌-◌, ◌*◌, ◌/◌, ◌%◌, ◌^◌, ◌≤◌, ◌<◌, min, max, ◌≡◌, refl, sym, ap,
  ap₂, ◌∙◌, fun_ext, subst, ◌≢◌, ◌↔◌, ◌⊎◌, inl, inr, Bool, true, false, not, ◌&&◌, ◌||◌, Option,
  none, some, List, [], ◌∷◌, ◌++◌, map, append_assoc, append-nil, arith,
}

-- `node`, with no child, with a left child only, or with both.
pub data Node : Type 0 where
  leaf : ℕ → Node
  half_branch : ℕ → Node → Node
  branch : ℕ → Node → Node → Node

abbrev pub size : Node → ℕ
size (leaf n) = n
size (half_branch n l) = n
size (branch n l r) = n

-- The loop of `build_partitions`: the first multiple of the page size, from `sz`, that is not below
-- `half`. `none` is a lack of fuel.
unfoldable pub round_up : ℕ → ℕ → ℕ → ℕ → Option ℕ
round_up zero min_page_size half sz = if ltb sz half then none else some sz
round_up (suc fuel) min_page_size half sz =
    let rest = round_up fuel min_page_size half (sz + min_page_size) in
    if ltb sz half then rest else some sz

-- A node with its children, if the right one has a size.
abbrev pub join : ℕ → ℕ → Node → Node → Node
join n right_size l r = if right_size == 0 then half_branch n l else branch n l r

-- `build_partitions(n, min_page_size)` on a new node of size n.
unfoldable pub build_partitions : ℕ → ℕ → ℕ → Option Node
build_partitions zero min_page_size n = if leb n min_page_size then some (leaf n) else none
build_partitions (suc fuel) min_page_size n =
    if leb n min_page_size
    then some (leaf n)
    else round_up (n / 2) min_page_size (n / 2) min_page_size >>= λ sz.
        build_partitions fuel min_page_size sz >>= λ l.
        build_partitions fuel min_page_size (n - sz) >>= λ r. some (join n (n - sz) l r)

-- `split_node(n)` on a new node of size n. A page size of 0 fails an assertion.
unfoldable pub split_node : ℕ → ℕ → ℕ → ℕ → Option Node
split_node zero min_page_size max_page_size n =
    if min_page_size == 0 || max_page_size == 0
    then none
    else if leb n (max_page_size / 2) || leb n min_page_size
    then some (leaf n)
    else none
split_node (suc fuel) min_page_size max_page_size n =
    if min_page_size == 0 || max_page_size == 0
    then none
    else if leb n (max_page_size / 2) || leb n min_page_size
    then some (leaf n)
    else let half = n / 2 in
      let left_size = (if half == 0 then n - half else half) in
      let right_size = (if half == 0 then half else n - half) in
      split_node fuel min_page_size max_page_size left_size >>= λ l.
      split_node fuel min_page_size max_page_size right_size >>= λ r. some (join n right_size l r)

pub data Direction : Type 0 where
  to_left : Direction
  to_right : Direction

-- The walk of `find`: the path to a leaf, and the offset in it. `none` is a fault.
unfoldable pub walk : Node → ℕ → Option (List Direction × ℕ)
walk (leaf n) offset = some ([], offset)
walk (half_branch n l) offset =
    let below = walk l offset in
    if ltb offset (size l) then (below >>= λ (path, local). some (to_left ∷ path, local)) else none
walk (branch n l r) offset =
    let below = walk l offset in
    let above = walk r (offset - size l) in
    if ltb offset (size l)
    then (below >>= λ (path, local). some (to_left ∷ path, local))
    else (above >>= λ (path, local). some (to_right ∷ path, local))

-- `find(root_node, offset, local_offset)`: the null pointer from the size of the root on.
unfoldable pub find : Node → ℕ → Option (Option (List Direction × ℕ))
find root offset =
    if leb (size root) offset then some none else walk root offset >>= λ found. some (some found)

-- The node at the end of a path.
unfoldable pub node_at : Node → List Direction → Option Node
node_at n [] = some n
node_at (leaf n) (d ∷ path) = none
node_at (half_branch n l) (to_left ∷ path) = node_at l path
node_at (half_branch n l) (to_right ∷ path) = none
node_at (branch n l r) (to_left ∷ path) = node_at l path
node_at (branch n l r) (to_right ∷ path) = node_at r path

-- `m_last_node`, `m_last_start_offset` and `m_last_end_offset`.
pub record Tree : Type 0 where
  pub root : Node
  pub last_node : Option (List Direction)
  pub last_start_offset : ℕ
  pub last_end_offset : ℕ

-- `find(offset, local_offset)`, which looks in the cache first. The result comes with the tree after
-- it.
unfoldable pub find_cached : Tree → ℕ → Option (Option (List Direction × ℕ) × Tree)
find_cached t offset =
    let search = find t.root offset >>= λ found. elim found [
      | none ↦ some (none, t)
      | some place ↦ node_at t.root place.0 >>= λ n. some (
        some place,
        record t {
          last_node = some place.0;
          last_start_offset = offset - place.1;
          last_end_offset = offset - place.1 + size n;
        },
      )
    ] in
    elim t.last_node [
      | none ↦ search
      | some path ↦
          if leb t.last_start_offset offset && ltb offset t.last_end_offset
          then some (some (path, offset - t.last_start_offset), t)
          else search
    ]

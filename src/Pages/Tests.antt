-- ===== src/Pages/Tests.antt =====
-- The theorems about the tree of pages on 10 bytes in pages of 4.
use ewlibs.Base.{ℕ, ◌≡◌, refl, Option, none, some, List, arith}
use ewlibs.Pages.{Node, leaf, branch, size, Direction, Tree, find, find_cached, build_partitions}
use ewlibs.Pages.Partition.{leaves, WellSized, Paged, build_partitions-Paged}
use ewlibs.Pages.Cache.{Coherent, find_cached-find}

abbrev three_pages : Node
three_pages = branch 10 (branch 8 (leaf 4) (leaf 4)) (leaf 2)

three_pages-WellSized : WellSized three_pages
unfolding WellSized
three_pages-WellSized = (refl, (refl, refl, refl), refl)

abbrev cold : Tree
cold = record { root = three_pages; last_node = none; last_start_offset = 0; last_end_offset = 0 }

build_partitions-Paged_example :
    (t : Node) × (build_partitions 10 4 10 ≡ some t)
    × (size t ≡ 10)
    × WellSized t
    × Paged 4 10 (leaves t)
build_partitions-Paged_example = build_partitions-Paged 10 4 10 (omega arith) (omega arith)

find_cached-find_example :
    (r : Option (List Direction × ℕ)) × (t' : Tree) × (find_cached cold 9 ≡ some (r, t'))
    × (find cold.root 9 ≡ some r)
    × (t'.root ≡ cold.root)
    × Coherent t'
find_cached-find_example =
    find_cached-find cold 9 three_pages-WellSized (λ path offset e low high. cc) (omega arith)

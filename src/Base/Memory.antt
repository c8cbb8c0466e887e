-- ===== src/Base/Memory.antt =====
-- Arrays of memory as functions from the index, and loops that write a range of them.
use Prim.Native.Nat.{ℕ, zero, suc, ◌+◌}
use mathlib.Core.Bool.{Bool, ◌&&◌}
use mathlib.Core.Path.{◌≡◌}
use native.Mathlib.Omega.{arith}
use ewlibs.Base.Tests.{ltb, leb, ◌==◌, if◌then◌else◌}

abbrev pub Memory : Type 0
Memory = ℕ → ℕ

-- `p[i] = v`
unfoldable pub store : ℕ → ℕ → Memory → Memory
store i v m = λ j. if j == i then v else m j

-- `for (k = 0; k < n; k++) p[i + k] = f(i + k)`
unfoldable pub fill : ℕ → ℕ → (ℕ → ℕ) → Memory → Memory
fill zero i f m = m
fill (suc n) i f m = fill n (suc i) f (store i (f i) m)

abbrev pub in_range : ℕ → ℕ → ℕ → Bool
in_range lo hi j = leb lo j && leb j hi

pub fill-lookup :
    (n i : ℕ) (f : ℕ → ℕ) (m : Memory) (j : ℕ)
    → fill n i f m j ≡ (if leb i j && ltb j (i + n) then f j else m j)
unfolding fill store
fill-lookup zero i f m j = ground arith
fill-lookup (suc n) i f m j = rw (fill-lookup n (suc i) f (store i (f i) m) j) (ground arith)

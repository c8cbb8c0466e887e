-- ===== src/Array/Tests.antt =====
-- Erasing from an array of three elements with room for four, and inserting in it.
use ewlibs.Base.{length, get_elem?, ℕ, zero, suc, ◌≡◌, refl, none, some, [], ◌∷◌, arith, false}
use ewlibs.Array.{resize_insert, Array, element, erase}
use ewlibs.Array.Growing.{resize_insert-Lists}
use ewlibs.Array.Elements.{Lists, erase-Lists}

abbrev three_elements : Array ℕ
three_elements = record { cells = some 5 ∷ some 6 ∷ some 7 ∷ none ∷ []; used = 3 }

three_elements-Lists : Lists (5 ∷ 6 ∷ 7 ∷ []) three_elements
three_elements-Lists = record { counted = refl; fits = omega arith; here = read }
  where
    read : (i : ℕ) → element three_elements.cells i ≡ get_elem? (5 ∷ 6 ∷ 7 ∷ []) i
    read zero = refl
    read (suc zero) = refl
    read (suc (suc zero)) = refl
    read (suc (suc (suc zero))) = refl
    read (suc (suc (suc (suc i)))) = refl

erase-Lists_example :
    (a' : Array ℕ) × (erase three_elements 0 2 ≡ some a')
    × Lists (7 ∷ []) a'
    × (length a'.cells ≡ 4)
erase-Lists_example =
    erase-Lists three_elements (5 ∷ 6 ∷ 7 ∷ []) 0 2 three_elements-Lists (omega arith) (omega arith)

-- Two items of eight bytes are put behind the first element.
resize_insert-Lists_example :
    (a' : Array ℕ) × (resize_insert false 8 three_elements 1 (8 ∷ 9 ∷ []) ≡ some a')
    × Lists (5 ∷ 8 ∷ 9 ∷ 6 ∷ 7 ∷ []) a'
resize_insert-Lists_example =
    resize_insert-Lists 8 three_elements (5 ∷ 6 ∷ 7 ∷ []) (8 ∷ 9 ∷ []) 1 three_elements-Lists
      (omega arith) (omega arith) (omega arith)

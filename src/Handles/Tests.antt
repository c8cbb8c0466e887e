-- ===== src/Handles/Tests.antt =====
-- The theorems about the handle table on a table with one object.
use ewlibs.Base.{length, ℕ, ◌≡◌, refl, none, some, [], ◌∷◌, arith}
use ewlibs.Handles.{Allocator, grown, construct, get}
use ewlibs.Handles.Handing.{Handed, construct-Handed}

abbrev one_object : Allocator ℕ
one_object = record { table = none ∷ some 7 ∷ none ∷ []; last_idx = 1; used = 1 }

one_object-length : length (grown one_object) ≡ 3
unfolding grown
one_object-length = refl

construct-Handed_example :
    (idx : ℕ) × (h' : Allocator ℕ) × (construct one_object 8 ≡ some ((some 8, idx), h'))
    × Handed one_object 8 idx h'
construct-Handed_example =
    construct-Handed one_object 8 2 (omega (arith, one_object-length)) (omega arith) refl

held_object : get one_object 1 ≡ some 7
unfolding get
held_object = refl

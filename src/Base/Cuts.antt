-- ===== src/Base/Cuts.antt =====
-- Lists that are cut at the length of a part.
use ewlibs.Base.{length, take, drop, ℕ, zero, suc, ◌≤◌, ◌≡◌, refl, ap, List, [], ◌∷◌, ◌++◌, arith}

pub drop-take :
    {A : Type 0} (n : ℕ) (xs ys : List A) → n ≤ length xs → drop n (take n xs ++ ys) ≡ ys
drop-take zero xs ys h = refl
drop-take (suc n) [] ys h = absurd (omega (arith, h))
drop-take (suc n) (x ∷ xs) ys h = drop-take n xs ys (omega (arith, h))

pub take-length_append : {A : Type 0} (xs ys : List A) → take (length xs) (xs ++ ys) ≡ xs
take-length_append [] ys = refl
take-length_append (x ∷ xs) ys = ap (λ r. x ∷ r) (take-length_append xs ys)

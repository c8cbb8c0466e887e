-- ===== src/Undo/Contents.antt =====
-- The text that a log describes: the changes of its commits, made one after the other.
use ewlibs.Base.{
  ◌==◌, if◌then◌else◌, ==_iff, ==_refl, Bool-cases, Option-cases, ◌>>=◌, some_inj, get_elem?, ℕ,
  zero, suc, ◌+◌, ◌≤◌, ◌≡◌, refl, sym, ap, ap₂, subst, inl, inr, Option, none, some, List, [], ◌∷◌,
  ◌++◌, arith,
}
use ewlibs.Undo.{Operation, nop, insert_op, remove_op, Commit, Edit, edit_of, inverse_op, inverse}

-- The text without `bytes` at its start.
unfoldable pub without : List ℕ → List ℕ → Option (List ℕ)
without [] text = some text
without (b ∷ bytes) [] = none
without (b ∷ bytes) (c ∷ text) = let rest = without bytes text in if b == c then rest else none

-- A change of a text: bytes are put at the offset, or bytes that stand there are taken away.
unfoldable pub change : Operation → List ℕ → ℕ → List ℕ → Option (List ℕ)
change nop bytes offset text = none
change insert_op bytes zero text = some (bytes ++ text)
change remove_op bytes zero text = without bytes text
change insert_op bytes (suc offset) [] = none
change insert_op bytes (suc offset) (c ∷ text) =
    change insert_op bytes offset text >>= λ rest. some (c ∷ rest)
change remove_op bytes (suc offset) [] = none
change remove_op bytes (suc offset) (c ∷ text) =
    change remove_op bytes offset text >>= λ rest. some (c ∷ rest)

abbrev pub apply : Edit → List ℕ → Option (List ℕ)
apply e text = change e.op e.data_bytes e.offset text

without-append : (bytes text : List ℕ) → without bytes (bytes ++ text) ≡ some text
unfolding without
without-append [] text = refl
without-append (b ∷ bytes) text = rw (==_refl b) (without-append bytes text)

append-without : (bytes text rest : List ℕ) → without bytes text ≡ some rest → bytes ++ rest ≡ text
unfolding without
append-without [] text rest h = sym (some_inj h)
append-without (b ∷ bytes) [] rest h = absurd (cc h)
append-without (b ∷ bytes) (c ∷ text) rest h = elim (Bool-cases (b == c)) [
  | inl q ↦ ap₂ (λ x xs. x ∷ xs) ((==_iff b c).0 q) (append-without bytes text rest (rw q at h))
  | inr q ↦ absurd (cc (rw q at h))
]

change-inverse :
    (op : Operation) (bytes : List ℕ) (offset : ℕ) (x y : List ℕ)
    → change op bytes offset x ≡ some y
    → change (inverse_op op) bytes offset y ≡ some x
unfolding change
change-inverse nop bytes offset x y h = absurd (cc h)
change-inverse insert_op bytes zero x y h = rw (sym (some_inj h)) (without-append bytes x)
change-inverse remove_op bytes zero x y h = ap some (append-without bytes x y h)
change-inverse insert_op bytes (suc offset) [] y h = absurd (cc h)
change-inverse insert_op bytes (suc offset) (c ∷ x) y h =
    elim (Option-cases (change insert_op bytes offset x)) [
      | inl n ↦ absurd (cc (rw n at h))
      | inr (r, n) ↦ rw (sym (some_inj (rw n at h)), change-inverse insert_op bytes offset x r n)
    ]
change-inverse remove_op bytes (suc offset) [] y h = absurd (cc h)
change-inverse remove_op bytes (suc offset) (c ∷ x) y h =
    elim (Option-cases (change remove_op bytes offset x)) [
      | inl n ↦ absurd (cc (rw n at h))
      | inr (r, n) ↦ rw (sym (some_inj (rw n at h)), change-inverse remove_op bytes offset x r n)
    ]

-- The inverse of a change takes it back.
pub apply-inverse : (e : Edit) (x y : List ℕ) → apply e x ≡ some y → apply (inverse e) y ≡ some x
apply-inverse e x y h = change-inverse e.op e.data_bytes e.offset x y h

-- The payload of the commit at a place.
abbrev pub edit_at : List Commit → ℕ → Option Edit
edit_at commits i = get_elem? commits i >>= λ c. some (edit_of c)

-- The text after the commits up to a place, on a text at the first commit.
unfoldable pub content_at : List Commit → List ℕ → ℕ → Option (List ℕ)
content_at commits text zero = some text
content_at commits text (suc i) =
    content_at commits text i >>= λ x. edit_at commits (suc i) >>= λ e. apply e x

-- The text at a place depends on the payloads up to this place.
pub content_at-same :
    (cs ds : List Commit) (text : List ℕ) (i : ℕ)
    → ((j : ℕ) → j ≤ i → edit_at ds j ≡ edit_at cs j)
    → content_at ds text i ≡ content_at cs text i
unfolding content_at
content_at-same cs ds text zero h = refl
content_at-same cs ds text (suc i) h =
    rw (content_at-same cs ds text i (λ j k. h j (omega arith)), h (suc i) (omega arith))

-- The text at the next place.
pub content_at-next :
    (cs : List Commit) (text : List ℕ) (i j : ℕ) (x y : List ℕ) (e : Edit)
    → i + 1 ≡ j
    → content_at cs text i ≡ some x
    → edit_at cs j ≡ some e
    → apply e x ≡ some y
    → content_at cs text j ≡ some y
unfolding content_at
content_at-next cs text i zero x y e p h at a = absurd (omega (arith, p))
content_at-next cs text i (suc j) x y e p h at a =
    let q : i ≡ j = omega (arith, p) in
    rw (subst (λ k. content_at cs text k ≡ some x) q h, at, a) refl

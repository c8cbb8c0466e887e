-- ===== src/Codec/Backward.antt =====
-- What the ascii codec reads backwards, of a buffer that holds `bytes`.
use ewlibs.Base.{
  ◌==◌, ==_iff, Bool-cases, length, take, drop, length-take, length-drop, ℕ, zero, suc, ◌+◌, ◌-◌,
  ◌≤◌, ◌<◌, min, ◌≡◌, refl, sym, ap, ◌∙◌, inl, inr, some, List, [], ◌∷◌, ◌++◌, append_assoc,
  append-nil, arith,
}
use ewlibs.Layout.{CodecIo}
use ewlibs.Codec.Ascii.{ReadBytes, backward_cells, ascii_backward_loop, ascii_read_backward}
use ewlibs.Codec.Reading.{ReadsBytes}

-- The bytes from one offset to another.
abbrev pub slice : ℕ → ℕ → List ℕ → List ℕ
slice first last bytes = take (last - first) (drop first bytes)

-- The cells of bytes from an offset on, in their order.
abbrev pub forward_cells : ℕ → List ℕ → List CodecIo
forward_cells offset [] = []
forward_cells offset (b ∷ bytes) =
    record { offset = offset; cp = b; size = 1 } ∷ forward_cells (offset + 1) bytes

abbrev pub reversed : {A : Type 0} → List A → List A
reversed [] = []
reversed (x ∷ xs) = reversed xs ++ x ∷ []

backward_cells-reversed :
    (offset : ℕ) (bytes : List ℕ)
    → backward_cells offset bytes ≡ reversed (forward_cells offset bytes)
unfolding backward_cells
backward_cells-reversed offset [] = refl
backward_cells-reversed offset (b ∷ bytes) =
    ap (λ r. r ++ record { offset = offset; cp = b; size = 1 } ∷ [])
      (backward_cells-reversed (offset + 1) bytes)

backward_cells-append :
    (offset : ℕ) (xs ys : List ℕ)
    → backward_cells offset (xs ++ ys)
      ≡ backward_cells (offset + length xs) ys ++ backward_cells offset xs
unfolding backward_cells
backward_cells-append offset [] ys =
    ap (λ o. backward_cells o ys) (omega arith) ∙ sym (append-nil _)
backward_cells-append offset (x ∷ xs) ys =
    ap (λ r. r ++ record { offset = offset; cp = x; size = 1 } ∷ [])
      (backward_cells-append (offset + 1) xs ys)
    ∙ append_assoc (backward_cells (offset + 1 + length xs) ys) (backward_cells (offset + 1) xs)
        (record { offset = offset; cp = x; size = 1 } ∷ [])
    ∙ ap (λ o. backward_cells o ys ++ backward_cells offset (x ∷ xs)) (past offset (length xs))
  where
    past : (o n : ℕ) → o + 1 + n ≡ o + suc n
    past o n = omega arith

take-add : {A : Type 0} (a b : ℕ) (xs : List A) → take (a + b) xs ≡ take a xs ++ take b (drop a xs)
take-add zero b xs = ap (λ n. take n xs) (omega arith)
take-add (suc a) b [] = ap (λ n. take n []) (shift a b) ∙ nothing b
  where
    shift : (a b : ℕ) → suc a + b ≡ suc (a + b)
    shift a b = omega arith

    nothing : {A : Type 0} (b : ℕ) → [] ≡ take {A = A} b []
    nothing zero = refl
    nothing (suc b) = refl
take-add (suc a) b (x ∷ xs) =
    ap (λ n. take n (x ∷ xs)) (shift a b) ∙ ap (λ r. x ∷ r) (take-add a b xs)
  where
    shift : (a b : ℕ) → suc a + b ≡ suc (a + b)
    shift a b = omega arith

drop-empty : {A : Type 0} (n : ℕ) → drop {A = A} n [] ≡ []
drop-empty zero = refl
drop-empty (suc n) = refl

pub drop-drop : {A : Type 0} (a b : ℕ) (xs : List A) → drop a (drop b xs) ≡ drop (b + a) xs
drop-drop a zero xs = let same : a ≡ 0 + a = omega arith in ap (λ n. drop n xs) same
drop-drop a (suc b) [] = drop-empty a ∙ sym (drop-empty (suc b + a))
drop-drop a (suc b) (x ∷ xs) = drop-drop a b xs ∙ ap (λ n. drop n (x ∷ xs)) (shift b a)
  where
    shift : (b a : ℕ) → suc (b + a) ≡ suc b + a
    shift b a = omega arith

slice-join :
    (first mid last : ℕ) (bytes : List ℕ)
    → first ≤ mid
    → mid ≤ last
    → slice first last bytes ≡ slice first mid bytes ++ slice mid last bytes
slice-join first mid last bytes h k =
    let count : last - first ≡ mid - first + (last - mid) = omega (arith, h, k) in
    ap (λ n. take n (drop first bytes)) count
    ∙ take-add (mid - first) (last - mid) (drop first bytes)
    ∙ ap (λ xs. slice first mid bytes ++ take (last - mid) xs)
        (drop-drop (mid - first) first bytes ∙ ap (λ n. drop n bytes) (omega (arith, h)))

length-slice :
    (first last : ℕ) (bytes : List ℕ)
    → last ≤ length bytes
    → length (slice first last bytes) ≡ last - first
length-slice first last bytes h =
    omega (arith, length-take (last - first) (drop first bytes), length-drop first bytes)

module _ (bytes : List ℕ) (read : ReadBytes) (law : ReadsBytes bytes read) where
  -- The loop reads what is left, block by block.
  loop_lem :
      (fuel first last : ℕ)
      → last ≤ first
      → first ≤ length bytes
      → first - last < fuel
      → ascii_backward_loop read fuel first last
        ≡ some (some (backward_cells last (slice last first bytes)))
  unfolding ascii_backward_loop backward_cells
  loop_lem zero first last le inside h = absurd (omega (arith, h))
  loop_lem (suc fuel) first last le inside h = elim (Bool-cases (first == last)) [
    | inl e ↦
        let none_left : first - last ≡ 0 = omega (arith, (==_iff _ _).0 e) in rw (e, none_left) refl
    | inr e ↦
        let m = min 16384 (first - last) in
        let start = first - m in
        let pos : last < first = ground (arith, e, le) in
        let run = law.within start m (omega (arith, pos, inside)) in
        let block : take m (drop start bytes) ≡ slice start first bytes =
          ap (λ n. take n (drop start bytes)) (omega (arith, pos)) in
        let size : length (slice start first bytes) ≡ m =
          length-slice start first bytes inside ∙ omega (arith, pos) in
        let before : last ≤ start = omega (arith, pos) in
        let reach : last + length (slice last start bytes) ≡ start =
          omega (arith, length-slice last start bytes (omega (arith, inside)), before) in
        rw
          (
            e,
            run,
            block,
            size,
            loop_lem fuel start last (omega (arith, pos)) (omega (arith, inside))
                (omega (arith, pos, h)),
          )
          (ap (λ cells. some (some cells))
            (sym (
              ap (backward_cells last) (slice-join last start first bytes before (omega arith))
              ∙ backward_cells-append last (slice last start bytes) (slice start first bytes)
              ∙ ap
                  (λ o.
                    backward_cells o (slice start first bytes)
                    ++ backward_cells last (slice last start bytes))
                  reach)))
  ]

  -- From an offset within the buffer, or at its end, the codec reads the code points before it, as
  -- many as are asked for and are there, in the reverse of their order.
  pub ascii_read_backward-reversed :
      (first iocnt : ℕ)
      → first ≤ length bytes
      → ascii_read_backward read first iocnt
        ≡ some (some (reversed (forward_cells (first - iocnt) (slice (first - iocnt) first bytes))))
  unfolding ascii_read_backward backward_cells
  ascii_read_backward-reversed first iocnt inside =
      all first iocnt inside
      ∙ ap (λ cells. some (some cells))
          (backward_cells-reversed (first - iocnt) (slice (first - iocnt) first bytes))
    where
      all :
          (first iocnt : ℕ)
          → first ≤ length bytes
          → ascii_read_backward read first iocnt
            ≡ some (some (backward_cells (first - iocnt) (slice (first - iocnt) first bytes)))
      all first iocnt inside = elim (Bool-cases (first == 0)) [
        | inl e ↦
            let none_left : first - (first - iocnt) ≡ 0 = omega (arith, (==_iff _ _).0 e) in
            rw (ascii_read_backward, e, none_left) refl
        | inr e ↦
            rw (ascii_read_backward, e)
              (loop_lem (first + 1) first (first - iocnt) (omega arith) inside (omega arith))
      ]

-- ===== src/Array/Growing.antt =====
-- Inserting in an array that is full.
use ewlibs.Base.{
  ltb, ◌==◌, if◌then◌else◌, Bool-cases, some_inj, length, get_elem?, take, drop, replicate,
  length-append, get_elem?-some, length-take, length-drop, ℕ, zero, suc, ◌+◌, ◌-◌, ◌*◌, ◌%◌, ◌^◌,
  ◌≤◌, ◌<◌, ◌≡◌, refl, sym, ap, ◌∙◌, inl, inr, false, none, some, List, [], ◌∷◌, ◌++◌, map, arith,
  subst,
}
use ewlibs.Array.{Array, element, double_up, nexthigher, read_range, resize_insert}
use ewlibs.Array.Elements.{Lists}

-- Doubling reaches every size up to 2 ^ 62, and goes no further than twice beyond it.
double_up-le :
    (fuel start k : ℕ)
    → 0 < start
    → 0 < fuel
    → k < start + fuel
    → start ≤ 2 * k
    → k ≤ 2 ^ 62
    → (r : ℕ) × (double_up fuel start k ≡ some r) × (k ≤ r) × (r ≤ 2 * k)
unfolding double_up
double_up-le zero start k p z f s b = absurd (omega (arith, z))
double_up-le (suc fuel) start k p z f s b = elim (Bool-cases (ltb start k)) [
  | inr q ↦ (start, rw q refl, ground (arith, q), s)
  | inl q ↦
      let small : start < k = ground (arith, q) in
      let (r, e, le, most) =
        double_up-le fuel (start * 2 % 2 ^ 64) k (omega (arith, p, small, b))
          (omega (arith, small, f)) (omega (arith, p, small, b, f)) (omega (arith, small, b)) b in
      (r, rw q e, le, most)
]

-- The new size is large enough, and at most twice as large as it must be.
newsize-le :
    (used n : ℕ)
    → used + n ≤ 2 ^ 62
    → (r : ℕ) × ((if used == 0
          then some ((used + n) % 2 ^ 64)
          else nexthigher (used * 2 % 2 ^ 64) ((used + n) % 2 ^ 64))
        ≡ some r)
      × (used + n ≤ r)
      × (r ≤ 2 * (used + n))
newsize-le used n b = elim (Bool-cases (used == 0)) [
  | inl q ↦ ((used + n) % 2 ^ 64, rw q refl, omega (arith, b), omega (arith, b))
  | inr q ↦ elim (Bool-cases (used * 2 % 2 ^ 64 == 0)) [
    | inl z ↦ absurd (ground (arith, q, z, b))
    | inr z ↦
        let (r, e, le, most) =
          double_up-le ((used + n) % 2 ^ 64 + 1) (used * 2 % 2 ^ 64) ((used + n) % 2 ^ 64)
            (ground (arith, z)) (omega arith) (omega arith) (omega (arith, b)) (omega (arith, b)) in
        (r, rw (q, z) e, omega (arith, le, b), omega (arith, most, b))
  ]
]

module _ {T : Type 0} where
  element-cells_of :
      (ys : List T) (k i : ℕ)
      → element (map (λ x. some x) ys ++ replicate k none) i ≡ get_elem? ys i
  element-cells_of [] zero i = refl
  element-cells_of [] (suc k) zero = refl
  element-cells_of [] (suc k) (suc i) = element-cells_of [] k i
  element-cells_of (y ∷ ys) k zero = refl
  element-cells_of (y ∷ ys) k (suc i) = element-cells_of ys k i

  cells_of-le :
      (ys : List T) (k : ℕ) → length ys ≤ length (map (λ x. some x) ys ++ replicate k none)
  cells_of-le [] k = omega arith
  cells_of-le (y ∷ ys) k = omega (arith, cells_of-le ys k)

  drop-get :
      (i : ℕ) (xs : List T) (x : T) → get_elem? xs i ≡ some x → drop i xs ≡ x ∷ drop (suc i) xs
  drop-get i [] x h = absurd (cc h)
  drop-get zero (y ∷ xs) x h = ap (λ z. z ∷ xs) (some_inj h)
  drop-get (suc i) (y ∷ xs) x h = drop-get i xs x h

  read_range-take :
      (n i : ℕ) (xs : List T) (a : Array T)
      → Lists xs a
      → i + n ≤ length xs
      → read_range n i a.cells ≡ some (take n (drop i xs))
  unfolding read_range
  read_range-take zero i xs a v h = refl
  read_range-take (suc n) i xs a v h =
      let (x, at) = get_elem?-some xs i (omega (arith, h)) in
      let next : i + 1 ≡ suc i = omega arith in
      rw (v.here i ∙ at, read_range-take n (i + 1) xs a v (omega (arith, h)), drop-get i xs x at)
        (ap (λ k. some (x ∷ take n (drop k xs))) next)

  take_whole : (n : ℕ) (xs : List T) → length xs ≤ n → take n xs ≡ xs
  take_whole zero [] h = refl
  take_whole zero (x ∷ xs) h = absurd (omega (arith, h))
  take_whole (suc n) [] h = refl
  take_whole (suc n) (x ∷ xs) h = ap (λ r. x ∷ r) (take_whole n xs (omega (arith, h)))

  -- `resize_insert` with iterators that are not pointers, on the array of a list, and with elements that
  -- take at most 2 ^ 62 bytes after it: it ends, fails no assertion, writes within its memory, and leaves
  -- the array of the list with the items at the place of insertion.
  pub resize_insert-Lists :
      (item_size : ℕ) (a : Array T) (xs items : List T) (before : ℕ)
      → Lists xs a
      → before ≤ length xs
      → 0 < item_size
      → (length xs + length items) * item_size ≤ 2 ^ 62
      → (a' : Array T) × (resize_insert false item_size a before items ≡ some a')
        × Lists (take before xs ++ items ++ drop before xs) a'
  unfolding resize_insert
  resize_insert-Lists item_size a xs items before v h pos b =
      let n = length xs + length items in
      let few : n ≤ 2 ^ 62 = omega (arith, b, mul_mono 1 item_size n pos) in
      let (r, e, le, most) = newsize-le a.used (length items) (omega (arith, v.counted, few)) in
      let target : (a.used + length items) % 2 ^ 64 ≡ n = omega (arith, v.counted, few) in
      let ys = take before xs ++ items ++ drop before xs in
      let all : length ys ≡ n = whole ys refl in
      let twice : r * item_size ≤ 2 * n * item_size =
        mul_mono r (2 * n) item_size (omega (arith, most, v.counted)) in
      let fits : n * item_size ≤ r * item_size =
        mul_mono n r item_size (omega (arith, le, v.counted)) in
      let test : ltb (r * item_size % 2 ^ 64) (length ys * item_size) ≡ false =
        enough item_size n r (length ys) all b twice fits in
      let front = read_range-take before 0 xs a v (omega (arith, h)) in
      let back = read_range-take (a.used - before) before xs a v (omega (arith, h, v.counted)) in
      let rest : take (a.used - before) (drop before xs) ≡ drop before xs =
        take_whole (a.used - before) (drop before xs)
          (omega (arith, v.counted, length-drop before xs)) in
      let spare = replicate (r - (a.used + length items) % 2 ^ 64) none in
      (
        record { cells = map (λ x. some x) ys ++ spare; used = (a.used + length items) % 2 ^ 64 },
        rw (resize_insert, e, front, back, rest, test) refl,
        record {
          counted = target ∙ sym all;
          fits = cells_of-le ys (r - (a.used + length items) % 2 ^ 64);
          here = element-cells_of ys (r - (a.used + length items) % 2 ^ 64);
        },
      )
    where
      whole :
          (ys : List T)
          → ys ≡ take before xs ++ items ++ drop before xs
          → length ys ≡ length xs + length items
      whole ys e =
          ap length e
          ∙ length-append (take before xs ++ items) (drop before xs)
          ∙ ap (λ k. k + length (drop before xs)) (length-append (take before xs) items)
          ∙ omega (arith, h, length-take before xs, length-drop before xs)

      enough :
          (s n r len : ℕ)
          → len ≡ n
          → n * s ≤ 2 ^ 62
          → r * s ≤ 2 * n * s
          → n * s ≤ r * s
          → ltb (r * s % 2 ^ 64) (len * s) ≡ false
      enough s n r len e b twice fits = rw e (ground (arith, b, twice, fits))

      spread : (x k s : ℕ) → x * s ≤ (x + k) * s
      spread x k s = omega arith

      mul_mono : (x y s : ℕ) → x ≤ y → x * s ≤ y * s
      mul_mono x y s le = subst (λ k. x * s ≤ k * s) (omega (arith, le)) (spread x (y - x) s)

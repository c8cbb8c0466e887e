-- ===== src/Mapped/Sequence.antt =====
-- Copying a page out of its file, sequences of calls on a page, and reading a page.
use ewlibs.Base.{
  ltb, Bool-cases, ◌>>=◌, length, take, drop, length-drop, ℕ, zero, suc, ◌+◌, ◌-◌, ◌%◌, ◌^◌, ◌≤◌,
  ◌<◌, ◌≡◌, refl, sym, ap, ◌∙◌, inl, inr, Bool, true, false, Option, some, List, [], ◌∷◌, arith,
}
use ewlibs.Mapped.{set_data, File, Page, map_page, unmap_page, copy_on_write, read_page}
use ewlibs.Mapped.Valid.{Valid, set_data_lem, map_page-Valid, unmap_page-Valid}

take_all : (n : ℕ) (xs : List ℕ) → length xs ≤ n → take n xs ≡ xs
take_all zero [] h = refl
take_all zero (x ∷ xs) h = absurd (omega (arith, h))
take_all (suc n) [] h = refl
take_all (suc n) (x ∷ xs) h = ap (λ r. x ∷ r) (take_all n xs (omega (arith, h)))

-- A page with one reference.
Valid-one :
    (f : File) (bytes : List ℕ) (p : Page)
    → Valid f bytes p
    → p.ptr ≡ some bytes
    → Valid f bytes (record p { nr_ref = 1 })
Valid-one f bytes p v h = record {
  measured = v.measured;
  some_bytes = v.some_bytes;
  bounded = v.bounded;
  counted = omega arith;
  on_disk = λ e. ((v.on_disk e).0, (v.on_disk e).1, (v.on_disk e).2, h);
  in_memory = λ e. h;
}

-- The page that is left when a mapped page is copied.
copy_on_write_lem :
    (f : File) (p p1 p2 : Page) (bytes : List ℕ)
    → p.is_mapped ≡ true
    → map_page f p ≡ some (true, p1)
    → p1.ptr ≡ some bytes
    → unmap_page f (record p1 { nr_ref = 1 }) ≡ some (true, p2)
    → copy_on_write f p
      ≡ some (
        true,
        record p2 {
          ptr = some (take (p.used % 2 ^ 32) bytes);
          used = p.used % 2 ^ 32;
          allocated = p.used % 2 ^ 32;
          init = true;
          is_mapped = false;
          file = false;
          nr_ref = p.nr_ref;
        },
      )
unfolding copy_on_write
copy_on_write_lem f p p1 p2 bytes q e1 b1 e2 =
    rw (copy_on_write, e1, q)
      (ap
          (λ b. b >>= λ block. unmap_page f (record p1 { nr_ref = 1 }) >>= λ (ok', p2).
            set_data p2 (some (take (p.used % 2 ^ 32) block)) (p.used % 2 ^ 32) (p.used % 2 ^ 32)
              false
            >>= λ p3. some (true, record p3 { is_mapped = false; file = false; nr_ref = p.nr_ref }))
          b1
        ∙ ap
            (λ (r : Option (Bool × Page)). r >>= λ (ok', p2).
              set_data p2 (some (take (p.used % 2 ^ 32) bytes)) (p.used % 2 ^ 32) (p.used % 2 ^ 32)
                false
              >>= λ p3.
                  some (true, record p3 { is_mapped = false; file = false; nr_ref = p.nr_ref }))
            e2
        ∙ ap
            (λ r. r >>= λ p3.
              some (true, record p3 { is_mapped = false; file = false; nr_ref = p.nr_ref }))
            (set_data_lem p2 (some (take (p.used % 2 ^ 32) bytes)) (p.used % 2 ^ 32)
              (p.used % 2 ^ 32) false))

-- A page that is copied out of its file has its bytes in memory, and as many references as before.
pub copy_on_write-Valid :
    (f : File) (bytes : List ℕ) (p : Page)
    → Valid f bytes p
    → p.nr_ref + 1 < 2 ^ 32
    → (p' : Page) × (copy_on_write f p ≡ some (true, p'))
      × (p'.is_mapped ≡ false)
      × (p'.nr_ref ≡ p.nr_ref)
      × (p'.ptr ≡ some bytes)
      × Valid f bytes p'
unfolding copy_on_write
copy_on_write-Valid f bytes p v h = elim (Bool-cases p.is_mapped) [
  | inr q ↦ (p, simp (copy_on_write, q) refl, q, refl, v.in_memory q, v)
  | inl q ↦
      let (p1, e1, b1, n1, m1, v1) = map_page-Valid f bytes p v h in
      let (p2, e2, n2, m2, v2) =
        unmap_page-Valid f bytes (record p1 { nr_ref = 1 }) (Valid-one f bytes p1 v1 b1) in
      let size : p.used % 2 ^ 32 ≡ length bytes = omega (arith, v.measured, v.bounded) in
      let block : Option (List ℕ) = some (take (p.used % 2 ^ 32) bytes) in
      let whole : block ≡ some bytes =
        ap some (take_all (p.used % 2 ^ 32) bytes (omega (arith, size))) in
      (
        record p2 {
          ptr = block;
          used = p.used % 2 ^ 32;
          allocated = p.used % 2 ^ 32;
          init = true;
          is_mapped = false;
          file = false;
          nr_ref = p.nr_ref;
        },
        copy_on_write_lem f p p1 p2 bytes q e1 b1 e2,
        refl,
        refl,
        whole,
        record {
          measured = size;
          some_bytes = v.some_bytes;
          bounded = v.bounded;
          counted = v.counted;
          on_disk = λ e. absurd (cc e);
          in_memory = λ e. whole;
        },
      )
]

-- The calls that change a page.
pub data Call : Type 0 where
  to_map to_unmap to_copy : Call

unfoldable pub run_call : File → Call → Page → Option (Bool × Page)
run_call f to_map p = map_page f p
run_call f to_unmap p = unmap_page f p
run_call f to_copy p = copy_on_write f p

unfoldable pub run_calls : File → List Call → Page → Option Page
run_calls f [] p = some p
run_calls f (c ∷ cs) p = run_call f c p >>= λ (ok, p'). run_calls f cs p'

run_call-Valid :
    (f : File) (bytes : List ℕ) (c : Call) (p : Page)
    → Valid f bytes p
    → p.nr_ref + 1 < 2 ^ 32
    → (p' : Page) × (run_call f c p ≡ some (true, p'))
      × (p'.nr_ref ≤ p.nr_ref + 1)
      × Valid f bytes p'
unfolding run_call
run_call-Valid f bytes to_map p v h =
    let (p', e, _, n, _, v') = map_page-Valid f bytes p v h in (p', e, omega (arith, n), v')
run_call-Valid f bytes to_unmap p v h =
    let (p', e, n, _, v') = unmap_page-Valid f bytes p v in (p', e, omega (arith, n), v')
run_call-Valid f bytes to_copy p v h =
    let (p', e, _, n, _, v') = copy_on_write-Valid f bytes p v h in (p', e, omega (arith, n), v')

-- A valid page: it has at least one byte and fewer than 2 ^ 32, and of a page that is in its file, the
-- file maps its bytes and unmaps them again. Whatever calls of map, unmap and copyOnWrite are made on it,
-- none faults while the references can be counted in 32 bits, and the page stays valid: with its bytes in
-- its block, or in the file when it is not referenced.
pub run_calls-Valid :
    (f : File) (bytes : List ℕ) (cs : List Call) (p : Page)
    → Valid f bytes p
    → p.nr_ref + length cs < 2 ^ 32
    → (p' : Page) × (run_calls f cs p ≡ some p') × Valid f bytes p'
unfolding run_calls
run_calls-Valid f bytes [] p v h = (p, refl, v)
run_calls-Valid f bytes (c ∷ cs) p v h =
    let (p1, e1, n1, v1) = run_call-Valid f bytes c p v (omega (arith, h)) in
    let (p2, e2, v2) = run_calls-Valid f bytes cs p1 v1 (omega (arith, h, n1)) in (p2, rw e1 e2, v2)

take_less :
    (n off : ℕ) (xs : List ℕ)
    → length xs < off + n
    → take (length xs - off) (drop off xs) ≡ take n (drop off xs)
take_less n off xs h =
    take_all (length xs - off) (drop off xs) (omega (arith, length-drop off xs))
    ∙ sym (take_all n (drop off xs) (omega (arith, length-drop off xs, h)))

-- After a page is mapped, a read from a place in the page gives the bytes from there, as many as are
-- asked for or as there are.
pub map_page-read_page :
    (f : File) (bytes : List ℕ) (p : Page) (off n : ℕ)
    → Valid f bytes p
    → p.nr_ref + 1 < 2 ^ 32
    → off ≤ length bytes
    → off + n < 2 ^ 32
    → (p' : Page) × (map_page f p ≡ some (true, p'))
      × (read_page p' off n ≡ some (take n (drop off bytes)))
unfolding read_page
map_page-read_page f bytes p off n v h o b =
    let (p', e, block, _, _, v') = map_page-Valid f bytes p v h in (p', e, reads p' block v')
  where
    reads :
        (p' : Page)
        → p'.ptr ≡ some bytes
        → Valid f bytes p'
        → read_page p' off n ≡ some (take n (drop off bytes))
    reads p' block v' =
        let inside : ltb p'.used off ≡ false = ground (arith, o, v'.measured) in
        elim (Bool-cases (ltb p'.used ((off + n) % 2 ^ 32))) [
          | inl q ↦
              let fits : ltb (length bytes) (off + (p'.used - off) % 2 ^ 32) ≡ false =
                ground (arith, o, v'.measured, v'.bounded) in
              let amount : (p'.used - off) % 2 ^ 32 ≡ length bytes - off =
                omega (arith, v'.measured, v'.bounded) in
              let more : length bytes < off + n = ground (arith, q, b, v'.measured) in
              simp (read_page, q, inside, block, fits)
                (ap some (ap (λ k. take k (drop off bytes)) amount ∙ take_less n off bytes more))
          | inr q ↦
              let fits : ltb (length bytes) (off + n) ≡ false = ground (arith, q, b, v'.measured) in
              simp (read_page, q, inside, block, fits) refl
        ]

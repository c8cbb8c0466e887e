-- ===== src/Mapped/Valid.antt =====
-- The state of a page: when its block is there, and what is in it.
use ewlibs.Base.{
  ◌==◌, if◌then◌else◌, Bool-cases, ◌>>=◌, length, ℕ, ◌+◌, ◌-◌, ◌%◌, ◌^◌, ◌<◌, ◌≡◌, refl, sym, ap,
  ◌∙◌, inl, inr, Bool, true, false, not, ◌||◌, Option, none, some, List, arith,
}
use ewlibs.Mapped.{File, Page, release_page, set_data, new_page, map_page, unmap_page}

-- A page that has these bytes: a page of the file has them in its block exactly if it is referenced,
-- and the file can map them, and unmap them again.
pub record Valid (f : File) (bytes : List ℕ) (p : Page) : Type 0 where
  pub measured : p.used ≡ length bytes
  pub some_bytes : 0 < length bytes
  pub bounded : length bytes < 2 ^ 32
  pub counted : p.nr_ref < 2 ^ 32
  pub on_disk :
      p.is_mapped ≡ true
      → (p.file ≡ true)
        × (f.map p.on_disk_offset p.used ≡ some bytes)
        × (f.unmap bytes p.used ≡ true)
        × (p.ptr ≡ (if p.nr_ref == 0 then none else some bytes))
  pub in_memory : p.is_mapped ≡ false → p.ptr ≡ some bytes

-- `set_data` makes no assertion fail.
pub set_data_lem :
    (p : Page) (block : Option (List ℕ)) (a u : ℕ) (m : Bool)
    → set_data p block a u m
      ≡ some (record p { ptr = block; used = u; allocated = a; init = true; is_mapped = m })
unfolding set_data release_page
set_data_lem p block a u m = elim (Bool-cases p.is_mapped) [
  | inl q ↦ rw (set_data, q) refl
  | inr q ↦ rw (set_data, q) refl
]

module _ (f : File) (bytes : List ℕ) (p : Page) (v : Valid f bytes p) where
  -- Another block and another count of references.
  Valid-count :
      (b : Option (List ℕ)) (n a : ℕ) (i m : Bool)
      → p.is_mapped ≡ m
      → n < 2 ^ 32
      → (m ≡ true → b ≡ (if n == 0 then none else some bytes))
      → (m ≡ false → b ≡ some bytes)
      → Valid f bytes (record p { ptr = b; allocated = a; init = i; is_mapped = m; nr_ref = n })
  Valid-count b n a i m q h d c = record {
    measured = v.measured;
    some_bytes = v.some_bytes;
    bounded = v.bounded;
    counted = h;
    on_disk = λ e. ((v.on_disk (q ∙ e)).0, (v.on_disk (q ∙ e)).1, (v.on_disk (q ∙ e)).2, d e);
    in_memory = c;
  }

  -- A page that is referenced less often than can be counted is mapped without a fault: it has its bytes
  -- in its block, and one reference more.
  pub map_page-Valid :
      p.nr_ref + 1 < 2 ^ 32
      → (p' : Page) × (map_page f p ≡ some (true, p'))
        × (p'.ptr ≡ some bytes)
        × (p'.nr_ref ≡ p.nr_ref + 1)
        × (p'.is_mapped ≡ p.is_mapped)
        × Valid f bytes p'
  unfolding map_page
  map_page-Valid h =
      let n = (p.nr_ref + 1) % 2 ^ 32 in
      let count : n ≡ p.nr_ref + 1 = omega (arith, h) in
      let there : (if n == 0 then none else some bytes) ≡ some bytes = ground (arith, h) in
      elim (Bool-cases p.is_mapped) [
        | inr q ↦ (
          record p { nr_ref = n },
          simp (map_page, q, v.in_memory q) refl,
          v.in_memory q,
          count,
          refl,
          Valid-count p.ptr n p.allocated p.init p.is_mapped refl (omega (arith, h))
              (λ e. absurd (cc (sym e ∙ q))) (λ e. v.in_memory q),
        )
        | inl q ↦ elim (Bool-cases (p.nr_ref == 0)) [
          | inl z ↦
              let test : (p.used == 0 || not p.file) ≡ false =
                rw ((v.on_disk q).0) (ground (arith, v.measured, v.some_bytes)) in
              (
                record p {
                  ptr = some bytes;
                  allocated = p.used;
                  init = true;
                  is_mapped = true;
                  nr_ref = n;
                },
                rw (map_page, q, z, (v.on_disk q).3, z, test, (v.on_disk q).1)
                    (ap
                      (λ r.
                        r >>= λ p'. some (true, record p' { nr_ref = (p'.nr_ref + 1) % 2 ^ 32 }))
                      (set_data_lem _ (some bytes) p.used p.used true)),
                refl,
                count,
                sym q,
                Valid-count (some bytes) n p.used true true q (omega (arith, h)) (λ e. sym there)
                    (λ e. absurd (cc e)),
              )
          | inr z ↦
              let block : p.ptr ≡ some bytes = (v.on_disk q).3 ∙ rw z refl in
              (
                record p { nr_ref = n },
                simp (map_page, q, z) refl,
                block,
                count,
                refl,
                Valid-count p.ptr n p.allocated p.init p.is_mapped refl (omega (arith, h))
                    (λ e. block ∙ sym there) (λ e. absurd (cc (sym e ∙ q))),
              )
        ]
      ]

  -- A page is unmapped without a fault, and has one reference less, or none if it had none.
  pub unmap_page-Valid :
      (p' : Page) × (unmap_page f p ≡ some (true, p'))
      × (p'.nr_ref ≡ p.nr_ref - 1)
      × (p'.is_mapped ≡ p.is_mapped)
      × Valid f bytes p'
  unfolding unmap_page
  unmap_page-Valid =
      let n = p.nr_ref - 1 in
      let in_bound : n < 2 ^ 32 = omega (arith, v.counted) in
      elim (Bool-cases p.is_mapped) [
        | inr q ↦ (
          record p { nr_ref = n },
          simp (unmap_page, q, v.in_memory q) refl,
          refl,
          refl,
          Valid-count p.ptr n p.allocated p.init p.is_mapped refl in_bound
              (λ e. absurd (cc (sym e ∙ q))) (λ e. v.in_memory q),
        )
        | inl q ↦ elim (Bool-cases (p.nr_ref == 0)) [
          | inl z ↦ (p, simp (unmap_page, q, z, (v.on_disk q).3) refl, ground (arith, z), refl, v)
          | inr z ↦
              let block : p.ptr ≡ some bytes = (v.on_disk q).3 ∙ rw z refl in
              elim (Bool-cases (p.nr_ref == 1)) [
                | inl o ↦
                    let some_used : (p.used == 0) ≡ false =
                      ground (arith, v.measured, v.some_bytes) in
                    let gone : (n == 0) ≡ true = ground (arith, o) in
                    (
                      record p {
                        ptr = none;
                        allocated = p.used;
                        init = true;
                        is_mapped = true;
                        nr_ref = n;
                      },
                      rw (unmap_page, q, z, block, o, (v.on_disk q).0, (v.on_disk q).2, some_used)
                          (ap (λ r. r >>= λ p'. some (true, record p' { nr_ref = p'.nr_ref - 1 }))
                            (set_data_lem _ none p.used p.used true)),
                      refl,
                      sym q,
                      Valid-count none n p.used true true q in_bound (λ e. rw gone refl)
                          (λ e. absurd (cc e)),
                    )
                | inr o ↦
                    let left_over : (n == 0) ≡ false = ground (arith, o, z) in
                    (
                      record p { nr_ref = n },
                      simp (unmap_page, q, z, block, o) refl,
                      refl,
                      refl,
                      Valid-count p.ptr n p.allocated p.init p.is_mapped refl in_bound
                          (λ e. rw left_over block) (λ e. absurd (cc (sym e ∙ q))),
                    )
              ]
        ]
      ]

-- A page that is made for a part of a file that can be mapped and unmapped is valid.
pub new_page-Valid :
    (f : File) (bytes : List ℕ) (offset : ℕ)
    → 0 < length bytes
    → length bytes < 2 ^ 32
    → f.map offset (length bytes) ≡ some bytes
    → f.unmap bytes (length bytes) ≡ true
    → (p : Page) × (new_page (length bytes) offset ≡ some p) × (p.nr_ref ≡ 0) × Valid f bytes p
unfolding new_page
new_page-Valid f bytes offset h b r u = (
  _,
  set_data_lem _ none (length bytes) (length bytes) true,
  refl,
  record {
    measured = refl;
    some_bytes = h;
    bounded = b;
    counted = omega arith;
    on_disk = λ e. (refl, r, u, refl);
    in_memory = λ e. absurd (cc e);
  },
)

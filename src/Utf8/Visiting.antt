-- ===== src/Utf8/Visiting.antt =====
-- Which bytes `for_each` of include/ew/core/container/flexible_array.hpp hands to the function object of
-- `search_n` (Utf8/Search): all those of the pages up to that of the end iterator, until the object says
-- that it is enough.
use ewlibs.Base.{
  ◌==◌, if◌then◌else◌, Bool-cases, ◌>>=◌, length, drop, length-drop, ℕ, ◌-◌, ◌<◌, ◌≡◌, refl, sym,
  ap, ◌∙◌, inl, inr, Bool, true, false, not, ◌||◌, Option, none, some, List, [], ◌∷◌, ◌++◌,
  append-nil, arith,
}
use ewlibs.Utf8.Codec.{Tables}
use ewlibs.Utf8.Search.{Search, call, visit_page, for_each}

-- The function object over a list of bytes.
unfoldable pub search_loop : Tables → List ℕ → Search → Option Search
search_loop t [] k = some k
search_loop t (b ∷ rest) k =
    call t b k >>= λ r. elim r.0 [ true ↦ search_loop t rest r.1 | false ↦ some r.1 ]

-- The bytes of the pages from the byte `off` of the first one to the last byte of the page that is `last`
-- pages further on.
abbrev pub visited : List (List ℕ) → ℕ → ℕ → List ℕ
visited [] off last = []
visited (page ∷ pages) off last =
    let rest = visited pages 0 (last - 1) in
    if last == 0 then drop off page else drop off page ++ rest

module _ (t : Tables) where
  -- What follows a page.
  abbrev after_page : List ℕ → Bool × Search → Option Search
  after_page ys (true, k) = search_loop t ys k
  after_page ys (false, k) = some k

  search_loop-append :
      (xs ys : List ℕ) (k : Search)
      → search_loop t (xs ++ ys) k ≡ (visit_page t xs true k >>= after_page ys)
  unfolding search_loop visit_page
  search_loop-append [] ys k = refl
  search_loop-append (b ∷ xs) ys k = next (search_loop-append xs ys) (call t b k)
    where
      go :
          ((k' : Search)
            → search_loop t (xs ++ ys) k' ≡ (visit_page t xs true k' >>= after_page ys))
          → (r : Bool × Search)
          → elim r.0 [ true ↦ search_loop t (xs ++ ys) r.1 | false ↦ some r.1 ] ≡ (
              elim r.0 [ true ↦ visit_page t xs true r.1 | false ↦ some (false, r.1) ]
              >>= after_page ys)
      go ih (true, k') = ih k'
      go ih (false, k') = refl

      next :
          ((k' : Search)
            → search_loop t (xs ++ ys) k' ≡ (visit_page t xs true k' >>= after_page ys))
          → (o : Option (Bool × Search))
          → (o >>= λ r. elim r.0 [ true ↦ search_loop t (xs ++ ys) r.1 | false ↦ some r.1 ]) ≡ (
              (o >>= λ r. elim r.0 [ true ↦ visit_page t xs true r.1 | false ↦ some (false, r.1) ])
              >>= after_page ys)
      next ih none = refl
      next ih (some r) = go ih r

  visit_page-some :
      (xs : List ℕ) (k : Search) → 0 < length xs → visit_page t xs false k ≡ visit_page t xs true k
  unfolding visit_page
  visit_page-some [] k h = absurd (omega (arith, h))
  visit_page-some (b ∷ xs) k h = refl

  -- What `for_each` does after a page, when it is not the last one, or when it is.
  for_each-visited :
      (pages : List (List ℕ)) (off last : ℕ) (k : Search)
      → for_each t pages off last true k ≡ search_loop t (visited pages off last) k
  unfolding for_each search_loop
  for_each-visited [] off last k = refl
  for_each-visited (page ∷ pages) off last k = elim (Bool-cases (last == 0)) [
    | inl e ↦ rw e (
        each (λ go k'. some k') (after_page []) (λ k'. refl) (λ k'. refl)
          (visit_page t (drop off page) true k)
        ∙ sym (search_loop-append (drop off page) [] k)
        ∙ ap (λ l. search_loop t l k) (append-nil (drop off page)))
    | inr e ↦ rw e (
        each (λ go k'. if not go then some k' else for_each t pages 0 (last - 1) go k')
          (after_page (visited pages 0 (last - 1))) (λ k'. for_each-visited pages 0 (last - 1) k')
          (λ k'. refl) (visit_page t (drop off page) true k)
        ∙ sym (search_loop-append (drop off page) (visited pages 0 (last - 1)) k))
  ]
    where
      each :
          (f : Bool → Search → Option Search) (g : Bool × Search → Option Search)
          → ((k' : Search) → f true k' ≡ g (true, k'))
          → ((k' : Search) → f false k' ≡ g (false, k'))
          → (o : Option (Bool × Search)) → (o >>= λ (go_on, k'). f go_on k') ≡ (o >>= g)
      each f g on off none = refl
      each f g on off (some (true, k')) = on k'
      each f g on off (some (false, k')) = off k'

  -- From a byte that is in its page, the function object is called on all these bytes, until it says
  -- that it is enough.
  pub for_each-search_loop :
      (page : List ℕ) (pages : List (List ℕ)) (off last : ℕ) (k : Search)
      → off < length page
      → for_each t (page ∷ pages) off last false k
        ≡ search_loop t (visited (page ∷ pages) off last) k
  unfolding for_each
  for_each-search_loop page pages off last k h =
      ap
        (λ o. o >>= λ (go_on, k').
          let rest = for_each t pages 0 (last - 1) go_on k' in
          if (last == 0) || not go_on then some k' else rest)
        (visit_page-some (drop off page) k (omega (arith, h, length-drop off page)))
      ∙ for_each-visited (page ∷ pages) off last k

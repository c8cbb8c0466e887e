-- ===== src/Utf8/Finding.antt =====
-- `search_n` on texts: the n-th occurrence of a code point, with the offsets of its first byte and of
-- the byte after it.
use ewlibs.Base.{◌==◌, length, ℕ, ◌+◌, ◌-◌, Bool, true, false, Option, some, List, [], ◌∷◌}
use ewlibs.Base.Memory.{Memory}
use ewlibs.Utf8.Table.{s0}
use ewlibs.Utf8.Codec.{Tables}
use ewlibs.Utf8.Search.{Search, SearchResult, react, absent, Outcome}
use ewlibs.Utf8.Visiting.{search_loop}
use ewlibs.Utf8.Advance.{tables}

-- A search between two characters.
abbrev between : ℕ → ℕ → ℕ → ℕ → Search
between cp n off chars = record {
  search_cp = cp;
  n = n;
  tmp_offset = off;
  last_start_offset = off;
  found = false;
  s = s0;
  unic = 0;
  n_cp = chars;
  n_err = 0;
  n_ok = chars;
}

-- The outcome of a search on the characters `vs` of `ws`, from the offset `off` on.
unfoldable pub find_nth : ℕ → ℕ → List (List ℕ) → List ℕ → ℕ → ℕ → SearchResult
find_nth cp n (w ∷ ws) (v ∷ vs) off chars = elim (v == cp) [
  | true ↦ elim (n == 1) [
    | true ↦ record {
      outcome = Outcome.found;
      nr_cp = chars;
      nr_ok = chars + 1;
      nr_err = 0;
      out = off;
      next = off + length w;
    }
    | false ↦ find_nth cp (n - 1) ws vs (off + length w) (chars + 1)
  ]
  | false ↦ find_nth cp n ws vs (off + length w) (chars + 1)
]
find_nth cp n [] vs off chars = record {
  outcome = absent;
  nr_cp = chars;
  nr_ok = chars;
  nr_err = 0;
  out = off;
  next = off;
}
find_nth cp n (w ∷ ws) [] off chars = record {
  outcome = absent;
  nr_cp = chars;
  nr_ok = chars;
  nr_err = 0;
  out = off;
  next = off;
}

-- The loop after one call.
abbrev proceed : Tables → List ℕ → Bool × Search → Option Search
proceed t rest (true, k) = search_loop t rest k
proceed t rest (false, k) = some k

-- A search inside a character.
abbrev inside : ℕ → ℕ → ℕ → ℕ → ℕ → ℕ → ℕ → Search
inside cp n start off chars s u = record (between cp n start chars) {
  tmp_offset = off;
  s = s;
  unic = u;
}

module _ (states masks : Memory) (cp : ℕ) where
  abbrev t : Tables
  t = tables states masks

  -- The last byte of a character.
  abbrev closed : ℕ → ℕ → ℕ → ℕ → ℕ → Search
  closed n start off chars v = inside cp n start off chars s0 v

  abbrev settle : ℕ → ℕ → ℕ → ℕ → ℕ → List ℕ → Option Search
  settle n start off chars v rest = proceed t rest (react (closed n start off chars v))

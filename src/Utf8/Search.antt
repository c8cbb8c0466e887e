-- ===== src/Utf8/Search.antt =====
-- The searches of implementation/common/codecs/text/unicode/utf8/utf8.cpp: the function object
-- that `search_n` hands to `for_each`, `rget_cp` over buffer iterators, and `rsearch_n`.
use Prim.Native.Nat.{bit_and, bit_or}
use ewlibs.Base.{
  ltb, leb, ◌==◌, if◌then◌else◌, ◌>>=◌, length, get_elem?, drop, ℕ, zero, suc, ◌+◌, ◌-◌, ◌*◌, ◌%◌,
  ◌^◌, Bool, true, false, ◌||◌, Option, none, some, List, [], ◌∷◌, not,
}
use ewlibs.Utf8.Table.{s0, error}
use ewlibs.Utf8.Codec.{Tables, step}

-- `utf8_search_func_object_t`; `found` says that `pfound_offset` is set, and then it points to
-- `last_start_offset`. `n` is the 32-bit pattern of an `int`.
pub record Search : Type 0 where
  pub search_cp : ℕ
  pub n : ℕ
  pub tmp_offset : ℕ
  pub last_start_offset : ℕ
  pub found : Bool
  pub s : ℕ
  pub unic : ℕ
  pub n_cp : ℕ
  pub n_err : ℕ
  pub n_ok : ℕ

-- The constructor.
abbrev pub new_search : ℕ → ℕ → ℕ → Search
new_search start_offset cp n = record {
  search_cp = cp;
  n = n;
  tmp_offset = start_offset;
  last_start_offset = start_offset;
  found = false;
  s = s0;
  unic = 0;
  n_cp = 0;
  n_err = 0;
  n_ok = 0;
}

-- `--n`
abbrev pub decrement : ℕ → ℕ
decrement n = (n + 2 ^ 32 - 1) % 2 ^ 32

-- "reset state" and "save new codepoint start".
abbrev pub next_code_point : Search → Search
next_code_point k = record k {
  s = s0;
  unic = 0;
  n_cp = k.n_cp + 1;
  last_start_offset = k.tmp_offset;
}

-- `operator()` after the decoding step; the Boolean tells `for_each` to go on.
unfoldable pub react : Search → Bool × Search
react k =
    if k.s == s0
    then if k.unic == k.search_cp
      then if decrement k.n == 0
        then (false, record k { n_ok = k.n_ok + 1; n = 0; found = true })
        else (true, next_code_point (record k { n_ok = k.n_ok + 1; n = decrement k.n }))
      else (true, next_code_point (record k { n_ok = k.n_ok + 1 }))
    else if k.s == error
    then (true, next_code_point (record k { n_err = k.n_err + 1 }))
    else (true, k)

-- `operator()(byte)`
unfoldable pub call : Tables → ℕ → Search → Option (Bool × Search)
call t byte k = do
  (s, u) ← step t byte (k.s, k.unic)
  some (react (record k { s = s; unic = u; tmp_offset = k.tmp_offset + 1 }))

-- The loop of `for_each` over the bytes of one page: `func_ret`, and the function object.
unfoldable pub visit_page : Tables → List ℕ → Bool → Search → Option (Bool × Search)
visit_page t [] func_ret k = some (func_ret, k)
visit_page t (b ∷ rest) func_ret k =
    call t b k >>= λ r. elim r.0 [ true ↦ visit_page t rest true r.1 | false ↦ some (false, r.1) ]

-- `flexible_array::for_each(begin, end, fn)`: the bytes of the pages from that of `begin` on, of which it
-- visits the first from `off` on. The page of `end` is `last` pages further on; it is visited as a whole,
-- wherever `end` stands in it.
unfoldable pub for_each : Tables → List (List ℕ) → ℕ → ℕ → Bool → Search → Option Search
for_each t [] off last func_ret k = some k
for_each t (page ∷ pages) off last func_ret k =
    visit_page t (drop off page) func_ret k >>= λ (go_on, k').
    let rest = for_each t pages 0 (last - 1) go_on k' in
    if (last == 0) || not go_on then some k' else rest

-- The values that `search_n` returns: 0, 1, -1 and -2.
pub data Outcome : Type 0 where
  absent found bad_sequence cut_off : Outcome

pub record SearchResult : Type 0 where
  pub outcome : Outcome
  pub nr_cp : ℕ
  pub nr_ok : ℕ
  pub nr_err : ℕ
  pub out : ℕ
  pub next : ℕ

abbrev pub outcome_of : Search → Outcome
outcome_of k =
    if k.s == s0
    then (if k.found then Outcome.found else absent)
    else if k.s == error
    then bad_sequence
    else cut_off

abbrev pub search_result : Search → SearchResult
search_result k = record {
  outcome = outcome_of k;
  nr_cp = k.n_cp;
  nr_ok = k.n_ok;
  nr_err = k.n_err;
  out = k.last_start_offset;
  next = k.tmp_offset;
}

-- `search_n`, from the byte `off` of the first of these pages, at `start_offset`, to the page that is
-- `last` pages further on; the output iterators are given by their offsets.
unfoldable pub search_n : Tables → ℕ → List (List ℕ) → ℕ → ℕ → ℕ → ℕ → Option SearchResult
search_n t n pages off last start_offset cp = do
  k ← for_each t pages off last false (new_search start_offset cp n)
  some (search_result k)

abbrev shift_table : List ℕ
shift_table = 0 ∷ 6 ∷ 12 ∷ 18 ∷ []

-- The end of `rget_cp`, at the byte where the loop stopped. The table of shifts has four entries,
-- and a read past them is a fault.
unfoldable pub rget_last : Tables → ℕ → ℕ → ℕ → ℕ → Option (ℕ × ℕ)
rget_last t b shift_index cp used = do
  shift ← get_elem? shift_table shift_index
  some (bit_or cp (t.masks b * 2 ^ shift), used + 1)

-- The loop of `rget_cp`: `b` is `*in` and the list holds the bytes before it down to `rend`, the
-- nearest first.
unfoldable pub rget_loop : Tables → ℕ → List ℕ → ℕ → ℕ → ℕ → Option (ℕ × ℕ)
rget_loop t b [] shift_index cp used = rget_last t b shift_index cp used
rget_loop t b (c ∷ rest) shift_index cp used = elim (bit_and b 0xc0 == 0x80) [
  | true ↦ get_elem? shift_table shift_index >>= λ shift.
      rget_loop t c rest (shift_index + 1) (bit_or cp (bit_and b 0x3f * 2 ^ shift)) (used + 1)
  | false ↦ rget_last t b shift_index cp used
]

-- `rget_cp(rend, in, out)`: the code point, and how many bytes `out` lies before `in`.
unfoldable pub rget_cp : Tables → List ℕ → Option (ℕ × ℕ)
rget_cp t [] = some (0, 0)
rget_cp t (b ∷ before) = rget_loop t b before 0 0 0

-- What `rsearch_n` leaves; the iterators `out` and `next` are distances back from the start.
pub record ReverseResult : Type 0 where
  pub ret : Bool
  pub n_ok : ℕ
  pub n_err : ℕ
  pub out : ℕ
  pub next : ℕ

-- The loop of `rsearch_n`, on fuel: `before` holds the bytes back to `itb_begin`, `back` the way
-- gone. When the loop ends by its test, `out` and `next` are not written, and 0 stands for them.
unfoldable pub rsearch_loop : Tables → ℕ → ℕ → ℕ → List ℕ → ℕ → ℕ → ℕ → Option ReverseResult
rsearch_loop t cp zero n before back n_ok n_err = none
rsearch_loop t cp (suc fuel) n [] back n_ok n_err =
    some (record { ret = false; n_ok = n_ok; n_err = n_err; out = 0; next = 0 })
rsearch_loop t cp (suc fuel) n (b ∷ before) back n_ok n_err = rget_cp t (b ∷ before) >>= λ r.
    let ok = (if ltb r.0 (2 ^ 31) then n_ok + 1 else n_ok) in
    let bad = (if ltb r.0 (2 ^ 31) then n_err else n_err + 1) in
    let on = λ (m : ℕ). rsearch_loop t cp fuel m (drop r.1 (b ∷ before)) (back + r.1) ok bad in
    elim (r.0 == cp) [
      | true ↦ elim (n == 1) [
        | true ↦ some (record { ret = true; n_ok = ok; n_err = bad; out = back + r.1; next = back })
        | false ↦ on (n - 1)
      ]
      | false ↦ on n
    ]

-- `rsearch_n`: a count that is not positive returns at once, and writes none of the counters.
unfoldable pub rsearch_n : Tables → ℕ → List ℕ → ℕ → Option ReverseResult
rsearch_n t n before cp =
    if (n == 0) || leb (2 ^ 31) n
    then some (record { ret = false; n_ok = 0; n_err = 0; out = 0; next = 0 })
    else rsearch_loop t cp (length before + 1) n before 0 0 0

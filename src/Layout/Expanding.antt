-- ===== src/Layout/Expanding.antt =====
-- What `tab_expansion_filter` writes: how many cells, to which columns of the tab, and where a layout
-- that starts within a tab resumes.
use ewlibs.Base.{
  ◌==◌, ==_iff, Bool-cases, length, length-append, ℕ, zero, suc, ◌+◌, ◌-◌, ◌*◌, ◌≤◌, ◌<◌, ◌≡◌, refl,
  ap, ap₂, ◌∙◌, inl, inr, List, [], ◌∷◌, ◌++◌, map, arith, drop, sym,
}
use ewlibs.Base.Every.{All, All-append}
use ewlibs.Layout.{FilterIo, Buffer}
use ewlibs.Layout.Tabs.{
  tab_expansion_init, filled_columns, fill_count, tab_cell, expand_tab, tab_expand,
  tab_expansion_filter,
}

-- A tab starts within its eight columns.
abbrev pub Splits : FilterIo → Type 0
Splits io = io.cp ≡ 9 → io.split_count < 8

abbrev pub Within : FilterIo → Type 0
Within io = io.split_count < 8

-- The numbers from n on.
abbrev pub count_from : ℕ → ℕ → List ℕ
count_from n zero = []
count_from n (suc k) = n ∷ count_from (n + 1) k

-- The last element of a list that starts with d.
abbrev pub last_or : FilterIo → List FilterIo → FilterIo
last_or d [] = d
last_or d (io ∷ ios) = last_or io ios

pub last_or-append :
    (d : FilterIo) (xs ys : List FilterIo) → last_or d (xs ++ ys) ≡ last_or (last_or d xs) ys
last_or-append d [] ys = refl
last_or-append d (x ∷ xs) ys = last_or-append x xs ys

-- The flag of the last element is that of the first one when there is no other.
last_or-flag :
    (ios : List FilterIo) (c d : FilterIo)
    → c.end_of_pipe ≡ d.end_of_pipe
    → (last_or c ios).end_of_pipe ≡ (last_or d ios).end_of_pipe
last_or-flag [] c d h = h
last_or-flag (io ∷ ios) c d h = refl

filled_lem : (io : FilterIo) → io.split_count < 8 → filled_columns 8 io < 8
filled_lem io h = ground arith

fill_lem : (k : ℕ) → k < 8 → fill_count 8 k ≡ 8 - k
fill_lem k h = omega arith

module _ (io : FilterIo) (filled : ℕ) (out : Buffer) where
  length-expand_tab : (left n at : ℕ) → length (expand_tab io filled left n out at) ≡ left
  unfolding expand_tab
  length-expand_tab zero n at = refl
  length-expand_tab (suc left) n at = ap suc (length-expand_tab left (n + 1) (at + 1))

  expand_tab-splits :
      (left n at : ℕ)
      → n + filled + left ≤ 8
      → map (λ c. c.split_count) (expand_tab io filled left n out at) ≡ count_from (n + filled) left
  unfolding expand_tab
  expand_tab-splits zero n at h = refl
  expand_tab-splits (suc left) n at h =
      ap₂ (λ a rest. a ∷ rest) (omega arith)
        (expand_tab-splits left (n + 1) (at + 1) (omega arith)
          ∙ ap (λ k. count_from k left) (omega arith))

  expand_tab-Within :
      (left n at : ℕ) → n + filled + left ≤ 8 → All Within (expand_tab io filled left n out at)
  unfolding expand_tab
  expand_tab-Within zero n at h = tt
  expand_tab-Within (suc left) n at h =
      (omega arith, expand_tab-Within left (n + 1) (at + 1) (omega arith))

  expand_tab-places :
      (left n at : ℕ)
      → All (λ c. (c.offset ≡ io.offset) × (c.cp ≡ 32)) (expand_tab io filled left n out at)
  unfolding expand_tab
  expand_tab-places zero n at = tt
  expand_tab-places (suc left) n at = ((refl, refl), expand_tab-places left (n + 1) (at + 1))

-- Every cell of a tab has the flag of the tab.
expand_tab-last :
    (io c : FilterIo) (filled : ℕ) (out : Buffer) (left n at : ℕ)
    → c.end_of_pipe ≡ io.end_of_pipe
    → (last_or c (expand_tab io filled left n out at)).end_of_pipe ≡ io.end_of_pipe
unfolding expand_tab
expand_tab-last io c filled out zero n at h = h
expand_tab-last io c filled out (suc left) n at h =
    expand_tab-last io (tab_cell io filled n (out at)) filled out left (n + 1) (at + 1) refl

expand_tab-ends :
    (io d : FilterIo) (filled : ℕ) (out : Buffer) (left n at : ℕ)
    → 0 < left
    → (last_or d (expand_tab io filled left n out at)).end_of_pipe ≡ io.end_of_pipe
unfolding expand_tab
expand_tab-ends io d filled out zero n at h = absurd (omega (arith, h))
expand_tab-ends io d filled out (suc left) n at h =
    expand_tab-last io (tab_cell io filled n (out at)) filled out left (n + 1) (at + 1) refl

module _ (io : FilterIo) (h : Splits io) (out : Buffer) (at : ℕ) where
  -- A tab is one to eight cells.
  tab_expand-size : (0 < length (tab_expand 8 io out at)) × (length (tab_expand 8 io out at) ≤ 8)
  unfolding tab_expand
  tab_expand-size = elim (Bool-cases (io.cp == 9)) [
    | inl e ↦
        let k = filled_lem io (h ((==_iff _ _).0 e)) in
        rw
          (
            e,
            length-expand_tab io (filled_columns 8 io) out (fill_count 8 (filled_columns 8 io)) 0
                at,
            fill_lem (filled_columns 8 io) k,
          )
          (omega (arith, k), omega arith)
    | inr e ↦ rw e (omega arith, omega arith)
  ]

  tab_expand-Within : All Within (tab_expand 8 io out at)
  unfolding tab_expand
  tab_expand-Within = elim (Bool-cases (io.cp == 9)) [
    | inl e ↦
        let k = filled_lem io (h ((==_iff _ _).0 e)) in
        rw (e, fill_lem (filled_columns 8 io) k)
          (expand_tab-Within io (filled_columns 8 io) out (8 - filled_columns 8 io) 0 at
            (omega (arith, k)))
    | inr e ↦ rw e (omega arith, tt)
  ]

  -- The last cell of a tab, or of another code point, has its flag.
  tab_expand-ends :
      (d : FilterIo) → (last_or d (tab_expand 8 io out at)).end_of_pipe ≡ io.end_of_pipe
  unfolding tab_expand
  tab_expand-ends d = elim (Bool-cases (io.cp == 9)) [
    | inl e ↦
        let k = filled_lem io (h ((==_iff _ _).0 e)) in
        rw (e, fill_lem (filled_columns 8 io) k)
          (expand_tab-ends io d (filled_columns 8 io) out (8 - filled_columns 8 io) 0 at
            (omega (arith, k)))
    | inr e ↦ rw e refl
  ]

  -- The cells of a tab are the columns from its first to the seventh.
  pub tab_expand-columns :
      io.cp ≡ 9
      → map (λ c. c.split_count) (tab_expand 8 io out at)
        ≡ count_from (filled_columns 8 io) (8 - filled_columns 8 io)
  unfolding tab_expand
  tab_expand-columns e =
      let k = filled_lem io (h e) in
      rw ((==_iff _ _).1 e, fill_lem (filled_columns 8 io) k)
        (expand_tab-splits io (filled_columns 8 io) out (8 - filled_columns 8 io) 0 at
            (omega (arith, k))
          ∙ ap (λ n. count_from n (8 - filled_columns 8 io)) (omega arith))

-- Of code points whose tabs start within their eight columns: the number of cells is at least theirs
-- and at most eight times as large, each cell is a column below eight, and the last cell ends the
-- pipe exactly when the last code point does, whatever `d` stands for the last of none.
pub tab_expansion_filter-bounds :
    (ios : List FilterIo) (out : Buffer) (at : ℕ) (d : FilterIo)
    → All Splits ios
    → (length ios ≤ length (tab_expansion_filter tab_expansion_init ios out at))
      × (length (tab_expansion_filter tab_expansion_init ios out at) ≤ 8 * length ios)
      × All Within (tab_expansion_filter tab_expansion_init ios out at)
      × ((last_or d (tab_expansion_filter tab_expansion_init ios out at)).end_of_pipe
          ≡ (last_or d ios).end_of_pipe)
unfolding tab_expansion_filter
tab_expansion_filter-bounds [] out at d hs = (omega arith, omega arith, tt, refl)
tab_expansion_filter-bounds (io ∷ ios) out at d (h, hs) =
    let cells = tab_expand 8 io out at in
    let more = tab_expansion_filter tab_expansion_init ios out (at + length cells) in
    let (least, most) = tab_expand-size io h out at in
    let (least', most', within, ends) =
      tab_expansion_filter-bounds ios out (at + length cells) (last_or d cells) hs in
    let n = length-append cells more in
    (
      omega (arith, n, least, least'),
      omega (arith, n, most, most'),
      All-append Within cells more (tab_expand-Within io h out at) within,
      ap (λ c. c.end_of_pipe) (last_or-append d cells more)
          ∙ ends
          ∙ last_or-flag ios (last_or d cells) io (tab_expand-ends io h out at d),
    )

drop-count_from : (k n m : ℕ) → drop k (count_from n (k + m)) ≡ count_from (n + k) m
drop-count_from zero n m = ap₂ count_from (omega arith) (omega arith)
drop-count_from (suc k) n m =
    ap (λ j. drop (suc k) (count_from n j)) (shift k m)
    ∙ drop-count_from k (n + 1) m
    ∙ ap (λ j. count_from j m) (omega arith)
  where
    shift : (k m : ℕ) → suc k + m ≡ suc (k + m)
    shift k m = omega arith

-- A layout that starts within a tab shows the same columns of it as one that shows all of it.
pub tab_expand-resumes :
    (io : FilterIo) (split : ℕ) (out out' : Buffer) (at at' : ℕ)
    → io.cp ≡ 9
    → io.split_count ≡ 0
    → filled_columns 8 io ≤ split
    → 0 < split
    → split < 8
    → map (λ c. c.split_count) (tab_expand 8 (record io { split_count = split }) out at)
      ≡ drop (split - filled_columns 8 io) (map (λ c. c.split_count) (tab_expand 8 io out' at'))
tab_expand-resumes io split out out' at at' e z h pos small =
    let first = filled_columns 8 io in
    let resumed = record io { split_count = split } in
    let starts : filled_columns 8 resumed ≡ split = ground (arith, pos) in
    let count : 8 - first ≡ split - first + (8 - split) = omega (arith, h, small) in
    tab_expand-columns resumed (λ _. small) out at e
    ∙ ap (λ k. count_from k (8 - k)) starts
    ∙ ap (λ k. count_from k (8 - split)) (omega (arith, h))
    ∙ sym (drop-count_from (split - first) first (8 - split))
    ∙ ap (λ j. drop (split - first) (count_from first j)) (sym count)
    ∙ ap (drop (split - first)) (sym (tab_expand-columns io (λ _. omega (arith, z)) out' at' e))

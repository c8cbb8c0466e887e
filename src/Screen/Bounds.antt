-- ===== src/Screen/Bounds.antt =====
-- The limits of a screen bound its lines, and allocation, resizing, resetting and writing keep this.
use ewlibs.Base.{
  some_inj, length, get_elem?, take, replicate, length-append, length-take, length-replicate,
  length-map, ℕ, zero, suc, ◌-◌, ◌^◌, ◌≤◌, ◌<◌, ◌≡◌, refl, ap, ◌∙◌, subst, Option, some, List, [],
  ◌∷◌, arith,
}
use ewlibs.Screen.{
  Floats, codepoint_info_reset, ScreenLine, resize, screen_line_resize,
  screen_line_set_number_of_used_columns,
}
use ewlibs.Screen.Grid.{Screen, each_line, screen_resize, screen_reset_lines, screen_reset}

-- Every line has as many cells as the screen has columns, and uses no more of them.
pub record FitsLine {F : Type 0} (columns : ℕ) (l : ScreenLine F) : Type 0 where
  pub cells : length l.cpinfo_array ≡ columns
  pub used : l.line_used ≤ columns

pub record Fits {F : Type 0} (scr : Screen F) : Type 0 where
  pub lines : length scr.line_array ≡ scr.max_l
  pub used : scr.used_l ≤ scr.max_l
  pub each : (i : ℕ) (l : ScreenLine F) → get_elem? scr.line_array i ≡ some l → FitsLine scr.max_c l
  pub narrow : scr.max_c < 2 ^ 31
  pub short : scr.max_l < 2 ^ 32

pub length-resize : {A : Type 0} (n : ℕ) (v : A) (vec : List A) → length (resize n v vec) ≡ n
length-resize n v vec = omega (
  arith,
  length-append (take n vec) (replicate (n - length vec) v),
  length-take n vec,
  length-replicate (n - length vec) v,
)

-- The elements of a list satisfy Q.
abbrev pub Each : {A : Type 0} → (A → Type 0) → List A → Type 0
Each {A} Q ls = (i : ℕ) (l : A) → get_elem? ls i ≡ some l → Q l

pub Each-cons :
    {A : Type 0} (Q : A → Type 0) (l : A) (ls : List A) → Q l → Each Q ls → Each Q (l ∷ ls)
Each-cons Q l ls q qs zero m h = subst Q (some_inj h) q
Each-cons Q l ls q qs (suc i) m h = qs i m h

-- A loop whose body never fails and leaves Q does not fail, and leaves Q everywhere.
pub each_line_total :
    {A : Type 0} (run : A → Option A) (P Q : A → Type 0) (ls : List A)
    → ((l : A) → P l → (l' : A) × (run l ≡ some l') × Q l')
    → Each P ls
    → (ls' : List A) × (each_line run ls ≡ some ls') × (length ls' ≡ length ls) × Each Q ls'
unfolding each_line
each_line_total run P Q [] ok ps = ([], refl, refl, λ i l h. cc)
each_line_total run P Q (l ∷ ls) ok ps =
    let (l', e, q) = ok l (ps 0 l refl) in
    let (ls', es, n, qs) = each_line_total run P Q ls ok (λ i. ps (suc i)) in
    (l' ∷ ls', rw (e, es), ap suc n, Each-cons Q l' ls' q qs)

module _ {F : Type 0} (f : Floats F) where
  -- The screen with new lines, none of them used, and no first or last cell.
  abbrev blanked : Screen F → ℕ → ℕ → List (ScreenLine F) → Screen F
  blanked scr l c lines = record scr {
    line_array = lines;
    first_cpinfo = codepoint_info_reset f scr.first_cpinfo;
    last_cpinfo = codepoint_info_reset f scr.last_cpinfo;
    max_l = l;
    max_c = c;
    used_l = 0;
  }

  set_used_zero :
      (columns : ℕ) (l : ScreenLine F)
      → length l.cpinfo_array ≡ columns
      → (l' : ScreenLine F) × (screen_line_set_number_of_used_columns l 0 ≡ some l')
        × FitsLine columns l'
  set_used_zero columns l h =
      (record l { line_used = 0 }, ground arith, record { cells = h; used = omega arith })

  -- Resizing makes every line as wide as asked, and blank.
  pub screen_resize-Fits :
      (scr : Screen F) (l c : ℕ)
      → l < 2 ^ 32
      → c < 2 ^ 31
      → (scr' : Screen F) × (screen_resize f scr l c ≡ some scr')
        × Fits scr'
        × (scr'.max_l ≡ l)
        × (scr'.max_c ≡ c)
        × (scr'.used_l ≡ 0)
  unfolding screen_resize
  screen_resize-Fits scr l c hl hc =
      let (lines, e, n, fits) =
        each_line_total
          (λ (ln : ScreenLine F).
            screen_line_set_number_of_used_columns (screen_line_resize f ln c) 0)
          (λ _. Unit) (FitsLine c)
          (resize l (record { cpinfo_array = []; line_used = 0 }) scr.line_array)
          (λ ln _.
            set_used_zero c (screen_line_resize f ln c)
              (length-map _ _ ∙ length-resize c _ ln.cpinfo_array))
          (λ _ _ _. tt) in
      (
        blanked scr l c lines,
        rw e,
        record {
          lines = n ∙ length-resize l _ scr.line_array;
          used = omega arith;
          each = fits;
          narrow = hc;
          short = hl;
        },
        refl,
        refl,
        refl,
      )

  pub screen_reset-Fits :
      (scr : Screen F)
      → Fits scr
      → (scr' : Screen F) × (screen_reset f scr ≡ some scr')
        × Fits scr'
        × (scr'.max_l ≡ scr.max_l)
        × (scr'.max_c ≡ scr.max_c)
        × (scr'.used_l ≡ 0)
  unfolding screen_reset screen_reset_lines
  screen_reset-Fits scr w =
      let (lines, e, n, fits) =
        each_line_total (λ (l : ScreenLine F). screen_line_set_number_of_used_columns l 0)
          (FitsLine scr.max_c) (FitsLine scr.max_c) scr.line_array
          (λ l h. set_used_zero scr.max_c l h.cells) w.each in
      (
        blanked scr scr.max_l scr.max_c lines,
        rw e,
        record {
          lines = n ∙ w.lines;
          used = omega arith;
          each = fits;
          narrow = w.narrow;
          short = w.short;
        },
        refl,
        refl,
        refl,
      )

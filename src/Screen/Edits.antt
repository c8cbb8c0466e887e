-- ===== src/Screen/Edits.antt =====
-- The limits of a screen over any sequence of calls that allocate, resize, reset and write.
use ewlibs.Base.{◌==◌, some_inj, ℕ, ◌^◌, ◌<◌, ◌≡◌, sym, ◌∙◌, subst, false, ◌||◌, some, arith}
use ewlibs.Screen.{Floats, zero_cpinfo, codepoint_info_reset}
use ewlibs.Screen.Grid.{
  Screen, screen_clone, new_screen, screen_alloc, screen_resize, screen_reset, screen_put_cp,
}
use ewlibs.Screen.Bounds.{Fits, screen_resize-Fits, screen_reset-Fits}
use ewlibs.Screen.Writing.{screen_put_cp-Written}

module _ {F : Type 0} where
  -- One call that changes a screen, within the bounds that its types and its limits give.
  pub data Edit (f : Floats F) : Screen F → Screen F → Type 0 where
    resizing :
        {scr scr' : Screen F} (l c : ℕ)
        → l < 2 ^ 32
        → c < 2 ^ 31
        → screen_resize f scr l c ≡ some scr'
        → Edit f scr scr'
    resetting : {scr scr' : Screen F} → screen_reset f scr ≡ some scr' → Edit f scr scr'
    writing :
        {scr scr' : Screen F} (real_cp vcp line column : ℕ)
        → line < scr.max_l
        → column < scr.max_c
        → screen_put_cp scr real_cp vcp line column ≡ some scr'
        → Edit f scr scr'

  pub data Reach (f : Floats F) : Screen F → Type 0 where
    allocated :
        {scr : Screen F} (l c w h : ℕ)
        → l < 2 ^ 32
        → c < 2 ^ 31
        → screen_alloc f l c w h ≡ some scr
        → Reach f scr
    edited : {scr scr' : Screen F} → Reach f scr → Edit f scr scr' → Reach f scr'
    cloned : {scr : Screen F} → Reach f scr → Reach f (screen_clone scr)

module _ {F : Type 0} (f : Floats F) where
  -- A screen with a line and a column is allocated without a fault, and it is within its limits.
  screen_alloc-Fits :
      (l c w h : ℕ)
      → 0 < l
      → 0 < c
      → l < 2 ^ 32
      → c < 2 ^ 31
      → (scr : Screen F) × (screen_alloc f l c w h ≡ some scr) × Fits scr
  unfolding screen_alloc
  screen_alloc-Fits l c w h pl pc hl hc =
      let fresh = record (new_screen (zero_cpinfo f)) { max_width_px = w; max_height_px = h } in
      let (s, e, fits, _, _, _) = screen_resize-Fits f fresh l c hl hc in
      let tests : ((l == 0) || (c == 0)) ≡ false = ground arith in
      (
        record s {
          first_cpinfo = codepoint_info_reset f s.first_cpinfo;
          last_cpinfo = codepoint_info_reset f s.last_cpinfo;
        },
        rw (tests, e),
        record {
          lines = fits.lines;
          used = fits.used;
          each = fits.each;
          narrow = fits.narrow;
          short = fits.short;
        },
      )

  screen_alloc_positive :
      {scr : Screen F} (l c w h : ℕ) → screen_alloc f l c w h ≡ some scr → (0 < l) × (0 < c)
  unfolding screen_alloc
  screen_alloc_positive l c w h e = (ground arith, ground arith)

  Edit-Fits : {scr scr' : Screen F} → Edit f scr scr' → Fits scr → Fits scr'
  Edit-Fits {scr} (resizing l c hl hc e) w =
      let (s, run, fits, _, _, _) = screen_resize-Fits f scr l c hl hc in
      subst Fits (some_inj (sym run ∙ e)) fits
  Edit-Fits {scr} (resetting e) w =
      let (s, run, fits, _, _, _) = screen_reset-Fits f scr w in
      subst Fits (some_inj (sym run ∙ e)) fits
  Edit-Fits {scr} (writing real_cp vcp line column hl hc e) w =
      let (s, run, fits) = screen_put_cp-Written scr real_cp vcp line column w hl hc in
      subst Fits (some_inj (sym run ∙ e)) fits.fits

  clone-Fits : (scr : Screen F) → Fits scr → Fits (screen_clone scr)
  unfolding screen_clone
  clone-Fits scr w = record {
    lines = w.lines;
    used = w.used;
    each = w.each;
    narrow = w.narrow;
    short = w.short;
  }

  -- A screen that was allocated, and then resized, reset, cloned and written to inside its limits in
  -- any order, has as many lines and columns as its limits say, and uses no more of them.
  pub Reach-Fits : {scr : Screen F} → Reach f scr → Fits scr
  Reach-Fits (allocated l c w h hl hc e) =
      let (pl, pc) = screen_alloc_positive l c w h e in
      let (s, run, fits) = screen_alloc-Fits l c w h pl pc hl hc in
      subst Fits (some_inj (sym run ∙ e)) fits
  Reach-Fits (edited r e) = Edit-Fits e (Reach-Fits r)
  Reach-Fits (cloned r) = clone-Fits _ (Reach-Fits r)

-- ===== src/Layout/Room.antt =====
-- The screen that `maximize_screen` makes has room for every position that the pen reaches: its
-- columns are as wide as the glyph of the space, and no glyph is narrower.
use ewlibs.Base.{
  ◌==◌, if◌then◌else◌, ==_iff, Bool-cases, Option-cases, some_inj, ℕ, ◌+◌, ◌-◌, ◌*◌, ◌/◌, ◌%◌, ◌^◌,
  ◌≤◌, ◌<◌, ◌≡◌, refl, sym, subst, inl, inr, true, false, ◌||◌, some, arith, ◌⊎◌,
}
use native.Mathlib.Omega.{div_any}
use native.Mathlib.Nat.{mod-lt}
use ewlibs.Layout.Glyphs.{
  FontGlyphInfo, Glyph, Font, Cache, add_glyph_info_to_cache, get_codepoint_glyph_info,
}
use ewlibs.Layout.Pen.{
  start_context, count_cells, maximize_screen, ScreenModeContext, screen_mode_init,
}
use ewlibs.Screen.{Floats}
use ewlibs.Screen.Grid.{Screen, screen_resize}
use ewlibs.Screen.Bounds.{Fits, screen_resize-Fits}

-- A glyph is at least `s` pixels wide, and the glyph of the space is `s` wide and `v` tall.
pub record Metrics (s v cp : ℕ) (info : FontGlyphInfo) : Type 0 where
  pub wide : s ≤ info.hori_advance
  pub narrow : info.hori_advance < 2 ^ 31
  pub tall : 0 < info.vert_advance
  pub space : cp ≡ 32 → (info.hori_advance ≡ s) × (info.vert_advance ≡ v)

-- What the layout relies on of a font, asked for a code point from the space on with the local
-- variable `fresh`: it has a glyph for the space, and what it leaves in the variable is as `Metrics`
-- says, of the code point when it has a glyph, and of the substitute when it has none. The font of
-- implementation/platform/unix/graphics/font/font.cpp leaves the variable as it is in that case.
pub record Fonts (s v : ℕ) (ft : Font) (fresh : FontGlyphInfo) : Type 0 where
  pub has_space : (ft 32 fresh).0 ≡ true
  pub known : (cp : ℕ) → 32 ≤ cp → (ft cp fresh).0 ≡ true → Metrics s v cp (ft cp fresh).1
  pub lacking : (cp : ℕ) → 32 ≤ cp → (ft cp fresh).0 ≡ false → Metrics s v 65533 (ft cp fresh).1
  pub width : (0 < s) × (s < 2 ^ 31)
  pub height : (0 < v) × (v < 2 ^ 31)

abbrev pub Cached : ℕ → ℕ → Cache → Type 0
Cached s v cache = (cp : ℕ) (info : FontGlyphInfo) → cache cp ≡ some info → Metrics s v cp info

-- What a call leaves: the code point or the substitute, and its metrics.
pub record Known (s v cp : ℕ) (g : Glyph) : Type 0 where
  pub found : g.found ≡ true
  pub kept : (g.cp_filtered ≡ cp) ⊎ (g.cp_filtered ≡ 65533)
  pub metrics : Metrics s v g.cp_filtered g.glyph_info
  pub cached : Cached s v g.cache

module _ (s v : ℕ) (ft : Font) (fresh : FontGlyphInfo) (font : Fonts s v ft fresh) where
  add-Cached :
      (cache : Cache) (cp : ℕ) (info : FontGlyphInfo)
      → Cached s v cache
      → Metrics s v cp info
      → Cached s v (add_glyph_info_to_cache cp info cache)
  unfolding add_glyph_info_to_cache
  add-Cached cache cp info h m c i e = elim (Bool-cases (c == cp)) [
    | inl q ↦
        subst (λ k. Metrics s v k i) (sym ((==_iff _ _).0 q))
          (subst (Metrics s v cp) (some_inj (ground (arith, e, q))) m)
    | inr q ↦ h c i (ground (arith, e, q))
  ]

  -- A code point is found, in the cache or in the font, or the substitute takes its place, and the
  -- cache goes on holding what the font says.
  pub get_codepoint_glyph_info-Known :
      (cache : Cache) (cp : ℕ)
      → 32 ≤ cp
      → Cached s v cache
      → Known s v cp (get_codepoint_glyph_info ft cache cp cp fresh)
  unfolding get_codepoint_glyph_info
  get_codepoint_glyph_info-Known cache cp least h = elim (Option-cases (cache cp)) [
    | inr (info, e) ↦
        rw (get_codepoint_glyph_info, e)
          (record { found = refl; kept = inl refl; metrics = h cp info e; cached = h })
    | inl e ↦ elim (Bool-cases (ft cp fresh).0) [
      | inl q ↦
          rw (get_codepoint_glyph_info, e, q)
            (record {
              found = refl;
              kept = inl refl;
              metrics = font.known cp least q;
              cached = add-Cached cache cp (ft cp fresh).1 h (font.known cp least q);
            })
      | inr q ↦
          rw (get_codepoint_glyph_info, e, q)
            (record {
              found = refl;
              kept = inr refl;
              metrics = font.lacking cp least q;
              cached = add-Cached cache 65533 (ft cp fresh).1 h (font.lacking cp least q);
            })
    ]
  ]

  -- The space is not substituted.
  pub space-kept :
      (cache : Cache) → (get_codepoint_glyph_info ft cache 32 32 fresh).cp_filtered ≡ 32
  unfolding get_codepoint_glyph_info
  space-kept cache = elim (Option-cases (cache 32)) [
    | inr (info, e) ↦ rw (get_codepoint_glyph_info, e) refl
    | inl e ↦ rw (get_codepoint_glyph_info, e, font.has_space) refl
  ]

pub mul_mono : (a b s : ℕ) → a ≤ b → a * s ≤ b * s
mul_mono a b s h = subst (λ n. a * s ≤ n * s) (omega (arith, h)) (spread a (b - a) s)
  where
    spread : (a k s : ℕ) → a * s ≤ (a + k) * s
    spread a k s = omega arith

-- The cells that are counted cover the pixels.
pub count_cells_lem :
    (px advance : ℕ)
    → px < 2 ^ 31
    → 0 < advance
    → (px ≤ count_cells px advance * advance) × (count_cells px advance ≤ px)
count_cells_lem px advance h pos =
    covers (px / advance) (px % advance) (div_any px advance) (mod-lt px pos)
      (mul_mono 1 advance (px / advance) (omega (arith, pos)))
  where
    covers :
        (q r : ℕ)
        → advance * q + r ≡ px
        → r < advance
        → 1 * q ≤ advance * q
        → (px ≤ (if r == 0 then q else (q + 1) % 2 ^ 32) * advance)
          × ((if r == 0 then q else (q + 1) % 2 ^ 32) ≤ px)
    covers q r e less least = elim (Bool-cases (r == 0)) [
      | inl z ↦ rw z (omega (arith, e, (==_iff _ _).0 z), omega (arith, e, least))
      | inr z ↦
          let some_px : 0 < r = ground (arith, z) in
          let wrap : (q + 1) % 2 ^ 32 ≡ q + 1 = omega (arith, e, least, h) in
          rw (z, wrap) (omega (arith, e, less), omega (arith, e, least, some_px))
    ]

-- The state between two rounds of the filter.
pub record InRoom {F : Type 0} (s v : ℕ) (ctx : ScreenModeContext F) : Type 0 where
  pub fits : Fits ctx.out
  pub space : (ctx.space_glyph_info.hori_advance ≡ s) × (ctx.space_glyph_info.vert_advance ≡ v)
  pub wide : ctx.max_width_px ≤ ctx.out.max_c * s
  pub tall : ctx.max_height_px ≤ ctx.out.max_l * v
  pub small : (ctx.max_width_px < 2 ^ 31) × (ctx.max_height_px < 2 ^ 31)
  pub left : (ctx.col * s ≤ ctx.x) × (ctx.x ≤ ctx.max_width_px)
  pub top : (ctx.row * v ≤ ctx.y) × (ctx.y ≤ ctx.max_height_px)
  pub cached : Cached s v ctx.cache

module _ {F : Type 0} (s v : ℕ) (ft : Font) (fresh : FontGlyphInfo) (font : Fonts s v ft fresh)
    (f : Floats F) where
  maximize_run :
      (cache : Cache) (scr scr' : Screen F)
      → Cached s v cache
      → screen_resize f scr (count_cells scr.max_height_px v) (count_cells scr.max_width_px s)
        ≡ some scr'
      → maximize_screen f ft fresh cache scr
        ≡ some ((get_codepoint_glyph_info ft cache 32 32 fresh).cache, scr')
  unfolding maximize_screen
  maximize_run cache scr scr' h e =
      let k = get_codepoint_glyph_info-Known s v ft fresh font cache 32 (omega arith) h in
      let (ws, hs) = k.metrics.space (space-kept s v ft fresh font cache) in
      let nonzero : ((s == 0) || (v == 0)) ≡ false = ground (arith, font.width.0, font.height.0) in
      rw (ws, hs, nonzero, e) refl

  -- With a font that has a glyph for the space, between 1 and 2 ^ 31 - 1 pixels wide and tall, and
  -- of which what it leaves in the metrics for any code point from the space on, those of the
  -- substitute for a glyph that it lacks included, is at least as wide as the space, below 2 ^ 31
  -- pixels wide, and not without height, and with a cache of such metrics, the filter starts without
  -- a failed assertion, on a screen of less than 2 ^ 31 pixels in width and height: with the pen at
  -- the top left corner of a screen whose lines and columns are enough for every place that the pen
  -- can reach.
  pub screen_mode_init-InRoom :
      (cache : Cache) (scr : Screen F)
      → Cached s v cache
      → scr.max_width_px < 2 ^ 31
      → scr.max_height_px < 2 ^ 31
      → (ctx : ScreenModeContext F) × (screen_mode_init f ft fresh cache scr ≡ some ctx)
        × InRoom s v ctx
        × (ctx.y ≡ 0)
  unfolding screen_mode_init
  screen_mode_init-InRoom cache scr h small_w small_h =
      let g = get_codepoint_glyph_info ft cache 32 32 fresh in
      let k = get_codepoint_glyph_info-Known s v ft fresh font cache 32 (omega arith) h in
      let (ws, hs) = k.metrics.space (space-kept s v ft fresh font cache) in
      let k' = get_codepoint_glyph_info-Known s v ft fresh font g.cache 32 (omega arith) k.cached in
      let (rows, few_rows) = count_cells_lem scr.max_height_px v small_h (font.height.0) in
      let (cols, few_cols) = count_cells_lem scr.max_width_px s small_w (font.width.0) in
      let (scr', e, fits, el, ec, u) =
        screen_resize-Fits f scr (count_cells scr.max_height_px v) (count_cells scr.max_width_px s)
          (omega (arith, few_rows, small_h)) (omega (arith, few_cols, small_w)) in
      (
        start_context scr g.glyph_info scr' _,
        rw (k.found, maximize_run g.cache scr scr' k.cached e) refl,
        record {
          fits = fits;
          space = (ws, hs);
          wide = rw ec cols;
          tall = rw el rows;
          small = (small_w, small_h);
          left = (omega arith, omega arith);
          top = (omega arith, omega arith);
          cached = k'.cached;
        },
        refl,
      )

-- ===== src/Layout/Glyphs.antt =====
-- The cache of glyph metrics, `get_codepoint_glyph_info` of app/eedit/core/text_layout.cpp, and
-- `font_glyph_info` of include/ew/graphics/font/font.hpp.
use ewlibs.Base.{◌==◌, if◌then◌else◌, ℕ, Bool, true, Option, none, some}

pub record FontGlyphInfo : Type 0 where
  pub width : ℕ
  pub height : ℕ
  pub hori_bearing_x : ℕ
  pub hori_bearing_y : ℕ
  pub hori_advance : ℕ
  pub vert_bearing_x : ℕ
  pub vert_bearing_y : ℕ
  pub vert_advance : ℕ

-- The font's own `get_codepoint_glyph_info`, a virtual function: whether it knows the code point,
-- and the metrics, which it writes over those that are given.
abbrev pub Font : Type 0
Font = ℕ → FontGlyphInfo → Bool × FontGlyphInfo

-- `glyph_info_cache`
abbrev pub Cache : Type 0
Cache = ℕ → Option FontGlyphInfo

abbrev pub get_glyph_info_from_cache : Cache → ℕ → Option FontGlyphInfo
get_glyph_info_from_cache cache cp = cache cp

unfoldable pub add_glyph_info_to_cache : ℕ → FontGlyphInfo → Cache → Cache
add_glyph_info_to_cache cp glyph_info cache = λ c. if c == cp then some glyph_info else cache c

-- What a call leaves: its result, the cache, `*cp_filtered`, and the metrics.
pub record Glyph : Type 0 where
  pub found : Bool
  pub cache : Cache
  pub cp_filtered : ℕ
  pub glyph_info : FontGlyphInfo

-- `get_codepoint_glyph_info(ft, cp, cp_filtered, glyph_info)`
unfoldable pub get_codepoint_glyph_info : Font → Cache → ℕ → ℕ → FontGlyphInfo → Glyph
get_codepoint_glyph_info ft cache cp cp_filtered glyph_info =
    elim (get_glyph_info_from_cache cache cp) [
      | some info ↦ record {
        found = true;
        cache = cache;
        cp_filtered = cp_filtered;
        glyph_info = info;
      }
      | none ↦
          let (bret, info) = ft cp glyph_info in
          let vcp = if bret then cp else 65533 in
          record {
            found = true;
            cache = add_glyph_info_to_cache vcp info cache;
            cp_filtered = vcp;
            glyph_info = info;
          }
    ]

-- ===== src/Layout/Fitting.antt =====
-- What `codepoint_fits` says of a code point, whether the font has a glyph for it or not.
use ewlibs.Base.{
  ltb, leb, ◌==◌, Bool-cases, ℕ, ◌+◌, ◌*◌, ◌%◌, ◌^◌, ◌≤◌, ◌<◌, ◌≡◌, refl, ◌⊎◌, inl, inr, false,
  ◌||◌, some, arith,
}
use ewlibs.Layout.Glyphs.{get_codepoint_glyph_info, Cache}
use ewlibs.Layout.Pen.{Advance, fitting, Fitting, layout_ok, no_layout_space_left, codepoint_fits}
use ewlibs.Layout.Screening.{Device}
use ewlibs.Layout.Room.{Fonts, Cached, mul_mono, get_codepoint_glyph_info-Known}

-- What `codepoint_fits` finds: a glyph at least as wide as the space, and whether it fits.
pub record Found (s v x max_width cp : ℕ) (fit : Fitting) : Type 0 where
  pub kept : (fit.cp_filtered ≡ cp) ⊎ (fit.cp_filtered ≡ 65533)
  pub cached : Cached s v fit.cache
  pub wide : s ≤ fit.adv.x
  pub verdict :
      ((fit.status ≡ layout_ok) × (x + fit.adv.x < max_width)) ⊎ (fit.status ≡ no_layout_space_left)

-- Less than a multiple is less.
pub less_of_mul : (a b s : ℕ) → a * s < b * s → a < b
less_of_mul a b s h = elim (Bool-cases (ltb a b)) [
  | inl e ↦ ground (arith, e)
  | inr e ↦ absurd (omega (arith, h, mul_mono b a s (ground (arith, e))))
]

module _ {F : Type 0} (s v : ℕ) (d : Device F) (font : Fonts s v d.ft d.fresh) where
  pub codepoint_fits-Found :
      (cache : Cache) (cp max_width x : ℕ)
      → 32 ≤ cp
      → Cached s v cache
      → max_width < 2 ^ 31
      → x ≤ max_width
      → (fit : Fitting) × (codepoint_fits d.ft d.fresh cache cp max_width x cp ≡ some fit)
        × Found s v x max_width cp fit
  unfolding codepoint_fits
  codepoint_fits-Found cache cp max_width x least h small left =
      let g = get_codepoint_glyph_info d.ft cache cp cp d.fresh in
      let k = get_codepoint_glyph_info-Known s v d.ft d.fresh font cache cp least h in
      let nonzero : ((g.glyph_info.hori_advance == 0) || (g.glyph_info.vert_advance == 0)) ≡ false =
        ground (arith, k.metrics.wide, k.metrics.tall, font.width.0) in
      let wrap : (x + g.glyph_info.hori_advance) % 2 ^ 32 ≡ x + g.glyph_info.hori_advance =
        omega (arith, small, left, k.metrics.narrow) in
      let adv : Advance = record { x = g.glyph_info.hori_advance; y = g.glyph_info.vert_advance } in
      elim (Bool-cases (leb max_width (x + g.glyph_info.hori_advance))) [
        | inl e ↦ (
          fitting g no_layout_space_left adv,
          rw (k.found, nonzero, wrap, e) refl,
          record { kept = k.kept; cached = k.cached; wide = k.metrics.wide; verdict = inr refl },
        )
        | inr e ↦ (
          fitting g layout_ok adv,
          rw (k.found, nonzero, wrap, e) refl,
          record {
            kept = k.kept;
            cached = k.cached;
            wide = k.metrics.wide;
            verdict = inl (refl, ground (arith, e));
          },
        )
      ]

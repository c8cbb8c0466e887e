-- ===== src/Keymap/Script/Unicode.antt =====
-- The loop of `parse_unicode` ends within its turns.
use ewlibs.Base.{
  ◌==◌, if◌then◌else◌, Bool-cases, Option-cases, length, ℕ, zero, suc, ◌≤◌, ◌<◌, ◌≡◌, refl, inl,
  inr, Bool, true, false, Option, none, some, List, [], ◌∷◌, arith,
}
use ewlibs.Keymap.{key_unicode}
use ewlibs.Keymap.Script.{
  codes, Ending, finished, faulted, unfinished, and_then, Libc, ReadsPart, ParseContext,
}
use ewlibs.Keymap.Script.Lexing.{skip_blanks, expected_token, peek}
use ewlibs.Keymap.Script.Parsing.{
  parse_unicode_value, UnicodeStep, parse_open_paren, parse_first_value, check_is_range,
  parse_second_value, parse_close_paren, have_close_paren, parse_ok, parse_error, unicode_step,
  unicode_loop, parse_unicode,
}
use ewlibs.Keymap.Script.Progress.{
  Ends, Ends-and_then, Leaves, skip_blanks-le, expected_token-le, text_of_result, Leaves-le,
  parse_unicode_value-Leaves,
}
use ewlibs.Utf8.Codec.{Tables}

-- The turns that a step has in front of it.
abbrev rank : UnicodeStep → ℕ
rank parse_open_paren = 7
rank parse_first_value = 6
rank check_is_range = 5
rank parse_second_value = 4
rank parse_close_paren = 3
rank have_close_paren = 2
rank parse_ok = 1
rank parse_error = 1

-- A turn stops, or goes on with a step of a lower rank and with no more text.
abbrev Descends : ℕ → ℕ → Option UnicodeStep × ParseContext → Type 0
Descends n r (none, ctx) = length ctx.p ≤ n
Descends n r (some step, ctx) = (length ctx.p ≤ n) × (rank step < r)

Descends-le :
    (m n r : ℕ) (o : Ending (Option UnicodeStep × ParseContext))
    → m ≤ n
    → Ends (Descends m r) o
    → Ends (Descends n r) o
Descends-le m n r (finished (none, ctx)) h d = omega arith
Descends-le m n r (finished (some step, ctx)) h d = (omega (arith, d.0), d.1)
Descends-le m n r faulted h d = tt
Descends-le m n r unfinished h d = d

module _ (c : Libc) (reads : ReadsPart c) (t : Tables) where
  value_step :
      (n r value : ℕ) (p : List ℕ)
      (f : Bool × (ℕ × List ℕ) → Ending (Option UnicodeStep × ParseContext))
      → length p ≤ n
      → ((x : Bool × (ℕ × List ℕ)) → length (text_of_result x) ≤ n → Ends (Descends n r) (f x))
      → Ends (Descends n r) (and_then (parse_unicode_value c t value p) f)
  value_step n r value p f le k =
      Ends-and_then (λ x. length (text_of_result x) ≤ n) (Descends n r)
        (parse_unicode_value c t value p) f
        (Leaves-le text_of_result (length p) n (parse_unicode_value c t value p) le
          (parse_unicode_value-Leaves c reads t value p))
        k

  unicode_step-Descends :
      (step : UnicodeStep) (ctx : ParseContext)
      → Ends (Descends (length ctx.p) (rank step)) (unicode_step c t step ctx)
  unfolding unicode_step expected_token
  unicode_step-Descends parse_open_paren ctx =
      elim (Option-cases (expected_token (codes "(") ctx.p)) [
        | inl n ↦ rw (Ends, n) (omega arith, omega arith)
        | inr (rest, n) ↦
            rw (Ends, n) (omega (arith, expected_token-le (codes "(") ctx.p rest n), omega arith)
      ]
  unicode_step-Descends parse_first_value ctx =
      value_step (length ctx.p) 6 ctx.ev.start_value ctx.p _ (omega arith)
        (λ x h. (h, next_rank x.0))
    where
      next_rank : (ok : Bool) → rank (if ok then check_is_range else parse_error) < 6
      next_rank true = omega arith
      next_rank false = omega arith
  unicode_step-Descends check_is_range ctx = elim (Bool-cases (peek ctx.p == b')')) [
    | inl q ↦ rw (Ends, q) (omega arith, omega arith)
    | inr q ↦ elim (Bool-cases (peek ctx.p == b'<')) [
      | inr q' ↦ rw (Ends, q, q') (omega arith, omega arith)
      | inl q' ↦ elim (Option-cases (expected_token (codes "<=>") ctx.p)) [
        | inl n ↦ rw (Ends, q, q', n) (omega arith, omega arith)
        | inr (rest, n) ↦
            rw (Ends, q, q', n)
              (omega (arith, expected_token-le (codes "<=>") ctx.p rest n), omega arith)
      ]
    ]
  ]
  unicode_step-Descends parse_second_value ctx =
      value_step (length ctx.p) 4 ctx.ev.end_value ctx.p _ (omega arith) (λ x h. (h, next_rank x.0))
    where
      next_rank : (ok : Bool) → rank (if ok then parse_close_paren else parse_error) < 4
      next_rank true = omega arith
      next_rank false = omega arith
  unicode_step-Descends parse_close_paren ctx =
      elim (Option-cases (expected_token (codes ")") ctx.p)) [
        | inl n ↦ rw (Ends, n) (omega arith, omega arith)
        | inr (rest, n) ↦
            rw (Ends, n) (omega (arith, expected_token-le (codes ")") ctx.p rest n), omega arith)
      ]
  unicode_step-Descends have_close_paren ctx = (omega arith, omega arith)
  unicode_step-Descends parse_ok ctx = omega arith
  unicode_step-Descends parse_error ctx = omega arith

  rank_pos : (step : UnicodeStep) → 0 < rank step
  rank_pos parse_open_paren = omega arith
  rank_pos parse_first_value = omega arith
  rank_pos check_is_range = omega arith
  rank_pos parse_second_value = omega arith
  rank_pos parse_close_paren = omega arith
  rank_pos have_close_paren = omega arith
  rank_pos parse_ok = omega arith
  rank_pos parse_error = omega arith

  abbrev Runs : ℕ → UnicodeStep → ParseContext → Type 0
  Runs fuel step ctx = Leaves (λ ctx'. ctx'.p) (length ctx.p) (unicode_loop fuel c t step ctx)

  module _ (fuel : ℕ)
      (ih : (step : UnicodeStep) (ctx : ParseContext) → rank step ≤ fuel → Runs fuel step ctx) where
    next_turn :
        (n r : ℕ) (x : Option UnicodeStep × ParseContext)
        → r ≤ suc fuel
        → Descends n r x
        → Leaves
            (λ ctx'. ctx'.p)
            n
            (elim x.0 [ none ↦ finished x.1 | some step' ↦ unicode_loop fuel c t step' x.1 ])
    next_turn n r (none, ctx') h d = d
    next_turn n r (some step', ctx') h d =
        Leaves-le (λ ctx''. ctx''.p) (length ctx'.p) n (unicode_loop fuel c t step' ctx') d.0
          (ih step' ctx' (omega (arith, d.1)))

    one_turn :
        (step : UnicodeStep) (ctx : ParseContext) (p : List ℕ)
        → ctx.p ≡ p
        → rank step ≤ suc fuel
        → Runs (suc fuel) step ctx
    unfolding unicode_loop
    one_turn step ctx [] e h = rw (Ends, unicode_loop, e) (omega arith)
    one_turn step ctx (b ∷ text) e h =
        rw (Ends, unicode_loop, e)
          (Ends-and_then (Descends (length ctx.p) (rank step))
            (λ ctx'. length ctx'.p ≤ length ctx.p)
            (unicode_step c t step (record ctx { p = skip_blanks ctx.p })) _
            (Descends-le (length (skip_blanks ctx.p)) (length ctx.p) (rank step)
              (unicode_step c t step (record ctx { p = skip_blanks ctx.p })) (skip_blanks-le ctx.p)
              (unicode_step-Descends step (record ctx { p = skip_blanks ctx.p })))
            (λ x d. next_turn (length ctx.p) (rank step) x h d))

  -- With as many turns as the rank of the step, the loop ends.
  unicode_loop-Leaves :
      (fuel : ℕ) (step : UnicodeStep) (ctx : ParseContext) → rank step ≤ fuel → Runs fuel step ctx
  unicode_loop-Leaves zero step ctx h = absurd (omega (arith, rank_pos step))
  unicode_loop-Leaves (suc fuel) step ctx h =
      one_turn fuel (unicode_loop-Leaves fuel) step ctx ctx.p refl h

  pub parse_unicode-Leaves :
      (ctx : ParseContext) → Leaves (λ ctx'. ctx'.p) (length ctx.p) (parse_unicode c t ctx)
  unfolding parse_unicode
  parse_unicode-Leaves ctx =
      unicode_loop-Leaves 8 parse_open_paren
        (record ctx { ev = record ctx.ev { key = key_unicode } }) (omega arith)

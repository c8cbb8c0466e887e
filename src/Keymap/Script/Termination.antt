-- ===== src/Keymap/Script/Termination.antt =====
-- Reading an input map ends: every turn of the parser takes a byte of the text.
use ewlibs.Base.{
  leb, ◌==◌, Bool-cases, Option-cases, length, ℕ, zero, suc, ◌-◌, ◌^◌, ◌≤◌, ◌≡◌, refl, ap, subst,
  ◌≢◌, inl, inr, ◌||◌, List, [], ◌∷◌, arith,
}
use ewlibs.Keymap.{shifted_one}
use ewlibs.Keymap.Tree.{Entries}
use ewlibs.Keymap.Script.{
  codes, unfinished, Libc, ReadsPart, ParseContext, Token, tok_invalid, tok_mouse_button, tok_ctrl,
  tok_alt, tok_unicode, tok_comma, tok_eq, tok_keyval, tok_page_up, tok_page_down,
}
use ewlibs.Keymap.Script.Lexing.{skip_blanks, expected_token, get_token}
use ewlibs.Keymap.Script.Parsing.{extract_int, parse_mouse_button, action_name, parse_binded_action}
use ewlibs.Keymap.Script.Running.{
  on_token, parse_turn, parse_input_map_string, parse_input_map_config,
}
use ewlibs.Keymap.Script.Progress.{
  Ends, Ends-and_then, Leaves, Leaves-le, skip_blanks-le, expected_token-le, parse_control-le,
  parse_alt-le,
}
use ewlibs.Keymap.Script.Tokens.{Ends-if, skip_blanks_head, get_token-Leaves}
use ewlibs.Keymap.Script.Unicode.{parse_unicode-Leaves}
use ewlibs.Utf8.Codec.{Tables}

module _ (c : Libc) (reads : ReadsPart c) where
  action_name-Leaves : (text : List ℕ) → Leaves (λ r. r.1) (length text) (action_name c text)
  unfolding action_name
  action_name-Leaves [] = omega arith
  action_name-Leaves (b ∷ text) = elim (Bool-cases (c.isalnum b || b == b'-' || b == b'_')) [
    | inl q ↦
        rw (Ends, q)
          (Ends-and_then (λ r. length r.1 ≤ length text) (λ r. length r.1 ≤ length (b ∷ text))
            (action_name c text) _ (action_name-Leaves text) (λ r h. omega arith))
    | inr q ↦ elim (Bool-cases (c.isblank b || b == 10)) [
      | inl q' ↦ rw (Ends, q, q') (omega arith)
      | inr q' ↦ rw (Ends, q, q') tt
    ]
  ]

  extract_int-le : (val : ℕ) (text : List ℕ) → length (extract_int c val text).1 ≤ length text
  unfolding extract_int
  extract_int-le val [] = omega arith
  extract_int-le val (b ∷ text) = reads 10 (b ∷ text)

  parse_mouse_button-Leaves :
      (ctx : ParseContext) → Leaves (λ ctx'. ctx'.p) (length ctx.p) (parse_mouse_button c ctx)
  unfolding parse_mouse_button
  parse_mouse_button-Leaves ctx =
      Ends-if (λ ctx'. length ctx'.p ≤ length ctx.p)
        ((extract_int c 0 ctx.p).0 == 0 || leb (2 ^ 31) (extract_int c 0 ctx.p).0) _ _ tt
        (elim (Option-cases (shifted_one ((extract_int c 0 ctx.p).0 - 1))) [
          | inl n ↦ rw n tt
          | inr (mask, n) ↦
              rw n (elim (Option-cases (expected_token (codes "-") (extract_int c 0 ctx.p).1)) [
                | inl n' ↦ rw n' tt
                | inr (rest, n') ↦
                    rw n' (elim (Option-cases (expected_token (codes "press") rest)) [
                      | inr (rest', m) ↦ rw m (
                          omega (
                            arith,
                            extract_int-le 0 ctx.p,
                            expected_token-le (codes "-") _ rest n',
                            expected_token-le (codes "press") rest rest' m,
                          ))
                      | inl m ↦ rw m (elim (Option-cases (expected_token (codes "release") rest)) [
                        | inr (rest', m') ↦ rw m' (
                            omega (
                              arith,
                              extract_int-le 0 ctx.p,
                              expected_token-le (codes "-") _ rest n',
                              expected_token-le (codes "release") rest rest' m',
                            ))
                        | inl m' ↦ rw m' tt
                      ])
                    ])
              ])
        ])

  parse_binded_action-Leaves :
      (ctx : ParseContext) → Leaves (λ ctx'. ctx'.p) (length ctx.p) (parse_binded_action c ctx)
  unfolding parse_binded_action
  parse_binded_action-Leaves ctx =
      Ends-and_then (λ r. length r.1 ≤ length ctx.p) (λ ctx'. length ctx'.p ≤ length ctx.p)
        (action_name c (skip_blanks ctx.p)) _
        (Leaves-le (λ r. r.1) (length (skip_blanks ctx.p)) (length ctx.p)
          (action_name c (skip_blanks ctx.p)) (skip_blanks-le ctx.p)
          (action_name-Leaves (skip_blanks ctx.p)))
        (λ r h. h)

  on_token-Leaves :
      (t : Tables) (tok : Token) (ctx : ParseContext)
      → Leaves (λ ctx'. ctx'.p) (length ctx.p) (on_token c t tok ctx)
  unfolding on_token
  on_token-Leaves t tok_ctrl ctx = parse_control-le ctx
  on_token-Leaves t tok_alt ctx = parse_alt-le ctx
  on_token-Leaves t tok_unicode ctx = parse_unicode-Leaves c reads t ctx
  on_token-Leaves t tok_page_up ctx = omega arith
  on_token-Leaves t tok_page_down ctx = omega arith
  on_token-Leaves t tok_mouse_button ctx = parse_mouse_button-Leaves ctx
  on_token-Leaves t tok_comma ctx = omega arith
  on_token-Leaves t tok_eq ctx =
      Ends-and_then (λ ctx'. length ctx'.p ≤ length ctx.p) (λ ctx'. length ctx'.p ≤ length ctx.p)
        (parse_binded_action c ctx) _ (parse_binded_action-Leaves ctx) (λ r h. h)
  on_token-Leaves t tok_keyval ctx = omega arith
  on_token-Leaves t tok_invalid ctx = omega arith

  -- A turn takes a byte of a text that is not empty.
  parse_turn-Leaves :
      (t : Tables) (ctx : ParseContext)
      → Leaves (λ ctx'. ctx'.p) (length ctx.p - 1) (parse_turn c t ctx)
  unfolding parse_turn get_token on_token
  parse_turn-Leaves t ctx = elim (skip_blanks_head ctx.p) [
    | inl e ↦ rw (parse_turn, e) (omega arith)
    | inr (b, rest, e, q) ↦
        rw (parse_turn, e)
          (Ends-and_then (λ r. length r.1.p ≤ length rest)
            (λ ctx'. length ctx'.p ≤ length ctx.p - 1) (get_token c (record ctx { p = b ∷ rest })) _
            (get_token-Leaves c reads ctx b rest q)
            (λ r h.
              Leaves-le (λ ctx'. ctx'.p) (length r.1.p) (length ctx.p - 1) (on_token c t r.0 r.1)
                (omega (arith, h, skip_blanks-le ctx.p, ap length e)) (on_token-Leaves t r.0 r.1)))
  ]

  abbrev Reads : Tables → ℕ → Type 0
  Reads t fuel =
      (ctx : ParseContext)
      → length ctx.p ≤ fuel
      → Leaves (λ ctx'. ctx'.p) 0 (parse_input_map_string fuel c t ctx)

  no_turn :
      (t : Tables) (ctx : ParseContext) (p : List ℕ)
      → ctx.p ≡ p
      → length ctx.p ≤ 0
      → Leaves (λ ctx'. ctx'.p) 0 (parse_input_map_string 0 c t ctx)
  unfolding parse_input_map_string
  no_turn t ctx [] e h = rw (parse_input_map_string, e) (omega arith)
  no_turn t ctx (b ∷ text) e h = absurd (omega (arith, ap length e))

  one_turn :
      (t : Tables) (fuel : ℕ)
      → Reads t fuel
      → (ctx : ParseContext) (p : List ℕ) → ctx.p ≡ p
      → length ctx.p ≤ suc fuel
      → Leaves (λ ctx'. ctx'.p) 0 (parse_input_map_string (suc fuel) c t ctx)
  unfolding parse_input_map_string
  one_turn t fuel ih ctx [] e h = rw (parse_input_map_string, e) (omega (arith, ap length e))
  one_turn t fuel ih ctx (b ∷ text) e h =
      rw (parse_input_map_string, e)
        (Ends-and_then (λ ctx'. length ctx'.p ≤ length ctx.p - 1) (λ ctx'. length ctx'.p ≤ 0)
          (parse_turn c t ctx) _ (parse_turn-Leaves t ctx)
          (λ ctx' h'. ih ctx' (omega (arith, h, h', ap length e))))

  -- When `number` reads a part of its text, `parse_input_map_string`, from a context whose text has at
  -- most as many bytes as there is fuel, ends with a context that has no text left, or with an assertion
  -- or a fault of the parser; it does not lack fuel.
  pub parse_input_map_string-Ends :
      (t : Tables) (fuel : ℕ) (ctx : ParseContext)
      → length ctx.p ≤ fuel
      → Leaves (λ ctx'. ctx'.p) 0 (parse_input_map_string fuel c t ctx)
  parse_input_map_string-Ends t zero ctx h = no_turn t ctx ctx.p refl h
  parse_input_map_string-Ends t (suc fuel) ctx h =
      one_turn t fuel (parse_input_map_string-Ends t fuel) ctx ctx.p refl h

  -- When `number` reads a part of its text, `parse_input_map_config` ends on every text: the turns it is
  -- given are enough.
  pub parse_input_map_config-unfinished :
      (t : Tables) (text : List ℕ) → parse_input_map_config c t text ≢ unfinished
  unfolding parse_input_map_config
  parse_input_map_config-unfinished t text e = subst (Ends (λ (m : Entries). Unit)) e (
      Ends-and_then (λ ctx'. length ctx'.p ≤ 0) (λ (m : Entries). Unit)
        (parse_input_map_string (length text) c t _) _
        (parse_input_map_string-Ends t (length text) _ (omega arith)) (λ ctx' h. tt))

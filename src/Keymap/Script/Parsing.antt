-- ===== src/Keymap/Script/Parsing.antt =====
-- The functions that read a key, a unicode value or range, a mouse button and an action, and the loop
-- of `parse_input_map_string`.
use ewlibs.Base.{
  leb, ◌==◌, if◌then◌else◌, ℕ, zero, suc, ◌-◌, ◌^◌, Bool, true, false, ◌&&◌, ◌||◌, Option, none,
  some, List, [], ◌∷◌, ◌++◌,
}
use ewlibs.Keymap.{button_press, button_release, key_unicode, shifted_one}
use ewlibs.Keymap.Tree.{add_keys}
use ewlibs.Keymap.Script.{
  codes, Ending, finished, faulted, unfinished, and_then, Libc, ParseContext, new_entry_event,
}
use ewlibs.Keymap.Script.Lexing.{skip_blanks, expected_token, peek}
use ewlibs.Utf8.Codec.{Tables}
use ewlibs.Utf8.Reading.{get_cp, tail}

-- `parse_control(ctx)`, `parse_alt(ctx)`
unfoldable pub parse_control : ParseContext → ParseContext
parse_control ctx =
    let p = skip_blanks ctx.p in
    elim (expected_token (codes "+") p) [
      | none ↦ record ctx { p = p }
      | some rest ↦
          if ctx.ev.ctrl
          then record ctx { p = rest }
          else record ctx { p = skip_blanks rest; ev = record ctx.ev { ctrl = true } }
    ]

unfoldable pub parse_alt : ParseContext → ParseContext
parse_alt ctx =
    let p = skip_blanks ctx.p in
    elim (expected_token (codes "+") p) [
      | none ↦ record ctx { p = p }
      | some rest ↦
          if ctx.ev.alt_l
          then record ctx { p = rest }
          else record ctx { p = skip_blanks rest; ev = record ctx.ev { alt_l = true } }
    ]

abbrev pub is_digit : ℕ → Bool
is_digit c = leb b'0' c && leb c b'9'

-- `decode_utf8_codepoint(ctx, out_value)`: the value after it, and the text.
unfoldable pub decode_utf8_codepoint : Tables → ℕ → List ℕ → Ending (ℕ × List ℕ)
decode_utf8_codepoint t out_value p = elim (get_cp t p) [
  | none ↦ faulted
  | some (cp, rest) ↦ finished ((if leb (2 ^ 31) cp then out_value else cp), rest)
]

-- `parse_unicode_value(ctx, out_value)`: its result, the value and the text after it.
unfoldable pub parse_unicode_value : Libc → Tables → ℕ → List ℕ → Ending (Bool × (ℕ × List ℕ))
parse_unicode_value c t out_value p =
    if peek p == b'\''
    then and_then (decode_utf8_codepoint t out_value (tail p)) (λ (value, rest).
      elim (expected_token (codes "'") rest) [
        | none ↦ finished (false, (value, rest))
        | some rest' ↦ finished (true, (value, rest'))
      ])
    else if is_digit (peek p)
    then finished (true, c.number (if c.tolower (peek (tail p)) == b'x' then 16 else 10) p)
    else finished (false, (out_value, p))

-- The steps of `parse_unicode`.
pub data UnicodeStep : Type 0 where
  parse_open_paren parse_first_value check_is_range parse_second_value : UnicodeStep
  parse_close_paren have_close_paren parse_ok parse_error : UnicodeStep

-- One turn of the loop of `parse_unicode`, on the text after the blanks: the next step, unless the
-- parser stops.
unfoldable pub unicode_step :
    Libc → Tables → UnicodeStep → ParseContext → Ending (Option UnicodeStep × ParseContext)
unicode_step c t parse_open_paren ctx = elim (expected_token (codes "(") ctx.p) [
  | none ↦ finished (some parse_error, ctx)
  | some rest ↦ finished (some parse_first_value, record ctx { p = rest })
]
unicode_step c t parse_first_value ctx =
    and_then (parse_unicode_value c t ctx.ev.start_value ctx.p) (λ (ok, (value, rest)). finished (
      some (if ok then check_is_range else parse_error),
      record ctx { p = rest; ev = record ctx.ev { start_value = value } },
    ))
unicode_step c t check_is_range ctx =
    if peek ctx.p == b')'
    then finished (some parse_close_paren, ctx)
    else if peek ctx.p == b'<'
    then elim (expected_token (codes "<=>") ctx.p) [
      | none ↦ finished (some parse_close_paren, ctx)
      | some rest ↦
          finished (
            some parse_second_value,
            record ctx { p = rest; ev = record ctx.ev { is_range = true } },
          )
    ]
    else finished (some parse_error, ctx)
unicode_step c t parse_second_value ctx =
    and_then (parse_unicode_value c t ctx.ev.end_value ctx.p) (λ (ok, (value, rest)). finished (
      some (if ok then parse_close_paren else parse_error),
      record ctx { p = rest; ev = record ctx.ev { end_value = value } },
    ))
unicode_step c t parse_close_paren ctx = elim (expected_token (codes ")") ctx.p) [
  | none ↦ finished (some parse_error, ctx)
  | some rest ↦ finished (some have_close_paren, record ctx { p = rest })
]
unicode_step c t have_close_paren ctx = finished (some parse_ok, ctx)
unicode_step c t parse_ok ctx = finished (none, ctx)
unicode_step c t parse_error ctx = finished (none, ctx)

-- The loop of `parse_unicode`, on fuel.
unfoldable pub unicode_loop : ℕ → Libc → Tables → UnicodeStep → ParseContext → Ending ParseContext
unicode_loop zero c t step ctx = unfinished
unicode_loop (suc fuel) c t step ctx = elim ctx.p [
  | [] ↦ finished ctx
  | b ∷ text ↦
      and_then (unicode_step c t step (record ctx { p = skip_blanks ctx.p })) (λ (next, ctx').
        elim next [ none ↦ finished ctx' | some step' ↦ unicode_loop fuel c t step' ctx' ])
]

-- `parse_unicode(ctx)`: no more than eight turns are made.
unfoldable pub parse_unicode : Libc → Tables → ParseContext → Ending ParseContext
parse_unicode c t ctx =
    unicode_loop 8 c t parse_open_paren (record ctx { ev = record ctx.ev { key = key_unicode } })

-- `parse_page_up(ctx)`, `parse_page_down(ctx)`
abbrev pub parse_page_up : ParseContext → ParseContext
parse_page_up ctx = record ctx { ev = record ctx.ev { key = 17 } }

abbrev pub parse_page_down : ParseContext → ParseContext
parse_page_down ctx = record ctx { ev = record ctx.ev { key = 18 } }

-- `extract_int(ctx, val)`: the value, and the text after it.
unfoldable pub extract_int : Libc → ℕ → List ℕ → ℕ × List ℕ
extract_int c val [] = (val, [])
extract_int c val (b ∷ text) = c.number 10 (b ∷ text)

-- `parse_mouse_button(ctx)`
unfoldable pub parse_mouse_button : Libc → ParseContext → Ending ParseContext
parse_mouse_button c ctx =
    let number = extract_int c 0 ctx.p in
    if number.0 == 0 || leb (2 ^ 31) number.0 then faulted else elim (shifted_one (number.0 - 1)) [
      | none ↦ faulted
      | some mask ↦ elim (expected_token (codes "-") number.1) [
        | none ↦ faulted
        | some rest ↦ elim (expected_token (codes "press") rest) [
          | some rest' ↦ finished (record ctx {
            p = rest';
            ev = record ctx.ev { button_mask = mask; kind = button_press };
          })
          | none ↦ elim (expected_token (codes "release") rest) [
            | some rest' ↦ finished (record ctx {
              p = rest';
              ev = record ctx.ev { button_mask = mask; kind = button_release };
            })
            | none ↦ faulted
          ]
        ]
      ]
    ]

-- The loop of `extract_action_name`: the name, and the text after it. Any other byte is asserted.
unfoldable pub action_name : Libc → List ℕ → Ending (List ℕ × List ℕ)
action_name c [] = finished ([], [])
action_name c (b ∷ text) =
    let more = and_then (action_name c text) (λ (name, rest). finished (b ∷ name, rest)) in
    if c.isalnum b || b == b'-' || b == b'_'
    then more
    else if c.isblank b || b == 10
    then finished ([], b ∷ text)
    else faulted

-- `parse_binded_action(ctx)`, with `extract_action_name(ctx)`, whose result is always false.
unfoldable pub parse_binded_action : Libc → ParseContext → Ending ParseContext
parse_binded_action c ctx =
    and_then (action_name c (skip_blanks ctx.p))
      (λ (name, rest). finished (record ctx { p = rest; action = some name }))

-- `push_current_keymap_entry(ctx)`
abbrev pub push_current_keymap_entry : ParseContext → ParseContext
push_current_keymap_entry ctx = record ctx {
  cur_seq = ctx.cur_seq ++ record { ev = ctx.ev; action = ctx.action } ∷ [];
  ev = new_entry_event;
  action = none;
}

-- `add_keys_to_current_input_map(ctx)`
abbrev pub add_keys_to_current_input_map : ParseContext → ParseContext
add_keys_to_current_input_map ctx = record ctx {
  input_map = add_keys ctx.input_map ctx.cur_seq;
  cur_seq = [];
}

-- ===== src/Keymap/Script/Running.antt =====
-- The loop of `parse_input_map_string`, and `parse_input_map_config`.
use ewlibs.Base.{length, ℕ, zero, suc, none, List, [], ◌∷◌}
use ewlibs.Keymap.Tree.{Entries, no_entries}
use ewlibs.Keymap.Script.{
  Ending, finished, unfinished, and_then, Libc, ParseContext, new_entry_event, Token, tok_invalid,
  tok_mouse_button, tok_ctrl, tok_alt, tok_unicode, tok_comma, tok_eq, tok_keyval, tok_page_up,
  tok_page_down,
}
use ewlibs.Keymap.Script.Lexing.{skip_blanks, get_token}
use ewlibs.Keymap.Script.Parsing.{
  parse_control, parse_alt, parse_unicode, parse_page_up, parse_page_down, parse_mouse_button,
  parse_binded_action, push_current_keymap_entry, add_keys_to_current_input_map,
}
use ewlibs.Utf8.Codec.{Tables}

-- The switch of `parse_input_map_string` over the tokens.
unfoldable pub on_token : Libc → Tables → Token → ParseContext → Ending ParseContext
on_token c t tok_ctrl ctx = finished (parse_control ctx)
on_token c t tok_alt ctx = finished (parse_alt ctx)
on_token c t tok_unicode ctx = parse_unicode c t ctx
on_token c t tok_page_up ctx = finished (parse_page_up ctx)
on_token c t tok_page_down ctx = finished (parse_page_down ctx)
on_token c t tok_mouse_button ctx = parse_mouse_button c ctx
on_token c t tok_comma ctx = finished (push_current_keymap_entry ctx)
on_token c t tok_eq ctx =
    and_then (parse_binded_action c ctx)
      (λ ctx'. finished (add_keys_to_current_input_map (push_current_keymap_entry ctx')))
on_token c t tok_keyval ctx = finished ctx
on_token c t tok_invalid ctx = finished ctx

-- One turn of the loop.
unfoldable pub parse_turn : Libc → Tables → ParseContext → Ending ParseContext
parse_turn c t ctx =
    and_then (get_token c (record ctx { p = skip_blanks ctx.p }))
      (λ (tok, ctx'). on_token c t tok ctx')

-- `parse_input_map_string(ctx)`, on fuel.
unfoldable pub parse_input_map_string : ℕ → Libc → Tables → ParseContext → Ending ParseContext
parse_input_map_string zero c t ctx = elim ctx.p [ [] ↦ finished ctx | b ∷ text ↦ unfinished ]
parse_input_map_string (suc fuel) c t ctx = elim ctx.p [
  | [] ↦ finished ctx
  | b ∷ text ↦ and_then (parse_turn c t ctx) (λ ctx'. parse_input_map_string fuel c t ctx')
]

-- `parse_input_map_config(start, pend, input_event_table)`: the map that it stores under "default". A
-- turn for each byte is enough.
unfoldable pub parse_input_map_config : Libc → Tables → List ℕ → Ending Entries
parse_input_map_config c t text =
    and_then
      (parse_input_map_string (length text) c t (record {
        p = text;
        tmp_kval = 0;
        ev = new_entry_event;
        action = none;
        cur_seq = [];
        input_map = no_entries;
      }))
      (λ ctx. finished ctx.input_map)

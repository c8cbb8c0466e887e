-- ===== src/Keymap/Script.antt =====
-- The text from which an input map is read: the bytes, the tokens and the context of the parser in
-- app/eedit/core/input/event/input_event_map.hpp. The byte at the end of the text is the 0 that ends
-- the source's string. What the parser logs is not modelled.
pub mod Lexing
pub mod Parsing
pub mod Running
pub mod Progress
pub mod Tokens
pub mod Unicode
pub mod Termination
use Prim.Native.Char.{code}
use Prim.Native.String.{String}
use ewlibs.Base.{
  ltb, leb, ◌==◌, if◌then◌else◌, ==_iff, ==_refl, Bool-cases, Option-cases, ◌>>=◌, some_inj, length,
  get_elem?, set, take, drop, replicate, length-append, length-set, get_elem?-set_self,
  get_elem?-set_ne, get_elem?-lt, get_elem?-some, get_elem?-append_left, get_elem?-append_right,
  get_elem?-set, get_elem?-push, take-append-drop, length-take, length-drop, length-replicate,
  length-map, ℕ, zero, suc, ◌+◌, ◌-◌, ◌*◌, ◌/◌, ◌%◌, ◌^◌, ◌≤◌, ◌<◌, min, max, ◌≡◌, refl, sym, ap,
  ap₂, ◌∙◌, fun_ext, subst, ◌≢◌, ◌↔◌, ◌⊎◌, inl, inr, Bool, true, false, not, ◌&&◌, ◌||◌, Option,
  none, some, List, [], ◌∷◌, ◌++◌, map, append_assoc, append-nil, arith,
}
use ewlibs.Keymap.{InputEvent, keypress}
use ewlibs.Keymap.Tree.{Action, Entries, SeqNode}

-- The bytes of an ASCII text.
abbrev pub codes : String → List ℕ
codes String.[] = []
codes (String.◌∷◌ c s) = code c ∷ codes s

-- How a step of the parser ends: with a value, with an assertion that fails or a fault, or for lack of
-- fuel.
pub data Ending {ℓ} (A : Type ℓ) : Type ℓ where
  finished : A → Ending A
  faulted : Ending A
  unfinished : Ending A

abbrev pub and_then {ℓ κ} : {A : Type ℓ} {B : Type κ} → Ending A → (A → Ending B) → Ending B
and_then (finished a) f = f a
and_then faulted f = faulted
and_then unfinished f = unfinished

-- The functions of the C library that the parser calls. `number` is `strtol` and `strtoll` at a base:
-- the low 32 bits of the value, and the text that follows the number.
pub record Libc : Type 0 where
  pub isalnum : ℕ → Bool
  pub isblank : ℕ → Bool
  pub tolower : ℕ → ℕ
  pub number : ℕ → List ℕ → ℕ × List ℕ

-- `number` reads a part of the text, at its start.
abbrev pub ReadsPart : Libc → Type 0
ReadsPart c = (base : ℕ) (text : List ℕ) → length (c.number base text).1 ≤ length text

-- `parse_context`: the text from `p` to `pend`, `tmp_kval`, the two fields of
-- `current_input_map_entry`, `cur_seq` and `current_input_map`.
pub record ParseContext : Type 0 where
  pub p : List ℕ
  pub tmp_kval : ℕ
  pub ev : InputEvent
  pub action : Option Action
  pub cur_seq : List SeqNode
  pub input_map : Entries

-- `input_map_entry()`
abbrev pub new_entry_event : InputEvent
new_entry_event = record {
  kind = keypress;
  key = 0;
  is_range = false;
  start_value = 0;
  end_value = 0;
  ctrl = false;
  shift = false;
  alt_l = false;
  alt_r = false;
  oskey = false;
  button_mask = 0;
  x = 0;
  y = 0;
}

-- `input_map_token_type`
pub data Token : Type 0 where
  tok_invalid tok_mouse_button tok_ctrl tok_alt tok_unicode tok_comma tok_eq tok_keyval : Token
  tok_page_up tok_page_down : Token

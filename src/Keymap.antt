-- ===== src/Keymap.antt =====
-- `input_event_s` of app/eedit/core/input/event/input_event_map.hpp, and the tree of input map
-- entries. A `u32` is a number below 2 ^ 32, a `key_value` its number in
-- include/ew/graphics/gui/event/keys.hpp.
pub mod Events
pub mod Tree
pub mod Dispatch
pub mod Levels
pub mod Binding
pub mod Refinement
pub mod Updating
pub mod Proper
pub mod Typing
pub mod Sequences
pub mod Script
mod Tests
use Prim.Native.Nat.{bit_and}
use ewlibs.Base.{
  ltb, leb, ◌==◌, if◌then◌else◌, ==_iff, ==_refl, Bool-cases, Option-cases, ◌>>=◌, some_inj, length,
  get_elem?, set, take, drop, replicate, length-append, length-set, get_elem?-set_self,
  get_elem?-set_ne, get_elem?-lt, get_elem?-some, get_elem?-append_left, get_elem?-append_right,
  get_elem?-set, get_elem?-push, take-append-drop, length-take, length-drop, length-replicate,
  length-map, ℕ, zero, suc, ◌+◌, ◌-◌, ◌*◌, ◌/◌, ◌%◌, ◌^◌, ◌≤◌, ◌<◌, min, max, ◌≡◌, refl, sym, ap,
  ap₂, ◌∙◌, fun_ext, subst, ◌≢◌, ◌↔◌, ◌⊎◌, inl, inr, Bool, true, false, not, ◌&&◌, ◌||◌, Option,
  none, some, List, [], ◌∷◌, ◌++◌, map, append_assoc, append-nil, arith,
}

abbrev pub key_nul : ℕ
key_nul = 0

abbrev pub key_no_key : ℕ
key_no_key = 1

abbrev pub key_tab : ℕ
key_tab = 2

abbrev pub key_unicode : ℕ
key_unicode = 0xff

pub data EventType : Type 0 where
  invalid keypress button_press button_release : EventType

abbrev pub same_type : EventType → EventType → Bool
same_type invalid invalid = true
same_type keypress keypress = true
same_type button_press button_press = true
same_type button_release button_release = true
same_type _ _ = false

-- `input_event_s`
pub record InputEvent : Type 0 where
  pub kind : EventType
  pub key : ℕ
  pub is_range : Bool
  pub start_value : ℕ
  pub end_value : ℕ
  pub ctrl : Bool
  pub shift : Bool
  pub alt_l : Bool
  pub alt_r : Bool
  pub oskey : Bool
  pub button_mask : ℕ
  pub x : ℕ
  pub y : ℕ

-- `1 << n` in 32 bits; a longer shift is a fault.
abbrev pub shifted_one : ℕ → Option ℕ
shifted_one n = if ltb n 32 then some (2 ^ n) else none

abbrev pub has_bit : ℕ → ℕ → Bool
has_bit mod_mask bit = not (bit_and mod_mask bit == 0)

-- `input_event_s(kt, rt, mod_mask, start_val, end_val)`: a key press. `Tab` becomes a character.
unfoldable pub key_event : ℕ → Bool → ℕ → ℕ → ℕ → InputEvent
key_event kt range mod_mask start_val end_val =
    let tab = kt == key_tab in
    let kt' = (if tab then key_unicode else kt) in
    record {
      kind = keypress;
      key = kt';
      is_range = range;
      start_value = (if tab then 9 else start_val);
      end_value = (if tab then 9 else end_val);
      ctrl = has_bit mod_mask 1;
      shift = false;
      alt_l = has_bit mod_mask 4;
      alt_r = (if kt' == key_unicode then false else has_bit mod_mask 8);
      oskey = has_bit mod_mask 16;
      button_mask = 0;
      x = 0;
      y = 0;
    }

-- `input_event_s(button_event, x, y, button)`
unfoldable pub button_event : EventType → ℕ → ℕ → ℕ → Option InputEvent
button_event kind x y button = shifted_one ((button + 2 ^ 32 - 1) % 2 ^ 32) >>= λ mask.
    some (record {
      kind = kind;
      key = key_no_key;
      is_range = false;
      start_value = 0;
      end_value = 0;
      ctrl = false;
      shift = false;
      alt_l = false;
      alt_r = false;
      oskey = false;
      button_mask = mask;
      x = x;
      y = y;
    })

abbrev pub same_bool : Bool → Bool → Bool
same_bool true b = b
same_bool false b = not b

abbrev pub same_modifiers : InputEvent → InputEvent → Bool
same_modifiers a b =
    same_bool a.ctrl b.ctrl
    && same_bool a.alt_l b.alt_l
    && same_bool a.alt_r b.alt_r
    && same_bool a.oskey b.oskey

-- `operator ==`
unfoldable pub same_event : InputEvent → InputEvent → Bool
same_event a b = same_type a.kind b.kind && elim a.kind [
  | keypress ↦
      a.key == b.key
      && same_bool a.is_range b.is_range
      && a.start_value == b.start_value
      && a.end_value == b.end_value
      && same_modifiers a b
  | button_press ↦ a.button_mask == b.button_mask
  | button_release ↦ a.button_mask == b.button_mask
  | invalid ↦ false
]

-- `contains(b)`
unfoldable pub contains : InputEvent → InputEvent → Bool
contains a b = same_event a b || elim a.kind [
  | keypress ↦
      a.key == b.key
      && a.is_range
      && leb a.start_value b.start_value
      && leb b.end_value a.end_value
      && same_modifiers a b
  | button_press ↦ false
  | button_release ↦ false
  | invalid ↦ false
]

-- ===== src/Keymap/Tests.antt =====
-- The theorems about input maps on a map of two levels, and the text of such a map.
use ewlibs.Base.{
  leb, ◌==◌, if◌then◌else◌, ℕ, zero, suc, ◌-◌, ◌≡◌, refl, Bool, true, false, ◌&&◌, Option, none,
  some, List, [], ◌∷◌, arith,
}
use ewlibs.Base.Memory.{Memory}
use ewlibs.Keymap.{same_event, contains, InputEvent, key_unicode}
use ewlibs.Keymap.Tree.{
  Action, Entries, no_entries, entry, entry_count, action_at, entries_at, last_equal, SeqNode,
  last_action, add_keys, find_seq_nodes, keymap_insert_sequence, give_action, append_below,
  append_nodes, push_back,
}
use ewlibs.Keymap.Dispatch.{eval_input_event, eval_event, Response}
use ewlibs.Keymap.Refinement.{action_of, same_keys, ActionLast}
use ewlibs.Keymap.Updating.{action_of-add_keys}
use ewlibs.Keymap.Proper.{Proper, Compatible}
use ewlibs.Keymap.Typing.{ProperLevel, eval_event-ProperLevel, add_keys-conflict}
use ewlibs.Keymap.Sequences.{type_keys, Unshadowed, responses, add_keys-type_keys}
use ewlibs.Keymap.Script.{codes, Libc, ReadsPart, ParseContext, new_entry_event}
use ewlibs.Keymap.Script.Running.{parse_input_map_string}
use ewlibs.Keymap.Script.Progress.{Leaves}
use ewlibs.Keymap.Script.Termination.{parse_input_map_string-Ends}
use ewlibs.Utf8.Codec.{init}

abbrev char_key : Bool → ℕ → InputEvent
char_key ctrl ch = record new_entry_event {
  key = key_unicode;
  start_value = ch;
  end_value = ch;
  ctrl = ctrl;
}

abbrev unbound_node : InputEvent → SeqNode
unbound_node ev = record { ev = ev; action = none }

abbrev bound_node : InputEvent → Action → SeqNode
bound_node ev a = record { ev = ev; action = some a }

-- Control and `x`, then `c`.
abbrev quit_map : Entries
quit_map =
    entry (char_key true b'x') none
      (entry (char_key false b'c') (some (codes "quit")) no_entries no_entries) no_entries

abbrev save_keys : List InputEvent
save_keys = char_key true b'x' ∷ char_key false b's' ∷ []

quit_map-Proper : Proper quit_map
unfolding Proper entry_count
quit_map-Proper = (omega arith, (refl, tt, tt), tt)

action_of-add_keys_example :
    action_of
      (add_keys quit_map
        (unbound_node (char_key true b'x') ∷ bound_node (char_key false b's') (codes "save") ∷ []))
      save_keys
    ≡ (if same_keys save_keys
          (unbound_node (char_key true b'x') ∷ bound_node (char_key false b's') (codes "save") ∷ [])
        then last_action (
            unbound_node (char_key true b'x')
            ∷ bound_node (char_key false b's') (codes "save")
            ∷ [])
        else action_of quit_map save_keys)
unfolding ActionLast
action_of-add_keys_example =
    action_of-add_keys quit_map (unbound_node (char_key true b'x'))
      (bound_node (char_key false b's') (codes "save") ∷ []) save_keys (refl, tt)

save_keys-Compatible :
    Compatible quit_map
      (unbound_node (char_key true b'x') ∷ bound_node (char_key false b's') (codes "save") ∷ [])
unfolding Compatible last_equal same_event action_at entries_at
save_keys-Compatible zero h = (refl, λ j k. absurd (cc k))
save_keys-Compatible (suc i) h = absurd (cc h)

eval_event-ProperLevel_example :
    (r : Response) × (level' : Option Entries) × (eval_event quit_map none (char_key true b'x')
      ≡ some (r, level'))
    × ProperLevel level'
eval_event-ProperLevel_example =
    eval_event-ProperLevel quit_map none (char_key true b'x') quit_map-Proper tt

-- `f` alone is added to the map.
find_key-Unshadowed :
    Unshadowed
      (add_keys quit_map (bound_node (char_key false b'f') (codes "find") ∷ []))
      (char_key false b'f' ∷ [])
unfolding Unshadowed eval_input_event last_equal same_event contains add_keys find_seq_nodes
    keymap_insert_sequence give_action append_below append_nodes push_back
find_key-Unshadowed = (refl, λ i n. tt)

find_key-Compatible : Compatible quit_map (bound_node (char_key false b'f') (codes "find") ∷ [])
unfolding Compatible last_equal same_event
find_key-Compatible i h = absurd (cc h)

add_keys-type_keys_example :
    type_keys
      (add_keys quit_map (bound_node (char_key false b'f') (codes "find") ∷ []))
      none
      (char_key false b'f' ∷ [])
    ≡ some (responses (char_key false b'f' ∷ []) (codes "find"), none)
unfolding ActionLast last_action same_keys same_event
add_keys-type_keys_example =
    add_keys-type_keys quit_map (bound_node (char_key false b'f') (codes "find")) [] (codes "find")
      (char_key false b'f' ∷ []) quit_map-Proper tt refl find_key-Compatible refl
      find_key-Unshadowed

-- `c` already ends a map of one level.
abbrev one_key : Entries
one_key = entry (char_key false b'c') (some (codes "quit")) no_entries no_entries

add_keys-conflict_example :
    eval_event
      (add_keys one_key
        (unbound_node (char_key false b'c') ∷ bound_node (char_key false b'd') (codes "cut") ∷ []))
      none
      (char_key false b'c')
    ≡ none
unfolding last_equal same_event eval_input_event contains action_at
add_keys-conflict_example =
    add_keys-conflict one_key (unbound_node (char_key false b'c'))
      (bound_node (char_key false b'd') (codes "cut")) [] (char_key false b'c') 0 (codes "quit")
      refl refl refl

-- A libc whose numbers have one digit.
abbrev one_digit : List ℕ → ℕ × List ℕ
one_digit [] = (0, [])
one_digit (b ∷ text) = (b - b'0', text)

abbrev small_libc : Libc
small_libc = record {
  isalnum = λ b. leb b'a' b && leb b b'z';
  isblank = λ b. b == b' ';
  tolower = λ b. b;
  number = λ base. one_digit;
}

small_libc-ReadsPart : ReadsPart small_libc
small_libc-ReadsPart base [] = omega arith
small_libc-ReadsPart base (b ∷ text) = omega arith

abbrev no_states : Memory
no_states = λ i. 0

abbrev ready : ParseContext
ready = record {
  p = codes "f1 = quit";
  tmp_kval = 0;
  ev = new_entry_event;
  action = none;
  cur_seq = [];
  input_map = no_entries;
}

parse_input_map_string-Ends_example :
    Leaves (λ ctx'. ctx'.p) 0 (parse_input_map_string 9 small_libc (init no_states no_states) ready)
parse_input_map_string-Ends_example =
    parse_input_map_string-Ends small_libc small_libc-ReadsPart (init no_states no_states) 9 ready
      (omega arith)

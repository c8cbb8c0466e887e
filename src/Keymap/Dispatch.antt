-- ===== src/Keymap/Dispatch.antt =====
-- What an input event does to the input map context of a view: `eval_input_event` of
-- app/eedit/core/input/event/input_event_map.hpp, and the function of the same name in
-- app/eedit/core/event/process_event.cpp.
use ewlibs.Base.{◌==◌, if◌then◌else◌, ℕ, suc, Option, none, some}
use ewlibs.Keymap.{InputEvent, same_event, contains}
use ewlibs.Keymap.Tree.{Action, Entries, no_entries, entry, action_at, entries_at, entry_count}

-- `eval_input_event(ev, current_level, match_found)`: the last entry that is equal to the event or
-- contains it.
unfoldable pub eval_input_event : Entries → InputEvent → Option ℕ
eval_input_event no_entries ev = none
eval_input_event (entry a act ch rest) ev = elim (eval_input_event rest ev) [
  | some i ↦ some (suc i)
  | none ↦ if same_event a ev then some 0 else if contains a ev then some 0 else none
]

-- What the handler does with the event.
pub data Response : Type 0 where
  no_match need_more : Response
  run : Action → Response

-- `eval_input_event(base_msg)` on a view whose buffer is valid. `root` is the map "default", and
-- `level` is `last_keymap_entry`, none for the null pointer; `cur_event_map` stays null. The response
-- comes with the level after it. `none` is an assertion that fails.
unfoldable pub eval_event :
    Entries → Option Entries → InputEvent → Option (Response × Option Entries)
eval_event root level ev =
    let cur_seq : Entries = elim level [ none ↦ root | some l ↦ l ] in
    elim (eval_input_event cur_seq ev) [
      | none ↦ some (no_match, none)
      | some i ↦
          let below = entries_at cur_seq i in
          elim (action_at cur_seq i) [
            | none ↦ if entry_count below == 0 then none else some (need_more, some below)
            | some action ↦ if entry_count below == 0 then some (run action, none) else none
          ]
    ]

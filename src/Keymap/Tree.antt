-- ===== src/Keymap/Tree.antt =====
-- The tree of an input map: finding the part of a sequence of keys that is there, and adding the rest.
-- A vector of entries is a list whose elements hold the list below them, and a pointer to an entry is
-- the list of the indices that lead to it. The nodes of a sequence that the source deletes are not
-- kept.
use ewlibs.Base.{
  ◌==◌, if◌then◌else◌, length, drop, ℕ, zero, suc, Bool, true, false, Option, none, some, List, [],
  ◌∷◌,
}
use ewlibs.Keymap.{InputEvent, same_event}

-- `input_action`: the bytes of its name.
abbrev pub Action : Type 0
Action = List ℕ

-- `std::vector<input_map_entry *>`: an event, an action or the null pointer, the entries below, and
-- the entries after it.
pub data Entries : Type 0 where
  no_entries : Entries
  entry : InputEvent → Option Action → Entries → Entries → Entries

unfoldable pub push_back : Entries → InputEvent → Option Action → Entries → Entries
push_back no_entries ev action below = entry ev action below no_entries
push_back (entry b act ch rest) ev action below = entry b act ch (push_back rest ev action below)

unfoldable pub entry_count : Entries → ℕ
entry_count no_entries = 0
entry_count (entry b act ch rest) = suc (entry_count rest)

-- The action of an entry, and the entries below it.
unfoldable pub action_at : Entries → ℕ → Option Action
action_at no_entries i = none
action_at (entry b act ch rest) zero = act
action_at (entry b act ch rest) (suc i) = action_at rest i

unfoldable pub entries_at : Entries → ℕ → Entries
entries_at no_entries i = no_entries
entries_at (entry b act ch rest) zero = ch
entries_at (entry b act ch rest) (suc i) = entries_at rest i

unfoldable pub replace_action : Entries → ℕ → Option Action → Entries
replace_action no_entries i a = no_entries
replace_action (entry b act ch rest) zero a = entry b a ch rest
replace_action (entry b act ch rest) (suc i) a = entry b act ch (replace_action rest i a)

unfoldable pub replace_entries : Entries → ℕ → Entries → Entries
replace_entries no_entries i m = no_entries
replace_entries (entry b act ch rest) zero m = entry b act m rest
replace_entries (entry b act ch rest) (suc i) m = entry b act ch (replace_entries rest i m)

-- The loop of `find_seq_nodes` over one level, from the back: the last entry with an equal event.
unfoldable pub last_equal : Entries → InputEvent → Option ℕ
last_equal no_entries a = none
last_equal (entry b act ch rest) a = elim (last_equal rest a) [
  | some i ↦ some (suc i)
  | none ↦ if same_event a b then some 0 else none
]

-- The nodes of a sequence of keys.
pub record SeqNode : Type 0 where
  pub ev : InputEvent
  pub action : Option Action

-- `find_seq_nodes`: whether a node was found, and the entries that it pushes on `out`.
unfoldable pub find_seq_nodes : Entries → List SeqNode → Bool × List ℕ
find_seq_nodes m [] = (false, [])
find_seq_nodes m (a ∷ []) = elim (last_equal m a.ev) [
  | none ↦ (false, [])
  | some i ↦ (true, i ∷ [])
]
find_seq_nodes m (a ∷ b ∷ seq) = elim (last_equal m a.ev) [
  | none ↦ (false, [])
  | some i ↦ let r = find_seq_nodes (entries_at m i) (b ∷ seq) in (r.0, i ∷ r.1)
]

-- The loop of `keymap_insert_sequence` over the nodes that remain.
unfoldable pub append_nodes : Entries → List SeqNode → Entries
append_nodes m [] = m
append_nodes m (s ∷ seq) = push_back m s.ev s.action (append_nodes no_entries seq)

-- The same loop, below the last of the entries that were found.
unfoldable pub append_below : Entries → List ℕ → List SeqNode → Entries
append_below m [] seq = append_nodes m seq
append_below m (i ∷ out) seq = replace_entries m i (append_below (entries_at m i) out seq)

-- The exchange of the actions: the last entry that was found gets the action of the sequence.
unfoldable pub give_action : Entries → List ℕ → Option Action → Entries
give_action m [] a = m
give_action m (i ∷ []) a = replace_action m i a
give_action m (i ∷ j ∷ out) a = replace_entries m i (give_action (entries_at m i) (j ∷ out) a)

unfoldable pub last_action : List SeqNode → Option Action
last_action [] = none
last_action (s ∷ []) = s.action
last_action (s ∷ t ∷ seq) = last_action (t ∷ seq)

-- `keymap_insert_sequence(input_map, seq, out)`
unfoldable pub keymap_insert_sequence : Entries → List SeqNode → List ℕ → Entries
keymap_insert_sequence m seq out =
    let m' = (if length out == length seq then give_action m out (last_action seq) else m) in
    append_below m' out (drop (length out) seq)

-- `add_keys_to_current_input_map`, with `find_sequence`
unfoldable pub add_keys : Entries → List SeqNode → Entries
add_keys m seq = keymap_insert_sequence m seq (find_seq_nodes m seq).1

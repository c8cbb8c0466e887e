-- ===== src/Keymap/Binding.antt =====
-- Adding a sequence of keys as one recursion over the tree, and what `add_keys` is in these terms.
use ewlibs.Base.{
  ◌==◌, Bool-cases, Option-cases, length, drop, ℕ, zero, suc, ◌<◌, ◌≡◌, refl, sym, ap, ◌∙◌, inl,
  inr, true, false, none, some, List, [], ◌∷◌, arith,
}
use ewlibs.Keymap.Tree.{
  Entries, no_entries, entry, entry_count, entries_at, replace_action, replace_entries, last_equal,
  SeqNode, find_seq_nodes, append_nodes, append_below, give_action, last_action,
  keymap_insert_sequence, add_keys,
}
use ewlibs.Keymap.Levels.{last_equal-lt, entries_at-replace_entries}

-- Follow the sequence as far as it is in the tree; append the rest of it there, or set the action.
unfoldable pub bind : Entries → List SeqNode → Entries
bind m [] = m
bind m (a ∷ []) = elim (last_equal m a.ev) [
  | none ↦ append_nodes m (a ∷ [])
  | some i ↦ replace_action m i a.action
]
bind m (a ∷ b ∷ seq) = elim (last_equal m a.ev) [
  | none ↦ append_nodes m (a ∷ b ∷ seq)
  | some i ↦ replace_entries m i (bind (entries_at m i) (b ∷ seq))
]

replace_entries_same : (m : Entries) (i : ℕ) → replace_entries m i (entries_at m i) ≡ m
unfolding replace_entries entries_at
replace_entries_same no_entries i = refl
replace_entries_same (entry b act ch rest) zero = refl
replace_entries_same (entry b act ch rest) (suc i) =
    ap (entry b act ch) (replace_entries_same rest i)

replace_entries_twice :
    (m : Entries) (i : ℕ) (x y : Entries)
    → replace_entries (replace_entries m i x) i y ≡ replace_entries m i y
unfolding replace_entries
replace_entries_twice no_entries i x y = refl
replace_entries_twice (entry b act ch rest) zero x y = refl
replace_entries_twice (entry b act ch rest) (suc i) x y =
    ap (entry b act ch) (replace_entries_twice rest i x y)

entries_at_self :
    (m : Entries) (i : ℕ) (x : Entries)
    → i < entry_count m
    → entries_at (replace_entries m i x) i ≡ x
entries_at_self m i x h = ground (arith, entries_at-replace_entries x m i i h)

-- Below an entry that was found, the insertion goes on with the rest of both lists.
insert_below :
    (m : Entries) (a b : SeqNode) (seq : List SeqNode) (i : ℕ) (out : List ℕ)
    → i < entry_count m
    → keymap_insert_sequence m (a ∷ b ∷ seq) (i ∷ out)
      ≡ replace_entries m i (keymap_insert_sequence (entries_at m i) (b ∷ seq) out)
unfolding keymap_insert_sequence append_below give_action last_action
insert_below m a b seq i [] h =
    let test : (length (i ∷ []) == length (a ∷ b ∷ seq)) ≡ false = ground arith in
    let test' : (0 == length (b ∷ seq)) ≡ false = ground arith in rw (test, test')
insert_below m a b seq i (j ∷ out) h = elim (Bool-cases (length (j ∷ out) == length (b ∷ seq))) [
  | inl e ↦
      let test : (length (i ∷ j ∷ out) == length (a ∷ b ∷ seq)) ≡ true = ground arith in
      let below = give_action (entries_at m i) (j ∷ out) (last_action (b ∷ seq)) in
      rw (test, e)
        (ap
            (λ x.
              replace_entries (replace_entries m i below) i
                (append_below x (j ∷ out) (drop (length (j ∷ out)) (b ∷ seq))))
            (entries_at_self m i below h)
          ∙ replace_entries_twice m i below _)
  | inr e ↦
      let test : (length (i ∷ j ∷ out) == length (a ∷ b ∷ seq)) ≡ false = ground arith in
      rw (test, e)
]

found_once :
    (m : Entries) (a : SeqNode) (i : ℕ)
    → keymap_insert_sequence m (a ∷ []) (i ∷ []) ≡ replace_action m i a.action
unfolding keymap_insert_sequence append_below give_action last_action append_nodes
found_once m a i = replace_entries_same (replace_action m i a.action) i

not_found :
    (m : Entries) (a : SeqNode) (seq : List SeqNode)
    → keymap_insert_sequence m (a ∷ seq) [] ≡ append_nodes m (a ∷ seq)
unfolding keymap_insert_sequence append_below give_action
not_found m a seq = let test : (0 == length (a ∷ seq)) ≡ false = ground arith in rw test

module _ (m : Entries) (a : SeqNode) where
  found_nodes_none :
      (seq : List SeqNode) → last_equal m a.ev ≡ none → (find_seq_nodes m (a ∷ seq)).1 ≡ []
  unfolding find_seq_nodes
  found_nodes_none [] e = rw (find_seq_nodes, e)
  found_nodes_none (b ∷ seq) e = rw (find_seq_nodes, e)

  pub bind-none :
      (seq : List SeqNode) → last_equal m a.ev ≡ none → bind m (a ∷ seq) ≡ append_nodes m (a ∷ seq)
  unfolding bind
  bind-none [] e = rw (bind, e)
  bind-none (b ∷ seq) e = rw (bind, e)

  module _ (i : ℕ) (e : last_equal m a.ev ≡ some i) where
    found_last : (find_seq_nodes m (a ∷ [])).1 ≡ i ∷ []
    unfolding find_seq_nodes
    found_last = rw (find_seq_nodes, e)

    found_more :
        (b : SeqNode) (seq : List SeqNode)
        → (find_seq_nodes m (a ∷ b ∷ seq)).1 ≡ i ∷ (find_seq_nodes (entries_at m i) (b ∷ seq)).1
    unfolding find_seq_nodes
    found_more b seq = rw (find_seq_nodes, e)

    pub bind_last : bind m (a ∷ []) ≡ replace_action m i a.action
    unfolding bind
    bind_last = rw (bind, e)

    pub bind_more :
        (b : SeqNode) (seq : List SeqNode)
        → bind m (a ∷ b ∷ seq) ≡ replace_entries m i (bind (entries_at m i) (b ∷ seq))
    unfolding bind
    bind_more b seq = rw (bind, e)

pub add_keys-bind : (m : Entries) (seq : List SeqNode) → add_keys m seq ≡ bind m seq
unfolding add_keys
add_keys-bind m [] =
    unfold bind find_seq_nodes keymap_insert_sequence append_below give_action append_nodes in refl
add_keys-bind m (a ∷ seq) = elim (Option-cases (last_equal m a.ev)) [
  | inl e ↦
      ap (keymap_insert_sequence m (a ∷ seq)) (found_nodes_none m a seq e)
      ∙ not_found m a seq
      ∙ sym (bind-none m a seq e)
  | inr (i, e) ↦ found i e seq (add_keys-bind (entries_at m i) seq)
]
  where
    found :
        (i : ℕ)
        → last_equal m a.ev ≡ some i
        → (seq : List SeqNode) → add_keys (entries_at m i) seq ≡ bind (entries_at m i) seq
        → add_keys m (a ∷ seq) ≡ bind m (a ∷ seq)
    found i e [] ih =
        ap (keymap_insert_sequence m (a ∷ [])) (found_last m a i e)
        ∙ found_once m a i
        ∙ sym (bind_last m a i e)
    found i e (b ∷ rest) ih =
        ap (keymap_insert_sequence m (a ∷ b ∷ rest)) (found_more m a i e b rest)
        ∙ insert_below m a b rest i _ (last_equal-lt m a.ev i e)
        ∙ ap (replace_entries m i) ih
        ∙ sym (bind_more m a i e b rest)

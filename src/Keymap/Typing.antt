-- ===== src/Keymap/Typing.antt =====
-- What typing keys does to the input map context of a view.
use ewlibs.Base.{
  ◌==◌, ==_refl, Option-cases, ℕ, zero, suc, ◌<◌, ◌≡◌, refl, ap, ◌∙◌, inl, inr, true, false, Option,
  none, some, List, ◌∷◌, arith,
}
use ewlibs.Keymap.{InputEvent}
use ewlibs.Keymap.Tree.{
  Action, Entries, no_entries, entry, entry_count, action_at, entries_at, replace_entries,
  last_equal, SeqNode, add_keys,
}
use ewlibs.Keymap.Dispatch.{eval_input_event, eval_event, Response, no_match, need_more, run}
use ewlibs.Keymap.Levels.{last_equal-lt, action_at-replace_entries, entries_at-replace_entries}
use ewlibs.Keymap.Binding.{bind, bind_more, add_keys-bind}
use ewlibs.Keymap.Proper.{Proper, Proper-at, bind-pos}

-- The level from which a view reads its next event.
abbrev pub level_of : Entries → Option Entries → Entries
level_of root none = root
level_of root (some l) = l

pub eval_input_event-lt :
    (m : Entries) (e : InputEvent) (i : ℕ) → eval_input_event m e ≡ some i → i < entry_count m
unfolding eval_input_event entry_count
eval_input_event-lt no_entries e i h = cc
eval_input_event-lt (entry b act below rest) e zero h = omega arith
eval_input_event-lt (entry b act below rest) e (suc i) h =
    ground (arith, eval_input_event-lt rest e i)

-- The context of a view: nothing typed yet, or a level of a proper map.
abbrev pub ProperLevel : Option Entries → Type 0
ProperLevel none = Unit
ProperLevel (some l) = Proper l

module _ (root : Entries) (level : Option Entries) (e : InputEvent) where
  step_none :
      eval_input_event (level_of root level) e ≡ none
      → eval_event root level e ≡ some (no_match, none)
  unfolding eval_event
  step_none at = rw (eval_event, at)

  module _ (i : ℕ) (at : eval_input_event (level_of root level) e ≡ some i) where
    pub step_more :
        action_at (level_of root level) i ≡ none
        → 0 < entry_count (entries_at (level_of root level) i)
        → eval_event root level e ≡ some (need_more, some (entries_at (level_of root level) i))
    unfolding eval_event
    step_more a h =
        let test : (entry_count (entries_at (level_of root level) i) == 0) ≡ false = ground arith in
        rw (eval_event, at, a, test)

    pub step_run :
        (action : Action)
        → action_at (level_of root level) i ≡ some action
        → entry_count (entries_at (level_of root level) i) ≡ 0
        → eval_event root level e ≡ some (run action, none)
    unfolding eval_event
    step_run action a h =
        let test : (entry_count (entries_at (level_of root level) i) == 0) ≡ true = ground arith in
        rw (eval_event, at, a, test)

    step_fault :
        (action : Action)
        → action_at (level_of root level) i ≡ some action
        → 0 < entry_count (entries_at (level_of root level) i)
        → eval_event root level e ≡ none
    unfolding eval_event
    step_fault action a h =
        let test : (entry_count (entries_at (level_of root level) i) == 0) ≡ false = ground arith in
        rw (eval_event, at, a, test)

Proper-level_of :
    (root : Entries) (level : Option Entries)
    → Proper root
    → ProperLevel level
    → Proper (level_of root level)
Proper-level_of root none p q = p
Proper-level_of root (some l) p q = q

-- With a proper map no event of any kind makes an assertion of the handler fail, and the context is
-- proper again.
pub eval_event-ProperLevel :
    (root : Entries) (level : Option Entries) (e : InputEvent)
    → Proper root
    → ProperLevel level
    → (r : Response) × (level' : Option Entries) × (eval_event root level e ≡ some (r, level'))
      × ProperLevel level'
eval_event-ProperLevel root level e p q =
    elim (Option-cases (eval_input_event (level_of root level) e)) [
      | inl n ↦ (no_match, none, step_none root level e n, tt)
      | inr (i, n) ↦
          let (here, below) =
            Proper-at (level_of root level) i (Proper-level_of root level p q)
              (eval_input_event-lt (level_of root level) e i n) in
          elim (Option-cases (action_at (level_of root level) i)) [
            | inl a ↦ (
              need_more,
              some (entries_at (level_of root level) i),
              step_more root level e i n a (rw a at here),
              below,
            )
            | inr (action, a) ↦
                (run action, none, step_run root level e i n action a (rw a at here), tt)
          ]
    ]

eval_input_event-replace_entries :
    (m : Entries) (i : ℕ) (x : Entries) (e : InputEvent)
    → eval_input_event (replace_entries m i x) e ≡ eval_input_event m e
unfolding eval_input_event replace_entries
eval_input_event-replace_entries no_entries i x e = refl
eval_input_event-replace_entries (entry b act below rest) zero x e = refl
eval_input_event-replace_entries (entry b act below rest) (suc i) x e =
    ground (arith, eval_input_event-replace_entries rest i x e)

-- After a sequence of at least two keys was added to a map in which its first key has an action already,
-- at the entry that the key leads to, the key makes an assertion of the handler fail.
pub add_keys-conflict :
    (m : Entries) (s t : SeqNode) (seq : List SeqNode) (e : InputEvent) (i : ℕ) (a : Action)
    → last_equal m s.ev ≡ some i
    → eval_input_event m e ≡ some i
    → action_at m i ≡ some a
    → eval_event (add_keys m (s ∷ t ∷ seq)) none e ≡ none
add_keys-conflict m s t seq e i a n at act =
    let x = bind (entries_at m i) (t ∷ seq) in
    let self : entries_at (replace_entries m i x) i ≡ x =
      entries_at-replace_entries x m i i (last_equal-lt m s.ev i n) ∙ rw (==_refl i) in
    ap (λ z. eval_event z none e) (add_keys-bind m (s ∷ t ∷ seq) ∙ bind_more m s i n t seq)
    ∙ step_fault (replace_entries m i x) none e i (eval_input_event-replace_entries m i x e ∙ at) a
        (action_at-replace_entries x m i i ∙ act) (rw self (bind-pos (entries_at m i) t seq))

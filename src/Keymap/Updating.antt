-- ===== src/Keymap/Updating.antt =====
-- `add_keys` updates the finite map that an input map is at one sequence of keys.
use ewlibs.Base.{
  if◌then◌else◌, ==_refl, Bool-cases, Option-cases, ℕ, ◌≡◌, refl, sym, ap, ap₂, ◌∙◌, inl, inr, true,
  false, none, some, List, [], ◌∷◌,
}
use ewlibs.Keymap.{InputEvent, same_event}
use ewlibs.Keymap.Tree.{
  Entries, no_entries, push_back, entry_count, action_at, entries_at, replace_action,
  replace_entries, last_equal, SeqNode, append_nodes, last_action, add_keys,
}
use ewlibs.Keymap.Levels.{
  action_at-push_back, entries_at-push_back, action_at-replace_action, entries_at-replace_action,
  action_at-replace_entries, entries_at-replace_entries, last_equal-lt, last_equal_congr,
}
use ewlibs.Keymap.Binding.{bind, bind-none, bind_last, bind_more, add_keys-bind}
use ewlibs.Keymap.Refinement.{
  action_of, same_keys, ActionLast, updated, action_of_found, action_under, action_of-cons,
  action_of_empty, Differs, action_of-hit, action_of-miss, push_back-Differs,
  replace_action-Differs, replace_entries-Differs,
}

same_keys_miss :
    (e : InputEvent) (es : List InputEvent) (m : Entries) (s : SeqNode) (seq : List SeqNode)
    → same_event e s.ev ≡ false
    → updated (e ∷ es) m (s ∷ seq) ≡ action_of m (e ∷ es)
unfolding same_keys
same_keys_miss e es m s seq h = rw h

-- Where the first event is new, no sequence that begins with it has an action.
fresh_first :
    (m : Entries) (e s : InputEvent) (es : List InputEvent)
    → last_equal m s ≡ none
    → same_event e s ≡ true
    → action_of m (e ∷ es) ≡ none
fresh_first m e s es absent h = action_of-cons m e es ∙ rw (last_equal_congr m e s h ∙ absent)

same_keys_hit :
    (e : InputEvent) (es : List InputEvent) (m : Entries) (s : SeqNode) (seq : List SeqNode)
    → same_event e s.ev ≡ true
    → updated (e ∷ es) m (s ∷ seq)
      ≡ (if same_keys es seq then last_action (s ∷ seq) else action_of m (e ∷ es))
unfolding same_keys
same_keys_hit e es m s seq h = rw h

-- A level that differs at one event is updated if it is right below that event.
right_below :
    (m m' : Entries) (s : SeqNode) (seq : List SeqNode) (k : ℕ) (d : Differs m m' s.ev k)
    (e : InputEvent) (es : List InputEvent)
    → (same_event e s.ev ≡ true
        → action_under m' k es
          ≡ (if same_keys es seq then last_action (s ∷ seq) else action_of m (e ∷ es)))
    → action_of m' (e ∷ es) ≡ updated (e ∷ es) m (s ∷ seq)
right_below m m' s seq k d e es below = elim (Bool-cases (same_event e s.ev)) [
  | inl h ↦ action_of-hit m m' s.ev k d e es h ∙ below h ∙ sym (same_keys_hit e es m s seq h)
  | inr h ↦ action_of-miss m m' s.ev k d e es h ∙ sym (same_keys_miss e es m s seq h)
]

module _ (m : Entries) (s : SeqNode) (below : Entries) where
  pushed_action : action_at (push_back m s.ev s.action below) (entry_count m) ≡ s.action
  pushed_action =
      action_at-push_back s.ev s.action below m (entry_count m) ∙ rw (==_refl (entry_count m))

  pushed_entries : entries_at (push_back m s.ev s.action below) (entry_count m) ≡ below
  pushed_entries =
      entries_at-push_back s.ev s.action below m (entry_count m) ∙ rw (==_refl (entry_count m))

-- The rest of a sequence, appended where its first event is not.
action_of-append_nodes :
    (m : Entries) (s : SeqNode) (seq : List SeqNode) (es : List InputEvent)
    → last_equal m s.ev ≡ none
    → ActionLast (s ∷ seq)
    → action_of (append_nodes m (s ∷ seq)) es ≡ updated es m (s ∷ seq)
unfolding append_nodes action_of same_keys last_action last_equal ActionLast
action_of-append_nodes m s seq [] absent al = refl
action_of-append_nodes m s [] (e ∷ []) absent al =
    right_below m _ s [] _ (push_back-Differs m s.ev s.action no_entries) e []
      (λ h. pushed_action m s no_entries)
action_of-append_nodes m s [] (e ∷ f ∷ es) absent al =
    right_below m _ s [] _ (push_back-Differs m s.ev s.action no_entries) e (f ∷ es) (λ h.
      ap (λ x. action_of x (f ∷ es)) (pushed_entries m s no_entries)
      ∙ action_of_empty (f ∷ es)
      ∙ sym (fresh_first m e s.ev (f ∷ es) absent h))
action_of-append_nodes m s (t ∷ seq) (e ∷ []) absent al =
    right_below m _ s (t ∷ seq) _
      (push_back-Differs m s.ev s.action (append_nodes no_entries (t ∷ seq))) e []
      (λ h.
        pushed_action m s (append_nodes no_entries (t ∷ seq))
        ∙ al.0
        ∙ sym (fresh_first m e s.ev [] absent h))
action_of-append_nodes m s (t ∷ seq) (e ∷ f ∷ es) absent al =
    right_below m _ s (t ∷ seq) _
      (push_back-Differs m s.ev s.action (append_nodes no_entries (t ∷ seq))) e (f ∷ es)
      (λ h.
        ap (λ x. action_of x (f ∷ es)) (pushed_entries m s (append_nodes no_entries (t ∷ seq)))
        ∙ action_of-append_nodes no_entries t seq (f ∷ es) refl al.1
        ∙ ap₂ (λ x y. if same_keys (f ∷ es) (t ∷ seq) then x else y) refl
            (action_of_empty (f ∷ es) ∙ sym (fresh_first m e s.ev (f ∷ es) absent h)))

module _ (m : Entries) (s : SeqNode) (i : ℕ) (at : last_equal m s.ev ≡ some i)
    (e : InputEvent) where
  -- The action that a sequence had, from the entry that was found.
  had :
      (es : List InputEvent) → same_event e s.ev ≡ true → action_under m i es ≡ action_of m (e ∷ es)
  had es h = sym (action_of_found m e es i (last_equal_congr m e s.ev h ∙ at))

  action_of-replace_action :
      (es : List InputEvent)
      → action_of (replace_action m i s.action) (e ∷ es) ≡ updated (e ∷ es) m (s ∷ [])
  unfolding same_keys last_action
  action_of-replace_action [] =
      right_below m _ s [] i (replace_action-Differs m s.ev s.action i at) e []
        (λ h. action_at-replace_action s.action m i i (last_equal-lt m s.ev i at) ∙ rw (==_refl i))
  action_of-replace_action (f ∷ es) =
      right_below m _ s [] i (replace_action-Differs m s.ev s.action i at) e (f ∷ es) (λ h.
        ap (λ x. action_of x (f ∷ es)) (entries_at-replace_action s.action m i i) ∙ had (f ∷ es) h)

  action_of-replace_entries :
      (t : SeqNode) (seq : List SeqNode) (below : Entries) (es : List InputEvent)
      → ((es : List InputEvent) → action_of below es ≡ updated es (entries_at m i) (t ∷ seq))
      → action_of (replace_entries m i below) (e ∷ es) ≡ updated (e ∷ es) m (s ∷ t ∷ seq)
  unfolding same_keys last_action
  action_of-replace_entries t seq below [] ih =
      right_below m _ s (t ∷ seq) i (replace_entries-Differs m s.ev below i at) e []
        (λ h. action_at-replace_entries below m i i ∙ had [] h)
  action_of-replace_entries t seq below (f ∷ es) ih =
      right_below m _ s (t ∷ seq) i (replace_entries-Differs m s.ev below i at) e (f ∷ es) (λ h.
        ap (λ x. action_of x (f ∷ es))
          (entries_at-replace_entries below m i i (last_equal-lt m s.ev i at) ∙ rw (==_refl i))
        ∙ ih (f ∷ es)
        ∙ ap (λ y. if same_keys (f ∷ es) (t ∷ seq) then last_action (t ∷ seq) else y)
            (had (f ∷ es) h))

action_of-bind :
    (m : Entries) (s : SeqNode) (seq : List SeqNode) (es : List InputEvent)
    → ActionLast (s ∷ seq)
    → action_of (bind m (s ∷ seq)) es ≡ updated es m (s ∷ seq)
unfolding ActionLast
action_of-bind m s seq [] al = unfold action_of same_keys in refl
action_of-bind m s [] (e ∷ es) al = elim (Option-cases (last_equal m s.ev)) [
  | inl n ↦ rw (bind-none m s [] n) (action_of-append_nodes m s [] (e ∷ es) n al)
  | inr (i, n) ↦ rw (bind_last m s i n) (action_of-replace_action m s i n e es)
]
action_of-bind m s (t ∷ seq) (e ∷ es) al = elim (Option-cases (last_equal m s.ev)) [
  | inl n ↦ rw (bind-none m s (t ∷ seq) n) (action_of-append_nodes m s (t ∷ seq) (e ∷ es) n al)
  | inr (i, n) ↦ rw (bind_more m s i n t seq) (
      action_of-replace_entries m s i n e t seq _ es
        (λ es. action_of-bind (entries_at m i) t seq es al.1))
]

-- After a sequence of keys, whose last node alone has an action, was added, a sequence of events that
-- are equal to it has this action, and every other sequence has the action that it had.
pub action_of-add_keys :
    (m : Entries) (s : SeqNode) (seq : List SeqNode) (es : List InputEvent)
    → ActionLast (s ∷ seq)
    → action_of (add_keys m (s ∷ seq)) es
      ≡ (if same_keys es (s ∷ seq) then last_action (s ∷ seq) else action_of m es)
action_of-add_keys m s seq es al =
    ap (λ x. action_of x es) (add_keys-bind m (s ∷ seq)) ∙ action_of-bind m s seq es al

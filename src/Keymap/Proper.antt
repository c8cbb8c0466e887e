-- ===== src/Keymap/Proper.antt =====
-- Input maps whose entries have an action exactly if nothing stands below them, which the handler of
-- events asserts.
use ewlibs.Base.{
  Option-cases, ℕ, zero, suc, ◌<◌, ◌≡◌, refl, ap, inl, inr, Option, none, some, List, [], ◌∷◌,
  arith,
}
use ewlibs.Keymap.{InputEvent}
use ewlibs.Keymap.Tree.{
  Action, Entries, no_entries, entry, push_back, entry_count, action_at, entries_at, replace_action,
  replace_entries, last_equal, SeqNode, append_nodes, last_action, add_keys,
}
use ewlibs.Keymap.Levels.{last_equal-lt, entry_count-push_back}
use ewlibs.Keymap.Binding.{bind, bind-none, bind_last, bind_more, add_keys-bind}
use ewlibs.Keymap.Refinement.{ActionLast}

-- An action and the entries below it exclude each other, and one of them is there.
abbrev pub Either : Option Action → Entries → Type 0
Either none below = 0 < entry_count below
Either (some a) below = entry_count below ≡ 0

unfoldable pub Proper : Entries → Type 0
Proper no_entries = Unit
Proper (entry b act below rest) = Either act below × Proper below × Proper rest

pub Proper-at :
    (m : Entries) (i : ℕ)
    → Proper m
    → i < entry_count m
    → Either (action_at m i) (entries_at m i) × Proper (entries_at m i)
unfolding Proper action_at entries_at entry_count
Proper-at no_entries i p h = absurd (omega arith)
Proper-at (entry b act below rest) zero p h = (p.0, p.1)
Proper-at (entry b act below rest) (suc i) p h = Proper-at rest i p.2 (omega arith)

Proper-push_back :
    (m : Entries) (ev : InputEvent) (act : Option Action) (below : Entries)
    → Proper m
    → Either act below
    → Proper below
    → Proper (push_back m ev act below)
unfolding Proper push_back
Proper-push_back no_entries ev act below p e q = (e, q, tt)
Proper-push_back (entry b a c rest) ev act below p e q =
    (p.0, p.1, Proper-push_back rest ev act below p.2 e q)

Proper-replace_action :
    (m : Entries) (i : ℕ) (a : Option Action)
    → Proper m
    → Either a (entries_at m i)
    → Proper (replace_action m i a)
unfolding Proper replace_action entries_at
Proper-replace_action no_entries i a p e = tt
Proper-replace_action (entry b act below rest) zero a p e = (e, p.1, p.2)
Proper-replace_action (entry b act below rest) (suc i) a p e =
    (p.0, p.1, Proper-replace_action rest i a p.2 e)

Proper-replace_entries :
    (m : Entries) (i : ℕ) (x : Entries)
    → Proper m
    → Either (action_at m i) x
    → Proper x
    → Proper (replace_entries m i x)
unfolding Proper replace_entries action_at
Proper-replace_entries no_entries i x p e q = tt
Proper-replace_entries (entry b act below rest) zero x p e q = (e, q, p.2)
Proper-replace_entries (entry b act below rest) (suc i) x p e q =
    (p.0, p.1, Proper-replace_entries rest i x p.2 e q)

-- No part of the sequence has an action already, and it is no part of a longer one.
unfoldable pub Compatible : Entries → List SeqNode → Type 0
Compatible m [] = ⊥
Compatible m (s ∷ []) = (i : ℕ) → last_equal m s.ev ≡ some i → entry_count (entries_at m i) ≡ 0
Compatible m (s ∷ t ∷ seq) =
    (i : ℕ)
    → last_equal m s.ev ≡ some i
    → (action_at m i ≡ none) × Compatible (entries_at m i) (t ∷ seq)

append_nodes-pos :
    (m : Entries) (s : SeqNode) (seq : List SeqNode) → 0 < entry_count (append_nodes m (s ∷ seq))
unfolding append_nodes
append_nodes-pos m s seq =
    omega (arith, entry_count-push_back s.ev s.action (append_nodes no_entries seq) m)

Proper-append_nodes :
    (m : Entries) (s : SeqNode) (seq : List SeqNode) (a : Action)
    → Proper m
    → ActionLast (s ∷ seq)
    → last_action (s ∷ seq) ≡ some a
    → Proper (append_nodes m (s ∷ seq))
unfolding append_nodes ActionLast last_action
Proper-append_nodes m s [] a p al la =
    Proper-push_back m s.ev s.action no_entries p (rw la (unfold entry_count in refl))
      (unfold Proper in tt)
Proper-append_nodes m s (t ∷ seq) a p al la =
    Proper-push_back m s.ev s.action (append_nodes no_entries (t ∷ seq)) p
      (rw (al.0) (append_nodes-pos no_entries t seq))
      (Proper-append_nodes no_entries t seq a (unfold Proper in tt) al.1 la)

entry_count-replace_action :
    (m : Entries) (i : ℕ) (a : Option Action) → entry_count (replace_action m i a) ≡ entry_count m
unfolding entry_count replace_action
entry_count-replace_action no_entries i a = refl
entry_count-replace_action (entry b act below rest) zero a = refl
entry_count-replace_action (entry b act below rest) (suc i) a =
    ap suc (entry_count-replace_action rest i a)

entry_count-replace_entries :
    (m : Entries) (i : ℕ) (x : Entries) → entry_count (replace_entries m i x) ≡ entry_count m
unfolding entry_count replace_entries
entry_count-replace_entries no_entries i x = refl
entry_count-replace_entries (entry b act below rest) zero x = refl
entry_count-replace_entries (entry b act below rest) (suc i) x =
    ap suc (entry_count-replace_entries rest i x)

-- A map to which a sequence was added is not empty.
pub bind-pos : (m : Entries) (s : SeqNode) (seq : List SeqNode) → 0 < entry_count (bind m (s ∷ seq))
bind-pos m s seq = elim (Option-cases (last_equal m s.ev)) [
  | inl n ↦ rw (bind-none m s seq n) (append_nodes-pos m s seq)
  | inr (i, n) ↦ kept i n seq
]
  where
    kept :
        (i : ℕ)
        → last_equal m s.ev ≡ some i
        → (seq : List SeqNode) → 0 < entry_count (bind m (s ∷ seq))
    kept i n [] =
        rw (bind_last m s i n, entry_count-replace_action m i s.action)
          (omega (arith, last_equal-lt m s.ev i n))
    kept i n (t ∷ seq) =
        rw (bind_more m s i n t seq, entry_count-replace_entries m i _)
          (omega (arith, last_equal-lt m s.ev i n))

Proper-bind :
    (m : Entries) (s : SeqNode) (seq : List SeqNode) (a : Action)
    → Proper m
    → ActionLast (s ∷ seq)
    → last_action (s ∷ seq) ≡ some a
    → Compatible m (s ∷ seq)
    → Proper (bind m (s ∷ seq))
unfolding ActionLast last_action Compatible
Proper-bind m s [] a p al la c = elim (Option-cases (last_equal m s.ev)) [
  | inl n ↦ rw (bind-none m s [] n) (Proper-append_nodes m s [] a p al la)
  | inr (i, n) ↦ rw (bind_last m s i n) (Proper-replace_action m i s.action p (rw la (c i n)))
]
Proper-bind m s (t ∷ seq) a p al la c = elim (Option-cases (last_equal m s.ev)) [
  | inl n ↦ rw (bind-none m s (t ∷ seq) n) (Proper-append_nodes m s (t ∷ seq) a p al la)
  | inr (i, n) ↦
      let (_, below) = Proper-at m i p (last_equal-lt m s.ev i n) in
      let (unbound, c') = c i n in
      rw (bind_more m s i n t seq) (
        Proper-replace_entries m i (bind (entries_at m i) (t ∷ seq)) p
          (rw unbound (bind-pos (entries_at m i) t seq))
          (Proper-bind (entries_at m i) t seq a below al.1 la c'))
]

-- A sequence with an action at its end that is compatible with the map leaves the map proper.
pub add_keys-Proper :
    (m : Entries) (s : SeqNode) (seq : List SeqNode) (a : Action)
    → Proper m
    → ActionLast (s ∷ seq)
    → last_action (s ∷ seq) ≡ some a
    → Compatible m (s ∷ seq)
    → Proper (add_keys m (s ∷ seq))
add_keys-Proper m s seq a p al la c =
    rw (add_keys-bind m (s ∷ seq)) (Proper-bind m s seq a p al la c)

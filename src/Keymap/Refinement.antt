-- ===== src/Keymap/Refinement.antt =====
-- An input map as a finite map from sequences of keys to actions, which `add_keys` updates at one
-- sequence.
use ewlibs.Base.{
  ◌==◌, if◌then◌else◌, ==_iff, Bool-cases, Option-cases, ◌>>=◌, ℕ, ◌≡◌, refl, sym, ap, ◌∙◌, inl,
  inr, Bool, true, false, ◌&&◌, Option, none, some, List, [], ◌∷◌, arith,
}
use ewlibs.Keymap.{InputEvent, same_event}
use ewlibs.Keymap.Tree.{
  Action, Entries, no_entries, push_back, entry_count, action_at, entries_at, replace_action,
  replace_entries, last_equal, SeqNode, last_action,
}
use ewlibs.Keymap.Levels.{
  last_equal-push_back, action_at-push_back, entries_at-push_back, last_equal-replace_action,
  action_at-replace_action, entries_at-replace_action, last_equal-replace_entries,
  action_at-replace_entries, entries_at-replace_entries, last_equal-lt, last_equal_congr,
  last_equal_same,
}

-- The action that a sequence of events has, where each event takes the last entry equal to it.
unfoldable pub action_of : Entries → List InputEvent → Option Action
action_of m [] = none
action_of m (e ∷ []) = last_equal m e >>= λ i. action_at m i
action_of m (e ∷ f ∷ es) = last_equal m e >>= λ i. action_of (entries_at m i) (f ∷ es)

unfoldable pub same_keys : List InputEvent → List SeqNode → Bool
same_keys [] [] = true
same_keys [] (s ∷ seq) = false
same_keys (e ∷ es) [] = false
same_keys (e ∷ es) (s ∷ seq) = same_event e s.ev && same_keys es seq

-- Only the last node of the sequence has an action, as the parser leaves them.
unfoldable pub ActionLast : List SeqNode → Type 0
ActionLast [] = ⊥
ActionLast (s ∷ []) = Unit
ActionLast (s ∷ t ∷ seq) = (s.action ≡ none) × ActionLast (t ∷ seq)

-- The map with another action at one sequence.
abbrev pub updated : List InputEvent → Entries → List SeqNode → Option Action
updated es m seq = if same_keys es seq then last_action seq else action_of m es

-- The action that the rest of a sequence has below an entry.
abbrev pub action_under : Entries → ℕ → List InputEvent → Option Action
action_under m i [] = action_at m i
action_under m i (f ∷ es) = action_of (entries_at m i) (f ∷ es)

pub action_of-cons :
    (m : Entries) (e : InputEvent) (es : List InputEvent)
    → action_of m (e ∷ es) ≡ (last_equal m e >>= λ i. action_under m i es)
unfolding action_of
action_of-cons m e [] = refl
action_of-cons m e (f ∷ es) = refl

pub action_of-none :
    (m : Entries) (e : InputEvent) (es : List InputEvent)
    → last_equal m e ≡ none
    → action_of m (e ∷ es) ≡ none
action_of-none m e es n = action_of-cons m e es ∙ rw n

pub action_of_found :
    (m : Entries) (e : InputEvent) (es : List InputEvent) (i : ℕ)
    → last_equal m e ≡ some i
    → action_of m (e ∷ es) ≡ action_under m i es
action_of_found m e es i n = action_of-cons m e es ∙ rw n

pub action_of_empty : (es : List InputEvent) → action_of no_entries es ≡ none
unfolding action_of last_equal
action_of_empty [] = refl
action_of_empty (e ∷ []) = refl
action_of_empty (e ∷ f ∷ es) = refl

action_under_same :
    (m m' : Entries) (i : ℕ) (es : List InputEvent)
    → action_at m' i ≡ action_at m i
    → entries_at m' i ≡ entries_at m i
    → action_under m' i es ≡ action_under m i es
action_under_same m m' i [] a e = a
action_under_same m m' i (f ∷ es) a e = ap (λ x. action_of x (f ∷ es)) e

-- A level that differs from another in the entry that one event takes.
pub record Differs (m m' : Entries) (s : InputEvent) (k : ℕ) : Type 0 where
  pub hit : (e : InputEvent) → same_event e s ≡ true → last_equal m' e ≡ some k
  pub miss : (e : InputEvent) → same_event e s ≡ false → last_equal m' e ≡ last_equal m e
  pub keep_action :
      (e : InputEvent) (i : ℕ)
      → same_event e s ≡ false
      → last_equal m e ≡ some i
      → action_at m' i ≡ action_at m i
  pub keep_entries :
      (e : InputEvent) (i : ℕ)
      → same_event e s ≡ false
      → last_equal m e ≡ some i
      → entries_at m' i ≡ entries_at m i

module _ (m m' : Entries) (s : InputEvent) (k : ℕ) (d : Differs m m' s k) (e : InputEvent)
    (es : List InputEvent) where
  pub action_of-hit : same_event e s ≡ true → action_of m' (e ∷ es) ≡ action_under m' k es
  action_of-hit h = action_of-cons m' e es ∙ rw (d.hit e h)

  pub action_of-miss : same_event e s ≡ false → action_of m' (e ∷ es) ≡ action_of m (e ∷ es)
  action_of-miss h = elim (Option-cases (last_equal m e)) [
    | inl n ↦ action_of-none m' e es (d.miss e h ∙ n) ∙ sym (action_of-none m e es n)
    | inr (i, n) ↦
        action_of-cons m' e es
        ∙ rw (d.miss e h, n)
            (action_under_same m m' i es (d.keep_action e i h n) (d.keep_entries e i h n))
        ∙ sym (action_of_found m e es i n)
  ]

pub push_back-Differs :
    (m : Entries) (s : InputEvent) (act : Option Action) (below : Entries)
    → Differs m (push_back m s act below) s (entry_count m)
push_back-Differs m s act below = record {
  hit = λ e h. ground (arith, last_equal-push_back s act below m e);
  miss = λ e h. ground (arith, last_equal-push_back s act below m e);
  keep_action =
      λ e i h n. ground (arith, action_at-push_back s act below m i, last_equal-lt m e i n);
  keep_entries =
      λ e i h n. ground (arith, entries_at-push_back s act below m i, last_equal-lt m e i n);
}

-- Another event takes another entry.
apart :
    (m : Entries) (s e : InputEvent) (k i : ℕ)
    → last_equal m s ≡ some k
    → same_event e s ≡ false
    → last_equal m e ≡ some i
    → (i == k) ≡ false
apart m s e k i at h n = elim (Bool-cases (i == k)) [
  | inl q ↦ absurd (cc (last_equal_same m e s k (n ∙ ap some ((==_iff i k).0 q)) at, h))
  | inr q ↦ q
]

pub replace_action-Differs :
    (m : Entries) (s : InputEvent) (a : Option Action) (k : ℕ)
    → last_equal m s ≡ some k
    → Differs m (replace_action m k a) s k
replace_action-Differs m s a k at = record {
  hit = λ e h. last_equal-replace_action a m k e ∙ last_equal_congr m e s h ∙ at;
  miss = λ e h. last_equal-replace_action a m k e;
  keep_action = λ e i h n.
      ground
        (arith, action_at-replace_action a m k i (last_equal-lt m s k at), apart m s e k i at h n);
  keep_entries = λ e i h n. entries_at-replace_action a m k i;
}

pub replace_entries-Differs :
    (m : Entries) (s : InputEvent) (x : Entries) (k : ℕ)
    → last_equal m s ≡ some k
    → Differs m (replace_entries m k x) s k
replace_entries-Differs m s x k at = record {
  hit = λ e h. last_equal-replace_entries x m k e ∙ last_equal_congr m e s h ∙ at;
  miss = λ e h. last_equal-replace_entries x m k e;
  keep_action = λ e i h n. action_at-replace_entries x m k i;
  keep_entries = λ e i h n.
      ground (
        arith,
        entries_at-replace_entries x m k i (last_equal-lt m s k at),
        apart m s e k i at h n,
      );
}

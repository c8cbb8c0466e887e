-- ===== src/Keymap/Sequences.antt =====
-- What typing the keys of a sequence does.
use ewlibs.Base.{
  Option-cases, ◌>>=◌, ℕ, ◌<◌, ◌≡◌, refl, sym, ◌∙◌, inl, inr, true, Option, none, some, List, [],
  ◌∷◌, arith,
}
use ewlibs.Keymap.{InputEvent}
use ewlibs.Keymap.Tree.{
  Action, Entries, entry_count, action_at, entries_at, last_equal, SeqNode, add_keys, last_action,
}
use ewlibs.Keymap.Dispatch.{eval_input_event, eval_event, Response, need_more, run}
use ewlibs.Keymap.Levels.{last_equal-lt}
use ewlibs.Keymap.Updating.{action_of-add_keys}
use ewlibs.Keymap.Refinement.{
  same_keys, ActionLast, action_of, action_of_found, action_of-none, action_under,
}
use ewlibs.Keymap.Typing.{level_of, step_more, step_run}
use ewlibs.Keymap.Proper.{Compatible, add_keys-Proper, Either, Proper, Proper-at}

-- The responses to a list of events.
unfoldable pub type_keys :
    Entries → Option Entries → List InputEvent → Option (List Response × Option Entries)
type_keys root level [] = some ([], level)
type_keys root level (e ∷ es) =
    eval_event root level e >>= λ (r, l). type_keys root l es >>= λ (rs, l'). some (r ∷ rs, l')

-- No entry that only contains the event stands behind the one that is equal to it, on any level.
unfoldable pub Unshadowed : Entries → List InputEvent → Type 0
Unshadowed m [] = Unit
Unshadowed m (e ∷ es) =
    (eval_input_event m e ≡ last_equal m e)
    × ((i : ℕ) → last_equal m e ≡ some i → Unshadowed (entries_at m i) es)

-- The responses to a sequence that has an action.
abbrev pub responses : List InputEvent → Action → List Response
responses [] a = []
responses (e ∷ []) a = run a ∷ []
responses (e ∷ f ∷ es) a = need_more ∷ responses (f ∷ es) a

count_pos :
    (m : Entries) (es : List InputEvent) (a : Action) → action_of m es ≡ some a → 0 < entry_count m
count_pos m [] a h = unfold action_of in cc
count_pos m (e ∷ es) a h = elim (Option-cases (last_equal m e)) [
  | inl n ↦ absurd (cc (sym h ∙ action_of-none m e es n))
  | inr (i, n) ↦ omega (arith, last_equal-lt m e i n)
]

type_keys-cons :
    (root : Entries) (level l l' : Option Entries) (e : InputEvent) (es : List InputEvent)
    (r : Response) (rs : List Response)
    → eval_event root level e ≡ some (r, l)
    → type_keys root l es ≡ some (rs, l')
    → type_keys root level (e ∷ es) ≡ some (r ∷ rs, l')
unfolding type_keys
type_keys-cons root level l l' e es r rs h k = rw (h, k)

type_level :
    (root : Entries) (level : Option Entries) (es : List InputEvent) (a : Action)
    → Proper (level_of root level)
    → Unshadowed (level_of root level) es
    → action_of (level_of root level) es ≡ some a
    → type_keys root level es ≡ some (responses es a, none)
unfolding Unshadowed
type_level root level [] a p u h = unfold action_of in cc
type_level root level (e ∷ es) a p u h = elim (Option-cases (last_equal (level_of root level) e)) [
  | inl n ↦ absurd (cc (sym h ∙ action_of-none (level_of root level) e es n))
  | inr (i, n) ↦
      let (here, below) =
        Proper-at (level_of root level) i p (last_equal-lt (level_of root level) e i n) in
      next i n es (u.0 ∙ n) here (sym (action_of_found (level_of root level) e es i n) ∙ h)
        (type_level root (some (entries_at (level_of root level) i)) es a below (u.1 i n))
]
  where
    next :
        (i : ℕ)
        → last_equal (level_of root level) e ≡ some i
        → (es : List InputEvent) → eval_input_event (level_of root level) e ≡ some i
        → Either (action_at (level_of root level) i) (entries_at (level_of root level) i)
        → action_under (level_of root level) i es ≡ some a
        → (action_of (entries_at (level_of root level) i) es ≡ some a
            → type_keys root (some (entries_at (level_of root level) i)) es
              ≡ some (responses es a, none))
        → type_keys root level (e ∷ es) ≡ some (responses (e ∷ es) a, none)
    next i n [] at here act ih =
        type_keys-cons root level none none e [] (run a) []
          (step_run root level e i at a act (rw act at here)) (unfold type_keys in refl)
    next i n (f ∷ es) at here act ih =
        type_keys-cons root level (some (entries_at (level_of root level) i)) none e (f ∷ es)
          need_more (responses (f ∷ es) a)
          (step_more root level e i at (unbound (action_at (level_of root level) i) here)
            (count_pos (entries_at (level_of root level) i) (f ∷ es) a act))
          (ih act)
      where
        unbound : (x : Option Action) → Either x (entries_at (level_of root level) i) → x ≡ none
        unbound none h = refl
        unbound (some b) h =
            absurd (omega (arith, h, count_pos (entries_at (level_of root level) i) (f ∷ es) a act))

-- In a proper map, typing the keys of a sequence that has an action, and that no range shadows, asks for
-- more input up to the last key, runs the action there, and leaves the context as it was at first.
pub type_keys-responses :
    (root : Entries) (es : List InputEvent) (a : Action)
    → Proper root
    → Unshadowed root es
    → action_of root es ≡ some a
    → type_keys root none es ≡ some (responses es a, none)
type_keys-responses root es a p u h = type_level root none es a p u h

-- After a sequence was added to a proper map, whose last node alone has an action, of which no part has
-- an action already, and which is no part of a longer one, typing events equal to its keys, that no
-- range shadows, asks for more input up to the last key and runs the action there.
pub add_keys-type_keys :
    (m : Entries) (s : SeqNode) (seq : List SeqNode) (a : Action) (es : List InputEvent)
    → Proper m
    → ActionLast (s ∷ seq)
    → last_action (s ∷ seq) ≡ some a
    → Compatible m (s ∷ seq)
    → same_keys es (s ∷ seq) ≡ true
    → Unshadowed (add_keys m (s ∷ seq)) es
    → type_keys (add_keys m (s ∷ seq)) none es ≡ some (responses es a, none)
add_keys-type_keys m s seq a es p al la c k u =
    type_keys-responses (add_keys m (s ∷ seq)) es a (add_keys-Proper m s seq a p al la c) u
      (action_of-add_keys m s seq es al ∙ rw (k, la))

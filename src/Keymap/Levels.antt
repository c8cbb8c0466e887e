-- ===== src/Keymap/Levels.antt =====
-- One level of an input map under the operations that change it.
use ewlibs.Base.{
  ◌==◌, if◌then◌else◌, some_inj, ℕ, zero, suc, ◌<◌, ◌≡◌, refl, sym, ap, ◌∙◌, true, Option, none,
  some, arith,
}
use ewlibs.Keymap.{InputEvent, same_event}
use ewlibs.Keymap.Events.{same_event_sym, same_event_congr}
use ewlibs.Keymap.Tree.{
  Action, Entries, no_entries, entry, push_back, entry_count, action_at, entries_at, replace_action,
  replace_entries, last_equal,
}

unfoldable pub event_at : Entries → ℕ → Option InputEvent
event_at no_entries i = none
event_at (entry b act ch rest) zero = some b
event_at (entry b act ch rest) (suc i) = event_at rest i

module _ (ev : InputEvent) (act : Option Action) (ch : Entries) where
  pub last_equal-push_back :
      (m : Entries) (e : InputEvent)
      → last_equal (push_back m ev act ch) e
        ≡ (if same_event e ev then some (entry_count m) else last_equal m e)
  unfolding last_equal push_back entry_count
  last_equal-push_back no_entries e = refl
  last_equal-push_back (entry b a c rest) e = ground (arith, last_equal-push_back rest e)

  pub action_at-push_back :
      (m : Entries) (i : ℕ)
      → action_at (push_back m ev act ch) i ≡ (if i == entry_count m then act else action_at m i)
  unfolding action_at push_back entry_count
  action_at-push_back no_entries zero = refl
  action_at-push_back no_entries (suc i) = ground arith
  action_at-push_back (entry b a c rest) zero = ground arith
  action_at-push_back (entry b a c rest) (suc i) = ground (arith, action_at-push_back rest i)

  pub entries_at-push_back :
      (m : Entries) (i : ℕ)
      → entries_at (push_back m ev act ch) i ≡ (if i == entry_count m then ch else entries_at m i)
  unfolding entries_at push_back entry_count
  entries_at-push_back no_entries zero = refl
  entries_at-push_back no_entries (suc i) = ground arith
  entries_at-push_back (entry b a c rest) zero = ground arith
  entries_at-push_back (entry b a c rest) (suc i) = ground (arith, entries_at-push_back rest i)

  pub event_at-push_back :
      (m : Entries) (i : ℕ)
      → event_at (push_back m ev act ch) i ≡ (if i == entry_count m then some ev else event_at m i)
  unfolding event_at push_back entry_count
  event_at-push_back no_entries zero = refl
  event_at-push_back no_entries (suc i) = ground arith
  event_at-push_back (entry b a c rest) zero = ground arith
  event_at-push_back (entry b a c rest) (suc i) = ground (arith, event_at-push_back rest i)

  pub entry_count-push_back :
      (m : Entries) → entry_count (push_back m ev act ch) ≡ suc (entry_count m)
  unfolding entry_count push_back
  entry_count-push_back no_entries = refl
  entry_count-push_back (entry b a c rest) = ap suc (entry_count-push_back rest)

module _ (a : Option Action) where
  pub last_equal-replace_action :
      (m : Entries) (i : ℕ) (e : InputEvent) → last_equal (replace_action m i a) e ≡ last_equal m e
  unfolding last_equal replace_action
  last_equal-replace_action no_entries i e = refl
  last_equal-replace_action (entry b act ch rest) zero e = refl
  last_equal-replace_action (entry b act ch rest) (suc i) e =
      ground (arith, last_equal-replace_action rest i e)

  pub action_at-replace_action :
      (m : Entries) (i j : ℕ)
      → i < entry_count m
      → action_at (replace_action m i a) j ≡ (if j == i then a else action_at m j)
  unfolding action_at replace_action entry_count
  action_at-replace_action no_entries i j h = absurd (omega arith)
  action_at-replace_action (entry b act ch rest) zero zero h = refl
  action_at-replace_action (entry b act ch rest) zero (suc j) h = ground arith
  action_at-replace_action (entry b act ch rest) (suc i) zero h = ground arith
  action_at-replace_action (entry b act ch rest) (suc i) (suc j) h =
      ground (arith, action_at-replace_action rest i j)

  pub entries_at-replace_action :
      (m : Entries) (i j : ℕ) → entries_at (replace_action m i a) j ≡ entries_at m j
  unfolding entries_at replace_action
  entries_at-replace_action no_entries i j = refl
  entries_at-replace_action (entry b act ch rest) zero zero = refl
  entries_at-replace_action (entry b act ch rest) zero (suc j) = refl
  entries_at-replace_action (entry b act ch rest) (suc i) zero = refl
  entries_at-replace_action (entry b act ch rest) (suc i) (suc j) =
      entries_at-replace_action rest i j

module _ (ch' : Entries) where
  pub last_equal-replace_entries :
      (m : Entries) (i : ℕ) (e : InputEvent)
      → last_equal (replace_entries m i ch') e ≡ last_equal m e
  unfolding last_equal replace_entries
  last_equal-replace_entries no_entries i e = refl
  last_equal-replace_entries (entry b act ch rest) zero e = refl
  last_equal-replace_entries (entry b act ch rest) (suc i) e =
      ground (arith, last_equal-replace_entries rest i e)

  pub action_at-replace_entries :
      (m : Entries) (i j : ℕ) → action_at (replace_entries m i ch') j ≡ action_at m j
  unfolding action_at replace_entries
  action_at-replace_entries no_entries i j = refl
  action_at-replace_entries (entry b act ch rest) zero zero = refl
  action_at-replace_entries (entry b act ch rest) zero (suc j) = refl
  action_at-replace_entries (entry b act ch rest) (suc i) zero = refl
  action_at-replace_entries (entry b act ch rest) (suc i) (suc j) =
      action_at-replace_entries rest i j

  pub entries_at-replace_entries :
      (m : Entries) (i j : ℕ)
      → i < entry_count m
      → entries_at (replace_entries m i ch') j ≡ (if j == i then ch' else entries_at m j)
  unfolding entries_at replace_entries entry_count
  entries_at-replace_entries no_entries i j h = absurd (omega arith)
  entries_at-replace_entries (entry b act ch rest) zero zero h = refl
  entries_at-replace_entries (entry b act ch rest) zero (suc j) h = ground arith
  entries_at-replace_entries (entry b act ch rest) (suc i) zero h = ground arith
  entries_at-replace_entries (entry b act ch rest) (suc i) (suc j) h =
      ground (arith, entries_at-replace_entries rest i j)

-- The entry that `last_equal` finds.
pub last_equal-lt :
    (m : Entries) (e : InputEvent) (i : ℕ) → last_equal m e ≡ some i → i < entry_count m
unfolding last_equal entry_count
last_equal-lt no_entries e i h = cc
last_equal-lt (entry b act ch rest) e zero h = omega arith
last_equal-lt (entry b act ch rest) e (suc i) h = ground (arith, last_equal-lt rest e i)

pub last_equal-event_at :
    (m : Entries) (e : InputEvent) (i : ℕ)
    → last_equal m e ≡ some i
    → (b : InputEvent) × (event_at m i ≡ some b) × (same_event e b ≡ true)
unfolding last_equal event_at
last_equal-event_at no_entries e i h = cc
last_equal-event_at (entry b act ch rest) e zero h = (b, refl, ground arith)
last_equal-event_at (entry b act ch rest) e (suc i) h = last_equal-event_at rest e i (ground arith)

pub last_equal_congr :
    (m : Entries) (e f : InputEvent) → same_event e f ≡ true → last_equal m e ≡ last_equal m f
unfolding last_equal
last_equal_congr no_entries e f h = refl
last_equal_congr (entry b act ch rest) e f h =
    ground (arith, last_equal_congr rest e f, same_event_congr e f b)

-- Two events that find the same entry are equal.
pub last_equal_same :
    (m : Entries) (e f : InputEvent) (i : ℕ)
    → last_equal m e ≡ some i
    → last_equal m f ≡ some i
    → same_event e f ≡ true
last_equal_same m e f i he hf =
    let (b, eb, same_b) = last_equal-event_at m e i he in
    let (c, ec, same_c) = last_equal-event_at m f i hf in
    let equal : b ≡ c = some_inj (sym eb ∙ ec) in
    same_event_congr e b f same_b ∙ ap (λ z. same_event z f) equal ∙ same_event_sym f c same_c

-- ===== src/Keymap/Events.antt =====
-- `operator ==` of `input_event_s` is symmetric and transitive, and reflexive on events that are valid.
use ewlibs.Base.{==_refl, Bool-cases, ◌≡◌, sym, ◌∙◌, ◌≢◌, inl, inr, true, arith}
use ewlibs.Keymap.{invalid, InputEvent, same_event}

pub same_event_sym : (a b : InputEvent) → same_event a b ≡ true → same_event b a ≡ true
unfolding same_event
same_event_sym a b h = ground arith

pub same_event_trans :
    (a b c : InputEvent) → same_event a b ≡ true → same_event b c ≡ true → same_event a c ≡ true
unfolding same_event
same_event_trans a b c h k = ground arith

pub same_event_refl : (a : InputEvent) → a.kind ≢ invalid → same_event a a ≡ true
unfolding same_event
same_event_refl a h =
    ground (arith, ==_refl a.key, ==_refl a.start_value, ==_refl a.end_value, ==_refl a.button_mask)

-- Equal events are equal to the same events.
pub same_event_congr :
    (a b c : InputEvent) → same_event a b ≡ true → same_event a c ≡ same_event b c
same_event_congr a b c h = elim (Bool-cases (same_event a c)) [
  | inl e ↦ e ∙ sym (same_event_trans b a c (same_event_sym a b h) e)
  | inr e ↦ elim (Bool-cases (same_event b c)) [
    | inl e' ↦ absurd (cc (same_event_trans a b c h e'))
    | inr e' ↦ e ∙ sym e'
  ]
]

-- ===== src/Keymap/Script/Tokens.antt =====
-- Reading a token takes a byte of a text that starts with no blank.
use ewlibs.Base.{
  ◌==◌, if◌then◌else◌, Bool-cases, Option-cases, length, ℕ, suc, ◌≤◌, ◌<◌, ◌≡◌, refl, ◌⊎◌, inl, inr,
  Bool, true, false, Option, none, some, List, [], ◌∷◌, arith,
}
use ewlibs.Keymap.Script.{
  codes, Ending, finished, faulted, unfinished, Libc, ReadsPart, ParseContext, Token, tok_invalid,
  tok_mouse_button, tok_ctrl, tok_alt, tok_unicode, tok_comma, tok_eq, tok_keyval, tok_page_up,
  tok_page_down,
}
use ewlibs.Keymap.Script.Lexing.{
  skip_blanks, skip_non_blanks, skip_line, expected_token, word_token, known_token, get_token,
  get_token_keyname, is_space,
}
use ewlibs.Keymap.Script.Progress.{
  Ends, Leaves, skip_non_blanks-le, skip_line-le, expected_token-le,
}

-- A token takes a byte at least.
abbrev Shorter : ℕ → Option (Token × List ℕ) → Type 0
Shorter n none = Unit
Shorter n (some r) = length r.1 < n

word_token-Shorter :
    (expected : List ℕ) (tok : Token) (text : List ℕ)
    → 0 < length expected
    → Shorter (length text) (word_token expected tok text)
word_token-Shorter expected tok text pos = elim (Option-cases (expected_token expected text)) [
  | inl n ↦ rw (word_token, n) tt
  | inr (rest, n) ↦ rw (word_token, n) (omega (arith, pos, expected_token-le expected text rest n))
]

pub Ends-if :
    {A : Type 0} (P : A → Type 0) (b : Bool) (x y : Ending A)
    → Ends P x
    → Ends P y
    → Ends P (if b then x else y)
Ends-if P true x y h k = h
Ends-if P false x y h k = k

or_else-Shorter :
    (n : ℕ) (o o' : Option (Token × List ℕ))
    → Shorter n o
    → Shorter n o'
    → Shorter n (elim o [ some r ↦ some r | none ↦ o' ])
or_else-Shorter n none o' h k = k
or_else-Shorter n (some r) o' h k = h

or_faulted-Shorter :
    (n : ℕ) (o : Option (Token × List ℕ))
    → Shorter n o
    → Ends (Shorter n) (elim o [ some r ↦ finished (some r) | none ↦ faulted ])
or_faulted-Shorter n none h = tt
or_faulted-Shorter n (some r) h = h

known_token-Shorter : (c : ℕ) (text : List ℕ) → Ends (Shorter (length text)) (known_token c text)
unfolding known_token
known_token-Shorter c text = elim (Bool-cases (c == b'c')) [
  | inl q ↦ rw (known_token, q) (word (codes "ctrl") tok_ctrl (omega arith))
  | inr q ↦ rw q (elim (Bool-cases (c == b'a')) [
    | inl q ↦ rw (known_token, q) (word (codes "alt") tok_alt (omega arith))
    | inr q ↦ rw q (elim (Bool-cases (c == b'u')) [
      | inl q ↦ rw (known_token, q) (word (codes "unicode") tok_unicode (omega arith))
      | inr q ↦ rw q (elim (Bool-cases (c == b',')) [
        | inl q ↦ rw (known_token, q) (word (codes ",") tok_comma (omega arith))
        | inr q ↦ rw q (elim (Bool-cases (c == b'=')) [
          | inl q ↦ rw (known_token, q) (word (codes "=") tok_eq (omega arith))
          | inr q ↦ rw q (elim (Bool-cases (c == b'p')) [
            | inl q ↦
                rw (known_token, q)
                  (or_else-Shorter (length text) (word_token (codes "page-up") tok_page_up text) _
                    (word (codes "page-up") tok_page_up (omega arith))
                    (word (codes "page-down") tok_page_down (omega arith)))
            | inr q ↦ rw q (elim (Bool-cases (c == b'm')) [
              | inl q ↦
                  rw (known_token, q)
                    (or_faulted-Shorter (length text)
                      (word_token (codes "mouse-button") tok_mouse_button text)
                      (word (codes "mouse-button") tok_mouse_button (omega arith)))
              | inr q ↦ rw q (tt)
            ])
          ])
        ])
      ])
    ])
  ])
]
  where
    word :
        (expected : List ℕ) (tok : Token)
        → 0 < length expected
        → Shorter (length text) (word_token expected tok text)
    word expected tok pos = word_token-Shorter expected tok text pos

abbrev pub rest_of : Token × ParseContext → List ℕ
rest_of r = r.1.p

-- `skip_blanks` leaves a text that is empty or starts with no blank.
pub skip_blanks_head :
    (text : List ℕ)
    → (skip_blanks text ≡ [])
      ⊎ ((b : ℕ) × (rest : List ℕ) × (skip_blanks text ≡ b ∷ rest) × (is_space b ≡ false))
unfolding skip_blanks
skip_blanks_head [] = inl refl
skip_blanks_head (b ∷ text) = elim (Bool-cases (is_space b)) [
  | inl q ↦ rw q (skip_blanks_head text)
  | inr q ↦ rw q (inr (b, text, refl, q))
]

module _ (c : Libc) (reads : ReadsPart c) where
  get_token_keyname-le :
      (ctx : ParseContext) (b : ℕ) (text : List ℕ)
      → is_space b ≡ false
      → length (get_token_keyname c (record ctx { p = b ∷ text })).p ≤ length text
  unfolding get_token_keyname skip_blanks skip_non_blanks
  get_token_keyname-le ctx b text q = rw (q, q) (skip_non_blanks-le text)

  -- A text that does not start with a blank is shorter after a token.
  pub get_token-Leaves :
      (ctx : ParseContext) (b : ℕ) (text : List ℕ)
      → is_space b ≡ false
      → Leaves rest_of (length text) (get_token c (record ctx { p = b ∷ text }))
  unfolding get_token
  get_token-Leaves ctx b text q =
      take_token (known_token b (b ∷ text)) (known_token-Shorter b (b ∷ text))
    where
      take_token :
          (o : Ending (Option (Token × List ℕ)))
          → Ends (Shorter (suc (length text))) o
          → Leaves rest_of (length text) (elim o [
            | faulted ↦ faulted
            | unfinished ↦ unfinished
            | finished (some (tok, rest)) ↦ finished (tok, record ctx { p = rest })
            | finished none ↦
                if b == 10
                then finished (tok_invalid, record ctx { p = skip_line 0 (b ∷ text) })
                else finished (tok_keyval, get_token_keyname c (record ctx { p = b ∷ text }))
          ])
      take_token faulted h = tt
      take_token unfinished h = h
      take_token (finished (some (tok, rest))) h = omega arith
      take_token (finished none) h = elim (Bool-cases (b == 10)) [
        | inl m ↦ rw m (omega (arith, skip_line-le 0 (b ∷ text)))
        | inr m ↦ rw m (get_token_keyname-le ctx b text q)
      ]

-- ===== src/Keymap/Script/Lexing.antt =====
-- The functions that read the text of an input map: blanks, lines, expected words and tokens.
use ewlibs.Base.{
  ◌==◌, if◌then◌else◌, ◌>>=◌, ℕ, Bool, true, false, ◌&&◌, ◌||◌, Option, none, some, List, [], ◌∷◌,
  map,
}
use ewlibs.Keymap.Script.{
  codes, Ending, finished, faulted, unfinished, Libc, ParseContext, Token, tok_invalid,
  tok_mouse_button, tok_ctrl, tok_alt, tok_unicode, tok_comma, tok_eq, tok_keyval, tok_page_up,
  tok_page_down,
}

abbrev pub is_space : ℕ → Bool
is_space c = c == b' ' || c == 9

-- `skip_blanks`, `skip_non_blanks`
unfoldable pub skip_blanks : List ℕ → List ℕ
skip_blanks [] = []
skip_blanks (c ∷ text) = let rest = skip_blanks text in if is_space c then rest else c ∷ text

unfoldable pub skip_non_blanks : List ℕ → List ℕ
skip_non_blanks [] = []
skip_non_blanks (c ∷ text) =
    let rest = skip_non_blanks text in if is_space c then c ∷ text else rest

-- The bytes that `skip_non_blanks` passes.
unfoldable pub word : List ℕ → List ℕ
word [] = []
word (c ∷ text) = let rest = word text in if is_space c then [] else c ∷ rest

-- `skip_line`, with `last_c`
unfoldable pub skip_line : ℕ → List ℕ → List ℕ
skip_line last_c [] = []
skip_line last_c (c ∷ text) =
    let rest = skip_line c text in
    if c == 10 then text else if (if c == 13 then 13 else last_c) == 13 then text else rest

-- `expected_token(ctx, expected, expected_len)`: the text after the word, if it is there.
unfoldable pub expected_token : List ℕ → List ℕ → Option (List ℕ)
expected_token [] text = some text
expected_token (e ∷ expected) [] = none
expected_token (e ∷ expected) (c ∷ text) =
    let rest = expected_token expected text in if c == e then rest else none

-- `*ctx->p`
abbrev pub peek : List ℕ → ℕ
peek [] = 0
peek (c ∷ text) = c

-- `c_string(val)` for every `key_value` that has a name, with its number.
abbrev pub key_names : List (List ℕ × ℕ)
key_names =
    (codes "NUL", 0)
    ∷ (codes "Tab", 2)
    ∷ (codes "Linefeed", 3)
    ∷ (codes "Clear", 4)
    ∷ (codes "Return", 5)
    ∷ (codes "Pause", 6)
    ∷ (codes "ScrollLock", 7)
    ∷ (codes "SysReq", 8)
    ∷ (codes "Escape", 9)
    ∷ (codes "Delete", 10)
    ∷ (codes "BackSpace", 11)
    ∷ (codes "Home", 12)
    ∷ (codes "Left", 13)
    ∷ (codes "Up", 14)
    ∷ (codes "Right", 15)
    ∷ (codes "Down", 16)
    ∷ (codes "PageUp", 17)
    ∷ (codes "PageDown", 18)
    ∷ (codes "End", 19)
    ∷ (codes "Begin", 20)
    ∷ (codes "F1", 21)
    ∷ (codes "F2", 22)
    ∷ (codes "F3", 23)
    ∷ (codes "F4", 24)
    ∷ (codes "F5", 25)
    ∷ (codes "F6", 26)
    ∷ (codes "F7", 27)
    ∷ (codes "F8", 28)
    ∷ (codes "F9", 29)
    ∷ (codes "F10", 30)
    ∷ (codes "F11", 31)
    ∷ (codes "F12", 32)
    ∷ (codes "Keypad_Plus", 33)
    ∷ (codes "UNICODE", 255)
    ∷ []

abbrev pub same_text : List ℕ → List ℕ → Bool
same_text [] [] = true
same_text [] (d ∷ ds) = false
same_text (c ∷ cs) [] = false
same_text (c ∷ cs) (d ∷ ds) = c == d && same_text cs ds

-- `c_string_to_key_value(c_str)`: the key whose name is this in small letters, or `NUL`.
unfoldable pub key_value_in : Libc → List (List ℕ × ℕ) → List ℕ → ℕ
key_value_in c [] str = 0
key_value_in c ((name, key) ∷ names) str =
    let rest = key_value_in c names str in if same_text (map c.tolower name) str then key else rest

unfoldable pub c_string_to_key_value : Libc → List ℕ → ℕ
c_string_to_key_value c str = key_value_in c key_names str

-- The part of a buffer before its first 0.
unfoldable pub until_nul : List ℕ → List ℕ
until_nul [] = []
until_nul (c ∷ text) = let rest = until_nul text in if c == 0 then [] else c ∷ rest

-- `get_token_keyname(ctx)`
unfoldable pub get_token_keyname : Libc → ParseContext → ParseContext
get_token_keyname c ctx =
    let start = skip_blanks ctx.p in
    let kval = c_string_to_key_value c (map c.tolower (until_nul (word start))) in
    record ctx { p = skip_non_blanks start; tmp_kval = kval; ev = record ctx.ev { key = kval } }

-- `get_token_control` and its kin: the token and the text after it.
abbrev pub word_token : List ℕ → Token → List ℕ → Option (Token × List ℕ)
word_token expected tok text = expected_token expected text >>= λ rest. some (tok, rest)

-- The first part of `get_token`, by the first byte; the word for the mouse is asserted.
unfoldable pub known_token : ℕ → List ℕ → Ending (Option (Token × List ℕ))
known_token c text =
    if c == b'c'
    then finished (word_token (codes "ctrl") tok_ctrl text)
    else if c == b'a'
    then finished (word_token (codes "alt") tok_alt text)
    else if c == b'u'
    then finished (word_token (codes "unicode") tok_unicode text)
    else if c == b','
    then finished (word_token (codes ",") tok_comma text)
    else if c == b'='
    then finished (word_token (codes "=") tok_eq text)
    else if c == b'p'
    then finished (elim (word_token (codes "page-up") tok_page_up text) [
      | some r ↦ some r
      | none ↦ word_token (codes "page-down") tok_page_down text
    ])
    else if c == b'm'
    then elim (word_token (codes "mouse-button") tok_mouse_button text) [
      | some r ↦ finished (some r)
      | none ↦ faulted
    ]
    else finished none

-- `get_token(ctx)`
unfoldable pub get_token : Libc → ParseContext → Ending (Token × ParseContext)
get_token c ctx = elim ctx.p [
  | [] ↦ finished (tok_invalid, ctx)
  | b ∷ text ↦ elim (known_token b ctx.p) [
    | faulted ↦ faulted
    | unfinished ↦ unfinished
    | finished (some (tok, rest)) ↦ finished (tok, record ctx { p = rest })
    | finished none ↦
        if b == 10
        then finished (tok_invalid, record ctx { p = skip_line 0 ctx.p })
        else finished (tok_keyval, get_token_keyname c ctx)
  ]
]

-- ===== src/Keymap/Script/Progress.antt =====
-- Every function of the parser ends, and leaves no more text than it was given.
use ewlibs.Base.{
  leb, ◌==◌, Bool-cases, Option-cases, length, ℕ, ◌+◌, ◌-◌, ◌≤◌, ◌≡◌, inl, inr, Bool, true, false,
  ◌&&◌, none, some, List, [], ◌∷◌, arith,
}
use ewlibs.Keymap.Script.{
  codes, Ending, finished, faulted, unfinished, and_then, Libc, ReadsPart, ParseContext,
}
use ewlibs.Keymap.Script.Lexing.{skip_blanks, skip_non_blanks, skip_line, expected_token, peek}
use ewlibs.Keymap.Script.Parsing.{
  parse_control, parse_alt, decode_utf8_codepoint, parse_unicode_value,
}
use ewlibs.Utf8.Codec.{Tables, step}
use ewlibs.Utf8.Table.{s0}
use ewlibs.Utf8.Reading.{tail, get_cp_loop, get_cp}

-- An outcome that is no lack of fuel, with P where it has a value.
abbrev pub Ends : {A : Type 0} → (A → Type 0) → Ending A → Type 0
Ends P (finished a) = P a
Ends P faulted = Unit
Ends P unfinished = ⊥

pub Ends-and_then :
    {A B : Type 0} (P : A → Type 0) (Q : B → Type 0) (o : Ending A) (f : A → Ending B)
    → Ends P o
    → ((a : A) → P a → Ends Q (f a))
    → Ends Q (and_then o f)
Ends-and_then P Q (finished a) f h k = k a h
Ends-and_then P Q faulted f h k = tt
Ends-and_then P Q unfinished f h k = h

-- At most n bytes of text are left.
abbrev pub Leaves : {A : Type 0} → (A → List ℕ) → ℕ → Ending A → Type 0
Leaves text n = Ends (λ a. length (text a) ≤ n)

pub Leaves-le :
    {A : Type 0} (text : A → List ℕ) (m n : ℕ) (o : Ending A)
    → m ≤ n
    → Leaves text m o
    → Leaves text n o
Leaves-le text m n (finished a) h k = omega arith
Leaves-le text m n faulted h k = tt
Leaves-le text m n unfinished h k = k

pub skip_blanks-le : (text : List ℕ) → length (skip_blanks text) ≤ length text
unfolding skip_blanks
skip_blanks-le [] = omega arith
skip_blanks-le (c ∷ text) = ground (arith, skip_blanks-le text)

pub skip_non_blanks-le : (text : List ℕ) → length (skip_non_blanks text) ≤ length text
unfolding skip_non_blanks
skip_non_blanks-le [] = omega arith
skip_non_blanks-le (c ∷ text) = ground (arith, skip_non_blanks-le text)

pub skip_line-le : (last_c : ℕ) (text : List ℕ) → length (skip_line last_c text) ≤ length text - 1
unfolding skip_line
skip_line-le last_c [] = omega arith
skip_line-le last_c (c ∷ text) = ground (arith, skip_line-le c text)

pub expected_token-le :
    (expected text rest : List ℕ)
    → expected_token expected text ≡ some rest
    → length rest + length expected ≡ length text
unfolding expected_token
expected_token-le [] text rest h = ground arith
expected_token-le (e ∷ expected) [] rest h = cc
expected_token-le (e ∷ expected) (c ∷ text) rest h =
    ground (arith, expected_token-le expected text rest)

tail-le : (text : List ℕ) → length (tail text) ≤ length text
tail-le [] = omega arith
tail-le (b ∷ text) = omega arith

get_cp_loop-le :
    (t : Tables) (start src : List ℕ) (state cp value : ℕ) (rest : List ℕ)
    → length src ≤ length start
    → get_cp_loop t start src state cp ≡ some (value, rest)
    → length rest ≤ length start
unfolding get_cp_loop
get_cp_loop-le t start [] state cp value rest h e = ground arith
get_cp_loop-le t start (b ∷ src) state cp value rest h e =
    elim (Option-cases (step t b (state, cp))) [
      | inl n ↦ absurd (cc (rw n at e))
      | inr ((state', cp'), n) ↦
          let e' = rw n at e in
          ground (arith, get_cp_loop-le t start src state' cp' value rest, tail-le start)
    ]

get_cp-le :
    (t : Tables) (src : List ℕ) (value : ℕ) (rest : List ℕ)
    → get_cp t src ≡ some (value, rest)
    → length rest ≤ length src
unfolding get_cp
get_cp-le t src value rest e = get_cp_loop-le t src src s0 0 value rest (omega arith) e

pub parse_control-le : (ctx : ParseContext) → length (parse_control ctx).p ≤ length ctx.p
unfolding parse_control
parse_control-le ctx = elim (Option-cases (expected_token (codes "+") (skip_blanks ctx.p))) [
  | inl n ↦ rw (parse_control, n) (skip_blanks-le ctx.p)
  | inr (rest, n) ↦ ground (
    arith,
    n,
    skip_blanks-le ctx.p,
    skip_blanks-le rest,
    expected_token-le (codes "+") (skip_blanks ctx.p) rest,
  )
]

pub parse_alt-le : (ctx : ParseContext) → length (parse_alt ctx).p ≤ length ctx.p
unfolding parse_alt
parse_alt-le ctx = elim (Option-cases (expected_token (codes "+") (skip_blanks ctx.p))) [
  | inl n ↦ rw (parse_alt, n) (skip_blanks-le ctx.p)
  | inr (rest, n) ↦ ground (
    arith,
    n,
    skip_blanks-le ctx.p,
    skip_blanks-le rest,
    expected_token-le (codes "+") (skip_blanks ctx.p) rest,
  )
]

-- The value and the text of a result.
abbrev pub text_of : ℕ × List ℕ → List ℕ
text_of r = r.1

abbrev pub text_of_result : Bool × (ℕ × List ℕ) → List ℕ
text_of_result r = r.1.1

decode_utf8_codepoint-Leaves :
    (t : Tables) (out_value : ℕ) (p : List ℕ)
    → Leaves text_of (length p) (decode_utf8_codepoint t out_value p)
unfolding decode_utf8_codepoint
decode_utf8_codepoint-Leaves t out_value p = elim (Option-cases (get_cp t p)) [
  | inl n ↦ rw (decode_utf8_codepoint, n) tt
  | inr ((value, rest), n) ↦ rw (decode_utf8_codepoint, n) (get_cp-le t p value rest n)
]

module _ (c : Libc) (reads : ReadsPart c) where
  pub parse_unicode_value-Leaves :
      (t : Tables) (out_value : ℕ) (p : List ℕ)
      → Leaves text_of_result (length p) (parse_unicode_value c t out_value p)
  unfolding parse_unicode_value
  parse_unicode_value-Leaves t out_value p = elim (Bool-cases (peek p == b'\'')) [
    | inl q ↦
        rw (parse_unicode_value, q)
          (Ends-and_then (λ r. length (text_of r) ≤ length p)
            (λ r. length (text_of_result r) ≤ length p) (decode_utf8_codepoint t out_value (tail p))
            _
            (Leaves-le text_of (length (tail p)) (length p)
              (decode_utf8_codepoint t out_value (tail p)) (tail-le p)
              (decode_utf8_codepoint-Leaves t out_value (tail p)))
            (λ r h. quote r h))
    | inr q ↦ elim (Bool-cases (leb b'0' (peek p) && leb (peek p) b'9')) [
      | inl d ↦ rw (parse_unicode_value, q, d) (reads _ p)
      | inr d ↦ rw (parse_unicode_value, q, d) (omega arith)
    ]
  ]
    where
      quote :
          (r : ℕ × List ℕ)
          → length r.1 ≤ length p
          → Leaves text_of_result (length p) (elim (expected_token (codes "'") r.1) [
            | none ↦ finished (false, (r.0, r.1))
            | some rest ↦ finished (true, (r.0, rest))
          ])
      quote r h = elim (Option-cases (expected_token (codes "'") r.1)) [
        | inl n ↦ rw n h
        | inr (rest, n) ↦ rw n (omega (arith, h, expected_token-le (codes "'") r.1 rest n))
      ]

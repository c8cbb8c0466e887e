-- ===== src/Utf8/Counting.antt =====
-- `count` on texts: it counts the characters and the occurrences of one, it never reads outside the
-- state table, and what its return value says.
use ewlibs.Base.{
  ℕ, ◌+◌, ◌*◌, ◌<◌, Bool-cases, ◌≡◌, ◌≢◌, refl, ◌∙◌, ap, ap₂, ◌||◌, some, List, [], ◌∷◌, ◌++◌, ◌==◌,
  if◌then◌else◌, arith, length, inl, inr,
}
use ewlibs.Base.Every.{All}
use ewlibs.Base.Memory.{Memory}
use mathlib.Core.List.{flatten}
use native.Mathlib.Nat.{zero-add}
use ewlibs.Utf8.Table.{s0, error, transition, mask}
use ewlibs.Utf8.Codec.{Tables, step, count_loop, tally, count, Counting, complete}
use ewlibs.Utf8.Sequence.{accept, sequence_value, accept-sequence_value}
use ewlibs.Utf8.Advance.{tables, room, room_step, step-accepted, transition_range}

-- A buffer of bytes.
abbrev pub IsBytes : List ℕ → Type 0
IsBytes w = All (λ b. b < 256) w

-- `words` are accepted sequences, and `cps` their code points.
abbrev pub Decodes : List (List ℕ) → List ℕ → Type 0
Decodes [] [] = Unit
Decodes [] (v ∷ vs) = ⊥
Decodes (w ∷ ws) [] = ⊥
Decodes (w ∷ ws) (v ∷ vs) = IsBytes w × (sequence_value w ≡ some v) × Decodes ws vs

abbrev pub occurrences : ℕ → List ℕ → ℕ
occurrences c [] = 0
occurrences c (v ∷ vs) = if v == c then occurrences c vs + 1 else occurrences c vs

abbrev counting : ℕ → ℕ → ℕ → ℕ → ℕ → Counting
counting s cp ok er n = record { s = s; unic = cp; n_ok = ok; n_error = er; local_count = n }

-- A step that is neither final nor an error only moves on.
tally_on :
    (c s cp s' u ok er n : ℕ) (rest : List ℕ)
    → s' ≢ s0
    → s' ≢ error
    → tally c rest (counting s cp ok er n) (s', u) ≡ counting s' u ok er n
unfolding tally
tally_on c s cp s' u ok er n rest h m = ground arith

count_loop-step :
    (t : Tables) (c b : ℕ) (rest : List ℕ) (k : Counting) (r : ℕ × ℕ)
    → step t b (k.s, k.unic) ≡ some r
    → count_loop t c (b ∷ rest) k ≡ count_loop t c rest (tally c rest k r)
unfolding count_loop
count_loop-step t c b rest k r h = rw h

module _ (states masks : Memory) (c : ℕ) where
  abbrev t : Tables
  t = tables states masks

  -- An accepted sequence adds one character.
  count_loop-accept :
      (w rest : List ℕ) (s cp v ok er n : ℕ)
      → s < 8
      → cp < room s
      → IsBytes w
      → accept w s cp ≡ some v
      → count_loop t c (w ++ rest) (counting s cp ok er n)
        ≡ count_loop t c rest (counting s0 0 (ok + 1) er (if v == c then n + 1 else n))
  unfolding accept
  count_loop-accept [] rest s cp v ok er n hs h bytes e = cc
  count_loop-accept (b ∷ []) rest s cp v ok er n hs h bytes e =
      elim (Bool-cases (transition s b == s0)) [
        | inl f ↦
            let final : transition s b ≡ s0 = ground arith in
            let value : cp * 64 + mask b ≡ v = ground arith in
            count_loop-step t c b rest _ (s0, v)
              (step-accepted states masks s b cp hs bytes.0 h (ground arith)
                ∙ ap₂ (λ x y. some (x, y)) final value)
            ∙ (unfold tally in refl)
        | inr f ↦ absurd (ground arith)
      ]
  count_loop-accept (b ∷ d ∷ w) rest s cp v ok er n hs h bytes e =
      elim (Bool-cases ((transition s b == s0) || (transition s b == error))) [
        | inl f ↦ absurd (ground arith)
        | inr f ↦
            let m : transition s b ≢ s0 = ground arith in
            let m' : transition s b ≢ error = ground arith in
            count_loop-step t c b (d ∷ w ++ rest) _ _
              (step-accepted states masks s b cp hs bytes.0 h m')
            ∙ ap (count_loop t c (d ∷ w ++ rest)) (tally_on c s cp _ _ ok er n (d ∷ w ++ rest) m m')
            ∙ count_loop-accept (d ∷ w) rest (transition s b) (cp * 64 + mask b) v ok er n
                (omega (arith, transition_range s b)) (room_step s b cp hs h m m') bytes.1
                (ground arith)
      ]

  count_loop-Decodes :
      (ws : List (List ℕ)) (vs : List ℕ) (ok er n : ℕ)
      → Decodes ws vs
      → count_loop t c (flatten ws) (counting s0 0 ok er n)
        ≡ some (counting s0 0 (ok + length vs) er (n + occurrences c vs))
  unfolding flatten
  count_loop-Decodes [] [] ok er n d =
      unfold count_loop in ap₂ (λ x y. some (counting s0 0 x er y)) (omega arith) (omega arith)
  count_loop-Decodes [] (v ∷ vs) ok er n d = absurd d
  count_loop-Decodes (w ∷ ws) [] ok er n d = absurd d
  count_loop-Decodes (w ∷ ws) (v ∷ vs) ok er n d =
      count_loop-accept w (flatten ws) s0 0 v ok er n (omega arith) (unfold room in omega arith) d.0
        (accept-sequence_value w ∙ d.1)
      ∙ count_loop-Decodes ws vs (ok + 1) er (if v == c then n + 1 else n) d.2
      ∙ ap₂ (λ x y. some (counting s0 0 x er y)) (omega arith) (ground arith)

  -- On a text of accepted sequences `count` finds every character and no error, counts the
  -- occurrences of `c`, and reports a complete text.
  pub count-Decodes :
      (ws : List (List ℕ)) (vs : List ℕ)
      → Decodes ws vs
      → count t (flatten ws) c
        ≡ some (record {
          nr_ok = length vs;
          nr_error = 0;
          nr_count = occurrences c vs;
          verdict = complete;
        })
  unfolding count
  count-Decodes ws vs d = rw (count_loop-Decodes ws vs 0 0 0 d) (simp zero-add)

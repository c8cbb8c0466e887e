-- ===== src/Utf8/Tests.antt =====
-- The theorems about the UTF-8 codec at concrete inputs, and runs of its operations.
use ewlibs.Base.{ℕ, ◌+◌, ◌*◌, ◌≤◌, ◌≡◌, refl, false, some, List, [], ◌∷◌, map, arith, ◌↔◌}
use mathlib.Core.List.{flatten}
use ewlibs.Base.Memory.{Memory}
use ewlibs.Utf8.Documented.{documented, diverges, init_states-documented}
use ewlibs.Utf8.Table.{init_states, mask, s4}
use ewlibs.Utf8.Codec.{count, complete, Counts}
use ewlibs.Utf8.Search.{rget_cp}
use ewlibs.Utf8.Sequence.{sequence_value}
use ewlibs.Utf8.Advance.{tables}
use ewlibs.Utf8.Totality.{count_total}
use ewlibs.Utf8.Survival.{survives, put_bytes, count-put_cp}
use ewlibs.Utf8.Reverse.{rget_cp-sequence}

-- What fresh memory holds, in these runs.
abbrev junk : Memory
junk = λ i. 0xa5

-- "aé€a": an ASCII letter, a letter of two bytes, a sign of three bytes, and the first letter again.
abbrev words : List (List ℕ)
words = (0x61 ∷ []) ∷ (0xc3 ∷ 0xa9 ∷ []) ∷ (0xe2 ∷ 0x82 ∷ 0xac ∷ []) ∷ (0x61 ∷ []) ∷ []

abbrev letters : List ℕ
letters = 0x61 ∷ 0xe9 ∷ 0x20ac ∷ 0x61 ∷ []

init_states-documented_example :
    (init_states junk (256 * s4 + 0x90) ≡ documented s4 0x90) ↔ (diverges s4 0x90 ≡ false)
init_states-documented_example = init_states-documented junk s4 0x90 (omega arith) (omega arith)

count-put_cp_example :
    count (tables junk junk) (flatten (map (put_bytes 8) letters)) 0x61
    ≡ some (record { nr_ok = 4; nr_error = 0; nr_count = 2; verdict = complete })
count-put_cp_example =
    count-put_cp junk junk 0x61 8 letters (omega arith)
      (unfold survives in (refl, (refl, (refl, (refl, tt)))))

count_total_example :
    (r : Counts) × (count (tables junk junk) (0xff ∷ 0x61 ∷ 0xe2 ∷ []) 0x61 ≡ some r)
    × (r.nr_ok + r.nr_error ≤ 3)
    × (r.nr_count ≤ r.nr_ok)
count_total_example = count_total junk junk 0x61 (0xff ∷ 0x61 ∷ 0xe2 ∷ []) (omega arith)

rget_cp-sequence_example :
    rget_cp (tables junk junk) (0xac ∷ 0x82 ∷ 0xe2 ∷ 0x61 ∷ []) ≡ some (0x20ac, 3)
rget_cp-sequence_example =
    rget_cp-sequence junk junk (0xe2 ∷ 0x82 ∷ 0xac ∷ []) (0x61 ∷ []) 0x20ac (omega arith)
      (unfold sequence_value in unfold mask in refl)

-- U+E000 is written as 0xee 0x80 0x80, and 0xee is no first byte.
private_use_lost : survives 0xe000 ≡ false
unfolding survives
private_use_lost = refl

-- U+1000 is written with 0xc0 as its second byte.
bit_twelve_lost : survives 0x1000 ≡ false
unfolding survives
bit_twelve_lost = refl

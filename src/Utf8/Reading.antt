-- ===== src/Utf8/Reading.antt =====
-- `get_cp` of include/ew/codecs/text/textcodec.hpp, over the tables of `utf8_codec`.
use ewlibs.Base.{◌==◌, if◌then◌else◌, ◌>>=◌, ℕ, ◌-◌, ◌^◌, Option, some, List, [], ◌∷◌}
use ewlibs.Utf8.Codec.{Tables, step}
use ewlibs.Utf8.Table.{s0, error}

abbrev pub tail : List ℕ → List ℕ
tail [] = []
tail (b ∷ bytes) = bytes

-- The loop of `get_cp`; `start` is the text at the call. The result is the code point, a 32-bit
-- pattern, and the text after it.
unfoldable pub get_cp_loop : Tables → List ℕ → List ℕ → ℕ → ℕ → Option (ℕ × List ℕ)
get_cp_loop t start [] state cp = some (cp, [])
get_cp_loop t start (b ∷ src) state cp = step t b (state, cp) >>= λ (state', cp').
    let rest = get_cp_loop t start src state' cp' in
    if state' == error
    then some (2 ^ 32 - 1, tail start)
    else if state' == s0
    then some (cp', src)
    else rest

-- `get_cp(C, src, end, cp)`
unfoldable pub get_cp : Tables → List ℕ → Option (ℕ × List ℕ)
get_cp t src = get_cp_loop t src src s0 0

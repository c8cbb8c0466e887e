-- ===== src/Utf8/NewLines.antt =====
-- `count_new_line` counts a line break once whether it is CR, LF or CR LF, and may be run on a text
-- in pieces.
use ewlibs.Base.{◌==◌, if◌then◌else◌, ℕ, ◌+◌, ◌≡◌, refl, ◌&&◌, List, [], ◌∷◌, ◌++◌, arith}
use ewlibs.Utf8.Codec.{count_new_line, new_line, cr, lf}

-- Each CR LF becomes an LF, and then each CR left becomes an LF; `prev` is the byte before.
unfoldable pub normalise : ℕ → List ℕ → List ℕ
normalise prev [] = []
normalise prev (b ∷ rest) =
    if b == cr
    then lf ∷ normalise b rest
    else if (b == lf) && (prev == cr)
    then normalise b rest
    else b ∷ normalise b rest

abbrev pub count_lf : List ℕ → ℕ
count_lf [] = 0
count_lf (b ∷ rest) = if b == lf then count_lf rest + 1 else count_lf rest

last : ℕ → List ℕ → ℕ
last prev [] = prev
last prev (b ∷ rest) = last b rest

-- The counter grows by the line feeds of the normalised text, and the previous byte becomes the
-- last of the text.
pub count_new_line-normalise :
    (text : List ℕ) (prev counter : ℕ)
    → (count_new_line text prev counter).1 ≡ counter + count_lf (normalise prev text)
unfolding count_new_line new_line normalise
count_new_line-normalise [] prev counter = omega arith
count_new_line-normalise (b ∷ rest) prev counter =
    ground (arith, count_new_line-normalise rest b (counter + new_line prev b))

-- A text in two pieces: the second call goes on from what the first one leaves.
pub count_new_line-append :
    (a b : List ℕ) (prev counter : ℕ)
    → count_new_line (a ++ b) prev counter
      ≡ count_new_line b (count_new_line a prev counter).0 (count_new_line a prev counter).1
unfolding count_new_line
count_new_line-append [] b prev counter = refl
count_new_line-append (x ∷ a) b prev counter =
    count_new_line-append a b x (counter + new_line prev x)

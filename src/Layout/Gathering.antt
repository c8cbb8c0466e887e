-- ===== src/Layout/Gathering.antt =====
-- How `mark_filter_init` of app/eedit/core/filters/mark_filter.cpp collects the marks, with
-- `editor_buffer_get_marks` of app/eedit/api/src/editor_buffer.cpp and `editor_view_get_marks` of
-- app/eedit/api/src/editor_view.cpp. A mark is known by its offset; a null pointer is `none`.
use ewlibs.Base.{
  ◌>>=◌, length, set, take, replicate, ℕ, suc, ◌+◌, min, ◌≡◌, refl, ◌∙◌, Option, none, some, List,
  [], ◌∷◌, arith, length-append, length-map, sym, ap, ap₂, ◌++◌, map, append_assoc, append-nil,
}

pub data MarkType : Type 0 where
  fixed_mark : MarkType
  moving_mark : MarkType

-- The marks of a buffer, or of a view.
pub record MarkLists : Type 0 where
  pub moving : List ℕ
  pub fixed : List ℕ

abbrev pub marks_of : MarkType → MarkLists → List ℕ
marks_of fixed_mark lists = lists.fixed
marks_of moving_mark lists = lists.moving

-- `std::copy` to `marks`, from an index on.
unfoldable pub copy_marks : List ℕ → ℕ → List (Option ℕ) → List (Option ℕ)
copy_marks [] index vec = vec
copy_marks (m ∷ marks) index vec = copy_marks marks (index + 1) (set vec index (some m))

-- `editor_buffer_number_of_marks`, `editor_view_number_of_marks`, for one that is there
abbrev pub number_of_marks : MarkType → MarkLists → ℕ
number_of_marks mark_type lists = length (marks_of mark_type lists)

-- `editor_buffer_get_marks(id, type, max_number_of_marks, marks)`: the count, and the vector.
unfoldable pub editor_buffer_get_marks :
    MarkLists → MarkType → ℕ → ℕ → List (Option ℕ) → ℕ × List (Option ℕ)
editor_buffer_get_marks lists mark_type max_number index vec =
    let n_copy = min (number_of_marks mark_type lists) max_number in
    (n_copy, copy_marks (take n_copy (marks_of mark_type lists)) index vec)

-- `editor_view_get_marks(id, type, max_number_of_marks, marks)`: it copies, and returns 0.
unfoldable pub editor_view_get_marks :
    MarkLists → MarkType → ℕ → ℕ → List (Option ℕ) → ℕ × List (Option ℕ)
editor_view_get_marks lists mark_type max_number index vec =
    let n_copy = min (number_of_marks mark_type lists) max_number in
    (0, copy_marks (take n_copy (marks_of mark_type lists)) index vec)

-- The vector `marks` before it is sorted. `&marks[last_index]` may be the address one past the end, through
-- which nothing is then written.
unfoldable pub gather_marks : MarkLists → MarkLists → List (Option ℕ)
gather_marks ebid view =
    let buff_nmark = number_of_marks moving_mark ebid in
    let view_nmark = number_of_marks moving_mark view in
    let size =
      buff_nmark + view_nmark + number_of_marks fixed_mark ebid + number_of_marks fixed_mark view in
    let (n1, vec1) = editor_buffer_get_marks ebid moving_mark buff_nmark 0 (replicate size none) in
    let (n2, vec2) = editor_buffer_get_marks ebid fixed_mark buff_nmark n1 vec1 in
    let (n3, vec3) = editor_view_get_marks view moving_mark view_nmark (n1 + n2) vec2 in
    (editor_view_get_marks view fixed_mark view_nmark (n1 + n2 + n3) vec3).1

-- `mark_get_offset` of every mark; the read through a null pointer is a fault.
unfoldable pub mark_get_offsets : List (Option ℕ) → Option (List ℕ)
mark_get_offsets [] = some []
mark_get_offsets (m ∷ marks) =
    m >>= λ offset. mark_get_offsets marks >>= λ rest. some (offset ∷ rest)

none_left : (k : ℕ) → k ≡ k + 0
none_left k = omega arith

suc_left : (n k : ℕ) → suc n + k ≡ suc (n + k)
suc_left n k = omega arith

zero_left : (k : ℕ) → 0 + k ≡ k
zero_left k = omega arith

-- Writing the next slots of a vector whose first slots are written.
copy_marks-next :
    (ms : List ℕ) (pre : List (Option ℕ)) (k : ℕ)
    → copy_marks ms (length pre) (pre ++ replicate (length ms + k) none)
      ≡ (pre ++ map some ms) ++ replicate k none
unfolding copy_marks
copy_marks-next [] pre k =
    ap (λ n. pre ++ replicate {A = Option ℕ} n none) (zero_left k)
    ∙ ap (λ l. l ++ replicate k none) (sym (append-nil pre))
copy_marks-next (m ∷ ms) pre k =
    ap (λ n. copy_marks (m ∷ ms) (length pre) (pre ++ replicate {A = Option ℕ} n none))
      (suc_left (length ms) k)
    ∙ ap (copy_marks ms (length pre + 1)) (set_next pre (replicate (length ms + k) none))
    ∙ ap (λ n. copy_marks ms n ((pre ++ some m ∷ []) ++ replicate (length ms + k) none))
        (sym (length-append pre (some m ∷ [])))
    ∙ copy_marks-next ms (pre ++ some m ∷ []) k
    ∙ ap (λ l. l ++ replicate k none) (append_assoc pre (some m ∷ []) (map some ms))
  where
    set_next :
        (pre rest : List (Option ℕ))
        → set (pre ++ none ∷ rest) (length pre) (some m) ≡ (pre ++ some m ∷ []) ++ rest
    set_next [] rest = refl
    set_next (o ∷ pre) rest = ap (λ l. o ∷ l) (set_next pre rest)

mark_get_offsets-map : (ms : List ℕ) → mark_get_offsets (map some ms) ≡ some ms
unfolding mark_get_offsets
mark_get_offsets-map [] = refl
mark_get_offsets-map (m ∷ ms) = rw (mark_get_offsets-map ms) refl

map-append : (a b : List ℕ) → map {B = Option ℕ} some a ++ map some b ≡ map some (a ++ b)
map-append [] b = refl
map-append (m ∷ a) b = ap (λ l. some m ∷ l) (map-append a b)

take_all : (ms : List ℕ) → take (length ms) ms ≡ ms
take_all [] = refl
take_all (m ∷ ms) = ap (λ l. m ∷ l) (take_all ms)

min_same : (n : ℕ) → min n n ≡ n
min_same n = omega arith

min_none : (n : ℕ) → min 0 n ≡ 0
min_none n = omega arith

-- The two vectors of moving marks, one after the other.
copied :
    (bs vs : List ℕ)
    → copy_marks vs (length bs) (copy_marks bs 0 (replicate (length bs + length vs) none))
      ≡ map some (bs ++ vs)
copied bs vs =
    ap (copy_marks vs (length bs)) (copy_marks-next bs [] (length vs))
    ∙ ap₂ (λ i n. copy_marks vs i (map some bs ++ replicate n none)) (sym (length-map bs some))
        (none_left (length vs))
    ∙ copy_marks-next vs (map some bs) 0
    ∙ append-nil (map some bs ++ map some vs)
    ∙ map-append bs vs

gather_moving :
    (bs vs : List ℕ)
    → gather_marks (record { moving = bs; fixed = [] }) (record { moving = vs; fixed = [] })
      ≡ map some (bs ++ vs)
unfolding gather_marks editor_buffer_get_marks editor_view_get_marks copy_marks
gather_moving bs vs =
    let size : length bs + length vs + 0 + 0 ≡ length bs + length vs = omega arith in
    let index : length bs + 0 ≡ length bs = omega arith in
    rw
      (
        min_same (length bs),
        min_same (length vs),
        min_none (length bs),
        min_none (length vs),
        take_all bs,
        take_all vs,
        size,
        index,
      )
      (copied bs vs)

-- Without fixed marks, the filter gathers the moving marks of the buffer, then those of the view.
pub mark_get_offsets-gather_marks :
    (ebid view : MarkLists)
    → ebid.fixed ≡ []
    → view.fixed ≡ []
    → mark_get_offsets (gather_marks ebid view) ≡ some (ebid.moving ++ view.moving)
mark_get_offsets-gather_marks ebid view e e' =
    ap₂
      (λ f f'. mark_get_offsets (
        gather_marks (record { moving = ebid.moving; fixed = f })
          (record { moving = view.moving; fixed = f' })))
      e e'
    ∙ ap mark_get_offsets (gather_moving ebid.moving view.moving)
    ∙ mark_get_offsets-map (ebid.moving ++ view.moving)

-- ===== src/Layout/Marks.antt =====
-- The mark filter of app/eedit/core/filters/mark_filter.cpp: it selects the code points at which a
-- mark stands.
use ewlibs.Base.{
  leb, ◌==◌, if◌then◌else◌, get_elem?, drop, ℕ, suc, ◌+◌, ◌-◌, ◌^◌, Bool, true, false, Option, none,
  some, List, [], ◌∷◌,
}
use ewlibs.Layout.{FilterIo}

-- `mark_filter_context_t`
pub record MarkFilterContext : Type 0 where
  pub offset : List ℕ
  pub off_index : ℕ
  pub skip_pass : Bool

-- The loop that pushes each offset once; `last_push` is the offset before.
unfoldable pub push_offsets : ℕ → List ℕ → List ℕ
push_offsets last_push [] = []
push_offsets last_push (cur_offset ∷ marks) =
    if cur_offset == last_push
    then push_offsets last_push marks
    else cur_offset ∷ push_offsets cur_offset marks

-- The index of the first offset that is not before `start_offset`, counted from `index`.
unfoldable pub find_offset : ℕ → ℕ → List ℕ → Option ℕ
find_offset start_offset index [] = none
find_offset start_offset index (entry ∷ vec) =
    if leb start_offset entry then some index else find_offset start_offset (index + 1) vec

-- `mark_filter_init(blayout_ctx, out)`, from the offsets of the marks on; `sort` is `std::sort`.
unfoldable pub mark_filter_init : (List ℕ → List ℕ) → ℕ → List ℕ → MarkFilterContext
mark_filter_init sort start_offset marks =
    let vec = push_offsets (2 ^ 64 - 1) (sort marks) in
    elim (find_offset start_offset 0 vec) [
      | some index ↦ record { offset = vec; off_index = index; skip_pass = false }
      | none ↦ record { offset = vec; off_index = 0; skip_pass = true }
    ]

-- How many of the next marks are at `offset`: what the `while` loop skips.
unfoldable pub skip_count : ℕ → List ℕ → ℕ
skip_count offset [] = 0
skip_count offset (entry ∷ vec) = if entry == offset then suc (skip_count offset vec) else 0

-- `off_index < offset.size() && io.offset == offset[off_index]`
abbrev pub is_marked : MarkFilterContext → FilterIo → Bool
is_marked ctx io = elim (get_elem? ctx.offset ctx.off_index) [
  | none ↦ false
  | some entry ↦ io.offset == entry
]

-- One element, and the context after it.
unfoldable pub mark_cell : MarkFilterContext → FilterIo → FilterIo × MarkFilterContext
mark_cell ctx io =
    if is_marked ctx io
    then (
      record io { is_selected = true },
      record ctx {
        off_index = ctx.off_index + skip_count io.offset (drop ctx.off_index ctx.offset);
      },
    )
    else (io, ctx)

unfoldable pub mark_cells : MarkFilterContext → List FilterIo → List FilterIo × MarkFilterContext
mark_cells ctx [] = ([], ctx)
mark_cells ctx (io ∷ ios) =
    let (cell, ctx') = mark_cell ctx io in
    let (cells, ctx'') = mark_cells ctx' ios in (cell ∷ cells, ctx'')

-- `mark_filter_filter(blctx, ctx, in, nr_in, out, max_out, nr_out)`: what it writes to `out`.
unfoldable pub mark_filter_filter :
    MarkFilterContext → List FilterIo → List FilterIo × MarkFilterContext
mark_filter_filter ctx ios = if ctx.skip_pass then (ios, ctx) else mark_cells ctx ios

-- ===== src/Layout/Tabs.antt =====
-- `tab_expansion_filter` of app/eedit/core/filters/tab_expansion_layout_mode.cpp. The result is what
-- the filter writes to `out`, from its first element on.
use ewlibs.Base.{
  ◌==◌, if◌then◌else◌, length, ℕ, zero, suc, ◌+◌, ◌-◌, ◌%◌, ◌^◌, true, List, [], ◌∷◌, ◌++◌,
}
use ewlibs.Layout.{FilterIo, Buffer}

-- `tab_expansion_context_t`, `tab_expansion_init`
pub record TabExpansionContext : Type 0 where
  pub expansion : ℕ

abbrev pub tab_expansion_init : TabExpansionContext
tab_expansion_init = record { expansion = 8 }

-- The columns of the tab that stand before the first cell.
abbrev pub filled_columns : ℕ → FilterIo → ℕ
filled_columns expansion io =
    if io.split_count == 0 then io.cp_index % expansion % expansion else io.split_count

-- `filln = expansion - filled`
abbrev pub fill_count : ℕ → ℕ → ℕ
fill_count expansion filled = (expansion + 2 ^ 64 - filled) % 2 ^ 64

-- One cell of a tab, written over `old`.
abbrev pub tab_cell : FilterIo → ℕ → ℕ → FilterIo → FilterIo
tab_cell io filled n old = record old {
  offset = io.offset;
  cp = 32;
  is_selected = true;
  split_flag = 1;
  split_count = (n + filled) % 2 ^ 32;
  cp_index = io.cp_index;
  real_cp = 9;
  valid = true;
  end_of_pipe = io.end_of_pipe;
}

-- The loop over the cells of a tab: `left` of them remain, `n` is its index, `at` is `*nr_out`.
unfoldable pub expand_tab : FilterIo → ℕ → ℕ → ℕ → Buffer → ℕ → List FilterIo
expand_tab io filled zero n out at = []
expand_tab io filled (suc left) n out at =
    tab_cell io filled n (out at) ∷ expand_tab io filled left (n + 1) out (at + 1)

-- What one element of `in` adds to `out`.
unfoldable pub tab_expand : ℕ → FilterIo → Buffer → ℕ → List FilterIo
tab_expand expansion io out at =
    let filled = filled_columns expansion io in
    if io.cp == 9
    then expand_tab io filled (fill_count expansion filled) 0 out at
    else record io { split_flag = 0; split_count = 0; valid = true } ∷ []

unfoldable pub tab_expansion_filter :
    TabExpansionContext → List FilterIo → Buffer → ℕ → List FilterIo
tab_expansion_filter ctx [] out at = []
tab_expansion_filter ctx (io ∷ ios) out at =
    let cells = tab_expand ctx.expansion io out at in
    cells ++ tab_expansion_filter ctx ios out (at + length cells)

-- ===== src/Mapped.antt =====
-- The pages of a file: `page` and `memory_mapped_page` of include/ew/core/container/default_page.hxx, for
-- bytes, with what they use of include/ew/core/container/simple_array.hpp. `_ptr` and `_base` are one
-- pointer, since `skip` always asserts, and a block of memory is the list of its bytes. The build is the
-- one with USE_MMAP_SYSCALL, as the file defines it. A fault is none.
pub mod Valid
pub mod Sequence
mod Tests
use ewlibs.Base.{
  ltb, leb, ◌==◌, if◌then◌else◌, ==_iff, ==_refl, Bool-cases, Option-cases, ◌>>=◌, some_inj, length,
  get_elem?, set, take, drop, replicate, length-append, length-set, get_elem?-set_self,
  get_elem?-set_ne, get_elem?-lt, get_elem?-some, get_elem?-append_left, get_elem?-append_right,
  get_elem?-set, get_elem?-push, take-append-drop, length-take, length-drop, length-replicate,
  length-map, ℕ, zero, suc, ◌+◌, ◌-◌, ◌*◌, ◌/◌, ◌%◌, ◌^◌, ◌≤◌, ◌<◌, min, max, ◌≡◌, refl, sym, ap,
  ap₂, ◌∙◌, fun_ext, subst, ◌≢◌, ◌↔◌, ◌⊎◌, inl, inr, Bool, true, false, not, ◌&&◌, ◌||◌, Option,
  none, some, List, [], ◌∷◌, ◌++◌, map, append_assoc, append-nil, arith,
}

-- The file, which is virtual: the bytes that are at the pointer after `map(offset, size, ...)`, none when
-- it returns false, and what `unmap(ptr, size)` returns, for the bytes at the pointer.
pub record File : Type 0 where
  pub map : ℕ → ℕ → Option (List ℕ)
  pub unmap : List ℕ → ℕ → Bool

-- `memory_mapped_page`: `_ptr`, none for the null pointer, `_size - _ptr`, `_alloc - _base`, `_init`,
-- `_is_mapped`, `_offset`, `_on_disk_offset`, `_file`, false for the null pointer, and `_nr_ref`.
pub record Page : Type 0 where
  pub ptr : Option (List ℕ)
  pub used : ℕ
  pub allocated : ℕ
  pub init : Bool
  pub is_mapped : Bool
  pub offset : ℕ
  pub on_disk_offset : ℕ
  pub file : Bool
  pub nr_ref : ℕ

-- `simple_array::release()`
unfoldable pub release_page : Page → Option Page
release_page p =
    if not p.is_mapped && not p.init
    then none
    else some (record p { ptr = none; used = 0; allocated = 0; init = false })

-- `simple_array::set_data(data, alloc_size, item_used, __is_mapped)`
unfoldable pub set_data : Page → Option (List ℕ) → ℕ → ℕ → Bool → Option Page
set_data p block alloc_size item_used mapped = release_page (record p { init = true }) >>= λ p'.
    some (record p' {
      ptr = block;
      used = item_used;
      allocated = alloc_size;
      init = true;
      is_mapped = mapped;
    })

-- `memory_mapped_page(file, size, offset, flags)`
unfoldable pub new_page : ℕ → ℕ → Option Page
new_page size offset =
    set_data
      (record {
        ptr = none;
        used = 0;
        allocated = 0;
        init = true;
        is_mapped = true;
        offset = offset;
        on_disk_offset = offset;
        file = true;
        nr_ref = 0;
      })
      none size size true

-- `memory_mapped_page::map()`; when the file cannot be mapped, the assertion fails.
unfoldable pub map_page : File → Page → Option (Bool × Page)
map_page f p =
    let once_more : Page = record p { nr_ref = (p.nr_ref + 1) % 2 ^ 32 } in
    if not p.is_mapped
    then elim p.ptr [ none ↦ none | some block ↦ some (true, once_more) ]
    else if not (p.nr_ref == 0)
    then some (true, once_more)
    else elim p.ptr [
      | some block ↦ none
      | none ↦
          if p.used == 0 || not p.file
          then none
          else (f.map p.on_disk_offset p.used >>= λ block.
              set_data p (some block) p.used p.used true >>= λ p'.
              some (true, record p' { nr_ref = (p'.nr_ref + 1) % 2 ^ 32 }))
    ]

-- `memory_mapped_page::unmap()`; it asserts that the file has unmapped the block.
unfoldable pub unmap_page : File → Page → Option (Bool × Page)
unmap_page f p =
    let once_less : Page = record p { nr_ref = p.nr_ref - 1 } in
    if not p.is_mapped
    then elim p.ptr [ none ↦ none | some block ↦ some (true, once_less) ]
    else if p.nr_ref == 0
    then elim p.ptr [ none ↦ some (true, p) | some block ↦ none ]
    else elim p.ptr [
      | none ↦ none
      | some block ↦
          if not (p.nr_ref == 1)
          then some (true, once_less)
          else if not p.file
          then none
          else if not (f.unmap block p.used)
          then none
          else if p.used == 0
          then none
          else (set_data p none p.used p.used true >>= λ p'.
              some (true, record p' { nr_ref = p'.nr_ref - 1 }))
    ]

-- `memory_mapped_page::copyOnWrite()`; `newsize` is a `u32`, and as many bytes are copied.
unfoldable pub copy_on_write : File → Page → Option (Bool × Page)
copy_on_write f p =
    if not p.is_mapped
    then some (true, p)
    else let newsize = p.used % 2 ^ 32 in
      (map_page f p >>= λ (ok, p1). p1.ptr >>= λ block.
      unmap_page f (record p1 { nr_ref = 1 }) >>= λ (ok', p2).
      set_data p2 (some (take newsize block)) newsize newsize false >>= λ p3.
      some (true, record p3 { is_mapped = false; file = false; nr_ref = p.nr_ref }))

-- `page::read(pg_offset, items, nr_items)`: the bytes that are copied; a copy from outside the block is a
-- fault.
unfoldable pub read_page : Page → ℕ → ℕ → Option (List ℕ)
read_page p pg_offset nr_items =
    if ltb p.used ((pg_offset + nr_items) % 2 ^ 32) && ltb p.used pg_offset
    then none
    else let n =
        (if ltb p.used ((pg_offset + nr_items) % 2 ^ 32)
          then (p.used - pg_offset) % 2 ^ 32
          else nr_items) in
      (p.ptr >>= λ block.
      if ltb (length block) (pg_offset + n) then none else some (take n (drop pg_offset block)))

-- `page::search_offset(off, pg_offset)`: -1, 1, or 0 with the offset in the page.
pub data Place : Type 0 where
  left right : Place
  found : ℕ → Place

unfoldable pub search_offset : Page → ℕ → Place
search_offset p off =
    if ltb off p.offset
    then left
    else if leb ((p.offset + p.used) % 2 ^ 64) off
    then right
    else found ((off - p.offset) % 2 ^ 32)

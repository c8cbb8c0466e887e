-- ===== src/Layout.antt =====
-- `filter_io_s` and the arrays that the filters of the layout pass on
-- (app/eedit/core/text_layout.hpp), and `text_codec_io_s` (app/eedit/api/include/text_codec.h). A
-- field of 32 bits, signed or not, is its bit pattern. Of the union the code point's member is kept,
-- which is the one that the filters of the pipeline read.
pub mod Tabs
pub mod Glyphs
pub mod Pen
pub mod Screening
pub mod Room
pub mod Placing
pub mod Fitting
pub mod Rounds
pub mod Looping
pub mod Turning
pub mod Showing
pub mod Ending
pub mod Marks
pub mod Gathering
pub mod Selecting
pub mod Building
pub mod Running
pub mod Finishing
mod Tests
pub mod Expanding
pub mod Decoder
pub mod Decoding
use ewlibs.Base.{
  ltb, leb, ◌==◌, if◌then◌else◌, ==_iff, ==_refl, Bool-cases, Option-cases, ◌>>=◌, some_inj, length,
  get_elem?, set, take, drop, replicate, length-append, length-set, get_elem?-set_self,
  get_elem?-set_ne, get_elem?-lt, get_elem?-some, get_elem?-append_left, get_elem?-append_right,
  get_elem?-set, get_elem?-push, take-append-drop, length-take, length-drop, length-replicate,
  length-map, ℕ, zero, suc, ◌+◌, ◌-◌, ◌*◌, ◌/◌, ◌%◌, ◌^◌, ◌≤◌, ◌<◌, min, max, ◌≡◌, refl, sym, ap,
  ap₂, ◌∙◌, fun_ext, subst, ◌≢◌, ◌↔◌, ◌⊎◌, inl, inr, Bool, true, false, not, ◌&&◌, ◌||◌, Option,
  none, some, List, [], ◌∷◌, ◌++◌, map, append_assoc, append-nil, arith,
}

pub data StreamType : Type 0 where
  bytes : StreamType
  unicode : StreamType
  codec_change : StreamType

pub record FilterIo : Type 0 where
  pub content_type : StreamType
  pub valid : Bool
  pub end_of_pipe : Bool
  pub quit : Bool
  pub is_selected : Bool
  pub offset : ℕ
  pub cp : ℕ
  pub real_cp : ℕ
  pub cp_index : ℕ
  pub split_flag : ℕ
  pub split_count : ℕ

-- `filter_io_init(io)`
abbrev pub filter_io_init : FilterIo
filter_io_init = record {
  content_type = bytes;
  valid = false;
  end_of_pipe = false;
  quit = false;
  is_selected = false;
  offset = 2 ^ 64 - 1;
  cp = 4093;
  real_cp = 4093;
  cp_index = 2 ^ 64 - 1;
  split_flag = 0;
  split_count = 0;
}

-- An array of `filter_io_t`, with what earlier calls left in it.
abbrev pub Buffer : Type 0
Buffer = ℕ → FilterIo

-- The array after its first elements are written.
unfoldable pub overlay {ℓ} : {A : Type ℓ} → List A → (ℕ → A) → ℕ → A
overlay [] buffer i = buffer i
overlay (io ∷ ios) buffer zero = io
overlay (io ∷ ios) buffer (suc i) = overlay ios (λ j. buffer (suc j)) i

-- `text_codec_io_s`
pub record CodecIo : Type 0 where
  pub offset : ℕ
  pub cp : ℕ
  pub size : ℕ

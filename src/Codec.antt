-- ===== src/Codec.antt =====
-- The registry of codecs, app/eedit/api/src/codec.cpp, and the calls that it dispatches,
-- app/eedit/api/src/text_codec.cpp. `O` is the table of operations of a codec; the null pointer is
-- `none`, and so is the result -1.
pub mod Registering
pub mod Ascii
pub mod Writing
pub mod Reading
pub mod Decoding
pub mod Backward
pub mod Tests
use ewlibs.Base.{
  ltb, leb, ◌==◌, if◌then◌else◌, ==_iff, ==_refl, Bool-cases, Option-cases, ◌>>=◌, some_inj, length,
  get_elem?, set, take, drop, replicate, length-append, length-set, get_elem?-set_self,
  get_elem?-set_ne, get_elem?-lt, get_elem?-some, get_elem?-append_left, get_elem?-append_right,
  get_elem?-set, get_elem?-push, take-append-drop, length-take, length-drop, length-replicate,
  length-map, ℕ, zero, suc, ◌+◌, ◌-◌, ◌*◌, ◌/◌, ◌%◌, ◌^◌, ◌≤◌, ◌<◌, min, max, ◌≡◌, refl, sym, ap,
  ap₂, ◌∙◌, fun_ext, subst, ◌≢◌, ◌↔◌, ◌⊎◌, inl, inr, Bool, true, false, not, ◌&&◌, ◌||◌, Option,
  none, some, List, [], ◌∷◌, ◌++◌, map, append_assoc, append-nil, arith,
}

pub data CodecType : Type 0 where
  editor_invalid_codec : CodecType
  editor_text_codec : CodecType
  editor_picture_codec : CodecType
  editor_video_codec : CodecType
  editor_audio_codec : CodecType

-- Equality of `std::string`.
abbrev pub same_name : List ℕ → List ℕ → Bool
same_name [] [] = true
same_name [] (b ∷ bs) = false
same_name (a ∷ as_) [] = false
same_name (a ∷ as_) (b ∷ bs) = (a == b) && same_name as_ bs

-- `codec_id_info_s`
pub record CodecIdInfo (O : Type 0) : Type 0 where
  pub id : ℕ
  pub name : List ℕ
  pub codec_type : CodecType
  pub ops : Option O

-- `next_id`, `codec_by_name_map`, `codec_by_id_map`
pub record Registry (O : Type 0) : Type 0 where
  pub next_id : ℕ
  pub codec_by_name_map : List ℕ → Option (CodecIdInfo O)
  pub codec_by_id_map : ℕ → Option (CodecIdInfo O)

module _ {O : Type 0} where
  abbrev pub new_registry : Registry O
  new_registry = record {
    next_id = 1;
    codec_by_name_map = λ name. none;
    codec_by_id_map = λ id. none;
  }

  -- `codec_get_by_name(name)`
  unfoldable pub codec_get_by_name : Registry O → List ℕ → ℕ
  codec_get_by_name r name = elim (r.codec_by_name_map name) [ none ↦ 0 | some info ↦ info.id ]

  -- The two maps after `codec_register` has written them.
  abbrev pub add_info : CodecIdInfo O → Registry O → Registry O
  add_info info r = record {
    next_id = (r.next_id + 1) % 2 ^ 64;
    codec_by_name_map =
        λ name. if same_name name info.name then some info else r.codec_by_name_map name;
    codec_by_id_map = λ id. if id == info.id then some info else r.codec_by_id_map id;
  }

  -- `codec_register(name, type, ops)`: the id, 0 for a name that is taken.
  unfoldable pub codec_register : Registry O → List ℕ → CodecType → Option O → ℕ × Registry O
  codec_register r name codec_type ops = if not (codec_get_by_name r name == 0) then (0, r) else (
    r.next_id,
    add_info (record { id = r.next_id; name = name; codec_type = codec_type; ops = ops }) r,
  )

  unfoldable pub codec_get_type : Registry O → ℕ → CodecType
  codec_get_type r id = elim (r.codec_by_id_map id) [
    | none ↦ editor_invalid_codec
    | some info ↦ info.codec_type
  ]

  unfoldable pub codec_get_ops : Registry O → ℕ → Option O
  codec_get_ops r id = r.codec_by_id_map id >>= λ info. info.ops

-- `text_codec_ops_s`, for operations on a state S, that of the buffers and of `iovc`: each returns
-- an `int`, a 32-bit pattern. The last argument is `iocnt`, an offset, or a direction.
pub record TextCodecOps (S : Type 0) : Type 0 where
  pub read_forward : S → ℕ → ℕ × S
  pub read_backward : S → ℕ → ℕ × S
  pub write : S → ℕ → ℕ × S

-- -1
abbrev pub failed : ℕ
failed = 2 ^ 32 - 1

module _ {S : Type 0} where
  -- `text_codec_read_forward`, `text_codec_read_backward`, `text_codec_write`
  unfoldable pub text_codec_read_forward : Registry (TextCodecOps S) → ℕ → S → ℕ → ℕ × S
  text_codec_read_forward r codec_id s iocnt = elim (codec_get_ops r codec_id) [
    | none ↦ (failed, s)
    | some ops ↦ ops.read_forward s iocnt
  ]

  unfoldable pub text_codec_read_backward : Registry (TextCodecOps S) → ℕ → S → ℕ → ℕ × S
  text_codec_read_backward r codec_id s iocnt = elim (codec_get_ops r codec_id) [
    | none ↦ (failed, s)
    | some ops ↦ ops.read_backward s iocnt
  ]

  unfoldable pub text_codec_write : Registry (TextCodecOps S) → ℕ → S → ℕ → ℕ × S
  text_codec_write r codec_id s iocnt = elim (codec_get_ops r codec_id) [
    | none ↦ (failed, s)
    | some ops ↦ ops.write s iocnt
  ]

  -- `text_codec_read(io_ctx, direction, iovc, iocnt)`; `direction` is an `int`.
  unfoldable pub text_codec_read : Registry (TextCodecOps S) → ℕ → ℕ → S → ℕ → ℕ × S
  text_codec_read r codec_id direction s iocnt = elim (codec_get_ops r codec_id) [
    | none ↦ (failed, s)
    | some ops ↦
        if not (direction == 0) && ltb direction (2 ^ 31)
        then ops.read_forward s iocnt
        else if leb (2 ^ 31) direction
        then ops.read_backward s iocnt
        else (failed, s)
  ]

-- ===== src/Codec/Tests.antt =====
-- The theorems about the codecs on a buffer of three bytes.
use ewlibs.Base.{
  ltb, if◌then◌else◌, length, take, drop, ℕ, ◌≡◌, refl, ◌≢◌, ◌⊎◌, none, some, List, [], ◌∷◌, arith,
  leb, ◌+◌, ◌++◌,
}
use ewlibs.Layout.{CodecIo}
use ewlibs.Codec.Ascii.{
  ReadBytes, ascii_read_backward, ascii_backward_loop, backward_cells, WriteBytes,
}
use ewlibs.Codec.{Registry, new_registry, codec_get_by_name, codec_register, editor_text_codec}
use ewlibs.Codec.Registering.{Registered, new_registry-Consistent, codec_register-Registered}
use ewlibs.Codec.Backward.{slice, forward_cells, reversed, ascii_read_backward-reversed}
use ewlibs.Codec.Reading.{ReadsBytes}

-- The text "a\tb".
abbrev pub three_bytes : List ℕ
three_bytes = 97 ∷ 9 ∷ 98 ∷ []

abbrev pub read_of : List ℕ → ReadBytes
read_of bytes offset n =
    if ltb offset (length bytes) then some (take n (drop offset bytes)) else none

pub read_of-ReadsBytes : (bytes : List ℕ) → ReadsBytes bytes (read_of bytes)
read_of-ReadsBytes bytes = record {
  within = λ offset n h. ground (arith, h);
  beyond = λ offset n h. ground (arith, h);
}

abbrev pub blank_iovc : ℕ → CodecIo
blank_iovc k = record { offset = 0; cp = 0; size = 0 }

two_backwards :
    ascii_read_backward (read_of three_bytes) 3 2
    ≡ some (
        some
          (record { offset = 2; cp = 98; size = 1 } ∷ record { offset = 1; cp = 9; size = 1 } ∷ []))
unfolding ascii_read_backward ascii_backward_loop backward_cells
two_backwards = refl

ascii_read_backward-reversed_example :
    ascii_read_backward (read_of three_bytes) 3 2
    ≡ some (some (reversed (forward_cells 1 (slice 1 3 three_bytes))))
ascii_read_backward-reversed_example =
    ascii_read_backward-reversed three_bytes (read_of three_bytes) (read_of-ReadsBytes three_bytes)
      3 2 (omega arith)

abbrev plain : ℕ
plain = 5

abbrev empty_registry : Registry ℕ
empty_registry = new_registry

-- The name "a", of a codec whose table of operations is the number 5.
codec_register-Registered_example :
    ((codec_get_by_name empty_registry (97 ∷ []) ≡ 0)
      × Registered empty_registry
          (97 ∷ [])
          editor_text_codec
          (some plain)
          ((codec_register empty_registry (97 ∷ []) editor_text_codec (some plain)).0)
          ((codec_register empty_registry (97 ∷ []) editor_text_codec (some plain)).1))
    ⊎ ((codec_get_by_name empty_registry (97 ∷ []) ≢ 0)
        × (codec_register empty_registry (97 ∷ []) editor_text_codec (some plain)
            ≡ (0, empty_registry)))
codec_register-Registered_example =
    codec_register-Registered empty_registry (97 ∷ []) editor_text_codec (some plain)
      new_registry-Consistent (omega arith)

abbrev write_plain : WriteBytes (List ℕ)
write_plain file offset new =
    if leb offset (length file)
    then some (length new, take offset file ++ new ++ drop offset file)
    else none

-- The code points x and y, at offset 1.
abbrev two_cps : ℕ → CodecIo
two_cps k = record { offset = 1; cp = 120 + k; size = 0 }

-- ===== src/Codec/Decoding.antt =====
-- `text_decoder_filter` of app/eedit/core/filters/text_decoder.cpp over the ascii codec.
use ewlibs.Base.{length, ℕ, ◌^◌, ◌<◌, ◌≤◌, ◌≡◌, ◌⊎◌, true, some, List}
use ewlibs.Base.Every.{All}
use ewlibs.Layout.{FilterIo, Buffer}
use ewlibs.Layout.Decoder.{TextDecoderContext, text_decoder_filter}
use ewlibs.Layout.Decoding.{Serving, text_decoder_filter-Served}
use ewlibs.Layout.Expanding.{Splits, last_or}
use ewlibs.Codec.Ascii.{ReadBytes}
use ewlibs.Codec.Reading.{ReadsBytes, ascii_reader, ascii_reader-Reads}

-- Over the ascii codec, on a buffer of fewer than 2 ^ 64 bytes from which byte_buffer_read gives, from
-- an offset within it, as many bytes as are asked for and are there, and from a state whose next offset
-- is within the buffer and whose column of a tab is below eight: a call of the decoder fails no assertion,
-- writes at least one cell and at most 1024, of which the tabs start within their eight columns, and
-- either its last cell ends the pipe, or the state after it is such a state again, further on in the
-- buffer.
pub text_decoder_filter-ascii_reader :
    (bytes : List ℕ) (read : ReadBytes) (ctx : TextDecoderContext) (out : Buffer)
    → ReadsBytes bytes read
    → length bytes < 2 ^ 64
    → Serving (length bytes) ctx
    → (cells : List FilterIo) × (ctx' : TextDecoderContext) × (text_decoder_filter
          (ascii_reader read)
          ctx
          out
        ≡ some (cells, ctx'))
      × ((0 < length cells)
          × (length cells ≤ 1024)
          × All Splits cells
          × (((d : FilterIo) → (last_or d cells).end_of_pipe ≡ true)
              ⊎ (Serving (length bytes) ctx' × (ctx.next_offset < ctx'.next_offset))))
text_decoder_filter-ascii_reader bytes read ctx out law small w =
    text_decoder_filter-Served (length bytes) small (ascii_reader read)
      (ascii_reader-Reads bytes read law) ctx w out

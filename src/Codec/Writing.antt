-- ===== src/Codec/Writing.antt =====
-- What the ascii codec writes it reads back.
use ewlibs.Base.{length, take, drop, ℕ, zero, suc, ◌+◌, ◌≤◌, ◌<◌, ◌≡◌, some, List, [], ◌∷◌, ◌++◌}
use ewlibs.Layout.{CodecIo}
use ewlibs.Codec.Ascii.{ReadBytes, WriteBytes}
use ewlibs.Codec.Reading.{ReadsBytes}

-- What the codec relies on of `byte_buffer_write` and `byte_buffer_read`, of buffers that hold bytes.
pub record Keeps {S : Type 0} (bytes : S → List ℕ) (write : WriteBytes S) (read : S → ReadBytes)
    : Type 0 where
  pub reads : (s : S) → ReadsBytes (bytes s) (read s)
  pub writes :
      (s : S) (offset : ℕ) (new : List ℕ)
      → offset ≤ length (bytes s)
      → (s' : S) × (write s offset new ≡ some (length new, s'))
        × (bytes s' ≡ take offset (bytes s) ++ new ++ drop offset (bytes s))

-- The code points of an array.
abbrev pub cps_of : ℕ → ℕ → (ℕ → CodecIo) → List ℕ
cps_of zero i iovc = []
cps_of (suc n) i iovc = (iovc i).cp ∷ cps_of n (i + 1) iovc

-- Code points of ASCII.
abbrev pub Plain : ℕ → ℕ → (ℕ → CodecIo) → Type 0
Plain zero i iovc = Unit
Plain (suc n) i iovc = ((iovc i).cp < 128) × Plain n (i + 1) iovc

-- ===== src/Codec/Reading.antt =====
-- What the ascii codec reads, of a buffer that holds `bytes`.
use ewlibs.Base.{
  ltb, Bool-cases, some_inj, length, take, drop, length-take, length-drop, ℕ, zero, suc, ◌+◌, ◌-◌,
  ◌≤◌, ◌<◌, min, ◌≡◌, refl, sym, ap, ◌∙◌, subst, inl, inr, true, none, some, List, [], ◌∷◌, arith,
}
use ewlibs.Layout.{CodecIo}
use ewlibs.Layout.Decoder.{ReadForward}
use ewlibs.Layout.Decoding.{Reads}
use ewlibs.Codec.Ascii.{ReadBytes, decode_bytes, ascii_block, ascii_read_loop, ascii_read_forward}

-- What the codec relies on of `byte_buffer_read`: from an offset within the buffer it reads as many
-- of the bytes as are asked for and are there; from another one it fails.
pub record ReadsBytes (bytes : List ℕ) (read : ReadBytes) : Type 0 where
  pub within :
      (offset n : ℕ) → offset < length bytes → read offset n ≡ some (take n (drop offset bytes))
  pub beyond : (offset n : ℕ) → length bytes ≤ offset → read offset n ≡ none

-- The bytes are in `iovc`, one by one, each with its offset.
abbrev pub Holds : List ℕ → ℕ → ℕ → (ℕ → CodecIo) → Type 0
Holds [] i offset iovc = Unit
Holds (b ∷ buff) i offset iovc =
    (iovc i ≡ record { offset = offset; cp = b; size = 1 }) × Holds buff (i + 1) (offset + 1) iovc

decode_bytes-before :
    (buff : List ℕ) (i offset : ℕ) (iovc : ℕ → CodecIo) (k : ℕ)
    → k < i
    → decode_bytes buff i offset iovc k ≡ iovc k
unfolding decode_bytes
decode_bytes-before [] i offset iovc k h = refl
decode_bytes-before (b ∷ buff) i offset iovc k h =
    decode_bytes-before buff (i + 1) (offset + 1) _ k (omega (arith, h)) ∙ ground (arith, h)

decode_bytes-Holds :
    (buff : List ℕ) (i offset : ℕ) (iovc : ℕ → CodecIo)
    → Holds buff i offset (decode_bytes buff i offset iovc)
unfolding decode_bytes
decode_bytes-Holds [] i offset iovc = tt
decode_bytes-Holds (b ∷ buff) i offset iovc = (
  decode_bytes-before buff (i + 1) (offset + 1) _ i (omega arith) ∙ ground arith,
  decode_bytes-Holds buff (i + 1) (offset + 1) _,
)

take-take : {A : Type 0} (n m : ℕ) (xs : List A) → n ≤ m → take n (take m xs) ≡ take n xs
take-take zero m xs h = refl
take-take (suc n) zero xs h = absurd (omega (arith, h))
take-take (suc n) (suc m) [] h = refl
take-take (suc n) (suc m) (x ∷ xs) h = ap (λ r. x ∷ r) (take-take n m xs (omega (arith, h)))

module _ (bytes : List ℕ) (read : ReadBytes) (law : ReadsBytes bytes read) where
  -- From an offset within the buffer, as many bytes as are asked for and are there are read.
  pub ascii_read_forward-Holds :
      (iovc : ℕ → CodecIo) (iocnt : ℕ)
      → 0 < iocnt
      → iocnt < 16384
      → (iovc 0).offset < length bytes
      → (iovc' : ℕ → CodecIo) × (ascii_read_forward read iovc iocnt
          ≡ some (some (min iocnt (length bytes - (iovc 0).offset)), iovc'))
        × Holds (take iocnt (drop ((iovc 0).offset) bytes)) 0 ((iovc 0).offset) iovc'
  unfolding ascii_read_forward ascii_read_loop ascii_block
  ascii_read_forward-Holds iovc iocnt pos small inside =
      let offset = (iovc 0).offset in
      let buff = take (16384 - 0) (drop offset bytes) in
      let same : take iocnt buff ≡ take iocnt (drop offset bytes) =
        take-take iocnt (16384 - 0) (drop offset bytes) (omega (arith, small)) in
      let count : length (take iocnt buff) ≡ min iocnt (length bytes - offset) =
        ap length same
        ∙ omega (arith, length-take iocnt (drop offset bytes), length-drop offset bytes) in
      let run = law.within offset (16384 - 0) inside in
      let more : ltb 0 iocnt ≡ true = ground (arith, pos) in
      let last : ltb (min iocnt (length bytes - offset)) 16384 ≡ true = ground (arith, small) in
      (
        decode_bytes (take iocnt buff) 0 offset iovc,
        rw (more, run, count, last)
            (ap (λ n. some (some n, decode_bytes (take iocnt buff) 0 offset iovc)) (omega arith)),
        subst (λ l. Holds l 0 offset (decode_bytes (take iocnt buff) 0 offset iovc)) same
            (decode_bytes-Holds (take iocnt buff) 0 offset iovc),
      )

  -- At the end of the buffer, or beyond it, the call fails.
  pub ascii_read_forward-beyond :
      (iovc : ℕ → CodecIo) (iocnt : ℕ)
      → 0 < iocnt
      → length bytes ≤ (iovc 0).offset
      → ascii_read_forward read iovc iocnt ≡ some (none, iovc)
  unfolding ascii_read_forward ascii_read_loop ascii_block
  ascii_read_forward-beyond iovc iocnt pos outside =
      let more : ltb 0 iocnt ≡ true = ground (arith, pos) in
      rw (more, law.beyond ((iovc 0).offset) (16384 - 0) outside) refl

-- `ascii_read_forward` as the layout's decoder gets it: its result, -1 being `none`.
unfoldable pub ascii_reader : ReadBytes → ReadForward
ascii_reader read iovc iocnt = elim (ascii_read_forward read iovc iocnt) [
  | none ↦ (none, iovc)
  | some result ↦ result
]

Holds-at :
    (buff : List ℕ) (i offset : ℕ) (iovc : ℕ → CodecIo) (k : ℕ)
    → Holds buff i offset iovc
    → k < length buff
    → ((iovc (i + k)).offset ≡ offset + k) × ((iovc (i + k)).size ≡ 1)
Holds-at [] i offset iovc k h lt = absurd (omega (arith, lt))
Holds-at (b ∷ buff) i offset iovc zero (h, hs) lt =
    let here : iovc (i + 0) ≡ record { offset = offset; cp = b; size = 1 } =
      ap iovc (omega arith) ∙ h in
    (ap (λ c. c.offset) here ∙ omega arith, ap (λ c. c.size) here)
Holds-at (b ∷ buff) i offset iovc (suc k) (h, hs) lt =
    let (o, s) = Holds-at buff (i + 1) (offset + 1) iovc k hs (omega (arith, lt)) in
    let shift : i + suc k ≡ i + 1 + k = omega arith in
    (ap (λ j. (iovc j).offset) shift ∙ o ∙ omega arith, ap (λ j. (iovc j).size) shift ∙ s)

Holds-front :
    (buff : List ℕ) (offset : ℕ) (iovc : ℕ → CodecIo) (k : ℕ)
    → Holds buff 0 offset iovc
    → k < length buff
    → ((iovc k).offset ≡ offset + k) × ((iovc k).size ≡ 1)
Holds-front buff offset iovc k h lt =
    let shift : 0 + k ≡ k = omega arith in
    subst (λ j. ((iovc j).offset ≡ offset + k) × ((iovc j).size ≡ 1)) shift
      (Holds-at buff 0 offset iovc k h lt)

none_not_some : {n : ℕ} → none ≡ some n → ⊥
none_not_some h = cc

module _ (bytes : List ℕ) (read : ReadBytes) (law : ReadsBytes bytes read) where
  -- What a successful call of the codec has read.
  pub record Got (iovc iovc' : ℕ → CodecIo) (n : ℕ) : Type 0 where
    pub inside : (iovc 0).offset < length bytes
    pub count : n ≡ min 1024 (length bytes - (iovc 0).offset)
    pub held : (k : ℕ) → k < n → ((iovc' k).offset ≡ (iovc 0).offset + k) × ((iovc' k).size ≡ 1)

  ascii_reader-Got :
      (iovc iovc' : ℕ → CodecIo) (n : ℕ)
      → ascii_reader read iovc 1024 ≡ (some n, iovc')
      → Got iovc iovc' n
  unfolding ascii_reader
  ascii_reader-Got iovc iovc' n e = elim (Bool-cases (ltb ((iovc 0).offset) (length bytes))) [
    | inl lt ↦
        let inside : (iovc 0).offset < length bytes = ground (arith, lt) in
        let (got, run, h) =
          ascii_read_forward-Holds bytes read law iovc 1024 (omega arith) (omega arith) inside in
        let run' : ascii_reader read iovc 1024
            ≡ (some (min 1024 (length bytes - (iovc 0).offset)), got) =
          rw (ascii_reader, run) refl in
        let same = sym run' ∙ e in
        let buff = take 1024 (drop ((iovc 0).offset) bytes) in
        let count : length buff ≡ min 1024 (length bytes - (iovc 0).offset) = omega (
          arith,
          length-take 1024 (drop ((iovc 0).offset) bytes),
          length-drop ((iovc 0).offset) bytes,
        ) in
        let n_is = some_inj (ap (λ p. p.0) same) in
        record {
          inside = inside;
          count = sym n_is;
          held = λ k lt'.
              subst (λ v. ((v k).offset ≡ (iovc 0).offset + k) × ((v k).size ≡ 1))
                (ap (λ p. p.1) same)
                (Holds-front buff ((iovc 0).offset) got k h (omega (arith, lt', n_is, count)));
        }
    | inr ge ↦
        let run : ascii_reader read iovc 1024 ≡ (none, iovc) =
          rw
            (
              ascii_reader,
              ascii_read_forward-beyond bytes read law iovc 1024 (omega arith) (ground (arith, ge)),
            )
            refl in
        absurd (none_not_some (ap (λ p. p.0) (sym run ∙ e)))
  ]

  pub ascii_reader-Reads : Reads (length bytes) (ascii_reader read)
  ascii_reader-Reads = record {
    few = λ iovc iovc' n e. omega (arith, (ascii_reader-Got iovc iovc' n e).count);
    inside = λ iovc iovc' n h e i lt.
        let g = ascii_reader-Got iovc iovc' n e in
        omega (arith, (g.held i lt).0, g.count, lt, g.inside);
    onward = λ iovc iovc' n h e.
        let g = ascii_reader-Got iovc iovc' (suc n) e in
        let (o, sz) = g.held n (omega arith) in
        (omega (arith, o, sz), omega (arith, o, sz, g.count, g.inside));
  }

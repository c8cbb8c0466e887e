-- ===== src/Codec/Registering.antt =====
-- What the registry of codecs keeps over its calls.
use ewlibs.Base.{
  ltb, ◌==◌, if◌then◌else◌, ==_iff, ==_refl, Bool-cases, Option-cases, some_inj, ℕ, ◌+◌, ◌-◌, ◌%◌,
  ◌^◌, ◌<◌, ◌≡◌, refl, sym, ap₂, ◌∙◌, subst, ◌≢◌, ◌⊎◌, inl, inr, true, Option, some, List, [], ◌∷◌,
  arith,
}
use ewlibs.Codec.{
  CodecType, same_name, CodecIdInfo, Registry, new_registry, codec_get_by_name, add_info,
  codec_register, codec_get_type, codec_get_ops, TextCodecOps, failed, text_codec_read,
  text_codec_read_forward, text_codec_read_backward,
}

same_name_refl : (name : List ℕ) → same_name name name ≡ true
same_name_refl [] = refl
same_name_refl (b ∷ name) = rw (==_refl b, same_name_refl name) refl

same_name_sound : (a b : List ℕ) → same_name a b ≡ true → a ≡ b
same_name_sound [] [] h = refl
same_name_sound [] (b ∷ bs) h = cc
same_name_sound (a ∷ rest) [] h = cc
same_name_sound (a ∷ rest) (b ∷ bs) h =
    ap₂ (λ x xs. x ∷ xs) (ground (arith, h)) (same_name_sound rest bs (ground (arith, h)))

module _ {O : Type 0} where
  -- A name leads to an id that is given, and the id to the same codec.
  pub record Consistent (r : Registry O) : Type 0 where
    pub positive : 0 < r.next_id
    pub named :
        (name : List ℕ) (info : CodecIdInfo O)
        → r.codec_by_name_map name ≡ some info
        → (0 < info.id) × (info.id < r.next_id) × (r.codec_by_id_map info.id ≡ some info)
    pub given : (id : ℕ) (info : CodecIdInfo O) → r.codec_by_id_map id ≡ some info → id < r.next_id

  pub new_registry-Consistent : Consistent new_registry
  new_registry-Consistent = record {
    positive = omega arith;
    named = λ name info h. cc;
    given = λ id info h. cc;
  }

  -- What a registration leaves under a name that is not taken.
  pub record Registered (r : Registry O) (name : List ℕ) (codec_type : CodecType) (ops : Option O)
      (id : ℕ) (r' : Registry O) : Type 0 where
    pub proper : id ≢ 0
    pub consistent : Consistent r'
    pub by_name : codec_get_by_name r' name ≡ id
    pub by_id : (codec_get_ops r' id ≡ ops) × (codec_get_type r' id ≡ codec_type)
    pub other_names : (n : List ℕ) → n ≢ name → codec_get_by_name r' n ≡ codec_get_by_name r n
    pub other_ids : (i : ℕ) → i ≢ id → codec_get_ops r' i ≡ codec_get_ops r i

  module _ (r : Registry O) (w : Consistent r) (room : r.next_id < 2 ^ 64 - 1) (name : List ℕ)
      (codec_type : CodecType) (ops : Option O) where
    abbrev new_info : CodecIdInfo O
    new_info = record { id = r.next_id; name = name; codec_type = codec_type; ops = ops }

    abbrev registered : Registry O
    registered = add_info new_info r

    wrap : (r.next_id + 1) % 2 ^ 64 ≡ r.next_id + 1
    wrap = omega (arith, room)

    named_lem :
        (n : List ℕ) (info : CodecIdInfo O)
        → registered.codec_by_name_map n ≡ some info
        → (0 < info.id)
          × (info.id < registered.next_id)
          × (registered.codec_by_id_map info.id ≡ some info)
    named_lem n info h = elim (Bool-cases (same_name n name)) [
      | inl e ↦
          let is : new_info ≡ info = some_inj (sym (rw e refl) ∙ h) in
          subst
            (λ i.
              (0 < i.id) × (i.id < registered.next_id) × (registered.codec_by_id_map i.id ≡ some i))
            is (w.positive, omega (arith, wrap), rw (==_refl r.next_id) refl)
      | inr e ↦
          let old : r.codec_by_name_map n ≡ some info = sym (rw e refl) ∙ h in
          let (pos, low, there) = w.named n info old in
          (pos, omega (arith, low, wrap), rw there (ground (arith, low)))
    ]

    given_lem :
        (id : ℕ) (info : CodecIdInfo O)
        → registered.codec_by_id_map id ≡ some info
        → id < registered.next_id
    given_lem id info h = elim (Bool-cases (id == r.next_id)) [
      | inl e ↦ omega (arith, wrap, (==_iff _ _).0 e)
      | inr e ↦ omega (arith, wrap, w.given id info (sym (rw e refl) ∙ h))
    ]

    registered-Registered : Registered r name codec_type ops r.next_id registered
    unfolding codec_get_by_name codec_get_ops codec_get_type
    registered-Registered = record {
      proper = λ e. omega (arith, e, w.positive);
      consistent = record { positive = omega (arith, wrap); named = named_lem; given = given_lem };
      by_name = rw (codec_get_by_name, same_name_refl name) refl;
      by_id =
          (rw (codec_get_ops, ==_refl r.next_id) refl, rw (codec_get_type, ==_refl r.next_id) refl);
      other_names = λ n ne. elim (Bool-cases (same_name n name)) [
        | inl e ↦ absurd (ne (same_name_sound n name e))
        | inr e ↦ rw (codec_get_by_name, e) refl
      ];
      other_ids = λ i ne. elim (Bool-cases (i == r.next_id)) [
        | inl e ↦ absurd (ne ((==_iff _ _).0 e))
        | inr e ↦ rw (codec_get_ops, e) refl
      ];
    }

  -- A codec whose name is not taken gets an id that leads to it, and the other codecs stay; one
  -- whose name is taken changes nothing.
  pub codec_register-Registered :
      (r : Registry O) (name : List ℕ) (codec_type : CodecType) (ops : Option O)
      → Consistent r
      → r.next_id < 2 ^ 64 - 1
      → ((codec_get_by_name r name ≡ 0)
          × Registered r name codec_type ops
              ((codec_register r name codec_type ops).0)
              ((codec_register r name codec_type ops).1))
        ⊎ ((codec_get_by_name r name ≢ 0) × (codec_register r name codec_type ops ≡ (0, r)))
  unfolding codec_register
  codec_register-Registered r name codec_type ops w room =
      elim (Bool-cases (codec_get_by_name r name == 0)) [
        | inl e ↦ inl ((==_iff _ _).0 e, rw e (registered-Registered r w room name codec_type ops))
        | inr e ↦ inr ((λ q. ground (arith, e, q)), rw e refl)
      ]

-- `text_codec_read` is the call of its direction, and fails for the direction 0.
pub text_codec_read_lem :
    {S : Type 0} (r : Registry (TextCodecOps S)) (codec_id direction : ℕ) (s : S) (iocnt : ℕ)
    → text_codec_read r codec_id direction s iocnt ≡ (
        if direction == 0
        then (failed, s)
        else if ltb direction (2 ^ 31)
        then text_codec_read_forward r codec_id s iocnt
        else text_codec_read_backward r codec_id s iocnt)
unfolding text_codec_read text_codec_read_forward text_codec_read_backward
text_codec_read_lem r codec_id direction s iocnt = elim (Option-cases (codec_get_ops r codec_id)) [
  | inl e ↦
      rw (text_codec_read, text_codec_read_forward, text_codec_read_backward, e) (ground arith)
  | inr (ops, e) ↦
      rw (text_codec_read, text_codec_read_forward, text_codec_read_backward, e) (ground arith)
]

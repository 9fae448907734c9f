-- ===== src/Primitives/Orchard/Parts.antt =====
-- Laws of the byte format of Orchard bundles.
use auzum_zcash.Primitives.Encoding.{Exact-ok_or, IsElement, read_element-IsCodec}
use auzum_zcash.Base.{
  ℕ, ◌<◌, ◌≡◌, refl, sym, ◌∙◌, false, List, [], ◌∷◌, Option, none, some, inr, All, arith,
  if◌then◌else◌,
}
use auzum_zcash.Base.Io.{
  Bytes, IsBytes, invalid_input, Written, done, pure, ◌>>=◌, ◌>>◌, read_u8, write_u8, write_all,
  write_each,
}
use auzum_zcash.Base.Io.Codec.{byte-IsCodec}
use auzum_zcash.Base.Io.Decodes.{Decodes, Decodes-bytes, Decodes-bind, Decodes-last}
use auzum_zcash.Base.Io.Exact.{
  Exact, Exact-bind, Exact-return, Exact-fail, Exact-bytes, write_laws, Exact-nested, >>-done-nil,
  done-nil->>,
}
use auzum_zcash.Protocol.Value.{IsBalance, to_i64_le_bytes}
use auzum_zcash.Primitives.Transaction.Crates.{is_empty, IsVector}
use auzum_zcash.Primitives.Transaction.Shared.{amount-IsCodec}
use auzum_zcash.Primitives.Orchard.Crate.{OrchardCrate, IsOrchardCrate}
use auzum_zcash.Primitives.Orchard.Elements.{
  read_flags, read_anchor, read_signature, write_action_without_auth,
}
use auzum_zcash.Primitives.Orchard.Bundle.{read_authorized, read_bundle, write_bundle}
use auzum_zcash.Primitives.Orchard.Codec.{
  IsAction, IsSigned, read_action-IsCodec, without_auth, write_signatures, Decodes-read_signatures,
  Exact-read_signatures, Exact-ok_or_data, write_each-without_auth, length-without_auth,
}

module _ (o : OrchardCrate) where
  -- A bundle of a version: its parts fit their formats, and it can be made of them.
  pub record IsBundle (version : o.BundleVersion) (b : o.Bundle) : Type 0 where
    pub there : is_empty (without_auth o (o.actions b)) ≡ false
    pub actions : IsVector (IsAction o) (without_auth o (o.actions b))
    pub flag_byte : o.flag_byte b < 256
    pub flags : o.flags_from_byte (o.flag_byte b) version ≡ some (o.flags b)
    pub value_balance : IsBalance (o.value_balance b)
    pub anchor : IsElement o.Anchor (o.anchor b)
    pub proof : IsVector (λ n. n < 256) (o.proof b)
    pub signatures : All (IsSigned o) (o.actions b)
    pub binding_signature : IsBytes 64 (o.binding_signature b)
    pub bundle_version : o.bundle_version b ≡ version
    pub from_parts :
        o.try_from_parts
          (o.actions b)
          (o.flags b)
          (o.value_balance b)
          (o.anchor b)
          (o.proof b)
          (o.binding_signature b)
          version
        ≡ inr b

  -- There is no bundle without a version.
  abbrev pub IsOptional : Option o.BundleVersion → Option o.Bundle → Type 0
  IsOptional version none = Unit
  IsOptional none (some b) = ⊥
  IsOptional (some version) (some b) = IsBundle version b

  abbrev pub write_parts : o.Bundle → Written
  write_parts b = do
    write_u8 (o.flag_byte b)
    write_all (to_i64_le_bytes (o.value_balance b))
    write_all (o.Anchor.to_bytes (o.anchor b))
    o.write_vector write_u8 (o.proof b)
    write_signatures o (o.actions b)
    write_all (o.binding_signature b)

module _ {o : OrchardCrate} (k : IsOrchardCrate o) where
  pub write_bundle-body :
      (b : o.Bundle)
      → write_bundle o (some b) ≡ (
          o.write_vector (write_action_without_auth o) (without_auth o (o.actions b))
          >> write_parts o b)
  unfolding write_bundle
  write_bundle-body b =
      rw
        (
          k.nonempty_format (λ (act : o.Action × Bytes). write_action_without_auth o act.0)
              (o.actions b),
          k.array_format (λ (act : o.Action × Bytes). write_all act.1) (o.actions b),
          k.vector_format (write_action_without_auth o) (without_auth o (o.actions b)),
          length-without_auth o (o.actions b),
          write_each-without_auth o (write_action_without_auth o) (o.actions b),
        )
        refl

  Decodes-read_flags :
      (n : ℕ) (version : o.BundleVersion) (fl : o.Flags)
      → n < 256
      → o.flags_from_byte n version ≡ some fl
      → Decodes (write_u8 n) (read_flags o version) fl
  unfolding read_flags
  Decodes-read_flags n version fl h e = Decodes-last _ (byte-IsCodec.decodes n h) (rw e refl)

  Decodes-authorized :
      (version : o.BundleVersion) (b : o.Bundle)
      → IsBundle o version b
      → Decodes
          (write_parts o b)
          (read_authorized o (some version) (without_auth o (o.actions b)))
          (some b)
  unfolding read_authorized read_anchor read_signature ◌>>=◌ pure
  Decodes-authorized version b h =
      let root = read_element-IsCodec o.Anchor (invalid_input "invalid Orchard anchor") k.anchor in
      Decodes-bind _ (Decodes-read_flags (o.flag_byte b) version (o.flags b) h.flag_byte h.flags) (
        Decodes-bind _ (amount-IsCodec.decodes (o.value_balance b) h.value_balance) (
          Decodes-bind _ (root.decodes (o.anchor b) h.anchor) (
            Decodes-bind _ ((k.vector byte-IsCodec).decodes (o.proof b) h.proof) (
              Decodes-bind _ (Decodes-read_signatures o (o.actions b) h.signatures) (
                Decodes-last _ (Decodes-bytes (o.binding_signature b) h.binding_signature.0)
                  (rw h.from_parts refl))))))

  -- No actions are written as their count.
  write_vector-none : {A : Type 0} (w : A → Written) → o.write_vector w [] ≡ o.write_size 0
  unfolding write_each
  write_vector-none w = k.vector_format w [] ∙ >>-done-nil (o.write_size 0)

  pub Decodes-read_bundle :
      (version : Option o.BundleVersion) (x : Option o.Bundle)
      → IsOptional o version x
      → Decodes (write_bundle o x) (read_bundle o version) x
  unfolding read_bundle write_bundle
  Decodes-read_bundle version none h =
      let d = (k.vector (read_action-IsCodec k)).decodes [] (tt, omega arith) in
      Decodes-last _ (rw (write_vector-none (write_action_without_auth o)) at d) refl
  Decodes-read_bundle none (some b) h = absurd h
  Decodes-read_bundle (some version) (some b) h = rw (write_bundle-body b) (
      Decodes-bind _
        ((k.vector (read_action-IsCodec k)).decodes (without_auth o (o.actions b)) h.actions)
        (rw h.there (Decodes-authorized version b h)))

  Exact-authorized :
      (version : o.BundleVersion) (acts : List o.Action)
      → is_empty acts ≡ false
      → IsVector (IsAction o) acts
      → Exact
          (done [] >> o.write_vector (write_action_without_auth o) acts)
          (read_authorized o (some version) acts)
          (write_bundle o)
          (IsOptional o (some version))
  unfolding read_authorized read_flags read_anchor read_signature
  Exact-authorized version acts there ha =
      let root = read_element-IsCodec o.Anchor (invalid_input "invalid Orchard anchor") k.anchor in
      Exact-nested read_u8 _ _ (
        Exact-bind _ byte-IsCodec.exact λ byte h0.
          Exact-ok_or (invalid_input "invalid Orchard flags") (o.flags_from_byte byte version) _
            λ fl hf. Exact-bind _ amount-IsCodec.exact λ value h1.
              Exact-bind _ root.exact λ anchor h2.
                Exact-bind _ (k.vector byte-IsCodec).exact λ pf h3.
                  Exact-bind _ (Exact-read_signatures o acts) λ signed (same, h4).
                    Exact-bind _ (Exact-bytes 64) λ sig h5.
                      Exact-ok_or_data (o.try_from_parts signed fl value anchor pf sig version) _
                        λ b made.
                          let p = k.bundle_parts signed fl value anchor pf sig version b made in
                          let same_byte : o.flag_byte b ≡ byte =
                            k.flag_byte byte b (rw (p.bundle_version, p.flags) hf) in
                          Exact-return (some b)
                            (write_bundle-body b
                              ∙ rw
                                  (
                                    p.actions, p.value_balance, p.anchor, p.proof,
                                    p.binding_signature, same_byte, same,
                                  )
                                  (simp write_laws))
                            (record {
                              there = rw (p.actions, same) there;
                              actions = rw (p.actions, same) ha;
                              flag_byte = rw same_byte h0;
                              flags = rw (same_byte, p.flags) hf;
                              value_balance = rw p.value_balance h1;
                              anchor = rw p.anchor h2;
                              proof = rw p.proof h3;
                              signatures = rw p.actions h4;
                              binding_signature = rw p.binding_signature h5;
                              bundle_version = p.bundle_version;
                              from_parts =
                                  rw
                                    (
                                      p.actions, p.flags, p.value_balance, p.anchor, p.proof,
                                      p.binding_signature,
                                    )
                                    made;
                            }))

  Exact-acts :
      (version : Option o.BundleVersion) (acts : List o.Action)
      → IsVector (IsAction o) acts
      → Exact
          (done [] >> o.write_vector (write_action_without_auth o) acts)
          (if is_empty acts then pure none else read_authorized o version acts)
          (write_bundle o)
          (IsOptional o version)
  unfolding write_bundle
  Exact-acts version [] h =
      Exact-return none
        (sym (write_vector-none (write_action_without_auth o))
          ∙ sym (done-nil->> (o.write_vector (write_action_without_auth o) [])))
        tt
  Exact-acts (some version) (act ∷ acts) h = Exact-authorized version (act ∷ acts) refl h
  Exact-acts none (act ∷ acts) h = unfold read_authorized in Exact-fail _

  pub Exact-read_bundle :
      (version : Option o.BundleVersion)
      → Exact (done []) (read_bundle o version) (write_bundle o) (IsOptional o version)
  unfolding read_bundle
  Exact-read_bundle version =
      Exact-bind _ (k.vector (read_action-IsCodec k)).exact λ acts h. Exact-acts version acts h

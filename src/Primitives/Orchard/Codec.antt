-- ===== src/Primitives/Orchard/Codec.antt =====
-- Laws of the byte format of the elements of Orchard bundles.
use auzum_zcash.Primitives.Encoding.{IsElement, read_element-IsCodec}
use Prim.Native.String.{String}
use auzum_zcash.Base.{◌≡◌, refl, ap, suc, List, [], ◌∷◌, All, ◌⊎◌, inl, inr, length}
use auzum_zcash.Base.Io.{
  Bytes, IsBytes, invalid_data, invalid_input, Reader, Written, done, pure, ◌>>=◌, ◌>>◌, write_all,
  write_each, fail,
}
use auzum_zcash.Base.Io.Codec.{IsCodec}
use auzum_zcash.Base.Io.Decodes.{Decodes, Decodes-bytes, Decodes-bind, Decodes-last, Decodes-pure}
use auzum_zcash.Base.Io.Exact.{Exact, Exact-bind, Exact-return, Exact-bytes, Exact-fail, write_laws}
use auzum_zcash.Primitives.Orchard.Crate.{NoteCiphertext, OrchardCrate, IsOrchardCrate}
use auzum_zcash.Primitives.Orchard.Elements.{
  ok_or_data, read_signature, read_note_ciphertext, write_note_ciphertext, read_value_commitment,
  read_nullifier, read_verification_key, read_cmx, read_action_without_auth, write_value_commitment,
  write_nullifier, write_verification_key, write_cmx, write_action_without_auth, read_signatures,
}

pub Exact-ok_or_data {ℓ κ} :
    {A : Type 0} {B : Type ℓ} {P : B → Type κ} {before : Written} {w : B → Written} (x : String ⊎ A)
    (f : A → Reader B)
    → ((a : A) → x ≡ inr a → Exact before (f a) w P)
    → Exact before (ok_or_data x >>= f) w P
unfolding ◌>>=◌ pure fail
Exact-ok_or_data (inr a) f next = next a refl
Exact-ok_or_data (inl message) f next = record { at = λ bs hb b rest q. cc }

Exact-sum {κ} :
    {A : Type 0} {P : A → Type κ} {before : Written} {w : A → Written} (x : String ⊎ A)
    → ((a : A) → x ≡ inr a → (w a ≡ before) × P a)
    → Exact before (ok_or_data x) w P
Exact-sum (inr a) next = Exact-return a (next a refl).0 (next a refl).1
Exact-sum (inl message) next = Exact-fail (invalid_data message)

pub record IsNote (nc : NoteCiphertext) : Type 0 where
  pub epk_bytes : IsBytes 32 nc.epk_bytes
  pub enc_ciphertext : IsBytes 580 nc.enc_ciphertext
  pub out_ciphertext : IsBytes 80 nc.out_ciphertext

read_note_ciphertext-IsCodec : IsCodec read_note_ciphertext write_note_ciphertext IsNote
unfolding read_note_ciphertext write_note_ciphertext
read_note_ciphertext-IsCodec = record {
  decodes = λ nc h. Decodes-bind _ (Decodes-bytes nc.epk_bytes h.epk_bytes.0) (
      Decodes-bind _ (Decodes-bytes nc.enc_ciphertext h.enc_ciphertext.0)
        (Decodes-last _ (Decodes-bytes nc.out_ciphertext h.out_ciphertext.0) refl));
  exact = Exact-bind _ (Exact-bytes 32) λ epk h0. Exact-bind _ (Exact-bytes 580) λ enc h1.
      Exact-bind _ (Exact-bytes 80) λ out h2.
        Exact-return _ (simp write_laws)
          (record { epk_bytes = h0; enc_ciphertext = h1; out_ciphertext = h2 });
}

module _ (o : OrchardCrate) where
  -- The parts of the action have encodings that are accepted, and an action can be made of them.
  pub record IsAction (act : o.Action) : Type 0 where
    pub cv_net : IsElement o.ValueCommitment (o.cv_net act)
    pub nullifier : IsElement o.Nullifier (o.nullifier act)
    pub rk : IsElement o.VerificationKey (o.rk act)
    pub cmx : IsElement o.NoteCommitment (o.cmx act)
    pub encrypted_note : IsNote (o.encrypted_note act)
    pub from_parts :
        o.action_from_parts
          (o.nullifier act)
          (o.rk act)
          (o.cmx act)
          (o.encrypted_note act)
          (o.cv_net act)
        ≡ inr act

  abbrev pub without_auth : List (o.Action × Bytes) → List o.Action
  without_auth [] = []
  without_auth ((act, sig) ∷ acts) = act ∷ without_auth acts

  abbrev pub write_signatures : List (o.Action × Bytes) → Written
  write_signatures acts = write_each (λ (act : o.Action × Bytes). write_all act.1) acts

  abbrev pub IsSigned : o.Action × Bytes → Type 0
  IsSigned (act, sig) = IsBytes 64 sig

  pub Decodes-read_signatures :
      (acts : List (o.Action × Bytes))
      → All IsSigned acts
      → Decodes (write_signatures acts) (read_signatures o (without_auth acts)) acts
  unfolding read_signatures read_signature write_each
  Decodes-read_signatures [] h = Decodes-pure []
  Decodes-read_signatures ((act, sig) ∷ acts) (h, hs) =
      Decodes-bind _ (Decodes-bytes sig h.0) (Decodes-last _ (Decodes-read_signatures acts hs) refl)

  pub Exact-read_signatures :
      (acts : List o.Action)
      → Exact
          (done [])
          (read_signatures o acts)
          write_signatures
          (λ signed. (without_auth signed ≡ acts) × All IsSigned signed)
  unfolding read_signatures read_signature write_each
  Exact-read_signatures [] = Exact-return [] refl (refl, tt)
  Exact-read_signatures (act ∷ acts) = Exact-bind _ (Exact-bytes 64) λ sig h.
      Exact-bind _ (Exact-read_signatures acts) λ signed (same, hs).
        Exact-return ((act, sig) ∷ signed) (simp write_laws) (ap (λ xs. act ∷ xs) same, (h, hs))

  -- What is written of the actions alone.
  pub write_each-without_auth :
      (w : o.Action → Written) (acts : List (o.Action × Bytes))
      → write_each (λ (act : o.Action × Bytes). w act.0) acts ≡ write_each w (without_auth acts)
  unfolding write_each
  write_each-without_auth w [] = refl
  write_each-without_auth w ((act, sig) ∷ acts) =
      ap (λ u. w act >> u) (write_each-without_auth w acts)

  pub length-without_auth :
      (acts : List (o.Action × Bytes)) → length (without_auth acts) ≡ length acts
  length-without_auth [] = refl
  length-without_auth ((act, sig) ∷ acts) = ap suc (length-without_auth acts)

module _ {o : OrchardCrate} (k : IsOrchardCrate o) where
  pub read_action-IsCodec :
      IsCodec (read_action_without_auth o) (write_action_without_auth o) (IsAction o)
  unfolding read_action_without_auth write_action_without_auth read_value_commitment read_nullifier
      read_verification_key read_cmx write_value_commitment write_nullifier write_verification_key
      write_cmx
  read_action-IsCodec =
      let cv =
        read_element-IsCodec o.ValueCommitment
          (invalid_input "invalid Pallas point for value commitment") k.value_commitment in
      let nf =
        read_element-IsCodec o.Nullifier (invalid_input "invalid Pallas point for nullifier")
          k.nullifier in
      let key =
        read_element-IsCodec o.VerificationKey (invalid_input "invalid verification key")
          k.verification_key in
      let cm =
        read_element-IsCodec o.NoteCommitment (invalid_input "invalid Pallas base for field cmx")
          k.note_commitment in
      let note = read_note_ciphertext-IsCodec in
      record {
        decodes = λ act h. Decodes-bind _ (cv.decodes (o.cv_net act) h.cv_net) (
            Decodes-bind _ (nf.decodes (o.nullifier act) h.nullifier) (
              Decodes-bind _ (key.decodes (o.rk act) h.rk) (
                Decodes-bind _ (cm.decodes (o.cmx act) h.cmx) (
                  Decodes-last _ (note.decodes (o.encrypted_note act) h.encrypted_note)
                    (rw h.from_parts refl)))));
        exact = Exact-bind _ cv.exact λ a0 h0. Exact-bind _ nf.exact λ a1 h1.
            Exact-bind _ key.exact λ a2 h2. Exact-bind _ cm.exact λ a3 h3.
              Exact-bind _ note.exact λ a4 h4.
                Exact-sum (o.action_from_parts a1 a2 a3 a4 a0) λ act made.
                  let p = k.action_parts a1 a2 a3 a4 a0 act made in
                  (
                    rw (p.cv_net, p.nullifier, p.rk, p.cmx, p.encrypted_note) (simp write_laws),
                    record {
                      cv_net = rw p.cv_net h0;
                      nullifier = rw p.nullifier h1;
                      rk = rw p.rk h2;
                      cmx = rw p.cmx h3;
                      encrypted_note = rw p.encrypted_note h4;
                      from_parts = rw (p.cv_net, p.nullifier, p.rk, p.cmx, p.encrypted_note) made;
                    },
                  );
      }

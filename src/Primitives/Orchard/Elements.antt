-- ===== src/Primitives/Orchard/Elements.antt =====
-- zcash_primitives/src/transaction/components/orchard.rs: the elements of an Orchard bundle.
use auzum_zcash.Primitives.Encoding.{ok_or, read_element}
use Prim.Native.String.{String}
use auzum_zcash.Base.{ℕ, [], ◌∷◌, ◌⊎◌, inl, inr, List, ◌+◌}
use auzum_zcash.Base.Io.{
  Bytes, invalid_data, invalid_input, Reader, Written, pure, fail, ◌>>=◌, ◌>>◌, read_exact, read_u8,
  write_all,
}
use auzum_zcash.Primitives.Orchard.Crate.{NoteCiphertext, OrchardCrate}

abbrev pub value_commitment_byte_size : ℕ
value_commitment_byte_size = 32

abbrev pub nullifier_byte_size : ℕ
nullifier_byte_size = 32

abbrev pub verification_key_byte_size : ℕ
verification_key_byte_size = 32

abbrev pub note_commitment_byte_size : ℕ
note_commitment_byte_size = 32

-- `size_of::<EphemeralKeyBytes>()`, the bytes that `read_note_ciphertext` reads of the key.
abbrev pub ephemeral_key_byte_size : ℕ
ephemeral_key_byte_size = 32

-- The sizes of the two ciphertexts are 580 and 80, as `read_note_ciphertext` has them.
abbrev pub action_size : ℕ
action_size =
    value_commitment_byte_size + nullifier_byte_size + verification_key_byte_size
    + note_commitment_byte_size + ephemeral_key_byte_size + 580 + 80

-- An error of the crate is invalid data.
abbrev pub ok_or_data {ℓ} : {A : Type ℓ} → String ⊎ A → Reader A
ok_or_data (inl message) = fail (invalid_data message)
ok_or_data (inr a) = pure a

unfoldable pub read_signature : Reader Bytes
read_signature = read_exact 64

unfoldable pub read_note_ciphertext : Reader NoteCiphertext
read_note_ciphertext = do
  epk_bytes ← read_exact 32
  enc_ciphertext ← read_exact 580
  out_ciphertext ← read_exact 80
  pure (record {
    epk_bytes = epk_bytes;
    enc_ciphertext = enc_ciphertext;
    out_ciphertext = out_ciphertext;
  })

unfoldable pub write_note_ciphertext : NoteCiphertext → Written
write_note_ciphertext nc = do
  write_all nc.epk_bytes
  write_all nc.enc_ciphertext
  write_all nc.out_ciphertext

module _ (o : OrchardCrate) where
  unfoldable pub read_value_commitment : Reader o.ValueCommitment.Element
  read_value_commitment =
      read_element o.ValueCommitment (invalid_input "invalid Pallas point for value commitment")

  unfoldable pub read_nullifier : Reader o.Nullifier.Element
  read_nullifier = read_element o.Nullifier (invalid_input "invalid Pallas point for nullifier")

  unfoldable pub read_verification_key : Reader o.VerificationKey.Element
  read_verification_key = read_element o.VerificationKey (invalid_input "invalid verification key")

  unfoldable pub read_cmx : Reader o.NoteCommitment.Element
  read_cmx = read_element o.NoteCommitment (invalid_input "invalid Pallas base for field cmx")

  unfoldable pub read_anchor : Reader o.Anchor.Element
  read_anchor = read_element o.Anchor (invalid_input "invalid Orchard anchor")

  unfoldable pub read_flags : o.BundleVersion → Reader o.Flags
  read_flags version = do
    byte ← read_u8
    ok_or (invalid_input "invalid Orchard flags") (o.flags_from_byte byte version)

  unfoldable pub read_action_without_auth : Reader o.Action
  read_action_without_auth = do
    cv_net ← read_value_commitment
    nf_old ← read_nullifier
    rk ← read_verification_key
    cmx ← read_cmx
    encrypted_note ← read_note_ciphertext
    ok_or_data (o.action_from_parts nf_old rk cmx encrypted_note cv_net)

  unfoldable pub write_value_commitment : o.ValueCommitment.Element → Written
  write_value_commitment cv = write_all (o.ValueCommitment.to_bytes cv)

  unfoldable pub write_nullifier : o.Nullifier.Element → Written
  write_nullifier nf = write_all (o.Nullifier.to_bytes nf)

  unfoldable pub write_verification_key : o.VerificationKey.Element → Written
  write_verification_key rk = write_all (o.VerificationKey.to_bytes rk)

  unfoldable pub write_cmx : o.NoteCommitment.Element → Written
  write_cmx cmx = write_all (o.NoteCommitment.to_bytes cmx)

  unfoldable pub write_action_without_auth : o.Action → Written
  write_action_without_auth act = do
    write_value_commitment (o.cv_net act)
    write_nullifier (o.nullifier act)
    write_verification_key (o.rk act)
    write_cmx (o.cmx act)
    write_note_ciphertext (o.encrypted_note act)

  -- The signature of each action.
  unfoldable pub read_signatures : List o.Action → Reader (List (o.Action × Bytes))
  read_signatures [] = pure []
  read_signatures (act ∷ acts) = do
    signature ← read_signature
    rest ← read_signatures acts
    pure ((act, signature) ∷ rest)

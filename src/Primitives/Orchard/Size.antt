-- ===== src/Primitives/Orchard/Size.antt =====
-- The size of an action.
use auzum_zcash.Base.{◌≡◌, refl, arith, ◌++◌, length, length-append}
use auzum_zcash.Base.Io.{Bytes, done, ◌>>◌, write_all}
use auzum_zcash.Primitives.Orchard.Crate.{OrchardCrate}
use auzum_zcash.Primitives.Orchard.Elements.{
  action_size, write_value_commitment, write_nullifier, write_verification_key, write_cmx,
  write_note_ciphertext, write_action_without_auth,
}
use auzum_zcash.Primitives.Orchard.Codec.{IsAction}

-- An action whose parts fit their formats is written to exactly `action_size` bytes.
pub write_action_without_auth-action_size :
    (o : OrchardCrate) (act : o.Action)
    → IsAction o act
    → (bs : Bytes) × (write_action_without_auth o act ≡ done bs) × (length bs ≡ action_size)
unfolding write_action_without_auth write_value_commitment write_nullifier write_verification_key
    write_cmx write_note_ciphertext write_all ◌>>◌
write_action_without_auth-action_size o act h =
    let note = o.encrypted_note act in
    let enc = note.enc_ciphertext ++ note.out_ciphertext in
    let tail = note.epk_bytes ++ enc in
    let cm = o.NoteCommitment.to_bytes (o.cmx act) in
    let key = o.VerificationKey.to_bytes (o.rk act) in
    let nf = o.Nullifier.to_bytes (o.nullifier act) in
    let cv = o.ValueCommitment.to_bytes (o.cv_net act) in
    (
      cv ++ (nf ++ (key ++ (cm ++ tail))),
      refl,
      omega (
        arith,
        length-append cv (nf ++ (key ++ (cm ++ tail))),
        length-append nf (key ++ (cm ++ tail)),
        length-append key (cm ++ tail),
        length-append cm tail,
        length-append note.epk_bytes enc,
        length-append note.enc_ciphertext note.out_ciphertext,
        h.cv_net.0.0,
        h.nullifier.0.0,
        h.rk.0.0,
        h.cmx.0.0,
        h.encrypted_note.epk_bytes.0,
        h.encrypted_note.enc_ciphertext.0,
        h.encrypted_note.out_ciphertext.0,
      ),
    )

-- ===== src/Primitives/Orchard/Crate.antt =====
-- What the codec of Orchard bundles uses of the crates orchard and zcash_encoding.
use auzum_zcash.Primitives.Encoding.{Encoding, IsEncoding}
use Prim.Native.String.{String}
use auzum_zcash.Base.{ℕ, ◌≡◌, Bool, true, false, List, length, Option, some, ◌⊎◌, inr}
use auzum_zcash.Base.Io.{Bytes, Reader, Written, ◌>>◌, write_each}
use auzum_zcash.Base.Io.Codec.{IsCodec}
use auzum_zcash.Protocol.Value.{ZatBalance}
use auzum_zcash.Primitives.Transaction.Crates.{IsVector}

pub record NoteCiphertext : Type 0 where
  pub epk_bytes : Bytes
  pub enc_ciphertext : Bytes
  pub out_ciphertext : Bytes

-- The function of `from_parts` that fails gives the message of its error.
pub record OrchardCrate : Type 1 where
  pub ValueCommitment : Encoding
  pub Nullifier : Encoding
  pub VerificationKey : Encoding
  pub NoteCommitment : Encoding
  pub Anchor : Encoding
  -- `Action<()>`; an action with its authorization is the pair of the two.
  pub Action : Type 0
  pub action_from_parts :
      Nullifier.Element
      → VerificationKey.Element
      → NoteCommitment.Element
      → NoteCiphertext
      → ValueCommitment.Element
      → String ⊎ Action
  pub cv_net : Action → ValueCommitment.Element
  pub nullifier : Action → Nullifier.Element
  pub rk : Action → VerificationKey.Element
  pub cmx : Action → NoteCommitment.Element
  pub encrypted_note : Action → NoteCiphertext
  pub BundleVersion : Type 0
  pub orchard_insecure_v1 : BundleVersion
  pub orchard_v2 : BundleVersion
  pub orchard_v3 : BundleVersion
  pub ironwood_v3 : BundleVersion
  pub same_version : BundleVersion → BundleVersion → Bool
  pub Flags : Type 0
  pub flags_from_byte : ℕ → BundleVersion → Option Flags
  -- An authorized bundle, its proof and signatures as bytes.
  pub Bundle : Type 0
  pub try_from_parts :
      List (Action × Bytes)
      → Flags
      → ZatBalance
      → Anchor.Element
      → Bytes
      → Bytes
      → BundleVersion
      → String ⊎ Bundle
  pub actions : Bundle → List (Action × Bytes)
  pub flags : Bundle → Flags
  pub flag_byte : Bundle → ℕ
  pub value_balance : Bundle → ZatBalance
  pub anchor : Bundle → Anchor.Element
  pub proof : Bundle → Bytes
  pub binding_signature : Bundle → Bytes
  pub bundle_version : Bundle → BundleVersion
  -- `Vector::read`, `Vector::write`, `Vector::write_nonempty`, `Array::write` and `CompactSize::write`.
  pub read_vector : {A : Type 0} → Reader A → Reader (List A)
  pub write_vector : {A : Type 0} → (A → Written) → List A → Written
  pub write_nonempty : {A : Type 0} → (A → Written) → List A → Written
  pub write_array : {A : Type 0} → (A → Written) → List A → Written
  pub write_size : ℕ → Written

-- The parts that an action was made of.
pub record IsActionOf (o : OrchardCrate) (a : o.Action) (nf : o.Nullifier.Element)
    (key : o.VerificationKey.Element) (commitment : o.NoteCommitment.Element)
    (note : NoteCiphertext) (cv : o.ValueCommitment.Element) : Type 0 where
  pub nullifier : o.nullifier a ≡ nf
  pub rk : o.rk a ≡ key
  pub cmx : o.cmx a ≡ commitment
  pub encrypted_note : o.encrypted_note a ≡ note
  pub cv_net : o.cv_net a ≡ cv

-- The parts that a bundle was made of.
pub record IsBundleOf (o : OrchardCrate) (b : o.Bundle) (authorized : List (o.Action × Bytes))
    (fl : o.Flags) (value : ZatBalance) (root : o.Anchor.Element) (pf sig : Bytes)
    (version : o.BundleVersion) : Type 0 where
  pub actions : o.actions b ≡ authorized
  pub flags : o.flags b ≡ fl
  pub value_balance : o.value_balance b ≡ value
  pub anchor : o.anchor b ≡ root
  pub proof : o.proof b ≡ pf
  pub binding_signature : o.binding_signature b ≡ sig
  pub bundle_version : o.bundle_version b ≡ version

-- What the crates document.
pub record IsOrchardCrate (o : OrchardCrate) : Type 1 where
  pub value_commitment : IsEncoding o.ValueCommitment
  pub nullifier : IsEncoding o.Nullifier
  pub verification_key : IsEncoding o.VerificationKey
  pub note_commitment : IsEncoding o.NoteCommitment
  pub anchor : IsEncoding o.Anchor
  pub action_parts :
      (nf : o.Nullifier.Element) (key : o.VerificationKey.Element)
      (commitment : o.NoteCommitment.Element) (note : NoteCiphertext)
      (cv : o.ValueCommitment.Element) (a : o.Action)
      → o.action_from_parts nf key commitment note cv ≡ inr a
      → IsActionOf o a nf key commitment note cv
  pub bundle_parts :
      (authorized : List (o.Action × Bytes)) (fl : o.Flags) (value : ZatBalance)
      (root : o.Anchor.Element) (pf sig : Bytes) (version : o.BundleVersion) (b : o.Bundle)
      → o.try_from_parts authorized fl value root pf sig version ≡ inr b
      → IsBundleOf o b authorized fl value root pf sig version
  -- The flag byte of a bundle is that of its flags under its version.
  pub flag_byte :
      (n : ℕ) (b : o.Bundle)
      → o.flags_from_byte n (o.bundle_version b) ≡ some (o.flags b)
      → o.flag_byte b ≡ n
  pub same_orchard : o.same_version o.orchard_v3 o.orchard_v3 ≡ true
  pub same_ironwood : o.same_version o.ironwood_v3 o.ironwood_v3 ≡ true
  pub early :
      (o.same_version o.orchard_insecure_v1 o.orchard_v3 ≡ false)
      × (o.same_version o.orchard_insecure_v1 o.ironwood_v3 ≡ false)
      × (o.same_version o.orchard_v2 o.orchard_v3 ≡ false)
      × (o.same_version o.orchard_v2 o.ironwood_v3 ≡ false)
  pub vector :
      {A : Type 0} {r : Reader A} {w : A → Written} {P : A → Type 0}
      → IsCodec r w P
      → IsCodec (o.read_vector r) (o.write_vector w) (IsVector P)
  pub vector_format :
      {A : Type 0} (w : A → Written) (xs : List A)
      → o.write_vector w xs ≡ (o.write_size (length xs) >> write_each w xs)
  pub nonempty_format :
      {A : Type 0} (w : A → Written) (xs : List A)
      → o.write_nonempty w xs ≡ (o.write_size (length xs) >> write_each w xs)
  pub array_format :
      {A : Type 0} (w : A → Written) (xs : List A) → o.write_array w xs ≡ write_each w xs

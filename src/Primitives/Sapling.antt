-- ===== src/Primitives/Sapling.antt =====
-- zcash_primitives/src/transaction/components/sapling.rs: descriptions of Sapling spends and outputs, and
-- the part of a bundle in the format of version 4.
pub mod Codec
use auzum_zcash.Base.{ℕ, Bool, true, false, List, [], Option, none, some}
use auzum_zcash.Base.Int.{pos}
use auzum_zcash.Base.Io.{
  Bytes, invalid_data, invalid_input, Reader, Written, pure, done, failed, ◌>>=◌, ◌>>◌, read_exact,
  write_all,
}
use auzum_zcash.Protocol.Value.{ZatBalance, to_i64_le_bytes}
use auzum_zcash.Primitives.Encoding.{Encoding, read_element}
use auzum_zcash.Primitives.Sprout.{groth_proof_size}
use auzum_zcash.Primitives.Transaction.Sections.{read_amount}

-- The types of the crates sapling, jubjub and redjubjub, and `Vector` of zcash_encoding.
pub record SaplingCrate : Type 1 where
  -- Rejects points of small order.
  pub ValueCommitment : Encoding
  pub Base : Encoding
  pub VerificationKey : Encoding
  pub NoteCommitment : Encoding
  pub read_vector : {A : Type 0} → Reader A → Reader (List A)
  pub write_vector : {A : Type 0} → (A → Written) → List A → Written

module _ (s : SaplingCrate) where
  -- What `SpendDescription::from_parts` takes.
  pub record SpendDescription : Type 0 where
    pub cv : s.ValueCommitment.Element
    pub anchor : s.Base.Element
    pub nullifier : Bytes
    pub rk : s.VerificationKey.Element
    pub zkproof : Bytes
    pub spend_auth_sig : Bytes

  -- What `SpendDescriptionV5::from_parts` takes.
  pub record SpendDescriptionV5 : Type 0 where
    pub cv : s.ValueCommitment.Element
    pub nullifier : Bytes
    pub rk : s.VerificationKey.Element

  -- What `OutputDescriptionV5::from_parts` takes.
  pub record OutputDescriptionV5 : Type 0 where
    pub cv : s.ValueCommitment.Element
    pub cmu : s.NoteCommitment.Element
    pub ephemeral_key : Bytes
    pub enc_ciphertext : Bytes
    pub out_ciphertext : Bytes

  -- What `OutputDescription::from_parts` takes.
  pub record OutputDescription : Type 0 where
    pub cv : s.ValueCommitment.Element
    pub cmu : s.NoteCommitment.Element
    pub ephemeral_key : Bytes
    pub enc_ciphertext : Bytes
    pub out_ciphertext : Bytes
    pub zkproof : Bytes

  -- The parts of a bundle that the format of version 4 has in this place.
  pub record SaplingParts : Type 0 where
    pub value_balance : ZatBalance
    pub shielded_spends : List SpendDescription
    pub shielded_outputs : List OutputDescription

  unfoldable pub read_cv : Reader s.ValueCommitment.Element
  read_cv = read_element s.ValueCommitment (invalid_input "invalid cv")

  unfoldable pub read_cmu : Reader s.NoteCommitment.Element
  read_cmu = read_element s.NoteCommitment (invalid_input "cmu not in field")

  unfoldable pub read_base : Reader s.Base.Element
  read_base = read_element s.Base (invalid_input "base value not a valid field element")

  unfoldable pub read_zkproof : Reader Bytes
  read_zkproof = read_exact groth_proof_size

  unfoldable pub read_spend_nullifier : Reader Bytes
  read_spend_nullifier = read_exact 32

  unfoldable pub read_rk : Reader s.VerificationKey.Element
  read_rk = read_element s.VerificationKey (invalid_data "verification key is invalid")

  unfoldable pub read_spend_auth_sig : Reader Bytes
  read_spend_auth_sig = read_exact 64

  unfoldable pub read_spend_v4 : Reader SpendDescription
  read_spend_v4 = do
    cv ← read_cv
    anchor ← read_base
    nullifier ← read_spend_nullifier
    rk ← read_rk
    zkproof ← read_zkproof
    spend_auth_sig ← read_spend_auth_sig
    pure (record {
      cv = cv;
      anchor = anchor;
      nullifier = nullifier;
      rk = rk;
      zkproof = zkproof;
      spend_auth_sig = spend_auth_sig;
    })

  unfoldable pub write_spend_v4 : SpendDescription → Written
  write_spend_v4 spend = do
    write_all (s.ValueCommitment.to_bytes spend.cv)
    write_all (s.Base.to_bytes spend.anchor)
    write_all spend.nullifier
    write_all (s.VerificationKey.to_bytes spend.rk)
    write_all spend.zkproof
    write_all spend.spend_auth_sig

  unfoldable pub write_spend_v5 : SpendDescription → Written
  write_spend_v5 spend = do
    write_all (s.ValueCommitment.to_bytes spend.cv)
    write_all spend.nullifier
    write_all (s.VerificationKey.to_bytes spend.rk)

  unfoldable pub read_spend_v5 : Reader SpendDescriptionV5
  read_spend_v5 = do
    cv ← read_cv
    nullifier ← read_spend_nullifier
    rk ← read_rk
    pure (record { cv = cv; nullifier = nullifier; rk = rk })

  unfoldable pub read_output_v4 : Reader OutputDescription
  read_output_v4 = do
    cv ← read_cv
    cmu ← read_cmu
    ephemeral_key ← read_exact 32
    enc_ciphertext ← read_exact 580
    out_ciphertext ← read_exact 80
    zkproof ← read_zkproof
    pure (record {
      cv = cv;
      cmu = cmu;
      ephemeral_key = ephemeral_key;
      enc_ciphertext = enc_ciphertext;
      out_ciphertext = out_ciphertext;
      zkproof = zkproof;
    })

  unfoldable pub write_output_v4 : OutputDescription → Written
  write_output_v4 output = do
    write_all (s.ValueCommitment.to_bytes output.cv)
    write_all (s.NoteCommitment.to_bytes output.cmu)
    write_all output.ephemeral_key
    write_all output.enc_ciphertext
    write_all output.out_ciphertext
    write_all output.zkproof

  unfoldable pub write_output_v5 : OutputDescription → Written
  write_output_v5 output = do
    write_all (s.ValueCommitment.to_bytes output.cv)
    write_all (s.NoteCommitment.to_bytes output.cmu)
    write_all output.ephemeral_key
    write_all output.enc_ciphertext
    write_all output.out_ciphertext

  unfoldable pub read_output_v5 : Reader OutputDescriptionV5
  read_output_v5 = do
    cv ← read_cv
    cmu ← read_cmu
    ephemeral_key ← read_exact 32
    enc_ciphertext ← read_exact 580
    out_ciphertext ← read_exact 80
    pure (record {
      cv = cv;
      cmu = cmu;
      ephemeral_key = ephemeral_key;
      enc_ciphertext = enc_ciphertext;
      out_ciphertext = out_ciphertext;
    })

  unfoldable pub read_v4_components :
      Bool → Reader (ZatBalance × List SpendDescription × List OutputDescription)
  read_v4_components true = do
    vb ← read_amount
    ss ← s.read_vector read_spend_v4
    so ← s.read_vector read_output_v4
    pure (vb, ss, so)
  read_v4_components false = pure (record { amount = pos 0 }, [], [])

  abbrev pub parts_of :
      Option SaplingParts → ZatBalance × List SpendDescription × List OutputDescription
  parts_of none = (record { amount = pos 0 }, [], [])
  parts_of (some b) = (b.value_balance, b.shielded_spends, b.shielded_outputs)

  unfoldable pub write_v4_components : Option SaplingParts → Bool → Written
  write_v4_components bundle true = do
    write_all (to_i64_le_bytes (parts_of bundle).0)
    s.write_vector write_spend_v4 (parts_of bundle).1
    s.write_vector write_output_v4 (parts_of bundle).2
  write_v4_components none false = done []
  write_v4_components (some b) false =
      failed [] (invalid_input "Sapling components may not be present if Sapling is not active.")

-- ===== src/Primitives/Sapling/Codec.antt =====
-- Laws of the byte formats of Sapling spends and outputs.
use auzum_zcash.Base.{refl, true, Option}
use auzum_zcash.Base.Io.{IsBytes, invalid_data, invalid_input, Reader, Written}
use auzum_zcash.Base.Io.Codec.{IsCodec}
use auzum_zcash.Base.Io.Decodes.{Decodes, Decodes-bytes, Decodes-bind, Decodes-last}
use auzum_zcash.Base.Io.Exact.{Exact-bind, Exact-return, Exact-bytes, write_laws}
use auzum_zcash.Protocol.Value.{IsBalance}
use auzum_zcash.Primitives.Encoding.{IsEncoding, IsElement, read_element-IsCodec}
use auzum_zcash.Primitives.Transaction.Crates.{IsVector}
use auzum_zcash.Primitives.Transaction.Shared.{amount-IsCodec}
use auzum_zcash.Primitives.Sapling.{
  SaplingCrate, SpendDescription, OutputDescription, SaplingParts, read_cv, read_cmu, read_base,
  read_zkproof, read_spend_nullifier, read_rk, read_spend_auth_sig, read_spend_v4, write_spend_v4,
  read_output_v4, write_output_v4, read_v4_components, write_v4_components, parts_of,
  read_output_v5, read_spend_v5, write_output_v5, write_spend_v5,
}

-- What the crates document.
pub record IsSaplingCrate (s : SaplingCrate) : Type 1 where
  pub value_commitment : IsEncoding s.ValueCommitment
  pub base : IsEncoding s.Base
  pub verification_key : IsEncoding s.VerificationKey
  pub note_commitment : IsEncoding s.NoteCommitment
  pub vector :
      {A : Type 0} {r : Reader A} {w : A → Written} {P : A → Type 0}
      → IsCodec r w P
      → IsCodec (s.read_vector r) (s.write_vector w) (IsVector P)

module _ (s : SaplingCrate) where
  pub record IsSpend (spend : SpendDescription s) : Type 0 where
    pub cv : IsElement s.ValueCommitment spend.cv
    pub anchor : IsElement s.Base spend.anchor
    pub nullifier : IsBytes 32 spend.nullifier
    pub rk : IsElement s.VerificationKey spend.rk
    pub zkproof : IsBytes 192 spend.zkproof
    pub spend_auth_sig : IsBytes 64 spend.spend_auth_sig

  pub record IsOutput (output : OutputDescription s) : Type 0 where
    pub cv : IsElement s.ValueCommitment output.cv
    pub cmu : IsElement s.NoteCommitment output.cmu
    pub ephemeral_key : IsBytes 32 output.ephemeral_key
    pub enc_ciphertext : IsBytes 580 output.enc_ciphertext
    pub out_ciphertext : IsBytes 80 output.out_ciphertext
    pub zkproof : IsBytes 192 output.zkproof

  -- The balance is within the money supply, and the spends and outputs fit their formats.
  abbrev pub AreParts : Option (SaplingParts s) → Type 0
  AreParts bundle =
      IsBalance (parts_of s bundle).0
      × IsVector IsSpend (parts_of s bundle).1
      × IsVector IsOutput (parts_of s bundle).2

module _ {s : SaplingCrate} (k : IsSaplingCrate s) where
  pub read_spend_v4-IsCodec : IsCodec (read_spend_v4 s) (write_spend_v4 s) (IsSpend s)
  unfolding read_spend_v4 write_spend_v4 read_cv read_base read_spend_nullifier read_rk read_zkproof
      read_spend_auth_sig
  read_spend_v4-IsCodec =
      let cv =
        read_element-IsCodec s.ValueCommitment (invalid_input "invalid cv") k.value_commitment in
      let base =
        read_element-IsCodec s.Base (invalid_input "base value not a valid field element") k.base in
      let key =
        read_element-IsCodec s.VerificationKey (invalid_data "verification key is invalid")
          k.verification_key in
      record {
        decodes = λ a h. Decodes-bind _ (cv.decodes a.cv h.cv) (
            Decodes-bind _ (base.decodes a.anchor h.anchor) (
              Decodes-bind _ (Decodes-bytes a.nullifier h.nullifier.0) (
                Decodes-bind _ (key.decodes a.rk h.rk) (
                  Decodes-bind _ (Decodes-bytes a.zkproof h.zkproof.0)
                    (Decodes-last _ (Decodes-bytes a.spend_auth_sig h.spend_auth_sig.0) refl)))));
        exact = Exact-bind _ cv.exact λ a0 h0. Exact-bind _ base.exact λ a1 h1.
            Exact-bind _ (Exact-bytes 32) λ a2 h2. Exact-bind _ key.exact λ a3 h3.
              Exact-bind _ (Exact-bytes 192) λ a4 h4. Exact-bind _ (Exact-bytes 64) λ a5 h5.
                Exact-return _ (simp write_laws) (record {
                  cv = h0;
                  anchor = h1;
                  nullifier = h2;
                  rk = h3;
                  zkproof = h4;
                  spend_auth_sig = h5;
                });
      }

  pub read_output_v4-IsCodec : IsCodec (read_output_v4 s) (write_output_v4 s) (IsOutput s)
  unfolding read_output_v4 write_output_v4 read_cv read_cmu read_zkproof
  read_output_v4-IsCodec =
      let cv =
        read_element-IsCodec s.ValueCommitment (invalid_input "invalid cv") k.value_commitment in
      let cm =
        read_element-IsCodec s.NoteCommitment (invalid_input "cmu not in field")
          k.note_commitment in
      record {
        decodes = λ a h. Decodes-bind _ (cv.decodes a.cv h.cv) (
            Decodes-bind _ (cm.decodes a.cmu h.cmu) (
              Decodes-bind _ (Decodes-bytes a.ephemeral_key h.ephemeral_key.0) (
                Decodes-bind _ (Decodes-bytes a.enc_ciphertext h.enc_ciphertext.0) (
                  Decodes-bind _ (Decodes-bytes a.out_ciphertext h.out_ciphertext.0)
                    (Decodes-last _ (Decodes-bytes a.zkproof h.zkproof.0) refl)))));
        exact = Exact-bind _ cv.exact λ a0 h0. Exact-bind _ cm.exact λ a1 h1.
            Exact-bind _ (Exact-bytes 32) λ a2 h2. Exact-bind _ (Exact-bytes 580) λ a3 h3.
              Exact-bind _ (Exact-bytes 80) λ a4 h4. Exact-bind _ (Exact-bytes 192) λ a5 h5.
                Exact-return _ (simp write_laws) (record {
                  cv = h0;
                  cmu = h1;
                  ephemeral_key = h2;
                  enc_ciphertext = h3;
                  out_ciphertext = h4;
                  zkproof = h5;
                });
      }

  -- Where Sapling is active, what is written of a bundle that fits is read back, and of no bundle a balance
  -- of zero with no spends and no outputs.
  pub Decodes-read_v4_components :
      (bundle : Option (SaplingParts s))
      → AreParts s bundle
      → Decodes (write_v4_components s bundle true) (read_v4_components s true) (parts_of s bundle)
  unfolding read_v4_components write_v4_components
  Decodes-read_v4_components bundle (hv, hs, ho) =
      Decodes-bind _ (amount-IsCodec.decodes (parts_of s bundle).0 hv) (
        Decodes-bind _ ((k.vector read_spend_v4-IsCodec).decodes (parts_of s bundle).1 hs) (
          Decodes-last _ ((k.vector read_output_v4-IsCodec).decodes (parts_of s bundle).2 ho) refl))

  -- What the format of version 5 writes of a spend without its witness data is read back.
  pub Decodes-read_spend_v5 :
      (spend : SpendDescription s)
      → IsSpend s spend
      → Decodes
          (write_spend_v5 s spend)
          (read_spend_v5 s)
          (record { cv = spend.cv; nullifier = spend.nullifier; rk = spend.rk })
  unfolding read_spend_v5 write_spend_v5 read_cv read_spend_nullifier read_rk
  Decodes-read_spend_v5 a h =
      let cv =
        read_element-IsCodec s.ValueCommitment (invalid_input "invalid cv") k.value_commitment in
      let key =
        read_element-IsCodec s.VerificationKey (invalid_data "verification key is invalid")
          k.verification_key in
      Decodes-bind _ (cv.decodes a.cv h.cv) (
        Decodes-bind _ (Decodes-bytes a.nullifier h.nullifier.0)
          (Decodes-last _ (key.decodes a.rk h.rk) refl))

  -- What the format of version 5 writes of an output without its proof is read back.
  pub Decodes-read_output_v5 :
      (output : OutputDescription s)
      → IsOutput s output
      → Decodes (write_output_v5 s output) (read_output_v5 s) (record {
        cv = output.cv;
        cmu = output.cmu;
        ephemeral_key = output.ephemeral_key;
        enc_ciphertext = output.enc_ciphertext;
        out_ciphertext = output.out_ciphertext;
      })
  unfolding read_output_v5 write_output_v5 read_cv read_cmu
  Decodes-read_output_v5 a h =
      let cv =
        read_element-IsCodec s.ValueCommitment (invalid_input "invalid cv") k.value_commitment in
      let cm =
        read_element-IsCodec s.NoteCommitment (invalid_input "cmu not in field")
          k.note_commitment in
      Decodes-bind _ (cv.decodes a.cv h.cv) (
        Decodes-bind _ (cm.decodes a.cmu h.cmu) (
          Decodes-bind _ (Decodes-bytes a.ephemeral_key h.ephemeral_key.0) (
            Decodes-bind _ (Decodes-bytes a.enc_ciphertext h.enc_ciphertext.0)
              (Decodes-last _ (Decodes-bytes a.out_ciphertext h.out_ciphertext.0) refl))))

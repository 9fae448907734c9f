-- ===== src/Primitives/Sprout/Codec.antt =====
-- Laws of the byte format of JoinSplit descriptions.
use auzum_zcash.Base.{ℕ, Bool, true, false, refl, sym, []}
use auzum_zcash.Base.Io.{Bytes, IsBytes, write_all, done}
use auzum_zcash.Base.Io.Decodes.{Decodes, Decodes-bytes, Decodes-bind, Decodes-last}
use auzum_zcash.Base.Io.Exact.{
  Exact, Exact-bind, Exact-return, Exact-bytes, done-nil->>, write_laws,
}
use auzum_zcash.Protocol.Value.{ZatBalance, to_i64_le_bytes, from_u64_le_bytes}
use auzum_zcash.Protocol.Value.Amounts.{
  IsUnsigned, Decodes-balance, Exact-balance, from_u64_le_bytes-to_i64_le_bytes,
  to_i64_le_bytes-from_u64_le_bytes,
}
use auzum_zcash.Primitives.Sprout.{
  SproutProof, groth, phgr, JsDescription, read_pair, write_pair, read_proof, write_proof,
  read_vpub_old, read_vpub_new, read_js, write_js,
}

abbrev pub IsPair : ℕ → Bytes × Bytes → Type 0
IsPair size (first, second) = IsBytes size first × IsBytes size second

-- The proof is of the kind that the transaction version calls for, and of its size.
abbrev pub IsProof : Bool → SproutProof → Type 0
IsProof true (groth p) = IsBytes 192 p
IsProof true (phgr p) = ⊥
IsProof false (groth p) = ⊥
IsProof false (phgr p) = IsBytes 296 p

-- The fields fit their types, and the amounts are within the money supply and not negative.
pub record IsDescription (use_groth : Bool) (js : JsDescription) : Type 0 where
  pub vpub_old : IsUnsigned js.vpub_old
  pub vpub_new : IsUnsigned js.vpub_new
  pub anchor : IsBytes 32 js.anchor
  pub nullifiers : IsPair 32 js.nullifiers
  pub commitments : IsPair 32 js.commitments
  pub ephemeral_key : IsBytes 32 js.ephemeral_key
  pub random_seed : IsBytes 32 js.random_seed
  pub macs : IsPair 32 js.macs
  pub proof : IsProof use_groth js.proof
  pub ciphertexts : IsPair 601 js.ciphertexts

Decodes-read_pair :
    (size : ℕ) (p : Bytes × Bytes) → IsPair size p → Decodes (write_pair p) (read_pair size) p
unfolding read_pair write_pair
Decodes-read_pair size (first, second) (h, k) =
    Decodes-bind _ (Decodes-bytes first h.0) (Decodes-last _ (Decodes-bytes second k.0) refl)

Exact-read_pair : (size : ℕ) → Exact (done []) (read_pair size) write_pair (IsPair size)
unfolding read_pair write_pair
Exact-read_pair size =
    Exact-bind _ (Exact-bytes size)
      λ first h. Exact-bind _ (Exact-bytes size) λ second k. Exact-return _ (simp write_laws) (h, k)

Decodes-read_proof :
    (use_groth : Bool) (p : SproutProof)
    → IsProof use_groth p
    → Decodes (write_proof p) (read_proof use_groth) p
unfolding read_proof write_proof
Decodes-read_proof true (groth p) h = Decodes-last _ (Decodes-bytes p h.0) refl
Decodes-read_proof true (phgr p) h = absurd h
Decodes-read_proof false (groth p) h = absurd h
Decodes-read_proof false (phgr p) h = Decodes-last _ (Decodes-bytes p h.0) refl

Exact-read_proof :
    (use_groth : Bool) → Exact (done []) (read_proof use_groth) write_proof (IsProof use_groth)
unfolding read_proof write_proof
Exact-read_proof true =
    Exact-bind _ (Exact-bytes 192) λ p h. Exact-return (groth p) (sym (done-nil->> (write_all p))) h
Exact-read_proof false =
    Exact-bind _ (Exact-bytes 296) λ p h. Exact-return (phgr p) (sym (done-nil->> (write_all p))) h

Decodes-read_vpub_old :
    (b : ZatBalance) → IsUnsigned b → Decodes (write_all (to_i64_le_bytes b)) read_vpub_old b
unfolding read_vpub_old
Decodes-read_vpub_old b h =
    Decodes-balance "vpub_old out of range" from_u64_le_bytes b
      (from_u64_le_bytes-to_i64_le_bytes b h)

Decodes-read_vpub_new :
    (b : ZatBalance) → IsUnsigned b → Decodes (write_all (to_i64_le_bytes b)) read_vpub_new b
unfolding read_vpub_new
Decodes-read_vpub_new b h =
    Decodes-balance "vpub_new out of range" from_u64_le_bytes b
      (from_u64_le_bytes-to_i64_le_bytes b h)

Exact-read_vpub_old : Exact (done []) read_vpub_old (λ b. write_all (to_i64_le_bytes b)) IsUnsigned
unfolding read_vpub_old
Exact-read_vpub_old =
    Exact-balance "vpub_old out of range" from_u64_le_bytes to_i64_le_bytes-from_u64_le_bytes

Exact-read_vpub_new : Exact (done []) read_vpub_new (λ b. write_all (to_i64_le_bytes b)) IsUnsigned
unfolding read_vpub_new
Exact-read_vpub_new =
    Exact-balance "vpub_new out of range" from_u64_le_bytes to_i64_le_bytes-from_u64_le_bytes

-- A description whose fields fit is written without an error and read back, whatever follows.
pub Decodes-read_js :
    (use_groth : Bool) (js : JsDescription)
    → IsDescription use_groth js
    → Decodes (write_js js) (read_js use_groth) js
unfolding read_js write_js
Decodes-read_js use_groth js h = Decodes-bind _ (Decodes-read_vpub_old js.vpub_old h.vpub_old) (
    Decodes-bind _ (Decodes-read_vpub_new js.vpub_new h.vpub_new) (
      Decodes-bind _ (Decodes-bytes js.anchor h.anchor.0) (
        Decodes-bind _ (Decodes-read_pair 32 js.nullifiers h.nullifiers) (
          Decodes-bind _ (Decodes-read_pair 32 js.commitments h.commitments) (
            Decodes-bind _ (Decodes-bytes js.ephemeral_key h.ephemeral_key.0) (
              Decodes-bind _ (Decodes-bytes js.random_seed h.random_seed.0) (
                Decodes-bind _ (Decodes-read_pair 32 js.macs h.macs) (
                  Decodes-bind _ (Decodes-read_proof use_groth js.proof h.proof) (
                    Decodes-last _ (Decodes-read_pair 601 js.ciphertexts h.ciphertexts)
                      refl)))))))))

-- The bytes that a description is read from are those that it is written to, and its amounts are within the
-- money supply and not negative.
pub Exact-read_js :
    (use_groth : Bool) → Exact (done []) (read_js use_groth) write_js (IsDescription use_groth)
unfolding read_js write_js
Exact-read_js use_groth = Exact-bind _ Exact-read_vpub_old λ vpub_old h0.
    Exact-bind _ Exact-read_vpub_new λ vpub_new h1. Exact-bind _ (Exact-bytes 32) λ anchor h2.
      Exact-bind _ (Exact-read_pair 32) λ nullifiers h3.
        Exact-bind _ (Exact-read_pair 32) λ commitments h4.
          Exact-bind _ (Exact-bytes 32) λ ephemeral_key h5.
            Exact-bind _ (Exact-bytes 32) λ random_seed h6.
              Exact-bind _ (Exact-read_pair 32) λ macs h7.
                Exact-bind _ (Exact-read_proof use_groth) λ proof h8.
                  Exact-bind _ (Exact-read_pair 601) λ ciphertexts h9.
                    Exact-return _ (simp write_laws) (record {
                      vpub_old = h0;
                      vpub_new = h1;
                      anchor = h2;
                      nullifiers = h3;
                      commitments = h4;
                      ephemeral_key = h5;
                      random_seed = h6;
                      macs = h7;
                      proof = h8;
                      ciphertexts = h9;
                    })

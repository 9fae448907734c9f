-- ===== src/Bft/Keys.antt =====
-- crates/bft_primitives/src/keys.rs, hash.rs and height.rs: the byte-array newtypes, and the
-- signatures over votes. Ed25519 is the crate ed25519_zebra, and a parameter here.
pub mod Codec
use auzum_zcash.Base.{
  ℕ, ◌<◌, ◌≡◌, ◌^◌, Bool, true, false, List, ◌∷◌, ◌++◌, replicate, eq_bytes, Option, none, some,
  if◌then◌else◌,
}
use auzum_zcash.Base.Io.{Bytes, IsBytes, Reader, pure, ◌>>=◌, Written, read_exact, write_all}

abbrev pub pub_key_id_bytes : ℕ
pub_key_id_bytes = 32

abbrev pub vote_signature_bytes : ℕ
vote_signature_bytes = 64

abbrev pub blake3_hash_bytes : ℕ
blake3_hash_bytes = 32

pub record PubKeyId : Type 0 where
  pub bytes : Bytes

pub record VoteSignature : Type 0 where
  pub bytes : Bytes

pub record Blake3Hash : Type 0 where
  pub bytes : Bytes

-- `BftHeight(u32)`
abbrev pub BftHeight : Type 0
BftHeight = ℕ

abbrev pub IsU32 : ℕ → Type 0
IsU32 n = n < 2 ^ 32

abbrev pub zero_bytes : Bytes
zero_bytes = replicate 32 0

unfoldable pub is_zero : Blake3Hash → Bool
is_zero h = eq_bytes h.bytes zero_bytes

unfoldable pub read_pub_key_id : Reader PubKeyId
read_pub_key_id = do bytes ← read_exact pub_key_id_bytes; pure (record { bytes = bytes })

unfoldable pub write_pub_key_id : PubKeyId → Written
write_pub_key_id k = write_all k.bytes

unfoldable pub read_vote_signature : Reader VoteSignature
read_vote_signature = do bytes ← read_exact vote_signature_bytes; pure (record { bytes = bytes })

unfoldable pub write_vote_signature : VoteSignature → Written
write_vote_signature s = write_all s.bytes

unfoldable pub read_blake3_hash : Reader Blake3Hash
read_blake3_hash = do bytes ← read_exact blake3_hash_bytes; pure (record { bytes = bytes })

unfoldable pub write_blake3_hash : Blake3Hash → Written
write_blake3_hash h = write_all h.bytes

pub data SignatureError : Type 0 where
  invalid_public_key invalid_signature batch_verification_failed : SignatureError

pub data Verdict : Type 0 where
  verified : Verdict
  rejected : SignatureError → Verdict

-- What the code uses of ed25519_zebra: the key that 32 bytes encode, if any, the check of one
-- signature, and the batch check of (key bytes, signature, message) items under some randomness.
pub record Ed25519 : Type 1 where
  pub Key : Type 0
  pub Rng : Type 0
  pub key_of_bytes : Bytes → Option Key
  pub is_valid : Key → Bytes → Bytes → Bool
  pub batch_is_valid : Rng → List (Bytes × Bytes × Bytes) → Bool

module _ (ed : Ed25519) where
  open ed use {key_of_bytes, is_valid}

  unfoldable pub verify : VoteSignature → PubKeyId → Bytes → Verdict
  verify signature pub_key signed_data = elim (key_of_bytes pub_key.bytes) [
    | none ↦ rejected invalid_public_key
    | some vk ↦
        if is_valid vk signature.bytes signed_data then verified else rejected invalid_signature
  ]

-- The vote namespace, if any, is appended to the signed data.
abbrev pub with_namespace : Bytes → Option Blake3Hash → Bytes
with_namespace signed_data none = signed_data
with_namespace signed_data (some namespace) = signed_data ++ namespace.bytes

unfoldable pub verify_with_namespace :
    Ed25519 → VoteSignature → PubKeyId → Bytes → Option Blake3Hash → Verdict
unfolding verify
verify_with_namespace ed signature pub_key signed_data namespace =
    verify ed signature pub_key (with_namespace signed_data namespace)

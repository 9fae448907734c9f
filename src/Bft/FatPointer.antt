-- ===== src/Bft/FatPointer.antt =====
-- crates/bft_primitives/src/fat_pointer.rs: bundles of signatures that prove a block notarized.
pub mod Codec
pub mod Verify
pub mod Local
use auzum_zcash.Base.{
  ℕ, ◌<◌, ◌^◌, Bool, true, false, List, [], length, All, map, Option, none, some, if◌then◌else◌,
}
use auzum_zcash.Base.Io.{
  Bytes, IsBytes, IoError, invalid_data, Reader, pure, ◌>>=◌, ◌>>◌, Written, done, failed,
  read_u16_le, write_u64_le, write_len, read_times, write_each,
}
use auzum_zcash.Bft.Keys.{
  PubKeyId, VoteSignature, Blake3Hash, BftHeight, IsU32, zero_bytes, is_zero, read_pub_key_id,
  write_pub_key_id, read_vote_signature, write_vote_signature, read_blake3_hash, write_blake3_hash,
  Ed25519, Verdict, verified, rejected, batch_verification_failed, with_namespace,
}
use auzum_zcash.Bft.Vote.{
  Round, IsRound, VoteKind, prevote, precommit, Vote, SignedVote, to_bytes, read_height_u64,
  read_round_word, write_round_word,
}

pub record FatPointerSignature : Type 0 where
  pub pub_key : PubKeyId
  pub signature : VoteSignature

unfoldable pub read_entry : Reader FatPointerSignature
read_entry = do
  pub_key ← read_pub_key_id
  signature ← read_vote_signature
  pure (record { pub_key = pub_key; signature = signature })

unfoldable pub write_entry : FatPointerSignature → Written
write_entry s = do write_pub_key_id s.pub_key; write_vote_signature s.signature

pub record FatPointerToBftBlock : Type 0 where
  pub block_hash : Blake3Hash
  pub height : BftHeight
  pub round : Round
  pub kind : VoteKind
  pub signatures : List FatPointerSignature

unfoldable pub from_parts :
    Blake3Hash → BftHeight → Round → List FatPointerSignature → FatPointerToBftBlock
from_parts block_hash height round signatures = record {
  block_hash = block_hash;
  height = height;
  round = round;
  kind = precommit;
  signatures = signatures;
}

-- The fat pointer that precedes the first block.
unfoldable pub null : FatPointerToBftBlock
null = record {
  block_hash = record { bytes = zero_bytes };
  height = 0;
  round = 0;
  kind = prevote;
  signatures = [];
}

-- A zero block hash expands to Nil votes.
unfoldable pub inflated_value : FatPointerToBftBlock → Option Blake3Hash
inflated_value p = if is_zero p.block_hash then none else some p.block_hash

unfoldable pub inflate_entry :
    FatPointerToBftBlock → Option Blake3Hash → FatPointerSignature → SignedVote
inflate_entry p value entry = record {
  vote = record {
    validator = entry.pub_key;
    value = value;
    height = p.height;
    kind = p.kind;
    round = p.round;
  };
  signature = entry.signature;
}

unfoldable pub inflate : FatPointerToBftBlock → List SignedVote
inflate p = let value = inflated_value p in map (inflate_entry p value) p.signatures

-- What is queued for a vote: the key bytes, the signature, and the message with the namespace.
unfoldable pub batch_item : Option Blake3Hash → SignedVote → Bytes × Bytes × Bytes
batch_item namespace v =
    (v.vote.validator.bytes, v.signature.bytes, with_namespace (to_bytes v.vote) namespace)

module _ (ed : Ed25519) where
  open ed use {Rng, batch_is_valid}

  unfoldable pub verify_signatures : FatPointerToBftBlock → Option Blake3Hash → Rng → Verdict
  verify_signatures p namespace rng =
      if batch_is_valid rng (map (batch_item namespace) (inflate p))
      then verified
      else rejected batch_verification_failed

unfoldable pub read_fat_pointer : Reader FatPointerToBftBlock
read_fat_pointer = do
  block_hash ← read_blake3_hash
  height ← read_height_u64
  (kind, round) ← read_round_word
  count ← read_u16_le
  signatures ← read_times count read_entry
  pure (record {
    block_hash = block_hash;
    height = height;
    round = round;
    kind = kind;
    signatures = signatures;
  })

unfoldable pub write_fat_pointer : FatPointerToBftBlock → Written
write_fat_pointer p = do
  write_blake3_hash p.block_hash
  write_u64_le p.height
  write_round_word p.kind p.round
  write_len 2 (length p.signatures) "too many signatures"
  write_each write_entry p.signatures

-- `none` is the panic of `expect`.
unfoldable pub fat_pointer_bytes : FatPointerToBftBlock → Option Bytes
fat_pointer_bytes p = elim (write_fat_pointer p) [ done buf ↦ some buf | failed _ _ ↦ none ]

pub record IsEntry (s : FatPointerSignature) : Type 0 where
  pub pub_key : IsBytes 32 s.pub_key.bytes
  pub signature : IsBytes 64 s.signature.bytes

-- The ranges of the fields' types, and a count that the format can hold.
pub record IsFatPointer (p : FatPointerToBftBlock) : Type 0 where
  pub block_hash : IsBytes 32 p.block_hash.bytes
  pub height : IsU32 p.height
  pub round : IsRound p.round
  pub few : length p.signatures < 2 ^ 16
  pub signatures : All IsEntry p.signatures

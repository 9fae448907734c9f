-- ===== src/Bft/Block/Notarized.antt =====
-- `NotarizedBftBlock`: a block with the fat pointer that proves it notarized.
use Prim.Native.String.{String}
use auzum_zcash.Base.{
  if◌then◌else◌, ◌≡◌, refl, subst, Bool, List, All, some, All-map_iff, ap, true, ◌↔◌, Option, none,
}
use auzum_zcash.Base.Io.{Bytes, Result, ok, err, Reader, pure, ◌>>=◌, ◌>>◌, Written}
use auzum_zcash.Base.Io.Decodes.{Decodes, Decodes-bind, Decodes-last}
use auzum_zcash.Bft.Keys.{Blake3Hash, BftHeight, is_zero, Ed25519, verified}
use auzum_zcash.Bft.Vote.{Round, precommit, SignedVote, verify_signed_vote}
use auzum_zcash.Bft.FatPointer.{
  FatPointerToBftBlock, FatPointerSignature, IsFatPointer, from_parts, read_fat_pointer,
  write_fat_pointer, inflate, inflate_entry, inflated_value, verify_signatures,
}
use auzum_zcash.Bft.FatPointer.Verify.{IsValidItem, verify_signatures_iff}
use auzum_zcash.Bft.FatPointer.Codec.{Decodes-read_fat_pointer}
use auzum_zcash.Bft.PowHeader.{PowCrates}
use auzum_zcash.Bft.Block.{BftBlock, IsBlock, read_block, write_block, block_hash}
use auzum_zcash.Bft.Block.Codec.{Decodes-read_block}

pub record NotarizedBftBlock : Type 0 where
  pub block : BftBlock
  pub fat_ptr : FatPointerToBftBlock

abbrev pointed :
    BftBlock
    → BftHeight
    → Round
    → List FatPointerSignature
    → Result Blake3Hash
    → Result NotarizedBftBlock
pointed block height round signatures (ok hash) =
    ok (record { block = block; fat_ptr = from_parts hash height round signatures })
pointed block height round signatures (err e) = err e

unfoldable pub notarize :
    (String → Bytes → Bytes)
    → BftBlock
    → BftHeight
    → Round
    → List FatPointerSignature
    → Result NotarizedBftBlock
notarize keyed_hash block height round signatures =
    pointed block height round signatures (block_hash keyed_hash block)

unfoldable pub read_notarized : PowCrates → Bool → Reader NotarizedBftBlock
read_notarized crates crosslink = do
  block ← read_block crates crosslink
  fat_ptr ← read_fat_pointer
  pure (record { block = block; fat_ptr = fat_ptr })

unfoldable pub write_notarized : NotarizedBftBlock → Written
write_notarized n = do write_block n.block; write_fat_pointer n.fat_ptr

-- A notarized block whose two parts the format can hold is written without an error and read back,
-- whatever follows.
pub Decodes-read_notarized :
    (crates : PowCrates) (crosslink : Bool) (n : NotarizedBftBlock)
    → IsBlock crates crosslink n.block
    → IsFatPointer n.fat_ptr
    → Decodes (write_notarized n) (read_notarized crates crosslink) n
unfolding read_notarized write_notarized
Decodes-read_notarized crates crosslink n hb hp =
    Decodes-bind _ (Decodes-read_block crates crosslink n.block hb)
      (Decodes-last _ (Decodes-read_fat_pointer n.fat_ptr hp) refl)

abbrev notarized_in : NotarizedBftBlock → Result NotarizedBftBlock → NotarizedBftBlock
notarized_in d (ok n) = n
notarized_in d (err e) = d

-- What a validator signs for a block with a hash: a precommit for it, or for Nil if it is all zeros.
abbrev pub precommit_for : Blake3Hash → BftHeight → Round → FatPointerSignature → SignedVote
precommit_for hash height round s = record {
  vote = record {
    validator = s.pub_key;
    value = if is_zero hash then none else some hash;
    height = height;
    kind = precommit;
    round = round;
  };
  signature = s.signature;
}

pointed-ok :
    (block : BftBlock) (height : BftHeight) (round : Round) (signatures : List FatPointerSignature)
    (o : Result Blake3Hash) (n : NotarizedBftBlock)
    → pointed block height round signatures o ≡ ok n
    → (hash : Blake3Hash) × (o ≡ ok hash)
      × (record { block = block; fat_ptr = from_parts hash height round signatures } ≡ n)
pointed-ok block height round signatures (ok hash) n e = (hash, refl, ap (notarized_in n) e)
pointed-ok block height round signatures (err x) n e = cc

-- `batch_sound` is what ed25519_zebra documents of a batch: it passes just when each item does.
module _ (ed : Ed25519)
    (batch_sound : (rng : ed.Rng) (items : List (Bytes × Bytes × Bytes))
      → (ed.batch_is_valid rng items ≡ true) ↔ All (IsValidItem ed) items) where
  counted :
      (hash : Blake3Hash) (height : BftHeight) (round : Round)
      (signatures : List FatPointerSignature) (namespace : Option Blake3Hash) (rng : ed.Rng)
      → (verify_signatures ed (from_parts hash height round signatures) namespace rng ≡ verified)
        ↔ All
            (λ s. verify_signed_vote ed (precommit_for hash height round s) namespace ≡ verified)
            signatures
  unfolding inflate from_parts inflated_value inflate_entry
  counted hash height round signatures namespace rng =
      let p = from_parts hash height round signatures in
      let whole = verify_signatures_iff ed batch_sound p namespace rng in
      let each =
        All-map_iff (λ (v : SignedVote). verify_signed_vote ed v namespace ≡ verified)
          (inflate_entry p (inflated_value p)) signatures in
      (λ h. each.0 (whole.0 h), λ h. whole.1 (each.1 h))

  -- A block that was notarized is the block that was given, and its fat pointer names the hash of that
  -- block. Given a batch check that passes just when each item does, the fat pointer verifies exactly
  -- when each of the given signatures verifies, by its key, for a precommit for that hash at the given
  -- height and round; a hash that is all zeros stands for Nil.
  pub notarize-verify_signatures :
      (keyed_hash : String → Bytes → Bytes) (b : BftBlock) (height : BftHeight) (round : Round)
      (signatures : List FatPointerSignature) (n : NotarizedBftBlock)
      (namespace : Option Blake3Hash) (rng : ed.Rng)
      → notarize keyed_hash b height round signatures ≡ ok n
      → (n.block ≡ b)
        × (block_hash keyed_hash b ≡ ok n.fat_ptr.block_hash)
        × ((verify_signatures ed n.fat_ptr namespace rng ≡ verified)
            ↔ All
                (λ s.
                  verify_signed_vote ed
                    (precommit_for n.fat_ptr.block_hash height round s)
                    namespace
                  ≡ verified)
                signatures)
  unfolding notarize from_parts
  notarize-verify_signatures keyed_hash b height round signatures n namespace rng e =
      let (hash, eh, same) = pointed-ok b height round signatures (block_hash keyed_hash b) n e in
      subst
        (λ (t : NotarizedBftBlock).
          (t.block ≡ b)
          × (block_hash keyed_hash b ≡ ok t.fat_ptr.block_hash)
          × ((verify_signatures ed t.fat_ptr namespace rng ≡ verified)
              ↔ All
                  (λ s.
                    verify_signed_vote ed (precommit_for t.fat_ptr.block_hash height round s)
                      namespace
                    ≡ verified)
                  signatures))
        same (refl, eh, counted hash height round signatures namespace rng)

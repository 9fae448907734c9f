-- ===== src/Bft/FatPointer/Verify.antt =====
-- Laws of `FatPointerToBftBlock::inflate` and `verify_signatures`.
use auzum_zcash.Base.{
  ◌≡◌, ◌↔◌, refl, arith, Bool, true, false, List, [], ◌∷◌, map, All, Option, none, some, Bool-cases,
  inl, inr, eq_bytes, eq_bytes_iff, ap, All-map_iff, All-imp, if◌then◌else◌,
}
use auzum_zcash.Base.Io.{Bytes, ok}
use auzum_zcash.Bft.Keys.{
  Ed25519, Blake3Hash, verified, rejected, batch_verification_failed, is_zero, zero_bytes, verify,
  verify_with_namespace,
}
use auzum_zcash.Bft.Vote.{IsVote, IsValue, SignedVote, to_bytes, from_bytes, verify_signed_vote}
use auzum_zcash.Bft.Vote.Codec.{from_bytes-to_bytes}
use auzum_zcash.Bft.FatPointer.{
  FatPointerSignature, FatPointerToBftBlock, IsEntry, IsFatPointer, inflate, inflate_entry,
  inflated_value, batch_item, verify_signatures,
}

-- One item of a batch is valid by itself.
abbrev pub IsValidItem : Ed25519 → Bytes × Bytes × Bytes → Type 0
IsValidItem ed (key, signature, message) = elim (ed.key_of_bytes key) [
  | none ↦ ⊥
  | some vk ↦ ed.is_valid vk signature message ≡ true
]

module _ (ed : Ed25519) where
  verified_iff :
      (namespace : Option Blake3Hash) (v : SignedVote)
      → (verify_signed_vote ed v namespace ≡ verified) ↔ IsValidItem ed (batch_item namespace v)
  unfolding verify_signed_vote verify_with_namespace verify batch_item
  verified_iff namespace v = (λ h. ground arith, λ h. ground arith)

  accepts_iff :
      (b : Bool)
      → (if b then verified else rejected batch_verification_failed) ≡ verified ↔ (b ≡ true)
  accepts_iff true = (λ h. refl, λ h. refl)
  accepts_iff false = (λ h. cc, λ h. cc)

-- `batch_sound` is what ed25519_zebra documents of a batch: it passes just when each item does.
module _ (ed : Ed25519)
    (batch_sound : (rng : ed.Rng) (items : List (Bytes × Bytes × Bytes))
      → (ed.batch_is_valid rng items ≡ true) ↔ All (IsValidItem ed) items) where
  -- Given such a batch check, a fat pointer verifies exactly when every signed vote that it
  -- expands to verifies on its own, under the same namespace.
  pub verify_signatures_iff :
      (p : FatPointerToBftBlock) (namespace : Option Blake3Hash) (rng : ed.Rng)
      → (verify_signatures ed p namespace rng ≡ verified)
        ↔ All (λ (v : SignedVote). verify_signed_vote ed v namespace ≡ verified) (inflate p)
  unfolding verify_signatures
  verify_signatures_iff p namespace rng =
      let votes = inflate p in
      let items = map (batch_item namespace) votes in
      let passes = accepts_iff ed (ed.batch_is_valid rng items) in
      let each = All-map_iff (IsValidItem ed) (batch_item namespace) votes in
      (
        λ h.
            All-imp (λ v. (verified_iff ed namespace v).1) votes
              (each.0 ((batch_sound rng items).0 (passes.0 h))),
        λ h. passes.1 (
            (batch_sound rng items).1
              (each.1 (All-imp (λ v. (verified_iff ed namespace v).0) votes h))),
      )

inflated_value-IsValue : (p : FatPointerToBftBlock) → IsFatPointer p → IsValue (inflated_value p)
unfolding inflated_value is_zero
inflated_value-IsValue p h = elim (Bool-cases (eq_bytes p.block_hash.bytes zero_bytes)) [
  | inl e ↦ rw e tt
  | inr e ↦ rw e (h.block_hash, λ q. cc (e, (eq_bytes_iff p.block_hash.bytes zero_bytes).1 q))
]

inflate_entry-IsVote :
    (p : FatPointerToBftBlock)
    → IsFatPointer p
    → (s : FatPointerSignature) → IsEntry s
    → IsVote (inflate_entry p (inflated_value p) s).vote
unfolding inflate_entry
inflate_entry-IsVote p h s hs = record {
  validator = hs.pub_key;
  value = inflated_value-IsValue p h;
  height = h.height;
  round = h.round;
}

inflate_entry-keys :
    (p : FatPointerToBftBlock) (o : Option Blake3Hash) (xs : List FatPointerSignature)
    → map (λ (v : SignedVote). v.vote.validator) (map (inflate_entry p o) xs)
      ≡ map (λ (s : FatPointerSignature). s.pub_key) xs
unfolding inflate_entry
inflate_entry-keys p o [] = refl
inflate_entry-keys p o (s ∷ xs) = ap (λ t. s.pub_key ∷ t) (inflate_entry-keys p o xs)

-- A well-formed fat pointer expands to one vote for each entry, by the entries' keys in their
-- order, and each is a vote that is read back from the bytes that were signed.
pub inflate-votes :
    (p : FatPointerToBftBlock)
    → IsFatPointer p
    → (map (λ (v : SignedVote). v.vote.validator) (inflate p)
        ≡ map (λ (s : FatPointerSignature). s.pub_key) p.signatures)
      × All (λ (v : SignedVote). from_bytes (to_bytes v.vote) ≡ ok v.vote) (inflate p)
unfolding inflate
inflate-votes p h = (
  inflate_entry-keys p (inflated_value p) p.signatures,
  (All-map_iff _ (inflate_entry p (inflated_value p)) p.signatures).1 (
      All-imp (λ s hs. from_bytes-to_bytes _ (inflate_entry-IsVote p h s hs)) p.signatures
        h.signatures),
)

-- ===== src/Bft/Tests.antt =====
-- Sample keys, votes, fat pointers and hardfork rules, with the codecs run on them.
pub mod Votes
pub mod Blocks
use Prim.Native.Nat.{ℕ}
use auzum_zcash.Base.{
  ◌<◌, ◌≡◌, ◌↔◌, refl, arith, Bool, true, false, ◌&&◌, List, [], ◌∷◌, ◌++◌, replicate,
  length-replicate, All, All-replicate, eq_bytes, Option, none, some, if◌then◌else◌,
}
use auzum_zcash.Base.Io.{Bytes, IsByte, IsBytes}
use auzum_zcash.Bft.Keys.{PubKeyId, VoteSignature, Blake3Hash, Ed25519, zero_bytes}
use auzum_zcash.Bft.FatPointer.Verify.{IsValidItem}

pub repeated-IsBytes : (n b : ℕ) → b < 256 → IsBytes n (replicate n b)
repeated-IsBytes n b h = (length-replicate n b, All-replicate IsByte n b h)

abbrev pub key : ℕ → PubKeyId
key b = record { bytes = replicate 32 b }

abbrev pub hash_of : ℕ → Blake3Hash
hash_of b = record { bytes = replicate 32 b }

abbrev pub signature : ℕ → VoteSignature
signature b = record { bytes = replicate 64 b }

-- A signature scheme whose signatures are the key twice, and which has no zero key.
abbrev pub toy_is_valid : Bytes → Bytes → Bytes → Bool
toy_is_valid vk signature message = eq_bytes signature (vk ++ vk)

abbrev pub toy_key : Bytes → Option Bytes
toy_key bytes = if eq_bytes bytes zero_bytes then none else some bytes

abbrev pub toy_item : Bytes × Bytes × Bytes → Bool
toy_item (key, signature, message) = elim (toy_key key) [
  | none ↦ false
  | some vk ↦ toy_is_valid vk signature message
]

abbrev pub toy_batch : List (Bytes × Bytes × Bytes) → Bool
toy_batch [] = true
toy_batch (item ∷ items) = toy_item item && toy_batch items

abbrev pub toy : Ed25519
toy = record {
  Key = Bytes;
  Rng = Unit;
  key_of_bytes = toy_key;
  is_valid = toy_is_valid;
  batch_is_valid = λ rng items. toy_batch items;
}

toy_item_iff : (item : Bytes × Bytes × Bytes) → (toy_item item ≡ true) ↔ IsValidItem toy item
toy_item_iff (key, signature, message) = ground arith

and_iff : (a b : Bool) → ((a && b) ≡ true) ↔ ((a ≡ true) × (b ≡ true))
and_iff a b = ground arith

pub toy_batch_sound :
    (rng : Unit {0}) (items : List (Bytes × Bytes × Bytes))
    → (toy_batch items ≡ true) ↔ All (IsValidItem toy) items
toy_batch_sound rng [] = (λ h. tt, λ h. refl)
toy_batch_sound rng (item ∷ items) =
    let both = and_iff (toy_item item) (toy_batch items) in
    let one = toy_item_iff item in
    let rest = toy_batch_sound rng items in
    (λ h. let (a, b) = both.0 h in (one.0 a, rest.0 b), λ (a, b). both.1 (one.1 a, rest.1 b))

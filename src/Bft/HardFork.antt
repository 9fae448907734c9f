-- ===== src/Bft/HardFork.antt =====
-- crates/bft_primitives/src/hard_fork.rs: user-led hardfork rules.
pub mod Codec
pub mod Order
pub mod Finalizers
use auzum_zcash.Base.{
  ℕ, ◌<◌, ◌^◌, ◌≤◌, Bool, true, false, not, List, [], ◌∷◌, length, All, Option, none, some, ltb,
  ◌==◌, eq_bytes, if◌then◌else◌,
}
use auzum_zcash.Base.Io.{
  Bytes, IsBytes, invalid_data, Reader, pure, fail, ◌>>=◌, ◌>>◌, Written, read_u32_le, read_u64_le,
  write_u64_le, write_len, read_times, write_each,
}
use auzum_zcash.Base.Outcome.{Outcome, success, failure}
use auzum_zcash.Bft.Keys.{PubKeyId, BftHeight, IsU32, read_pub_key_id, write_pub_key_id}
use auzum_zcash.Bft.Vote.{read_height_u64}

abbrev pub max_terminated_finalizers : ℕ
max_terminated_finalizers = 4096

pub data InvalidHardForkConfig : Type 0 where
  no_terminated_finalizers : InvalidHardForkConfig
  duplicate_finalizer : PubKeyId → InvalidHardForkConfig

-- The heights are u32 values.
pub record HardForkConfig : Type 0 where
  pub pow_activation_height : ℕ
  pub bft_certificate_height : BftHeight
  pub terminated_finalizers : List PubKeyId

-- The derived order of byte arrays, first byte first.
unfoldable pub leb_bytes : Bytes → Bytes → Bool
leb_bytes [] ys = true
leb_bytes (x ∷ xs) [] = false
leb_bytes (x ∷ xs) (y ∷ ys) = let rest = leb_bytes xs ys in if x == y then rest else ltb x y

insert : PubKeyId → List PubKeyId → List PubKeyId
insert k [] = k ∷ []
insert k (j ∷ js) = if leb_bytes k.bytes j.bytes then k ∷ j ∷ js else j ∷ insert k js

-- `sort_unstable`: equal keys cannot be told apart.
unfoldable pub sort : List PubKeyId → List PubKeyId
unfolding insert leb_bytes
sort [] = []
sort (k ∷ ks) = insert k (sort ks)

-- The loop over `windows(2)`: the first of two neighbours that are equal.
unfoldable pub equal_neighbours : List PubKeyId → Option PubKeyId
equal_neighbours [] = none
equal_neighbours (k ∷ []) = none
equal_neighbours (k ∷ j ∷ ks) =
    let rest = equal_neighbours (j ∷ ks) in if eq_bytes k.bytes j.bytes then some k else rest

abbrev build :
    ℕ → BftHeight → List PubKeyId → Option PubKeyId → Outcome InvalidHardForkConfig HardForkConfig
build pow bft finalizers (some k) = failure (duplicate_finalizer k)
build pow bft finalizers none = success (record {
  pow_activation_height = pow;
  bft_certificate_height = bft;
  terminated_finalizers = finalizers;
})

unfoldable pub new_hard_fork :
    ℕ → BftHeight → List PubKeyId → Outcome InvalidHardForkConfig HardForkConfig
new_hard_fork pow bft [] = failure no_terminated_finalizers
new_hard_fork pow bft (k ∷ ks) =
    let sorted = sort (k ∷ ks) in build pow bft sorted (equal_neighbours sorted)

unfoldable pub read_block_height_u64 : Reader ℕ
read_block_height_u64 = do
  height ← read_u64_le
  if not (ltb height (2 ^ 32)) then fail (invalid_data "PoW height out of range") else pure height

unfoldable pub read_hard_fork : Reader HardForkConfig
read_hard_fork = do
  pow_activation_height ← read_block_height_u64
  bft_certificate_height ← read_height_u64
  count ← read_u32_le
  if ltb max_terminated_finalizers count
      then fail (invalid_data "terminated_finalizers count exceeds maximum")
      else do
        terminated_finalizers ← read_times count read_pub_key_id
        pure (record {
          pow_activation_height = pow_activation_height;
          bft_certificate_height = bft_certificate_height;
          terminated_finalizers = terminated_finalizers;
        })

unfoldable pub write_hard_fork : HardForkConfig → Written
write_hard_fork c = do
  write_u64_le c.pow_activation_height
  write_u64_le c.bft_certificate_height
  write_len 4 (length c.terminated_finalizers) "too many finalizers"
  write_each write_pub_key_id c.terminated_finalizers

-- The ranges of the fields' types, and a count that `read` accepts.
pub record IsHardFork (c : HardForkConfig) : Type 0 where
  pub pow_activation_height : IsU32 c.pow_activation_height
  pub bft_certificate_height : IsU32 c.bft_certificate_height
  pub few : length c.terminated_finalizers ≤ max_terminated_finalizers
  pub terminated_finalizers : All (λ (k : PubKeyId). IsBytes 32 k.bytes) c.terminated_finalizers

-- ===== src/Primitives/TxVersion.antt =====
-- zcash_primitives/src/transaction/mod.rs: the transaction format versions, in a build with the cfg
-- flag crosslink and without nu7. The constants are those of
-- components/zcash_protocol/src/constants.rs.
pub mod Codec
pub mod Pools
use Prim.Native.Nat.{bit_and, bit_or}
use auzum_zcash.Base.{
  ℕ, ◌/◌, ◌^◌, ◌≤◌, ◌<◌, Bool, true, false, not, ◌&&◌, [], leb, ◌==◌, if◌then◌else◌,
}
use auzum_zcash.Base.Io.{
  invalid_data, Reader, pure, fail, ◌>>=◌, ◌>>◌, Written, done, read_u32_le, write_u32_le,
}
use auzum_zcash.Protocol.Consensus.{BranchId}

abbrev pub v3_tx_version : ℕ
v3_tx_version = 3

abbrev pub v3_version_group_id : ℕ
v3_version_group_id = 0x03c4_8270

abbrev pub v4_tx_version : ℕ
v4_tx_version = 4

abbrev pub v4_version_group_id : ℕ
v4_version_group_id = 0x892f_2085

abbrev pub v5_tx_version : ℕ
v5_tx_version = 5

abbrev pub v5_version_group_id : ℕ
v5_version_group_id = 0x26a7_270a

abbrev pub v6_tx_version : ℕ
v6_tx_version = 6

abbrev pub v6_version_group_id : ℕ
v6_version_group_id = 0xd884_b698

abbrev pub vcrosslink_tx_version : ℕ
vcrosslink_tx_version = 7

abbrev pub vcrosslink_version_group_id : ℕ
vcrosslink_version_group_id = 0xffff_fffe

pub data TxVersion : Type 0 where
  sprout : ℕ → TxVersion
  v3 v4 v5 v6 vcrosslink : TxVersion

-- The match on the version and the version group id.
unfoldable pub overwintered_version : ℕ → ℕ → Reader TxVersion
overwintered_version version group =
    if version == v3_tx_version && group == v3_version_group_id
    then pure v3
    else if version == v4_tx_version && group == v4_version_group_id
    then pure v4
    else if version == v5_tx_version && group == v5_version_group_id
    then pure v5
    else if version == v6_tx_version && group == v6_version_group_id
    then pure v6
    else if version == vcrosslink_tx_version && group == vcrosslink_version_group_id
    then pure vcrosslink
    else fail (invalid_data "Unknown transaction format")

-- What is read after the header word.
unfoldable pub after_header : ℕ → Reader TxVersion
after_header header =
    let version = bit_and header 0x7fff_ffff in
    if header / 2 ^ 31 == 1
    then (read_u32_le >>= overwintered_version version)
    else if leb 1 version
    then pure (sprout version)
    else fail (invalid_data "Unknown transaction format")

unfoldable pub read_version : Reader TxVersion
read_version = do header ← read_u32_le; after_header header

abbrev overwintered_bit : TxVersion → ℕ
overwintered_bit (sprout v) = 0
overwintered_bit _ = 2 ^ 31

abbrev version_number : TxVersion → ℕ
version_number (sprout v) = v
version_number v3 = v3_tx_version
version_number v4 = v4_tx_version
version_number v5 = v5_tx_version
version_number v6 = v6_tx_version
version_number vcrosslink = vcrosslink_tx_version

unfoldable pub header : TxVersion → ℕ
header v = bit_or (overwintered_bit v) (version_number v)

unfoldable pub version_group_id : TxVersion → ℕ
version_group_id (sprout v) = 0
version_group_id v3 = v3_version_group_id
version_group_id v4 = v4_version_group_id
version_group_id v5 = v5_version_group_id
version_group_id v6 = v6_version_group_id
version_group_id vcrosslink = vcrosslink_version_group_id

abbrev write_group : TxVersion → Written
write_group (sprout v) = done []
write_group v = write_u32_le (version_group_id v)

unfoldable pub write_version : TxVersion → Written
write_version v = do write_u32_le (header v); write_group v

unfoldable pub has_sprout : TxVersion → Bool
has_sprout (sprout v) = leb 2 v
has_sprout v3 = true
has_sprout v4 = true
has_sprout v5 = false
has_sprout v6 = false
has_sprout vcrosslink = false

unfoldable pub has_overwinter : TxVersion → Bool
has_overwinter (sprout v) = false
has_overwinter _ = true

unfoldable pub has_sapling : TxVersion → Bool
has_sapling (sprout v) = false
has_sapling v3 = false
has_sapling v4 = true
has_sapling v5 = true
has_sapling v6 = true
has_sapling vcrosslink = true

unfoldable pub has_orchard : TxVersion → Bool
has_orchard (sprout v) = false
has_orchard v3 = false
has_orchard v4 = false
has_orchard v5 = true
has_orchard v6 = true
has_orchard vcrosslink = true

unfoldable pub has_ironwood : TxVersion → Bool
has_ironwood v6 = true
has_ironwood _ = false

unfoldable pub has_crosslink : TxVersion → Bool
has_crosslink vcrosslink = true
has_crosslink _ = false

unfoldable pub suggested_for_branch : BranchId → TxVersion
suggested_for_branch BranchId.sprout = sprout 2
suggested_for_branch BranchId.overwinter = v3
suggested_for_branch BranchId.sapling = v4
suggested_for_branch BranchId.blossom = v4
suggested_for_branch BranchId.heartwood = v4
suggested_for_branch BranchId.canopy = v4
suggested_for_branch BranchId.nu5 = v5
suggested_for_branch BranchId.nu6 = v5
suggested_for_branch BranchId.nu6_1 = v5
suggested_for_branch BranchId.nu6_2 = v5
suggested_for_branch BranchId.nu6_3 = v6

abbrev is_sprout : BranchId → Bool
is_sprout BranchId.sprout = true
is_sprout _ = false

abbrev is_overwinter : BranchId → Bool
is_overwinter BranchId.overwinter = true
is_overwinter _ = false

abbrev sapling_or_later : BranchId → Bool
sapling_or_later BranchId.sprout = false
sapling_or_later BranchId.overwinter = false
sapling_or_later _ = true

abbrev nu5_or_later : BranchId → Bool
nu5_or_later BranchId.nu5 = true
nu5_or_later BranchId.nu6 = true
nu5_or_later BranchId.nu6_1 = true
nu5_or_later BranchId.nu6_2 = true
nu5_or_later BranchId.nu6_3 = true
nu5_or_later _ = false

abbrev is_nu6_3 : BranchId → Bool
is_nu6_3 BranchId.nu6_3 = true
is_nu6_3 _ = false

unfoldable pub valid_in_branch : TxVersion → BranchId → Bool
valid_in_branch (sprout v) b = is_sprout b
valid_in_branch v3 b = is_overwinter b
valid_in_branch v4 b = sapling_or_later b
valid_in_branch v5 b = nu5_or_later b
valid_in_branch v6 b = is_nu6_3 b
valid_in_branch vcrosslink b = nu5_or_later b

-- A version before Overwinter is a number of 31 bits that is not zero.
abbrev pub IsVersion : TxVersion → Type 0
IsVersion (sprout v) = (1 ≤ v) × (v < 2 ^ 31)
IsVersion _ = Unit

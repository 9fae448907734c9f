-- ===== src/Primitives/TxVersion/Pools.antt =====
-- The pools that a version carries, and the upgrades that open them.
use auzum_zcash.Base.{◌≡◌, true, not, ◌||◌, arith}
use auzum_zcash.Protocol.Consensus.{
  BlockHeight, NetworkUpgrade, BranchId, is_nu_active, Network, main, test, activation_height,
  first_active, for_height, branch_id,
}
use auzum_zcash.Primitives.TxVersion.{
  TxVersion, has_overwinter, has_sapling, has_orchard, has_ironwood, suggested_for_branch,
  valid_in_branch, IsVersion,
}

-- The version that is suggested for a branch can be written, and is valid in that branch.
pub suggested-valid_in_branch :
    (b : BranchId)
    → IsVersion (suggested_for_branch b) × (valid_in_branch (suggested_for_branch b) b ≡ true)
unfolding suggested_for_branch valid_in_branch
suggested-valid_in_branch b = ground arith

-- On both networks, a version that is valid at a height carries a pool only from the upgrade on that
-- opened the pool.
pub pools_open :
    (network : Network) (h : BlockHeight) (v : TxVersion)
    → valid_in_branch v (for_height (activation_height network) h) ≡ true
    → ((not (has_overwinter v)
          || is_nu_active (activation_height network) NetworkUpgrade.overwinter h)
        ≡ true)
      × ((not (has_sapling v) || is_nu_active (activation_height network) NetworkUpgrade.sapling h)
          ≡ true)
      × ((not (has_orchard v) || is_nu_active (activation_height network) NetworkUpgrade.nu5 h)
          ≡ true)
      × ((not (has_ironwood v) || is_nu_active (activation_height network) NetworkUpgrade.nu6_3 h)
          ≡ true)
unfolding valid_in_branch for_height first_active is_nu_active branch_id has_overwinter has_sapling
    has_orchard has_ironwood
pools_open main h v e = ground arith
pools_open test h v e = ground arith

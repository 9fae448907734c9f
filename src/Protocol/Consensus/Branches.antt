-- ===== src/Protocol/Consensus/Branches.antt =====
-- The branch ids and the heights at which they are in force.
use auzum_zcash.Base.{ℕ, ◌≤◌, ◌<◌, ◌≡◌, ◌↔◌, refl, arith, Option, none, some}
use auzum_zcash.Protocol.Consensus.{
  BlockHeight, NetworkUpgrade, BranchId, is_nu_active, Network, main, test, activation_height,
  branch_id, network_upgrade, branch_from_u32, branch_to_u32, first_active, for_height,
  height_bounds,
}

-- A height within the bounds of an epoch.
abbrev pub InBounds : Option (BlockHeight × Option BlockHeight) → BlockHeight → Type 0
InBounds none h = ⊥
InBounds (some (lower, none)) h = lower ≤ h
InBounds (some (lower, some upper)) h = (lower ≤ h) × (h < upper)

from_to : (b : BranchId) → branch_from_u32 (branch_to_u32 b) ≡ some b
unfolding branch_from_u32 branch_to_u32
from_to BranchId.sprout = refl
from_to BranchId.overwinter = refl
from_to BranchId.sapling = refl
from_to BranchId.blossom = refl
from_to BranchId.heartwood = refl
from_to BranchId.canopy = refl
from_to BranchId.nu5 = refl
from_to BranchId.nu6 = refl
from_to BranchId.nu6_1 = refl
from_to BranchId.nu6_2 = refl
from_to BranchId.nu6_3 = refl

to_from : (value : ℕ) (b : BranchId) → branch_from_u32 value ≡ some b → branch_to_u32 b ≡ value
unfolding branch_from_u32 branch_to_u32
to_from value b e = ground arith

-- A number is the id of a branch exactly when that branch has that number.
pub branch_from_u32_iff :
    (value : ℕ) (b : BranchId) → (branch_from_u32 value ≡ some b) ↔ (branch_to_u32 b ≡ value)
branch_from_u32_iff value b = (to_from value b, λ e. rw (← e) (from_to b))

-- An upgrade is that of a branch exactly when the branch is that of the upgrade.
pub network_upgrade_iff :
    (b : BranchId) (nu : NetworkUpgrade) → (network_upgrade b ≡ some nu) ↔ (branch_id nu ≡ b)
unfolding network_upgrade branch_id
network_upgrade_iff b nu = (λ e. ground arith, λ e. ground arith)

-- On both networks, a branch is in force at a height exactly when the height is within the bounds
-- of the branch's epoch: the epochs cover every height, and no two of them meet.
pub for_height_iff :
    (network : Network) (h : BlockHeight) (b : BranchId)
    → (for_height (activation_height network) h ≡ b)
      ↔ InBounds (height_bounds (activation_height network) b) h
unfolding for_height first_active is_nu_active branch_id height_bounds
for_height_iff main h b = (λ e. ground arith, λ e. ground arith)
for_height_iff test h b = (λ e. ground arith, λ e. ground arith)

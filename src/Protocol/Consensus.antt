-- ===== src/Protocol/Consensus.antt =====
-- components/zcash_protocol/src/consensus.rs: block heights, network upgrades, and the branch that
-- is in force at a height, in a build without the cfg flag nu7.
pub mod Branches
use mathlib.Core.List.{reverse}
use auzum_zcash.Base.{
  ℕ, ◌+◌, ◌-◌, ◌^◌, ◌≤◌, ◌<◌, Bool, true, false, List, [], ◌∷◌, Option, none, some, ltb, leb, ◌==◌,
  if◌then◌else◌,
}

-- `BlockHeight(u32)`
abbrev pub BlockHeight : Type 0
BlockHeight = ℕ

abbrev pub max_height : BlockHeight
max_height = 2 ^ 32 - 1

unfoldable pub add_height : BlockHeight → ℕ → BlockHeight
add_height h delta = if ltb max_height (h + delta) then max_height else h + delta

-- Saturating: the subtraction of numbers stops at 0.
unfoldable pub sub_height : BlockHeight → ℕ → BlockHeight
sub_height h delta = h - delta

unfoldable pub height_from_u64 : ℕ → Option BlockHeight
height_from_u64 value = if ltb value (2 ^ 32) then some value else none

pub data NetworkUpgrade : Type 0 where
  overwinter sapling blossom heartwood canopy nu5 nu6 nu6_1 nu6_2 nu6_3 : NetworkUpgrade

pub data BranchId : Type 0 where
  sprout overwinter sapling blossom heartwood canopy nu5 nu6 nu6_1 nu6_2 nu6_3 : BranchId

-- `Parameters`: what a network gives is the activation heights that are set.
abbrev pub Parameters : Type 0
Parameters = NetworkUpgrade → Option BlockHeight

abbrev active_from : Option BlockHeight → BlockHeight → Bool
active_from none height = false
active_from (some h) height = leb h height

unfoldable pub is_nu_active : Parameters → NetworkUpgrade → BlockHeight → Bool
is_nu_active params nu height = active_from (params nu) height

abbrev pub main_network : Parameters
main_network NetworkUpgrade.overwinter = some 347_500
main_network NetworkUpgrade.sapling = some 419_200
main_network NetworkUpgrade.blossom = some 653_600
main_network NetworkUpgrade.heartwood = some 903_000
main_network NetworkUpgrade.canopy = some 1_046_400
main_network NetworkUpgrade.nu5 = some 1_687_104
main_network NetworkUpgrade.nu6 = some 2_726_400
main_network NetworkUpgrade.nu6_1 = some 3_146_400
main_network NetworkUpgrade.nu6_2 = some 3_364_600
main_network NetworkUpgrade.nu6_3 = some 3_428_143

abbrev pub test_network : Parameters
test_network NetworkUpgrade.overwinter = some 207_500
test_network NetworkUpgrade.sapling = some 280_000
test_network NetworkUpgrade.blossom = some 584_000
test_network NetworkUpgrade.heartwood = some 903_800
test_network NetworkUpgrade.canopy = some 1_028_500
test_network NetworkUpgrade.nu5 = some 1_842_420
test_network NetworkUpgrade.nu6 = some 2_976_000
test_network NetworkUpgrade.nu6_1 = some 3_536_500
test_network NetworkUpgrade.nu6_2 = some 4_052_000
test_network NetworkUpgrade.nu6_3 = some 4_134_000

pub data Network : Type 0 where
  main test : Network

abbrev pub activation_height : Network → Parameters
activation_height main = main_network
activation_height test = test_network

pub data OrchardProtocolRevision : Type 0 where
  insecure_v1 v2 v3 : OrchardProtocolRevision

-- No revision stands for a branch that predates the Orchard protocol.
unfoldable pub orchard_protocol_revision : BranchId → Option OrchardProtocolRevision
orchard_protocol_revision BranchId.nu5 = some OrchardProtocolRevision.insecure_v1
orchard_protocol_revision BranchId.nu6 = some OrchardProtocolRevision.insecure_v1
orchard_protocol_revision BranchId.nu6_1 = some OrchardProtocolRevision.insecure_v1
orchard_protocol_revision BranchId.nu6_2 = some OrchardProtocolRevision.v2
orchard_protocol_revision BranchId.nu6_3 = some OrchardProtocolRevision.v3
orchard_protocol_revision _ = none

unfoldable pub branch_id : NetworkUpgrade → BranchId
branch_id NetworkUpgrade.overwinter = BranchId.overwinter
branch_id NetworkUpgrade.sapling = BranchId.sapling
branch_id NetworkUpgrade.blossom = BranchId.blossom
branch_id NetworkUpgrade.heartwood = BranchId.heartwood
branch_id NetworkUpgrade.canopy = BranchId.canopy
branch_id NetworkUpgrade.nu5 = BranchId.nu5
branch_id NetworkUpgrade.nu6 = BranchId.nu6
branch_id NetworkUpgrade.nu6_1 = BranchId.nu6_1
branch_id NetworkUpgrade.nu6_2 = BranchId.nu6_2
branch_id NetworkUpgrade.nu6_3 = BranchId.nu6_3

-- `None` for the rules before any upgrade.
unfoldable pub network_upgrade : BranchId → Option NetworkUpgrade
network_upgrade BranchId.sprout = none
network_upgrade BranchId.overwinter = some NetworkUpgrade.overwinter
network_upgrade BranchId.sapling = some NetworkUpgrade.sapling
network_upgrade BranchId.blossom = some NetworkUpgrade.blossom
network_upgrade BranchId.heartwood = some NetworkUpgrade.heartwood
network_upgrade BranchId.canopy = some NetworkUpgrade.canopy
network_upgrade BranchId.nu5 = some NetworkUpgrade.nu5
network_upgrade BranchId.nu6 = some NetworkUpgrade.nu6
network_upgrade BranchId.nu6_1 = some NetworkUpgrade.nu6_1
network_upgrade BranchId.nu6_2 = some NetworkUpgrade.nu6_2
network_upgrade BranchId.nu6_3 = some NetworkUpgrade.nu6_3

abbrev pub upgrades_in_order : List NetworkUpgrade
upgrades_in_order =
    NetworkUpgrade.overwinter ∷ NetworkUpgrade.sapling ∷ NetworkUpgrade.blossom
    ∷ NetworkUpgrade.heartwood ∷ NetworkUpgrade.canopy ∷ NetworkUpgrade.nu5 ∷ NetworkUpgrade.nu6
    ∷ NetworkUpgrade.nu6_1 ∷ NetworkUpgrade.nu6_2 ∷ NetworkUpgrade.nu6_3 ∷ []

-- `None` is the error "Unknown consensus branch ID".
unfoldable pub branch_from_u32 : ℕ → Option BranchId
branch_from_u32 value =
    if value == 0
    then some BranchId.sprout
    else if value == 0x5ba8_1b19
    then some BranchId.overwinter
    else if value == 0x76b8_09bb
    then some BranchId.sapling
    else if value == 0x2bb4_0e60
    then some BranchId.blossom
    else if value == 0xf5b9_230b
    then some BranchId.heartwood
    else if value == 0xe9ff_75a6
    then some BranchId.canopy
    else if value == 0xc2d6_d0b4
    then some BranchId.nu5
    else if value == 0xc8e7_1055
    then some BranchId.nu6
    else if value == 0x4dec_4df0
    then some BranchId.nu6_1
    else if value == 0x5437_f330
    then some BranchId.nu6_2
    else if value == 0x37a5_165b
    then some BranchId.nu6_3
    else none

unfoldable pub branch_to_u32 : BranchId → ℕ
branch_to_u32 BranchId.sprout = 0
branch_to_u32 BranchId.overwinter = 0x5ba8_1b19
branch_to_u32 BranchId.sapling = 0x76b8_09bb
branch_to_u32 BranchId.blossom = 0x2bb4_0e60
branch_to_u32 BranchId.heartwood = 0xf5b9_230b
branch_to_u32 BranchId.canopy = 0xe9ff_75a6
branch_to_u32 BranchId.nu5 = 0xc2d6_d0b4
branch_to_u32 BranchId.nu6 = 0xc8e7_1055
branch_to_u32 BranchId.nu6_1 = 0x4dec_4df0
branch_to_u32 BranchId.nu6_2 = 0x5437_f330
branch_to_u32 BranchId.nu6_3 = 0x37a5_165b

-- The first upgrade of a list that is active; before any upgrade, the Sprout rules apply.
unfoldable pub first_active : Parameters → BlockHeight → List NetworkUpgrade → BranchId
first_active params height [] = BranchId.sprout
first_active params height (nu ∷ rest) =
    let later = first_active params height rest in
    if is_nu_active params nu height then branch_id nu else later

unfoldable pub for_height : Parameters → BlockHeight → BranchId
for_height params height = first_active params height (reverse upgrades_in_order)

-- The bounds of an epoch that the first height starts and the second ends.
abbrev bounds_from :
    Option BlockHeight → Option BlockHeight → Option (BlockHeight × Option BlockHeight)
bounds_from none upper = none
bounds_from (some lower) upper = some (lower, upper)

abbrev bounds_before : Option BlockHeight → Option (BlockHeight × Option BlockHeight)
bounds_before none = none
bounds_before (some upper) = some (0, some upper)

unfoldable pub height_bounds : Parameters → BranchId → Option (BlockHeight × Option BlockHeight)
height_bounds params BranchId.sprout = bounds_before (params NetworkUpgrade.overwinter)
height_bounds params BranchId.overwinter =
    bounds_from (params NetworkUpgrade.overwinter) (params NetworkUpgrade.sapling)
height_bounds params BranchId.sapling =
    bounds_from (params NetworkUpgrade.sapling) (params NetworkUpgrade.blossom)
height_bounds params BranchId.blossom =
    bounds_from (params NetworkUpgrade.blossom) (params NetworkUpgrade.heartwood)
height_bounds params BranchId.heartwood =
    bounds_from (params NetworkUpgrade.heartwood) (params NetworkUpgrade.canopy)
height_bounds params BranchId.canopy =
    bounds_from (params NetworkUpgrade.canopy) (params NetworkUpgrade.nu5)
height_bounds params BranchId.nu5 =
    bounds_from (params NetworkUpgrade.nu5) (params NetworkUpgrade.nu6)
height_bounds params BranchId.nu6 =
    bounds_from (params NetworkUpgrade.nu6) (params NetworkUpgrade.nu6_1)
height_bounds params BranchId.nu6_1 =
    bounds_from (params NetworkUpgrade.nu6_1) (params NetworkUpgrade.nu6_2)
height_bounds params BranchId.nu6_2 =
    bounds_from (params NetworkUpgrade.nu6_2) (params NetworkUpgrade.nu6_3)
height_bounds params BranchId.nu6_3 = bounds_from (params NetworkUpgrade.nu6_3) none

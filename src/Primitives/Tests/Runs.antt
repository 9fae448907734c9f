-- ===== src/Primitives/Tests/Runs.antt =====
-- The laws of staking actions, JoinSplits, versions and transactions, at sample data.
use auzum_zcash.Primitives.Sprout.Balance.{net_value_total}
use auzum_zcash.Primitives.Sprout.Codec.{IsPair, IsDescription, Exact-read_js}
use auzum_zcash.Primitives.Sprout.{JsDescription, net_value, read_js, write_js, groth}
use auzum_zcash.Primitives.Transaction.Sections.{
  read_header_fragment, read_transparent, read_branch,
}
use auzum_zcash.Primitives.TxVersion.Pools.{pools_open}
use auzum_zcash.Protocol.Value.Arithmetic.{total, StaysInRange}
use auzum_zcash.Primitives.Transaction.Fee.{HasBalances, fee_paid_iff, sources}
use auzum_zcash.Primitives.Transaction.Paid.{fee_paid, zero_balance}
use auzum_zcash.Base.{
  ℕ, ◌≡◌, ◌↔◌, refl, arith, true, [], ◌∷◌, replicate, Option, none, some, ◌-◌, not, ◌||◌,
}
use auzum_zcash.Base.Int.{pos, negsuc}
use auzum_zcash.Base.Io.{Bytes, ok, done, ◌>>=◌, read_le, read_times}
use auzum_zcash.Base.Io.Decodes.{Decodes}
use auzum_zcash.Base.Io.Exact.{Exact}
use auzum_zcash.Base.Outcome.{success, Outcome}
use auzum_zcash.Bft.Tests.{key, repeated-IsBytes}
use auzum_zcash.Protocol.Consensus.{
  BranchId, main, activation_height, for_height, first_active, is_nu_active, NetworkUpgrade,
  branch_id, branch_from_u32,
}
use auzum_zcash.Protocol.Value.{ZatBalance, BalanceError, IsAmount}
use auzum_zcash.Primitives.Staking.Action.{StakingAction, value_balance_contribution}
use auzum_zcash.Primitives.Staking.Codec.{IsAction}
use auzum_zcash.Primitives.Staking.Balance.{amount-value_balance_contribution}
use auzum_zcash.Primitives.TxVersion.{
  v4, v5, vcrosslink, read_version, valid_in_branch, after_header, has_overwinter,
  overwintered_version, has_sapling, has_orchard, has_ironwood,
}
use auzum_zcash.Primitives.Transaction.Data.{TransactionData, Transaction, TransparentBundle}
use auzum_zcash.Primitives.Transaction.Wire.{
  write, read, read_contents, from_data, read_format, read_v5,
}
use auzum_zcash.Primitives.Transaction.Ids.{IsTransaction, read-from_data}
use auzum_zcash.Primitives.Transaction.Canonicity.{Canonical, read_contents-Canonical}
use auzum_zcash.Primitives.Tests.Crates.{sample, sample_laws}

-- A new bond of five coins.
abbrev bond : StakingAction
bond = StakingAction.create_new_delegation_bond (record {
  unique_pubkey = record { bytes = replicate 32 1 };
  challenge = record { bytes = replicate 32 2 };
  signature = record { bytes = replicate 64 3 };
  target_finalizer = key 4;
  amount = record { amount = 5_0000_0000 };
})

bond-IsAction : IsAction bond
bond-IsAction = record {
  unique_pubkey = repeated-IsBytes 32 1 (omega arith);
  challenge = repeated-IsBytes 32 2 (omega arith);
  signature = repeated-IsBytes 64 3 (omega arith);
  target_finalizer = repeated-IsBytes 32 4 (omega arith);
  amount = omega arith;
}

amount-value_balance_contribution_example :
    (value_balance_contribution bond).amount ≡ negsuc (5_0000_0000 - 1)
amount-value_balance_contribution_example = amount-value_balance_contribution bond bond-IsAction

-- A transaction of version 7 with an Orchard bundle that pays for the bond.
abbrev bonding : TransactionData sample
bonding = record {
  version = vcrosslink;
  consensus_branch_id = BranchId.nu6;
  lock_time = 17;
  expiry_height = 3_000_000;
  transparent_bundle = some (record { vin = 1 ∷ 2 ∷ []; vout = 3 ∷ [] });
  sprout_bundle = none;
  sapling_bundle = none;
  orchard_bundle = some 200;
  ironwood_bundle = none;
  staking_action = some bond;
}

bonding-IsTransaction : IsTransaction sample_laws bonding
unfolding sample_laws
bonding-IsTransaction = record {
  version = refl;
  header = record { lock_time = omega arith; expiry_height = omega arith };
  transparent =
      (((omega arith, (omega arith, tt)), omega arith), ((omega arith, tt), omega arith), refl);
  sprout = refl;
  sapling = refl;
  orchard = omega arith;
  ironwood = refl;
  staking = bond-IsAction;
}

-- Two stand-ins for the digests.
abbrev sample_digest : TransactionData sample → Bytes
sample_digest tx = replicate 32 7

abbrev sample_hash : Bytes → Bytes
sample_hash bs = replicate 32 8

read-from_data_example :
    (frozen : Transaction sample) × (from_data sample_digest sample_hash bonding ≡ ok frozen)
    × (frozen.contents ≡ bonding)
    × Decodes (write bonding) (read sample_digest sample_hash BranchId.nu6) frozen
read-from_data_example =
    read-from_data sample_digest sample_hash sample_laws bonding bonding-IsTransaction

-- An empty version 5 transaction for NU6, and one byte behind it.
abbrev empty_rest : Bytes
empty_rest =
    0x55 ∷ 0x10 ∷ 0xe7 ∷ 0xc8 ∷ 0 ∷ 0 ∷ 0 ∷ 0 ∷ 9 ∷ 0 ∷ 0 ∷ 0 ∷ 0 ∷ 0 ∷ 0 ∷ 0 ∷ 0 ∷ 0 ∷ 0 ∷ 0 ∷ 0
    ∷ 0 ∷ 99 ∷ []

abbrev empty_v5 : Bytes
empty_v5 = 5 ∷ 0 ∷ 0 ∷ 128 ∷ 0x0a ∷ 0x27 ∷ 0xa7 ∷ 0x26 ∷ empty_rest

abbrev empty_transaction : TransactionData sample
empty_transaction = record {
  version = v5;
  consensus_branch_id = BranchId.nu6;
  lock_time = 0;
  expiry_height = 9;
  transparent_bundle = none;
  sprout_bundle = none;
  sapling_bundle = none;
  orchard_bundle = none;
  ironwood_bundle = none;
  staking_action = none;
}

empty_v5_version : read_version empty_v5 ≡ ok (v5, empty_rest)
unfolding read_version after_header overwintered_version ◌>>=◌ read_le
empty_v5_version = refl

empty_v5_contents : read_contents BranchId.nu6 empty_v5 ≡ ok (empty_transaction, 99 ∷ [])
unfolding read_contents read_format read_version after_header overwintered_version read_v5
    read_header_fragment read_transparent ◌>>=◌ read_le read_branch branch_from_u32 read_times
empty_v5_contents = refl

read_contents-Canonical_example : Canonical sample_laws empty_v5 (99 ∷ []) empty_transaction
read_contents-Canonical_example =
    read_contents-Canonical sample_laws BranchId.nu6 empty_v5 (ground arith) v5 empty_rest
      empty_v5_version tt empty_transaction (99 ∷ []) empty_v5_contents

-- A transaction of version 4 that spends two notes.
abbrev spending : TransactionData sample
spending = record {
  version = v4;
  consensus_branch_id = BranchId.canopy;
  lock_time = 0;
  expiry_height = 1_100_000;
  transparent_bundle = none;
  sprout_bundle = none;
  sapling_bundle = some (record {
    spends = 5 ∷ 6 ∷ [];
    outputs = 7 ∷ [];
    value = record { amount = pos 15_000 };
    sig = replicate 64 9;
  });
  orchard_bundle = none;
  ironwood_bundle = none;
  staking_action = none;
}

-- Every transparent input is worth 9 coins.
abbrev known_value : TransparentBundle sample → Outcome BalanceError (Option ZatBalance)
known_value b = success (some (record { amount = pos 9_0000_0000 }))

bonding_balances : HasBalances (record { amount = pos 9_0000_0000 }) bonding
bonding_balances = record {
  transparent = omega arith;
  sapling = omega arith;
  orchard = omega arith;
  ironwood = omega arith;
  staking = bond-IsAction;
}

fee_paid_iff_example :
    (fee_paid (λ e. e) known_value bonding ≡ success (some (record { amount = 4_0000_0200 }))) ↔ (
      (total (pos 0) (sources (record { amount = pos 9_0000_0000 }) zero_balance bonding)
        ≡ pos 4_0000_0200)
      × StaysInRange (pos 0) (sources (record { amount = pos 9_0000_0000 }) zero_balance bonding))
fee_paid_iff_example =
    fee_paid_iff (λ e. e) known_value bonding (record { amount = pos 9_0000_0000 }) zero_balance
      (record { amount = 4_0000_0200 }) refl bonding_balances refl

valid_v5 : valid_in_branch v5 (for_height (activation_height main) 1_700_000) ≡ true
unfolding valid_in_branch for_height first_active is_nu_active branch_id
valid_v5 = refl

pools_open_example :
    ((not (has_overwinter v5)
        || is_nu_active (activation_height main) NetworkUpgrade.overwinter 1_700_000)
      ≡ true)
    × ((not (has_sapling v5)
          || is_nu_active (activation_height main) NetworkUpgrade.sapling 1_700_000)
        ≡ true)
    × ((not (has_orchard v5) || is_nu_active (activation_height main) NetworkUpgrade.nu5 1_700_000)
        ≡ true)
    × ((not (has_ironwood v5)
          || is_nu_active (activation_height main) NetworkUpgrade.nu6_3 1_700_000)
        ≡ true)
pools_open_example = pools_open main 1_700_000 v5 valid_v5

-- A JoinSplit that takes three coins in and gives one out, with a Groth16 proof.
abbrev pair : ℕ → Bytes × Bytes
pair size = (replicate size 1, replicate size 2)

pair-IsPair : (size : ℕ) → IsPair size (pair size)
pair-IsPair size = (repeated-IsBytes size 1 (omega arith), repeated-IsBytes size 2 (omega arith))

abbrev joinsplit : JsDescription
joinsplit = record {
  vpub_old = record { amount = pos 3_0000_0000 };
  vpub_new = record { amount = pos 1_0000_0000 };
  anchor = replicate 32 3;
  nullifiers = pair 32;
  commitments = pair 32;
  ephemeral_key = replicate 32 4;
  random_seed = replicate 32 5;
  macs = pair 32;
  proof = groth (replicate 192 6);
  ciphertexts = pair 601;
}

joinsplit-IsDescription : IsDescription true joinsplit
joinsplit-IsDescription = record {
  vpub_old = (3_0000_0000, refl, omega arith);
  vpub_new = (1_0000_0000, refl, omega arith);
  anchor = repeated-IsBytes 32 3 (omega arith);
  nullifiers = pair-IsPair 32;
  commitments = pair-IsPair 32;
  ephemeral_key = repeated-IsBytes 32 4 (omega arith);
  random_seed = repeated-IsBytes 32 5 (omega arith);
  macs = pair-IsPair 32;
  proof = repeated-IsBytes 192 6 (omega arith);
  ciphertexts = pair-IsPair 601;
}

Exact-read_js_example : Exact (done []) (read_js true) write_js (IsDescription true)
Exact-read_js_example = Exact-read_js true

net_value_total_example :
    (net_value joinsplit ≡ some (record { amount = negsuc (2_0000_0000 - 1) }))
    × IsAmount (negsuc (2_0000_0000 - 1))
net_value_total_example = net_value_total true joinsplit joinsplit-IsDescription

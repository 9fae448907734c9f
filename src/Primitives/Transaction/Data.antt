-- ===== src/Primitives/Transaction/Data.antt =====
-- zcash_primitives/src/transaction/mod.rs: the data of a transaction, in a build with the cfg flag
-- crosslink and without nu7.
use auzum_zcash.Base.{ℕ, List, Option, none}
use auzum_zcash.Base.Io.{Bytes}
use auzum_zcash.Protocol.Consensus.{BranchId, BlockHeight}
use auzum_zcash.Primitives.Sprout
use auzum_zcash.Primitives.Staking.Action.{StakingAction}
use auzum_zcash.Primitives.TxVersion.{TxVersion, sprout, v3, v4, v6, vcrosslink}
use auzum_zcash.Primitives.Transaction.Crates.{Crates}

-- `transparent::Bundle`
pub record TransparentBundle (c : Crates) : Type 0 where
  pub vin : List c.TxIn
  pub vout : List c.TxOut

pub record TransactionData (c : Crates) : Type 0 where
  pub version : TxVersion
  pub consensus_branch_id : BranchId
  pub lock_time : ℕ
  pub expiry_height : BlockHeight
  pub transparent_bundle : Option (TransparentBundle c)
  pub sprout_bundle : Option Sprout.Bundle
  pub sapling_bundle : Option c.Sapling
  pub orchard_bundle : Option c.Orchard
  pub ironwood_bundle : Option c.Orchard
  pub staking_action : Option StakingAction

-- The id is 32 bytes.
pub record Transaction (c : Crates) : Type 0 where
  pub txid : Bytes
  pub contents : TransactionData c  -- `data`

module _ {c : Crates} where
  unfoldable pub from_parts :
      TxVersion
      → BranchId
      → ℕ
      → BlockHeight
      → Option (TransparentBundle c)
      → Option Sprout.Bundle
      → Option c.Sapling
      → Option c.Orchard
      → TransactionData c
  from_parts version consensus_branch_id lock_time expiry_height transparent_bundle sprout_bundle
        sapling_bundle orchard_bundle =
      record {
        version = version;
        consensus_branch_id = consensus_branch_id;
        lock_time = lock_time;
        expiry_height = expiry_height;
        transparent_bundle = transparent_bundle;
        sprout_bundle = sprout_bundle;
        sapling_bundle = sapling_bundle;
        orchard_bundle = orchard_bundle;
        ironwood_bundle = none;
        staking_action = none;
      }

  unfoldable pub from_parts_v6 :
      BranchId
      → ℕ
      → BlockHeight
      → Option (TransparentBundle c)
      → Option c.Sapling
      → Option c.Orchard
      → Option c.Orchard
      → TransactionData c
  from_parts_v6 consensus_branch_id lock_time expiry_height transparent_bundle sapling_bundle
        orchard_bundle ironwood_bundle =
      record {
        version = v6;
        consensus_branch_id = consensus_branch_id;
        lock_time = lock_time;
        expiry_height = expiry_height;
        transparent_bundle = transparent_bundle;
        sprout_bundle = none;
        sapling_bundle = sapling_bundle;
        orchard_bundle = orchard_bundle;
        ironwood_bundle = ironwood_bundle;
        staking_action = none;
      }

  unfoldable pub from_parts_vcrosslink :
      BranchId
      → ℕ
      → BlockHeight
      → Option (TransparentBundle c)
      → Option c.Sapling
      → Option c.Orchard
      → Option StakingAction
      → TransactionData c
  from_parts_vcrosslink consensus_branch_id lock_time expiry_height transparent_bundle
        sapling_bundle orchard_bundle staking_action =
      record {
        version = vcrosslink;
        consensus_branch_id = consensus_branch_id;
        lock_time = lock_time;
        expiry_height = expiry_height;
        transparent_bundle = transparent_bundle;
        sprout_bundle = none;
        sapling_bundle = sapling_bundle;
        orchard_bundle = orchard_bundle;
        ironwood_bundle = none;
        staking_action = staking_action;
      }

  -- Versions from 5 on commit to the branch that they were read with.
  unfoldable pub fix_branch : TxVersion → BranchId → TransactionData c → TransactionData c
  fix_branch (sprout v) branch tx = record tx { consensus_branch_id = branch }
  fix_branch v3 branch tx = record tx { consensus_branch_id = branch }
  fix_branch v4 branch tx = record tx { consensus_branch_id = branch }
  fix_branch _ branch tx = tx

  unfoldable pub fix_consensus_branch_id : TransactionData c → BranchId → TransactionData c
  fix_consensus_branch_id tx branch = fix_branch tx.version branch tx

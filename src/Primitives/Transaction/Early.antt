-- ===== src/Primitives/Transaction/Early.antt =====
-- zcash_primitives/src/transaction/mod.rs: the format of the versions up to 4.
use auzum_zcash.Base.{Bool, true, false, not, ◌&&◌, List, [], Option, none, some, if◌then◌else◌}
use auzum_zcash.Base.Io.{
  Bytes, invalid_input, Reader, pure, ◌>>=◌, ◌>>◌, Written, done, failed, read_exact, write_all,
  read_u32_le, write_u32_le,
}
use auzum_zcash.Protocol.Consensus.{BranchId, BlockHeight}
use auzum_zcash.Protocol.Value.{ZatBalance}
use auzum_zcash.Primitives.Sprout
use auzum_zcash.Primitives.Sprout.{read_js, write_js}
use auzum_zcash.Primitives.TxVersion.{
  TxVersion, write_version, has_sprout, has_overwinter, has_sapling,
}
use auzum_zcash.Primitives.Transaction.Crates.{is_empty, Crates}
use auzum_zcash.Primitives.Transaction.Data.{TransactionData}
use auzum_zcash.Primitives.Transaction.Sections.{read_transparent, write_transparent}

abbrev pub is_some {ℓ} : {A : Type ℓ} → Option A → Bool
is_some none = false
is_some (some a) = true

unfoldable pub read_expiry : TxVersion → Reader BlockHeight
read_expiry v = if has_overwinter v then read_u32_le else pure 0

unfoldable pub write_expiry : TxVersion → BlockHeight → Written
write_expiry v height = if has_overwinter v then write_u32_le height else done []

unfoldable pub read_joinsplit_sigs : List Sprout.JsDescription → Reader (Option Sprout.Bundle)
read_joinsplit_sigs joinsplits = do
  joinsplit_pubkey ← read_exact 32
  joinsplit_sig ← read_exact 64
  pure (
      some (record {
        joinsplits = joinsplits;
        joinsplit_pubkey = joinsplit_pubkey;
        joinsplit_sig = joinsplit_sig;
      }))

module _ (c : Crates) where
  unfoldable pub read_sprout : TxVersion → Reader (Option Sprout.Bundle)
  read_sprout v =
      if has_sprout v
      then (c.read_vector (read_js (has_sapling v)) >>= λ joinsplits.
          if not (is_empty joinsplits) then read_joinsplit_sigs joinsplits else pure none)
      else pure none

  abbrev write_joinsplits : Option Sprout.Bundle → Written
  write_joinsplits none = c.write_empty
  write_joinsplits (some bundle) = do
    c.write_vector write_js bundle.joinsplits
    write_all bundle.joinsplit_pubkey
    write_all bundle.joinsplit_sig

  unfoldable pub write_sprout : TxVersion → Option Sprout.Bundle → Written
  write_sprout v bundle = if has_sprout v then write_joinsplits bundle else done []

  unfoldable pub read_binding_sig : TxVersion → List c.Spend → List c.Output → Reader (Option Bytes)
  read_binding_sig v spends outputs =
      if has_sapling v && not (is_empty spends && is_empty outputs)
      then (read_exact 64 >>= λ sig. pure (some sig))
      else pure none

  abbrev write_sig : Option c.Sapling → Written
  write_sig none = done []
  write_sig (some bundle) = write_all (c.binding_sig bundle)

  unfoldable pub write_binding_sig : TxVersion → Option c.Sapling → Written
  write_binding_sig v bundle = if has_sapling v then write_sig bundle else done []

  -- `binding_sig.and_then`
  unfoldable pub sapling_of :
      ZatBalance × List c.Spend × List c.Output → Option Bytes → Option c.Sapling
  sapling_of (value_balance, spends, outputs) none = none
  sapling_of (value_balance, spends, outputs) (some sig) =
      c.sapling_from_parts spends outputs value_balance sig

module _ {c : Crates} where
  -- What follows the version.
  unfoldable pub read_v4 : TxVersion → BranchId → Reader (TransactionData c)
  read_v4 version consensus_branch_id = do
    transparent_bundle ← read_transparent
    lock_time ← read_u32_le
    expiry_height ← read_expiry version
    components ← c.read_sapling_v4 (has_sapling version)
    sprout_bundle ← read_sprout c version
    sig ← read_binding_sig c version components.1 components.2
    pure (record {
      version = version;
      consensus_branch_id = consensus_branch_id;
      lock_time = lock_time;
      expiry_height = expiry_height;
      transparent_bundle = transparent_bundle;
      sprout_bundle = sprout_bundle;
      sapling_bundle = sapling_of c components sig;
      orchard_bundle = none;
      ironwood_bundle = none;
      staking_action = none;
    })

  unfoldable pub write_v4 : TransactionData c → Written
  write_v4 tx =
      if is_some tx.orchard_bundle
      then failed [] (
          invalid_input
            "Orchard components cannot be present when serializing to the V4 transaction format.")
      else (do
        write_version tx.version
        write_transparent tx.transparent_bundle
        write_u32_le tx.lock_time
        write_expiry tx.version tx.expiry_height
        c.write_sapling_v4 tx.sapling_bundle (has_sapling tx.version)
        write_sprout c tx.version tx.sprout_bundle
        write_binding_sig c tx.version tx.sapling_bundle)

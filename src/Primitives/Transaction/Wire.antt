-- ===== src/Primitives/Transaction/Wire.antt =====
-- zcash_primitives/src/transaction/mod.rs: the formats of the versions from 5 on, and the choice of the
-- format by the version. The digest of a transaction (txid.rs) and the double SHA-256 of its bytes are
-- parameters.
use auzum_zcash.Base.{◌-◌, [], none, if◌then◌else◌, length, take}
use auzum_zcash.Base.Io.{
  Bytes, Result, ok, err, invalid_input, Reader, pure, ◌>>=◌, ◌>>◌, Written, done, failed,
}
use auzum_zcash.Protocol.Consensus.{BranchId}
use auzum_zcash.Primitives.TxVersion.{TxVersion, sprout, v3, v4, v5, v6, vcrosslink, read_version}
use auzum_zcash.Primitives.Staking.Action.{read_action, write_action}
use auzum_zcash.Primitives.Transaction.Crates.{Crates, orchard, ironwood}
use auzum_zcash.Primitives.Transaction.Data.{TransactionData, Transaction}
use auzum_zcash.Primitives.Transaction.Sections.{
  read_header_fragment, read_transparent, write_transparent, write_v5_header, write_v6_header,
  HeaderFragment,
}
use auzum_zcash.Primitives.Transaction.Early.{is_some, read_v4, write_v4}

module _ {c : Crates} where
  unfoldable pub read_v5 : TxVersion → Reader (TransactionData c)
  read_v5 version = do
    header ← read_header_fragment
    transparent_bundle ← read_transparent
    sapling_bundle ← c.read_sapling_v5
    orchard_bundle ← c.read_orchard_v5 header.consensus_branch_id
    pure (record {
      version = version;
      consensus_branch_id = header.consensus_branch_id;
      lock_time = header.lock_time;
      expiry_height = header.expiry_height;
      transparent_bundle = transparent_bundle;
      sprout_bundle = none;
      sapling_bundle = sapling_bundle;
      orchard_bundle = orchard_bundle;
      ironwood_bundle = none;
      staking_action = none;
    })

  unfoldable pub read_vcrosslink : TxVersion → Reader (TransactionData c)
  read_vcrosslink version = do
    header ← read_header_fragment
    transparent_bundle ← read_transparent
    sapling_bundle ← c.read_sapling_v5
    orchard_bundle ← c.read_orchard_v5 header.consensus_branch_id
    staking_action ← read_action
    pure (record {
      version = version;
      consensus_branch_id = header.consensus_branch_id;
      lock_time = header.lock_time;
      expiry_height = header.expiry_height;
      transparent_bundle = transparent_bundle;
      sprout_bundle = none;
      sapling_bundle = sapling_bundle;
      orchard_bundle = orchard_bundle;
      ironwood_bundle = none;
      staking_action = staking_action;
    })

  unfoldable pub read_v6_bundles : TxVersion → HeaderFragment → Reader (TransactionData c)
  read_v6_bundles version header = do
    transparent_bundle ← read_transparent
    sapling_bundle ← c.read_sapling_v5
    orchard_bundle ← c.read_orchard_v6 header.consensus_branch_id orchard
    ironwood_bundle ← c.read_orchard_v6 header.consensus_branch_id ironwood
    pure (record {
      version = version;
      consensus_branch_id = header.consensus_branch_id;
      lock_time = header.lock_time;
      expiry_height = header.expiry_height;
      transparent_bundle = transparent_bundle;
      sprout_bundle = none;
      sapling_bundle = sapling_bundle;
      orchard_bundle = orchard_bundle;
      ironwood_bundle = ironwood_bundle;
      staking_action = none;
    })

  unfoldable pub read_v6 : TxVersion → Reader (TransactionData c)
  read_v6 version = do header ← read_header_fragment; read_v6_bundles version header

  unfoldable pub write_v5 : TransactionData c → Written
  write_v5 tx =
      if is_some tx.sprout_bundle
      then failed [] (
          invalid_input
            "Sprout components cannot be present when serializing to the V5 transaction format.")
      else (do
        write_v5_header tx
        write_transparent tx.transparent_bundle
        c.write_sapling_v5 tx.sapling_bundle
        c.write_orchard_v5 tx.orchard_bundle)

  unfoldable pub write_v6 : TransactionData c → Written
  write_v6 tx =
      if is_some tx.sprout_bundle
      then failed [] (
          invalid_input
            "Sprout components cannot be present when serializing to the V6 transaction format.")
      else (do
        write_v6_header tx
        write_transparent tx.transparent_bundle
        c.write_sapling_v5 tx.sapling_bundle
        c.write_orchard_v6 tx.orchard_bundle
        c.write_orchard_v6 tx.ironwood_bundle)

  unfoldable pub write_vcrosslink : TransactionData c → Written
  write_vcrosslink tx =
      if is_some tx.sprout_bundle
      then failed [] (
          invalid_input
            "Sprout components cannot be present when serializing to the VCrosslink transaction format.")
      else if is_some tx.ironwood_bundle
      then failed [] (
          invalid_input
            "Ironwood components cannot be present when serializing to the VCrosslink transaction format.")
      else (do
        write_v5_header tx
        write_transparent tx.transparent_bundle
        c.write_sapling_v5 tx.sapling_bundle
        c.write_orchard_v5 tx.orchard_bundle
        write_action tx.staking_action)

  -- The format that a version has, after the version.
  unfoldable pub read_format : BranchId → TxVersion → Reader (TransactionData c)
  read_format branch (sprout v) = read_v4 (sprout v) branch
  read_format branch v3 = read_v4 v3 branch
  read_format branch v4 = read_v4 v4 branch
  read_format branch v5 = read_v5 v5
  read_format branch v6 = read_v6 v6
  read_format branch vcrosslink = read_vcrosslink vcrosslink

  unfoldable pub write_format : TxVersion → TransactionData c → Written
  write_format (sprout v) tx = write_v4 tx
  write_format v3 tx = write_v4 tx
  write_format v4 tx = write_v4 tx
  write_format v5 tx = write_v5 tx
  write_format v6 tx = write_v6 tx
  write_format vcrosslink tx = write_vcrosslink tx

  unfoldable pub write : TransactionData c → Written
  write tx = write_format tx.version tx

  unfoldable pub read_contents : BranchId → Reader (TransactionData c)
  read_contents branch = do version ← read_version; read_format branch version

-- `to_txid` of the digest, and the hash that `HashReader` and `HashWriter` take of the bytes.
module _ {c : Crates} (digest : TransactionData c → Bytes) (hash : Bytes → Bytes) where
  -- The id of a transaction that was read from, or written to, the given bytes.
  unfoldable pub txid_of : TxVersion → Bytes → TransactionData c → Bytes
  txid_of (sprout v) bytes tx = hash bytes
  txid_of v3 bytes tx = hash bytes
  txid_of v4 bytes tx = hash bytes
  txid_of _ bytes tx = digest tx

  abbrev identified : Bytes → Result (TransactionData c × Bytes) → Result (Transaction c × Bytes)
  identified input (err e) = err e
  identified input (ok (tx, rest)) =
      let consumed = take (length input - length rest) input in
      ok (record { txid = txid_of tx.version consumed tx; contents = tx }, rest)

  unfoldable pub read : BranchId → Reader (Transaction c)
  read branch input = identified input (read_contents branch input)

  abbrev hashed : TransactionData c → Written → Result (Transaction c)
  hashed tx (failed bs e) = err e
  hashed tx (done bs) = ok (record { txid = hash bs; contents = tx })

  unfoldable pub from_format : TxVersion → TransactionData c → Result (Transaction c)
  from_format (sprout v) tx = hashed tx (write tx)
  from_format v3 tx = hashed tx (write tx)
  from_format v4 tx = hashed tx (write tx)
  from_format _ tx = ok (record { txid = digest tx; contents = tx })

  unfoldable pub from_data : TransactionData c → Result (Transaction c)
  from_data tx = from_format tx.version tx

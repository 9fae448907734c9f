-- ===== src/Primitives/Transaction/Sections.antt =====
-- zcash_primitives/src/transaction/mod.rs: the sections that several transaction formats share.
use auzum_zcash.Base.{ℕ, ◌&&◌, Option, none, some, if◌then◌else◌}
use auzum_zcash.Base.Io.{
  invalid_data, Reader, pure, fail, ◌>>=◌, ◌>>◌, Written, read_exact, read_u32_le, write_u32_le,
}
use auzum_zcash.Protocol.Consensus.{BranchId, BlockHeight, branch_from_u32, branch_to_u32}
use auzum_zcash.Protocol.Value.{ZatBalance, balance_in_range, from_i64_le_bytes}
use auzum_zcash.Primitives.TxVersion.{TxVersion, write_version}
use auzum_zcash.Primitives.Transaction.Crates.{Crates, is_empty}
use auzum_zcash.Primitives.Transaction.Data.{TransparentBundle, TransactionData}

unfoldable pub read_amount : Reader ZatBalance
read_amount = do
  tmp ← read_exact 8
  balance_in_range "valueBalance out of range" (from_i64_le_bytes tmp)

unfoldable pub wire_consensus_branch_id : TxVersion → BranchId → ℕ
wire_consensus_branch_id version branch = branch_to_u32 branch

-- The message is that of a build without the feature std, which leaves the number out.
abbrev pub known_branch : Option BranchId → Reader BranchId
known_branch none = fail (invalid_data "invalid consensus branch id")
known_branch (some branch) = pure branch

unfoldable pub read_branch : Reader BranchId
read_branch = do value ← read_u32_le; known_branch (branch_from_u32 value)

pub record HeaderFragment : Type 0 where
  pub consensus_branch_id : BranchId
  pub lock_time : ℕ
  pub expiry_height : BlockHeight

unfoldable pub read_header_fragment : Reader HeaderFragment
read_header_fragment = do
  consensus_branch_id ← read_branch
  lock_time ← read_u32_le
  expiry_height ← read_u32_le
  pure (record {
    consensus_branch_id = consensus_branch_id;
    lock_time = lock_time;
    expiry_height = expiry_height;
  })

module _ {c : Crates} where
  unfoldable pub read_transparent : Reader (Option (TransparentBundle c))
  read_transparent = do
    vin ← c.read_vector c.read_tx_in
    vout ← c.read_vector c.read_tx_out
    pure (if is_empty vin && is_empty vout then none else some (record { vin = vin; vout = vout }))

  unfoldable pub write_transparent : Option (TransparentBundle c) → Written
  write_transparent (some bundle) = do
    c.write_vector c.write_tx_in bundle.vin
    c.write_vector c.write_tx_out bundle.vout
  write_transparent none = do c.write_empty; c.write_empty

  unfoldable pub write_v5_header : TransactionData c → Written
  write_v5_header tx = do
    write_version tx.version
    write_u32_le (wire_consensus_branch_id tx.version tx.consensus_branch_id)
    write_u32_le tx.lock_time
    write_u32_le tx.expiry_height

  unfoldable pub write_v6_header : TransactionData c → Written
  write_v6_header tx = do
    write_version tx.version
    write_u32_le (branch_to_u32 tx.consensus_branch_id)
    write_u32_le tx.lock_time
    write_u32_le tx.expiry_height

-- ===== src/Primitives/Staking/Fields.antt =====
-- zcash_primitives/src/transaction/components/staking.rs: the fields of staking actions.
use auzum_zcash.Base.Io.{
  Bytes, Reader, pure, ◌>>=◌, Written, read_exact, write_all, read_u64_le, write_u64_le,
}
use auzum_zcash.Protocol.Value.{Zatoshis, zatoshis_from_u64, in_range}

unfoldable pub read_zatoshis : Reader Zatoshis
read_zatoshis = do
  amount ← read_u64_le
  in_range "staking amount out of range" (zatoshis_from_u64 amount)

unfoldable pub write_zatoshis : Zatoshis → Written
write_zatoshis amount = write_u64_le amount.amount

-- The three fixed arrays.
pub record BondId : Type 0 where
  pub bytes : Bytes

pub record StakingAuthChallenge : Type 0 where
  pub bytes : Bytes

pub record StakingAuthSig : Type 0 where
  pub bytes : Bytes

unfoldable pub read_bond_id : Reader BondId
read_bond_id = do bytes ← read_exact 32; pure (record { bytes = bytes })

unfoldable pub write_bond_id : BondId → Written
write_bond_id b = write_all b.bytes

unfoldable pub read_challenge : Reader StakingAuthChallenge
read_challenge = do bytes ← read_exact 32; pure (record { bytes = bytes })

unfoldable pub write_challenge : StakingAuthChallenge → Written
write_challenge c = write_all c.bytes

unfoldable pub read_sig : Reader StakingAuthSig
read_sig = do bytes ← read_exact 64; pure (record { bytes = bytes })

unfoldable pub write_sig : StakingAuthSig → Written
write_sig s = write_all s.bytes

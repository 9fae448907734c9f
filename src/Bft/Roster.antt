-- ===== src/Bft/Roster.antt =====
-- crates/bft_primitives/src/roster.rs: the staking roster.
pub mod Codec
use auzum_zcash.Base.{ℕ, ◌<◌, ◌^◌, List, length, All}
use auzum_zcash.Base.Io.{
  Bytes, IsBytes, Reader, pure, ◌>>=◌, ◌>>◌, Written, read_exact, write_all, read_u64_le,
  write_u64_le, read_times, write_each,
}
use auzum_zcash.Bft.Keys.{PubKeyId, read_pub_key_id, write_pub_key_id}
use auzum_zcash.Protocol.Value.{Zatoshis, IsZatoshis, zatoshis_from_u64, in_range}

-- The transaction id is 32 raw bytes.
pub record StakeTxId : Type 0 where
  pub txid : Bytes
  pub zats : Zatoshis

pub record RosterMember : Type 0 where
  pub pub_key : PubKeyId
  pub voting_power : Zatoshis
  pub txids : List StakeTxId

unfoldable pub read_amount : Reader Zatoshis
read_amount = do zats ← read_u64_le; in_range "amount out of range" (zatoshis_from_u64 zats)

unfoldable pub read_stake : Reader StakeTxId
read_stake = do txid ← read_exact 32; zats ← read_amount; pure (record { txid = txid; zats = zats })

unfoldable pub write_amount : Zatoshis → Written
write_amount z = write_u64_le z.amount

unfoldable pub write_stake : StakeTxId → Written
write_stake s = do write_all s.txid; write_amount s.zats

unfoldable pub read_member : Reader RosterMember
read_member = do
  pub_key ← read_pub_key_id
  voting_power ← read_amount
  count ← read_u64_le
  txids ← read_times count read_stake
  pure (record { pub_key = pub_key; voting_power = voting_power; txids = txids })

unfoldable pub write_member : RosterMember → Written
write_member m = do
  write_pub_key_id m.pub_key
  write_amount m.voting_power
  write_u64_le (length m.txids)
  write_each write_stake m.txids

pub record IsStake (s : StakeTxId) : Type 0 where
  pub txid : IsBytes 32 s.txid
  pub zats : IsZatoshis s.zats

-- A list in memory has fewer than 2 ^ 64 entries.
pub record IsMember (m : RosterMember) : Type 0 where
  pub pub_key : IsBytes 32 m.pub_key.bytes
  pub voting_power : IsZatoshis m.voting_power
  pub few : length m.txids < 2 ^ 64
  pub txids : All IsStake m.txids

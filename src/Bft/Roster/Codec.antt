-- ===== src/Bft/Roster/Codec.antt =====
-- The byte format of roster members.
use auzum_zcash.Base.{refl, arith, [], length, All-imp}
use auzum_zcash.Base.Io.{done}
use auzum_zcash.Base.Io.Decodes.{
  Decodes, Decodes-bytes, Decodes-le, Decodes-bind, Decodes-last, Decodes-times,
}
use auzum_zcash.Base.Io.Exact.{
  Exact, Exact-bind, Exact-return, Exact-bytes, Exact-le, Exact-times, write_laws,
}
use auzum_zcash.Bft.Keys.Codec.{Decodes-read_pub_key_id, Exact-read_pub_key_id}
use auzum_zcash.Protocol.Value.Amounts.{Decodes-in_range, Exact-in_range}
use auzum_zcash.Protocol.Value.{Zatoshis, IsZatoshis}
use auzum_zcash.Bft.Roster.{
  StakeTxId, RosterMember, read_amount, write_amount, read_stake, write_stake, read_member,
  write_member, IsStake, IsMember,
}

Decodes-read_amount : (z : Zatoshis) → IsZatoshis z → Decodes (write_amount z) read_amount z
unfolding read_amount write_amount
Decodes-read_amount = Decodes-in_range "amount out of range"

Exact-read_amount : Exact (done []) read_amount write_amount IsZatoshis
unfolding read_amount write_amount
Exact-read_amount = Exact-in_range "amount out of range"

Decodes-read_stake : (s : StakeTxId) → IsStake s → Decodes (write_stake s) read_stake s
unfolding read_stake write_stake
Decodes-read_stake s h =
    Decodes-bind _ (Decodes-bytes s.txid h.txid.0)
      (Decodes-last _ (Decodes-read_amount s.zats h.zats) refl)

Exact-read_stake : Exact (done []) read_stake write_stake IsStake
unfolding read_stake write_stake
Exact-read_stake = Exact-bind _ (Exact-bytes 32) λ txid ht.
    Exact-bind _ Exact-read_amount
      λ zats hz. Exact-return _ (simp write_laws) (record { txid = ht; zats = hz })

-- A roster member whose fields fit their types is written without an error and read back, whatever
-- follows.
pub Decodes-read_member : (m : RosterMember) → IsMember m → Decodes (write_member m) read_member m
unfolding read_member write_member
Decodes-read_member m h = Decodes-bind _ (Decodes-read_pub_key_id m.pub_key h.pub_key) (
    Decodes-bind _ (Decodes-read_amount m.voting_power h.voting_power) (
      Decodes-bind _ (Decodes-le 8 (length m.txids) (omega (arith, h.few))) (
        Decodes-last _
          (Decodes-times write_stake read_stake m.txids
            (All-imp Decodes-read_stake m.txids h.txids))
          refl)))

-- The bytes that a roster member is read from are those that it is written to, and all its amounts
-- are within the money supply.
pub Exact-read_member : Exact (done []) read_member write_member IsMember
unfolding read_member write_member
Exact-read_member = Exact-bind _ Exact-read_pub_key_id λ k hk.
    Exact-bind _ Exact-read_amount λ power hp. Exact-bind _ (Exact-le 8) λ count hc.
      Exact-bind _ (Exact-times count Exact-read_stake) λ txids (len, ht).
        Exact-return _ (rw len (simp write_laws))
          (record { pub_key = hk; voting_power = hp; few = rw len hc; txids = ht })

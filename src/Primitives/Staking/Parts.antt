-- ===== src/Primitives/Staking/Parts.antt =====
-- Laws of the byte format of the fields of staking actions.
use auzum_zcash.Base.{refl, sym, []}
use auzum_zcash.Base.Io.{IsBytes, write_all, done}
use auzum_zcash.Base.Io.Decodes.{Decodes, Decodes-bytes, Decodes-last}
use auzum_zcash.Base.Io.Exact.{Exact, Exact-bind, Exact-return, Exact-bytes, done-nil->>}
use auzum_zcash.Protocol.Value.{Zatoshis, IsZatoshis}
use auzum_zcash.Protocol.Value.Amounts.{Decodes-in_range, Exact-in_range}
use auzum_zcash.Primitives.Staking.Fields.{
  BondId, StakingAuthChallenge, StakingAuthSig, read_bond_id, write_bond_id, read_challenge,
  write_challenge, read_sig, write_sig, read_zatoshis, write_zatoshis,
}

pub Decodes-read_bond_id :
    (b : BondId) → IsBytes 32 b.bytes → Decodes (write_bond_id b) read_bond_id b
unfolding read_bond_id write_bond_id
Decodes-read_bond_id b h = Decodes-last _ (Decodes-bytes b.bytes h.0) refl

pub Exact-read_bond_id :
    Exact (done []) read_bond_id write_bond_id (λ (b : BondId). IsBytes 32 b.bytes)
unfolding read_bond_id write_bond_id
Exact-read_bond_id =
    Exact-bind _ (Exact-bytes 32)
      λ bs h. Exact-return (record { bytes = bs }) (sym (done-nil->> (write_all bs))) h

pub Decodes-read_challenge :
    (c : StakingAuthChallenge) → IsBytes 32 c.bytes → Decodes (write_challenge c) read_challenge c
unfolding read_challenge write_challenge
Decodes-read_challenge c h = Decodes-last _ (Decodes-bytes c.bytes h.0) refl

pub Exact-read_challenge :
    Exact
      (done [])
      read_challenge
      write_challenge
      (λ (c : StakingAuthChallenge). IsBytes 32 c.bytes)
unfolding read_challenge write_challenge
Exact-read_challenge =
    Exact-bind _ (Exact-bytes 32)
      λ bs h. Exact-return (record { bytes = bs }) (sym (done-nil->> (write_all bs))) h

pub Decodes-read_sig : (s : StakingAuthSig) → IsBytes 64 s.bytes → Decodes (write_sig s) read_sig s
unfolding read_sig write_sig
Decodes-read_sig s h = Decodes-last _ (Decodes-bytes s.bytes h.0) refl

pub Exact-read_sig : Exact (done []) read_sig write_sig (λ (s : StakingAuthSig). IsBytes 64 s.bytes)
unfolding read_sig write_sig
Exact-read_sig =
    Exact-bind _ (Exact-bytes 64)
      λ bs h. Exact-return (record { bytes = bs }) (sym (done-nil->> (write_all bs))) h

pub Decodes-read_zatoshis :
    (z : Zatoshis) → IsZatoshis z → Decodes (write_zatoshis z) read_zatoshis z
unfolding read_zatoshis write_zatoshis
Decodes-read_zatoshis = Decodes-in_range "staking amount out of range"

pub Exact-read_zatoshis : Exact (done []) read_zatoshis write_zatoshis IsZatoshis
unfolding read_zatoshis write_zatoshis
Exact-read_zatoshis = Exact-in_range "staking amount out of range"

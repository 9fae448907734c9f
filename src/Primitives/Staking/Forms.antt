-- ===== src/Primitives/Staking/Forms.antt =====
-- zcash_primitives/src/transaction/components/staking.rs: the data of the seven staking actions, and
-- the byte format of each.
use auzum_zcash.Base.Io.{Reader, pure, ◌>>=◌, ◌>>◌, Written}
use auzum_zcash.Bft.Keys.{PubKeyId, read_pub_key_id, write_pub_key_id}
use auzum_zcash.Protocol.Value.{Zatoshis}
use auzum_zcash.Primitives.Staking.Fields.{
  BondId, StakingAuthChallenge, StakingAuthSig, read_bond_id, write_bond_id, read_challenge,
  write_challenge, read_sig, write_sig, read_zatoshis, write_zatoshis,
}

-- Opens a bond that funds a finalizer.
pub record CreateNewDelegationBond : Type 0 where
  pub unique_pubkey : BondId
  pub challenge : StakingAuthChallenge
  pub signature : StakingAuthSig
  pub target_finalizer : PubKeyId
  pub amount : Zatoshis

pub record BeginDelegationUnbonding : Type 0 where
  pub unique_pubkey : BondId
  pub challenge : StakingAuthChallenge
  pub signature : StakingAuthSig

-- Takes the value of a bond that has finished unbonding.
pub record WithdrawDelegationBond : Type 0 where
  pub unique_pubkey : BondId
  pub challenge : StakingAuthChallenge
  pub signature : StakingAuthSig
  pub amount : Zatoshis

pub record RetargetDelegationBond : Type 0 where
  pub unique_pubkey : BondId
  pub challenge : StakingAuthChallenge
  pub signature : StakingAuthSig
  pub target_finalizer : PubKeyId

pub record RegisterFinalizer : Type 0 where
  pub unique_pubkey : BondId
  pub challenge : StakingAuthChallenge
  pub signature : StakingAuthSig

pub record ConvertFinalizerRewardToDelegationBond : Type 0 where
  pub unique_pubkey : BondId
  pub challenge : StakingAuthChallenge
  pub signature : StakingAuthSig
  pub this_finalizer : PubKeyId
  pub amount : Zatoshis
  pub second_challenge : StakingAuthChallenge
  pub finalizer_signature : StakingAuthSig

pub record UpdateFinalizerKey : Type 0 where
  pub unique_pubkey : BondId
  pub challenge : StakingAuthChallenge
  pub signature : StakingAuthSig
  pub this_finalizer : PubKeyId
  pub second_challenge : StakingAuthChallenge
  pub finalizer_signature : StakingAuthSig

unfoldable pub write_create_new_delegation_bond : CreateNewDelegationBond → Written
write_create_new_delegation_bond a = do
  write_bond_id a.unique_pubkey
  write_challenge a.challenge
  write_sig a.signature
  write_pub_key_id a.target_finalizer
  write_zatoshis a.amount

unfoldable pub read_create_new_delegation_bond : Reader CreateNewDelegationBond
read_create_new_delegation_bond = do
  unique_pubkey ← read_bond_id
  challenge ← read_challenge
  signature ← read_sig
  target_finalizer ← read_pub_key_id
  amount ← read_zatoshis
  pure (record {
    unique_pubkey = unique_pubkey;
    challenge = challenge;
    signature = signature;
    target_finalizer = target_finalizer;
    amount = amount;
  })

unfoldable pub write_begin_delegation_unbonding : BeginDelegationUnbonding → Written
write_begin_delegation_unbonding a = do
  write_bond_id a.unique_pubkey
  write_challenge a.challenge
  write_sig a.signature

unfoldable pub read_begin_delegation_unbonding : Reader BeginDelegationUnbonding
read_begin_delegation_unbonding = do
  unique_pubkey ← read_bond_id
  challenge ← read_challenge
  signature ← read_sig
  pure (record { unique_pubkey = unique_pubkey; challenge = challenge; signature = signature })

unfoldable pub write_withdraw_delegation_bond : WithdrawDelegationBond → Written
write_withdraw_delegation_bond a = do
  write_bond_id a.unique_pubkey
  write_challenge a.challenge
  write_sig a.signature
  write_zatoshis a.amount

unfoldable pub read_withdraw_delegation_bond : Reader WithdrawDelegationBond
read_withdraw_delegation_bond = do
  unique_pubkey ← read_bond_id
  challenge ← read_challenge
  signature ← read_sig
  amount ← read_zatoshis
  pure (record {
    unique_pubkey = unique_pubkey;
    challenge = challenge;
    signature = signature;
    amount = amount;
  })

unfoldable pub write_retarget_delegation_bond : RetargetDelegationBond → Written
write_retarget_delegation_bond a = do
  write_bond_id a.unique_pubkey
  write_challenge a.challenge
  write_sig a.signature
  write_pub_key_id a.target_finalizer

unfoldable pub read_retarget_delegation_bond : Reader RetargetDelegationBond
read_retarget_delegation_bond = do
  unique_pubkey ← read_bond_id
  challenge ← read_challenge
  signature ← read_sig
  target_finalizer ← read_pub_key_id
  pure (record {
    unique_pubkey = unique_pubkey;
    challenge = challenge;
    signature = signature;
    target_finalizer = target_finalizer;
  })

unfoldable pub write_register_finalizer : RegisterFinalizer → Written
write_register_finalizer a = do
  write_bond_id a.unique_pubkey
  write_challenge a.challenge
  write_sig a.signature

unfoldable pub read_register_finalizer : Reader RegisterFinalizer
read_register_finalizer = do
  unique_pubkey ← read_bond_id
  challenge ← read_challenge
  signature ← read_sig
  pure (record { unique_pubkey = unique_pubkey; challenge = challenge; signature = signature })

unfoldable pub write_convert_finalizer_reward : ConvertFinalizerRewardToDelegationBond → Written
write_convert_finalizer_reward a = do
  write_bond_id a.unique_pubkey
  write_challenge a.challenge
  write_sig a.signature
  write_pub_key_id a.this_finalizer
  write_zatoshis a.amount
  write_challenge a.second_challenge
  write_sig a.finalizer_signature

unfoldable pub read_convert_finalizer_reward : Reader ConvertFinalizerRewardToDelegationBond
read_convert_finalizer_reward = do
  unique_pubkey ← read_bond_id
  challenge ← read_challenge
  signature ← read_sig
  this_finalizer ← read_pub_key_id
  amount ← read_zatoshis
  second_challenge ← read_challenge
  finalizer_signature ← read_sig
  pure (record {
    unique_pubkey = unique_pubkey;
    challenge = challenge;
    signature = signature;
    this_finalizer = this_finalizer;
    amount = amount;
    second_challenge = second_challenge;
    finalizer_signature = finalizer_signature;
  })

unfoldable pub write_update_finalizer_key : UpdateFinalizerKey → Written
write_update_finalizer_key a = do
  write_bond_id a.unique_pubkey
  write_challenge a.challenge
  write_sig a.signature
  write_pub_key_id a.this_finalizer
  write_challenge a.second_challenge
  write_sig a.finalizer_signature

unfoldable pub read_update_finalizer_key : Reader UpdateFinalizerKey
read_update_finalizer_key = do
  unique_pubkey ← read_bond_id
  challenge ← read_challenge
  signature ← read_sig
  this_finalizer ← read_pub_key_id
  second_challenge ← read_challenge
  finalizer_signature ← read_sig
  pure (record {
    unique_pubkey = unique_pubkey;
    challenge = challenge;
    signature = signature;
    this_finalizer = this_finalizer;
    second_challenge = second_challenge;
    finalizer_signature = finalizer_signature;
  })

-- ===== src/Primitives/Staking/Shapes.antt =====
-- Laws of the byte format of the seven staking actions.
use auzum_zcash.Base.{refl, []}
use auzum_zcash.Base.Io.{IsBytes, done}
use auzum_zcash.Base.Io.Decodes.{Decodes, Decodes-bind, Decodes-last}
use auzum_zcash.Base.Io.Exact.{Exact, Exact-bind, Exact-return, write_laws}
use auzum_zcash.Bft.Keys.Codec.{Decodes-read_pub_key_id, Exact-read_pub_key_id}
use auzum_zcash.Protocol.Value.{IsZatoshis}
use auzum_zcash.Primitives.Staking.Parts.{
  Decodes-read_bond_id, Decodes-read_challenge, Decodes-read_sig, Decodes-read_zatoshis,
  Exact-read_bond_id, Exact-read_challenge, Exact-read_sig, Exact-read_zatoshis,
}
use auzum_zcash.Primitives.Staking.Forms.{
  CreateNewDelegationBond, BeginDelegationUnbonding, WithdrawDelegationBond, RetargetDelegationBond,
  RegisterFinalizer, ConvertFinalizerRewardToDelegationBond, UpdateFinalizerKey,
  read_create_new_delegation_bond, write_create_new_delegation_bond,
  read_begin_delegation_unbonding, write_begin_delegation_unbonding, read_withdraw_delegation_bond,
  write_withdraw_delegation_bond, read_retarget_delegation_bond, write_retarget_delegation_bond,
  read_register_finalizer, write_register_finalizer, read_convert_finalizer_reward,
  write_convert_finalizer_reward, read_update_finalizer_key, write_update_finalizer_key,
}

-- The fields fit their types.
pub record IsCreateNewDelegationBond (a : CreateNewDelegationBond) : Type 0 where
  pub unique_pubkey : IsBytes 32 a.unique_pubkey.bytes
  pub challenge : IsBytes 32 a.challenge.bytes
  pub signature : IsBytes 64 a.signature.bytes
  pub target_finalizer : IsBytes 32 a.target_finalizer.bytes
  pub amount : IsZatoshis a.amount

-- The fields fit their types.
pub record IsBeginDelegationUnbonding (a : BeginDelegationUnbonding) : Type 0 where
  pub unique_pubkey : IsBytes 32 a.unique_pubkey.bytes
  pub challenge : IsBytes 32 a.challenge.bytes
  pub signature : IsBytes 64 a.signature.bytes

-- The fields fit their types.
pub record IsWithdrawDelegationBond (a : WithdrawDelegationBond) : Type 0 where
  pub unique_pubkey : IsBytes 32 a.unique_pubkey.bytes
  pub challenge : IsBytes 32 a.challenge.bytes
  pub signature : IsBytes 64 a.signature.bytes
  pub amount : IsZatoshis a.amount

-- The fields fit their types.
pub record IsRetargetDelegationBond (a : RetargetDelegationBond) : Type 0 where
  pub unique_pubkey : IsBytes 32 a.unique_pubkey.bytes
  pub challenge : IsBytes 32 a.challenge.bytes
  pub signature : IsBytes 64 a.signature.bytes
  pub target_finalizer : IsBytes 32 a.target_finalizer.bytes

-- The fields fit their types.
pub record IsRegisterFinalizer (a : RegisterFinalizer) : Type 0 where
  pub unique_pubkey : IsBytes 32 a.unique_pubkey.bytes
  pub challenge : IsBytes 32 a.challenge.bytes
  pub signature : IsBytes 64 a.signature.bytes

-- The fields fit their types.
pub record IsConvertFinalizerRewardToDelegationBond (a : ConvertFinalizerRewardToDelegationBond)
    : Type 0 where
  pub unique_pubkey : IsBytes 32 a.unique_pubkey.bytes
  pub challenge : IsBytes 32 a.challenge.bytes
  pub signature : IsBytes 64 a.signature.bytes
  pub this_finalizer : IsBytes 32 a.this_finalizer.bytes
  pub amount : IsZatoshis a.amount
  pub second_challenge : IsBytes 32 a.second_challenge.bytes
  pub finalizer_signature : IsBytes 64 a.finalizer_signature.bytes

-- The fields fit their types.
pub record IsUpdateFinalizerKey (a : UpdateFinalizerKey) : Type 0 where
  pub unique_pubkey : IsBytes 32 a.unique_pubkey.bytes
  pub challenge : IsBytes 32 a.challenge.bytes
  pub signature : IsBytes 64 a.signature.bytes
  pub this_finalizer : IsBytes 32 a.this_finalizer.bytes
  pub second_challenge : IsBytes 32 a.second_challenge.bytes
  pub finalizer_signature : IsBytes 64 a.finalizer_signature.bytes

pub Decodes-read_create_new_delegation_bond :
    (a : CreateNewDelegationBond)
    → IsCreateNewDelegationBond a
    → Decodes (write_create_new_delegation_bond a) read_create_new_delegation_bond a
unfolding read_create_new_delegation_bond write_create_new_delegation_bond
Decodes-read_create_new_delegation_bond a h =
    Decodes-bind _ (Decodes-read_bond_id a.unique_pubkey h.unique_pubkey) (
      Decodes-bind _ (Decodes-read_challenge a.challenge h.challenge) (
        Decodes-bind _ (Decodes-read_sig a.signature h.signature) (
          Decodes-bind _ (Decodes-read_pub_key_id a.target_finalizer h.target_finalizer)
            (Decodes-last _ (Decodes-read_zatoshis a.amount h.amount) refl))))

pub Exact-read_create_new_delegation_bond :
    Exact
      (done [])
      read_create_new_delegation_bond
      write_create_new_delegation_bond
      IsCreateNewDelegationBond
unfolding read_create_new_delegation_bond write_create_new_delegation_bond
Exact-read_create_new_delegation_bond = Exact-bind _ Exact-read_bond_id λ unique_pubkey h0.
    Exact-bind _ Exact-read_challenge λ challenge h1. Exact-bind _ Exact-read_sig λ signature h2.
      Exact-bind _ Exact-read_pub_key_id λ target_finalizer h3.
        Exact-bind _ Exact-read_zatoshis λ amount h4. Exact-return _ (simp write_laws) (record {
          unique_pubkey = h0;
          challenge = h1;
          signature = h2;
          target_finalizer = h3;
          amount = h4;
        })

pub Decodes-read_begin_delegation_unbonding :
    (a : BeginDelegationUnbonding)
    → IsBeginDelegationUnbonding a
    → Decodes (write_begin_delegation_unbonding a) read_begin_delegation_unbonding a
unfolding read_begin_delegation_unbonding write_begin_delegation_unbonding
Decodes-read_begin_delegation_unbonding a h =
    Decodes-bind _ (Decodes-read_bond_id a.unique_pubkey h.unique_pubkey) (
      Decodes-bind _ (Decodes-read_challenge a.challenge h.challenge)
        (Decodes-last _ (Decodes-read_sig a.signature h.signature) refl))

pub Exact-read_begin_delegation_unbonding :
    Exact
      (done [])
      read_begin_delegation_unbonding
      write_begin_delegation_unbonding
      IsBeginDelegationUnbonding
unfolding read_begin_delegation_unbonding write_begin_delegation_unbonding
Exact-read_begin_delegation_unbonding = Exact-bind _ Exact-read_bond_id λ unique_pubkey h0.
    Exact-bind _ Exact-read_challenge λ challenge h1. Exact-bind _ Exact-read_sig λ signature h2.
      Exact-return _ (simp write_laws)
        (record { unique_pubkey = h0; challenge = h1; signature = h2 })

pub Decodes-read_withdraw_delegation_bond :
    (a : WithdrawDelegationBond)
    → IsWithdrawDelegationBond a
    → Decodes (write_withdraw_delegation_bond a) read_withdraw_delegation_bond a
unfolding read_withdraw_delegation_bond write_withdraw_delegation_bond
Decodes-read_withdraw_delegation_bond a h =
    Decodes-bind _ (Decodes-read_bond_id a.unique_pubkey h.unique_pubkey) (
      Decodes-bind _ (Decodes-read_challenge a.challenge h.challenge) (
        Decodes-bind _ (Decodes-read_sig a.signature h.signature)
          (Decodes-last _ (Decodes-read_zatoshis a.amount h.amount) refl)))

pub Exact-read_withdraw_delegation_bond :
    Exact
      (done [])
      read_withdraw_delegation_bond
      write_withdraw_delegation_bond
      IsWithdrawDelegationBond
unfolding read_withdraw_delegation_bond write_withdraw_delegation_bond
Exact-read_withdraw_delegation_bond = Exact-bind _ Exact-read_bond_id λ unique_pubkey h0.
    Exact-bind _ Exact-read_challenge λ challenge h1. Exact-bind _ Exact-read_sig λ signature h2.
      Exact-bind _ Exact-read_zatoshis λ amount h3.
        Exact-return _ (simp write_laws)
          (record { unique_pubkey = h0; challenge = h1; signature = h2; amount = h3 })

pub Decodes-read_retarget_delegation_bond :
    (a : RetargetDelegationBond)
    → IsRetargetDelegationBond a
    → Decodes (write_retarget_delegation_bond a) read_retarget_delegation_bond a
unfolding read_retarget_delegation_bond write_retarget_delegation_bond
Decodes-read_retarget_delegation_bond a h =
    Decodes-bind _ (Decodes-read_bond_id a.unique_pubkey h.unique_pubkey) (
      Decodes-bind _ (Decodes-read_challenge a.challenge h.challenge) (
        Decodes-bind _ (Decodes-read_sig a.signature h.signature)
          (Decodes-last _ (Decodes-read_pub_key_id a.target_finalizer h.target_finalizer) refl)))

pub Exact-read_retarget_delegation_bond :
    Exact
      (done [])
      read_retarget_delegation_bond
      write_retarget_delegation_bond
      IsRetargetDelegationBond
unfolding read_retarget_delegation_bond write_retarget_delegation_bond
Exact-read_retarget_delegation_bond = Exact-bind _ Exact-read_bond_id λ unique_pubkey h0.
    Exact-bind _ Exact-read_challenge λ challenge h1. Exact-bind _ Exact-read_sig λ signature h2.
      Exact-bind _ Exact-read_pub_key_id λ target_finalizer h3.
        Exact-return _ (simp write_laws)
          (record { unique_pubkey = h0; challenge = h1; signature = h2; target_finalizer = h3 })

pub Decodes-read_register_finalizer :
    (a : RegisterFinalizer)
    → IsRegisterFinalizer a
    → Decodes (write_register_finalizer a) read_register_finalizer a
unfolding read_register_finalizer write_register_finalizer
Decodes-read_register_finalizer a h =
    Decodes-bind _ (Decodes-read_bond_id a.unique_pubkey h.unique_pubkey) (
      Decodes-bind _ (Decodes-read_challenge a.challenge h.challenge)
        (Decodes-last _ (Decodes-read_sig a.signature h.signature) refl))

pub Exact-read_register_finalizer :
    Exact (done []) read_register_finalizer write_register_finalizer IsRegisterFinalizer
unfolding read_register_finalizer write_register_finalizer
Exact-read_register_finalizer = Exact-bind _ Exact-read_bond_id λ unique_pubkey h0.
    Exact-bind _ Exact-read_challenge λ challenge h1. Exact-bind _ Exact-read_sig λ signature h2.
      Exact-return _ (simp write_laws)
        (record { unique_pubkey = h0; challenge = h1; signature = h2 })

pub Decodes-read_convert_finalizer_reward :
    (a : ConvertFinalizerRewardToDelegationBond)
    → IsConvertFinalizerRewardToDelegationBond a
    → Decodes (write_convert_finalizer_reward a) read_convert_finalizer_reward a
unfolding read_convert_finalizer_reward write_convert_finalizer_reward
Decodes-read_convert_finalizer_reward a h =
    Decodes-bind _ (Decodes-read_bond_id a.unique_pubkey h.unique_pubkey) (
      Decodes-bind _ (Decodes-read_challenge a.challenge h.challenge) (
        Decodes-bind _ (Decodes-read_sig a.signature h.signature) (
          Decodes-bind _ (Decodes-read_pub_key_id a.this_finalizer h.this_finalizer) (
            Decodes-bind _ (Decodes-read_zatoshis a.amount h.amount) (
              Decodes-bind _ (Decodes-read_challenge a.second_challenge h.second_challenge) (
                Decodes-last _ (Decodes-read_sig a.finalizer_signature h.finalizer_signature)
                  refl))))))

pub Exact-read_convert_finalizer_reward :
    Exact
      (done [])
      read_convert_finalizer_reward
      write_convert_finalizer_reward
      IsConvertFinalizerRewardToDelegationBond
unfolding read_convert_finalizer_reward write_convert_finalizer_reward
Exact-read_convert_finalizer_reward = Exact-bind _ Exact-read_bond_id λ unique_pubkey h0.
    Exact-bind _ Exact-read_challenge λ challenge h1. Exact-bind _ Exact-read_sig λ signature h2.
      Exact-bind _ Exact-read_pub_key_id λ this_finalizer h3.
        Exact-bind _ Exact-read_zatoshis λ amount h4.
          Exact-bind _ Exact-read_challenge λ second_challenge h5.
            Exact-bind _ Exact-read_sig λ finalizer_signature h6.
              Exact-return _ (simp write_laws) (record {
                unique_pubkey = h0;
                challenge = h1;
                signature = h2;
                this_finalizer = h3;
                amount = h4;
                second_challenge = h5;
                finalizer_signature = h6;
              })

pub Decodes-read_update_finalizer_key :
    (a : UpdateFinalizerKey)
    → IsUpdateFinalizerKey a
    → Decodes (write_update_finalizer_key a) read_update_finalizer_key a
unfolding read_update_finalizer_key write_update_finalizer_key
Decodes-read_update_finalizer_key a h =
    Decodes-bind _ (Decodes-read_bond_id a.unique_pubkey h.unique_pubkey) (
      Decodes-bind _ (Decodes-read_challenge a.challenge h.challenge) (
        Decodes-bind _ (Decodes-read_sig a.signature h.signature) (
          Decodes-bind _ (Decodes-read_pub_key_id a.this_finalizer h.this_finalizer) (
            Decodes-bind _ (Decodes-read_challenge a.second_challenge h.second_challenge) (
              Decodes-last _ (Decodes-read_sig a.finalizer_signature h.finalizer_signature)
                refl)))))

pub Exact-read_update_finalizer_key :
    Exact (done []) read_update_finalizer_key write_update_finalizer_key IsUpdateFinalizerKey
unfolding read_update_finalizer_key write_update_finalizer_key
Exact-read_update_finalizer_key = Exact-bind _ Exact-read_bond_id λ unique_pubkey h0.
    Exact-bind _ Exact-read_challenge λ challenge h1. Exact-bind _ Exact-read_sig λ signature h2.
      Exact-bind _ Exact-read_pub_key_id λ this_finalizer h3.
        Exact-bind _ Exact-read_challenge λ second_challenge h4.
          Exact-bind _ Exact-read_sig λ finalizer_signature h5.
            Exact-return _ (simp write_laws) (record {
              unique_pubkey = h0;
              challenge = h1;
              signature = h2;
              this_finalizer = h3;
              second_challenge = h4;
              finalizer_signature = h5;
            })

-- ===== src/Primitives/Staking/Action.antt =====
-- zcash_primitives/src/transaction/components/staking.rs: the staking actions, which version 7
-- (VCrosslink) transactions carry, with their tags, and what they move in or out of a transaction.
use auzum_zcash.Base.{ℕ, Option, none, some, ◌==◌, if◌then◌else◌}
use auzum_zcash.Base.Int.{pos}
use auzum_zcash.Base.Io.{invalid_input, Reader, pure, fail, ◌>>=◌, ◌>>◌, Written, read_u8, write_u8}
use auzum_zcash.Protocol.Value.{ZatBalance, balance_of, neg_balance}
use auzum_zcash.Primitives.Staking.Forms.{
  CreateNewDelegationBond, BeginDelegationUnbonding, WithdrawDelegationBond, RetargetDelegationBond,
  RegisterFinalizer, ConvertFinalizerRewardToDelegationBond, UpdateFinalizerKey,
  read_create_new_delegation_bond, write_create_new_delegation_bond,
  read_begin_delegation_unbonding, write_begin_delegation_unbonding, read_withdraw_delegation_bond,
  write_withdraw_delegation_bond, read_retarget_delegation_bond, write_retarget_delegation_bond,
  read_register_finalizer, write_register_finalizer, read_convert_finalizer_reward,
  write_convert_finalizer_reward, read_update_finalizer_key, write_update_finalizer_key,
}

abbrev pub tag_absent : ℕ
tag_absent = 0

abbrev pub tag_create_new_delegation_bond : ℕ
tag_create_new_delegation_bond = 1

abbrev pub tag_begin_delegation_unbonding : ℕ
tag_begin_delegation_unbonding = 2

abbrev pub tag_withdraw_delegation_bond : ℕ
tag_withdraw_delegation_bond = 3

abbrev pub tag_retarget_delegation_bond : ℕ
tag_retarget_delegation_bond = 4

abbrev pub tag_register_finalizer : ℕ
tag_register_finalizer = 5

abbrev pub tag_convert_finalizer_reward : ℕ
tag_convert_finalizer_reward = 6

abbrev pub tag_update_finalizer_key : ℕ
tag_update_finalizer_key = 7

pub data StakingActionKind : Type 0 where
  create_new_delegation_bond : StakingActionKind
  begin_delegation_unbonding : StakingActionKind
  withdraw_delegation_bond : StakingActionKind
  retarget_delegation_bond : StakingActionKind
  register_finalizer : StakingActionKind
  convert_finalizer_reward : StakingActionKind
  update_finalizer_key : StakingActionKind

pub data StakingAction : Type 0 where
  create_new_delegation_bond : CreateNewDelegationBond → StakingAction
  begin_delegation_unbonding : BeginDelegationUnbonding → StakingAction
  withdraw_delegation_bond : WithdrawDelegationBond → StakingAction
  retarget_delegation_bond : RetargetDelegationBond → StakingAction
  register_finalizer : RegisterFinalizer → StakingAction
  convert_finalizer_reward : ConvertFinalizerRewardToDelegationBond → StakingAction
  update_finalizer_key : UpdateFinalizerKey → StakingAction

unfoldable pub kind : StakingAction → StakingActionKind
kind (StakingAction.create_new_delegation_bond a) = StakingActionKind.create_new_delegation_bond
kind (StakingAction.begin_delegation_unbonding a) = StakingActionKind.begin_delegation_unbonding
kind (StakingAction.withdraw_delegation_bond a) = StakingActionKind.withdraw_delegation_bond
kind (StakingAction.retarget_delegation_bond a) = StakingActionKind.retarget_delegation_bond
kind (StakingAction.register_finalizer a) = StakingActionKind.register_finalizer
kind (StakingAction.convert_finalizer_reward a) = StakingActionKind.convert_finalizer_reward
kind (StakingAction.update_finalizer_key a) = StakingActionKind.update_finalizer_key

-- The value that the action moves into the transaction, with its sign.
unfoldable pub value_balance_contribution : StakingAction → ZatBalance
value_balance_contribution (StakingAction.create_new_delegation_bond a) =
    neg_balance (balance_of a.amount)
value_balance_contribution (StakingAction.withdraw_delegation_bond a) = balance_of a.amount
value_balance_contribution _ = record { amount = pos 0 }

unfoldable pub write_body : StakingAction → Written
write_body (StakingAction.create_new_delegation_bond a) = do
  write_u8 tag_create_new_delegation_bond
  write_create_new_delegation_bond a
write_body (StakingAction.begin_delegation_unbonding a) = do
  write_u8 tag_begin_delegation_unbonding
  write_begin_delegation_unbonding a
write_body (StakingAction.withdraw_delegation_bond a) = do
  write_u8 tag_withdraw_delegation_bond
  write_withdraw_delegation_bond a
write_body (StakingAction.retarget_delegation_bond a) = do
  write_u8 tag_retarget_delegation_bond
  write_retarget_delegation_bond a
write_body (StakingAction.register_finalizer a) = do
  write_u8 tag_register_finalizer
  write_register_finalizer a
write_body (StakingAction.convert_finalizer_reward a) = do
  write_u8 tag_convert_finalizer_reward
  write_convert_finalizer_reward a
write_body (StakingAction.update_finalizer_key a) = do
  write_u8 tag_update_finalizer_key
  write_update_finalizer_key a

unfoldable pub write_action : Option StakingAction → Written
write_action none = write_u8 tag_absent
write_action (some action) = write_body action

abbrev pub present {ℓ} :
    {A : Type ℓ} → (A → StakingAction) → Reader A → Reader (Option StakingAction)
present con r = r >>= λ a. pure (some (con a))

unfoldable pub read_tagged : ℕ → Reader (Option StakingAction)
read_tagged tag =
    if tag == tag_absent
    then pure none
    else if tag == tag_create_new_delegation_bond
    then present StakingAction.create_new_delegation_bond read_create_new_delegation_bond
    else if tag == tag_begin_delegation_unbonding
    then present StakingAction.begin_delegation_unbonding read_begin_delegation_unbonding
    else if tag == tag_withdraw_delegation_bond
    then present StakingAction.withdraw_delegation_bond read_withdraw_delegation_bond
    else if tag == tag_retarget_delegation_bond
    then present StakingAction.retarget_delegation_bond read_retarget_delegation_bond
    else if tag == tag_register_finalizer
    then present StakingAction.register_finalizer read_register_finalizer
    else if tag == tag_convert_finalizer_reward
    then present StakingAction.convert_finalizer_reward read_convert_finalizer_reward
    else if tag == tag_update_finalizer_key
    then present StakingAction.update_finalizer_key read_update_finalizer_key
    else fail (invalid_input "unknown staking action kind")

unfoldable pub read_action : Reader (Option StakingAction)
read_action = do tag ← read_u8; read_tagged tag

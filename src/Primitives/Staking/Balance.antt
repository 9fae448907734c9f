-- ===== src/Primitives/Staking/Balance.antt =====
-- What staking actions move in or out of a transaction.
use auzum_zcash.Base.{◌≡◌, refl, arith}
use auzum_zcash.Base.Int.{ℤ, pos, negate, wrap_i64}
use auzum_zcash.Protocol.Value.{IsBalance, Zatoshis, IsZatoshis, balance_of, neg_balance}
use auzum_zcash.Primitives.Staking.Action.{StakingAction, value_balance_contribution}
use auzum_zcash.Primitives.Staking.Codec.{IsAction}

-- The value that an action brings to its transaction: a new bond takes its amount out, a withdrawal
-- brings it in, and nothing else moves value.
abbrev pub flow : StakingAction → ℤ
flow (StakingAction.create_new_delegation_bond a) = negate (pos a.amount.amount)
flow (StakingAction.withdraw_delegation_bond a) = pos a.amount.amount
flow _ = pos 0

amount-balance_of : (z : Zatoshis) → IsZatoshis z → (balance_of z).amount ≡ pos z.amount
unfolding balance_of
amount-balance_of z h = ground arith

amount-neg_balance :
    (z : Zatoshis) → IsZatoshis z → (neg_balance (balance_of z)).amount ≡ negate (pos z.amount)
unfolding neg_balance wrap_i64 balance_of
amount-neg_balance z h = ground arith

-- An action whose fields fit their types moves exactly its flow, with no wrap-around.
pub amount-value_balance_contribution :
    (action : StakingAction)
    → IsAction action
    → (value_balance_contribution action).amount ≡ flow action
unfolding value_balance_contribution
amount-value_balance_contribution (StakingAction.create_new_delegation_bond a) h =
    amount-neg_balance a.amount h.amount
amount-value_balance_contribution (StakingAction.withdraw_delegation_bond a) h =
    amount-balance_of a.amount h.amount
amount-value_balance_contribution (StakingAction.begin_delegation_unbonding a) h = refl
amount-value_balance_contribution (StakingAction.retarget_delegation_bond a) h = refl
amount-value_balance_contribution (StakingAction.register_finalizer a) h = refl
amount-value_balance_contribution (StakingAction.convert_finalizer_reward a) h = refl
amount-value_balance_contribution (StakingAction.update_finalizer_key a) h = refl

flow-IsBalance :
    (action : StakingAction) → IsAction action → IsBalance (record { amount = flow action })
flow-IsBalance (StakingAction.create_new_delegation_bond a) h =
    let few : IsZatoshis a.amount = h.amount in ground arith
flow-IsBalance (StakingAction.withdraw_delegation_bond a) h = h.amount
flow-IsBalance (StakingAction.begin_delegation_unbonding a) h = omega arith
flow-IsBalance (StakingAction.retarget_delegation_bond a) h = omega arith
flow-IsBalance (StakingAction.register_finalizer a) h = omega arith
flow-IsBalance (StakingAction.convert_finalizer_reward a) h = omega arith
flow-IsBalance (StakingAction.update_finalizer_key a) h = omega arith

-- What an action moves is a balance within the money supply.
pub value_balance_contribution-IsBalance :
    (action : StakingAction) → IsAction action → IsBalance (value_balance_contribution action)
value_balance_contribution-IsBalance action h =
    rw (amount-value_balance_contribution action h) (flow-IsBalance action h)

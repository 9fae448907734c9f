-- ===== src/Primitives/Transaction/Paid.antt =====
-- zcash_primitives/src/transaction/mod.rs: the fee that a transaction pays. The balance of a transparent
-- bundle, which takes the values of the outputs that it spends, is the crate zcash_transparent's, and a
-- parameter; E is the error type of that lookup.
use auzum_zcash.Base.{List, [], ◌∷◌, Option, none, some}
use auzum_zcash.Base.Int.{pos}
use auzum_zcash.Base.Outcome.{Outcome, success, failure, ◌>>=◌}
use auzum_zcash.Protocol.Value.{
  BalanceError, overflow, underflow, ZatBalance, Zatoshis, sum_balance, zatoshis_of,
}
use auzum_zcash.Primitives.Sprout
use auzum_zcash.Primitives.Staking.Action.{value_balance_contribution}
use auzum_zcash.Primitives.Transaction.Crates.{Crates}
use auzum_zcash.Primitives.Transaction.Data.{TransparentBundle, TransactionData}

abbrev pub zero_balance : ZatBalance
zero_balance = record { amount = pos 0 }

-- `map_or_else(ZatBalance::zero, f)`
abbrev pub balance_or_zero {ℓ} : {A : Type ℓ} → (A → ZatBalance) → Option A → ZatBalance
balance_or_zero f none = zero_balance
balance_or_zero f (some a) = f a

-- `ok_or`
abbrev pub or_else {ℓ} : {A : Type ℓ} → BalanceError → Option A → Outcome BalanceError A
or_else e none = failure e
or_else e (some a) = success a

abbrev pub sprout_balance : Option Sprout.Bundle → Outcome BalanceError ZatBalance
sprout_balance none = success zero_balance
sprout_balance (some b) = or_else overflow (Sprout.value_balance b)

-- `map_err(|_| BalanceError::Underflow)`
abbrev pub fee_amount : Outcome BalanceError Zatoshis → Outcome BalanceError Zatoshis
fee_amount (success fee) = success fee
fee_amount (failure e) = failure underflow

module _ {c : Crates} where
  -- All but the Sprout balance, which may fail first.
  unfoldable pub value_balances : ZatBalance → ZatBalance → TransactionData c → List ZatBalance
  value_balances transparent sprout tx =
      transparent
      ∷ sprout
      ∷ balance_or_zero c.sapling_value tx.sapling_bundle
      ∷ balance_or_zero c.orchard_value tx.orchard_bundle
      ∷ balance_or_zero c.orchard_value tx.ironwood_bundle
      ∷ balance_or_zero value_balance_contribution tx.staking_action
      ∷ []

  -- The fee, once the transparent balance is known.
  unfoldable pub fee_of_balance : ZatBalance → TransactionData c → Outcome BalanceError Zatoshis
  fee_of_balance transparent tx = do
    sprout ← sprout_balance tx.sprout_bundle
    overall ← or_else overflow (sum_balance (value_balances transparent sprout tx))
    fee_amount (zatoshis_of overall)

module _ {c : Crates} {E : Type 0} (from_error : BalanceError → E)
    (transparent_value : TransparentBundle c → Outcome E (Option ZatBalance)) where
  abbrev pub transparent_balance : Option (TransparentBundle c) → Outcome E (Option ZatBalance)
  transparent_balance none = success (some zero_balance)
  transparent_balance (some b) = transparent_value b

  -- `transpose` and `map_err(E::from)`
  abbrev pub some_fee : Outcome BalanceError Zatoshis → Outcome E (Option Zatoshis)
  some_fee (success fee) = success (some fee)
  some_fee (failure e) = failure (from_error e)

  abbrev pub paid_for : TransactionData c → Option ZatBalance → Outcome E (Option Zatoshis)
  paid_for tx none = success none
  paid_for tx (some transparent) = some_fee (fee_of_balance transparent tx)

  unfoldable pub fee_paid : TransactionData c → Outcome E (Option Zatoshis)
  fee_paid tx = transparent_balance tx.transparent_bundle >>= paid_for tx

-- ===== src/Primitives/Transaction/Fee.antt =====
-- Laws of the fee that a transaction pays.
use auzum_zcash.Base.{
  ◌≡◌, ◌↔◌, refl, ap, ◌∙◌, subst, arith, List, [], ◌∷◌, All, Option, none, some, Option-cases, inl,
  inr,
}
use auzum_zcash.Base.Int.{ℤ, pos, negsuc, ◌+ℤ◌, wrap_i64}
use auzum_zcash.Base.Outcome.{Outcome, success, failure, ◌>>=◌}
use auzum_zcash.Protocol.Value.{
  BalanceError, overflow, ZatBalance, Zatoshis, IsBalance, IsAmount, sum_balance, zatoshis_of,
  zatoshis_from_i64, zatoshis_from_u64, add_balance,
}
use auzum_zcash.Protocol.Value.Arithmetic.{
  balance, total, StaysInRange, sum_balance_iff, from_i64_iff,
}
use auzum_zcash.Primitives.Sprout
use auzum_zcash.Primitives.Staking.Action.{StakingAction, value_balance_contribution}
use auzum_zcash.Primitives.Staking.Codec.{IsCarried}
use auzum_zcash.Primitives.Staking.Balance.{
  value_balance_contribution-IsBalance, flow, amount-value_balance_contribution,
}
use auzum_zcash.Primitives.Transaction.Crates.{Crates}
use auzum_zcash.Primitives.Transaction.Data.{TransparentBundle, TransactionData}
use auzum_zcash.Primitives.Transaction.Paid.{
  zero_balance, balance_or_zero, sprout_balance, value_balances, fee_of_balance, fee_paid,
  fee_amount, or_else, some_fee, transparent_balance,
}

fee_of_amount :
    (z : ℤ) (fee : Zatoshis)
    → IsAmount z
    → (zatoshis_from_i64 z ≡ success fee) ↔ (z ≡ pos fee.amount)
unfolding zatoshis_from_i64 zatoshis_from_u64
fee_of_amount (pos n) fee h = (λ e. ground arith, λ e. ground arith)
fee_of_amount (negsuc n) fee h = (λ e. cc, λ e. cc)

fee_amount_iff :
    (o : Outcome BalanceError Zatoshis) (fee : Zatoshis)
    → (fee_amount o ≡ success fee) ↔ (o ≡ success fee)
fee_amount_iff (success a) fee = (λ e. e, λ e. e)
fee_amount_iff (failure x) fee = (λ e. cc, λ e. cc)

-- The balances of a transaction that its parts may have.
pub record HasBalances {c : Crates} (brought : ZatBalance) (tx : TransactionData c) : Type 0 where
  pub transparent : IsBalance brought
  pub sapling : IsBalance (balance_or_zero c.sapling_value tx.sapling_bundle)
  pub orchard : IsBalance (balance_or_zero c.orchard_value tx.orchard_bundle)
  pub ironwood : IsBalance (balance_or_zero c.orchard_value tx.ironwood_bundle)
  pub staking : IsCarried tx.staking_action

contribution-IsBalance :
    (o : Option StakingAction)
    → IsCarried o
    → IsBalance (balance_or_zero value_balance_contribution o)
contribution-IsBalance none h = omega arith
contribution-IsBalance (some action) h = value_balance_contribution-IsBalance action h

add_balance-IsBalance : (a b r : ZatBalance) → add_balance a b ≡ some r → IsBalance r
unfolding add_balance
add_balance-IsBalance a b r e =
    let (same, small) = (from_i64_iff (wrap_i64 (a.amount +ℤ b.amount)) r).0 e in
    subst IsBalance same small

fold_net-IsBalance :
    (total : ZatBalance) (js : List Sprout.JsDescription) (r : ZatBalance)
    → IsBalance total
    → Sprout.fold_net total js ≡ some r
    → IsBalance r
unfolding Sprout.fold_net
fold_net-IsBalance total [] r h e = let same : total ≡ r = cc in subst IsBalance same h
fold_net-IsBalance total (j ∷ js) r h e = elim (Option-cases (Sprout.net_value j)) [
  | inl p ↦ cc (rw p at e)
  | inr (net, p) ↦ elim (Option-cases (add_balance total net)) [
    | inl q ↦ cc (rw (p, q) at e)
    | inr (next, q) ↦
        fold_net-IsBalance next js r (add_balance-IsBalance total net next q) (rw (p, q) at e)
  ]
]

-- The balance of the JoinSplits, if there is one, is within the money supply.
pub sprout_balance-IsBalance :
    (o : Option Sprout.Bundle) (s : ZatBalance) → sprout_balance o ≡ success s → IsBalance s
unfolding Sprout.value_balance
sprout_balance-IsBalance none s e =
    let same : zero_balance ≡ s = cc in subst IsBalance same (omega arith)
sprout_balance-IsBalance (some b) s e =
    elim (Option-cases (Sprout.fold_net zero_balance b.joinsplits)) [
      | inl p ↦ cc (rw p at e)
      | inr (r, p) ↦
          let same : r ≡ s = cc (rw p at e) in
          subst IsBalance same (fold_net-IsBalance zero_balance b.joinsplits r (omega arith) p)
    ]

-- The fee of an overall balance that may have overflowed.
abbrev fee_of_sum : Option ZatBalance → Outcome BalanceError Zatoshis
fee_of_sum o = or_else overflow o >>= λ overall. fee_amount (zatoshis_of overall)

fee_of_some :
    (b : ZatBalance) (fee : Zatoshis)
    → IsBalance b
    → (fee_of_sum (some b) ≡ success fee) ↔ (b.amount ≡ pos fee.amount)
unfolding zatoshis_of
fee_of_some b fee h =
    let (there, back) = fee_amount_iff (zatoshis_of b) fee in
    let (amount, success_of) = fee_of_amount b.amount fee h in
    (λ e. amount (there e), λ e. back (success_of e))

StaysInRange-total :
    (z : ℤ) (vs : List ZatBalance) → IsAmount z → StaysInRange z vs → IsAmount (total z vs)
StaysInRange-total z [] h r = h
StaysInRange-total z (v ∷ vs) h r = StaysInRange-total (z +ℤ v.amount) vs r.0 r.1

fee_of_sum_iff :
    (vs : List ZatBalance) (fee : Zatoshis)
    → All IsBalance vs
    → (fee_of_sum (sum_balance vs) ≡ success fee)
      ↔ ((total (pos 0) vs ≡ pos fee.amount) × StaysInRange (pos 0) vs)
fee_of_sum_iff vs fee h = (
  λ e. elim (Option-cases (sum_balance vs)) [
    | inl p ↦ cc (rw p at e)
    | inr (b, p) ↦
        let (same, r) = (sum_balance_iff vs b h).0 p in
        let amount : total (pos 0) vs ≡ b.amount = ap (λ (t : ZatBalance). t.amount) same in
        let small : IsBalance b =
          subst IsAmount amount (StaysInRange-total (pos 0) vs (omega arith) r) in
        (amount ∙ (fee_of_some b fee small).0 (rw p at e), r)
  ],
  λ (e, r).
      let sum : sum_balance vs ≡ some (balance (total (pos 0) vs)) =
        (sum_balance_iff vs _ h).1 (refl, r) in
      rw sum (
        (fee_of_some (balance (total (pos 0) vs)) fee
            (StaysInRange-total (pos 0) vs (omega arith) r)).1
          e),
)

staking_flow :
    (o : Option StakingAction)
    → IsCarried o
    → balance_or_zero value_balance_contribution o
      ≡ balance_or_zero (λ action. balance (flow action)) o
staking_flow none h = refl
staking_flow (some action) h = ap balance (amount-value_balance_contribution action h)

-- What the parts of a transaction bring in: the transparent and Sprout balances, those of the three
-- shielded bundles, and the flow of the staking action.
module _ {c : Crates} where
  abbrev pub sources : ZatBalance → ZatBalance → TransactionData c → List ZatBalance
  sources brought sprout tx =
      brought
      ∷ sprout
      ∷ balance_or_zero c.sapling_value tx.sapling_bundle
      ∷ balance_or_zero c.orchard_value tx.orchard_bundle
      ∷ balance_or_zero c.orchard_value tx.ironwood_bundle
      ∷ balance_or_zero (λ action. balance (flow action)) tx.staking_action
      ∷ []

  value_balances-sources :
      (brought sprout : ZatBalance) (tx : TransactionData c)
      → IsCarried tx.staking_action
      → value_balances brought sprout tx ≡ sources brought sprout tx
  unfolding value_balances
  value_balances-sources brought sprout tx h = rw (staking_flow tx.staking_action h) refl

module _ {c : Crates} (transparent sprout : ZatBalance) (tx : TransactionData c)
    (fee : Zatoshis) where
  balances :
      HasBalances transparent tx
      → sprout_balance tx.sprout_bundle ≡ success sprout
      → All IsBalance (value_balances transparent sprout tx)
  unfolding value_balances
  balances h e = (
    h.transparent,
    (
      sprout_balance-IsBalance tx.sprout_bundle sprout e,
      (
        h.sapling,
        (h.orchard, (h.ironwood, (contribution-IsBalance tx.staking_action h.staking, tt))),
      ),
    ),
  )

  -- Where every balance is within the money supply, the fee is the exact sum of what the
  -- bundles and the staking action bring in, if every partial sum is within the money supply and the sum is
  -- not negative; and there is no fee otherwise.
  pub fee_of_balance_iff :
      HasBalances transparent tx
      → sprout_balance tx.sprout_bundle ≡ success sprout
      → (fee_of_balance transparent tx ≡ success fee) ↔ (
          (total (pos 0) (sources transparent sprout tx) ≡ pos fee.amount)
          × StaysInRange (pos 0) (sources transparent sprout tx))
  unfolding fee_of_balance
  fee_of_balance_iff h e = rw e (
      subst
        (λ vs.
          (fee_of_sum (sum_balance (value_balances transparent sprout tx)) ≡ success fee)
          ↔ ((total (pos 0) vs ≡ pos fee.amount) × StaysInRange (pos 0) vs))
        (value_balances-sources transparent sprout tx h.staking)
        (fee_of_sum_iff (value_balances transparent sprout tx) fee (balances h e)))

module _ {c : Crates} {E : Type 0} (from_error : BalanceError → E)
    (transparent_value : TransparentBundle c → Outcome E (Option ZatBalance)) where
  some_fee_iff :
      (o : Outcome BalanceError Zatoshis) (fee : Zatoshis)
      → (some_fee from_error transparent_value o ≡ success (some fee)) ↔ (o ≡ success fee)
  some_fee_iff (success a) fee = (λ e. cc, λ e. cc)
  some_fee_iff (failure x) fee = (λ e. cc, λ e. cc)

  -- Where the transparent balance is known and every balance is within the money supply, the
  -- fee that is paid is the exact sum of what the bundles and the staking action bring in, if every
  -- partial sum is within the money supply and the sum is not negative; and there is no fee otherwise.
  pub fee_paid_iff :
      (tx : TransactionData c) (brought sprout : ZatBalance) (fee : Zatoshis)
      → transparent_balance from_error transparent_value tx.transparent_bundle
        ≡ success (some brought)
      → HasBalances brought tx
      → sprout_balance tx.sprout_bundle ≡ success sprout
      → (fee_paid from_error transparent_value tx ≡ success (some fee)) ↔ (
          (total (pos 0) (sources brought sprout tx) ≡ pos fee.amount)
          × StaysInRange (pos 0) (sources brought sprout tx))
  unfolding fee_paid
  fee_paid_iff tx brought sprout fee known h e =
      let (there, back) = some_fee_iff (fee_of_balance brought tx) fee in
      let (sums, pays) = fee_of_balance_iff brought sprout tx fee h e in
      rw known (λ p. sums (there p), λ q. back (pays q))

  -- Where no balance of a spent output is known, no fee is.
  pub fee_paid-unknown :
      (tx : TransactionData c)
      → transparent_balance from_error transparent_value tx.transparent_bundle ≡ success none
      → fee_paid from_error transparent_value tx ≡ success none
  unfolding fee_paid
  fee_paid-unknown tx known = rw known refl

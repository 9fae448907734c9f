-- ===== src/Primitives/Fees/Required.antt =====
-- The fee that the rule requires.
use Prim.Native.Nat.{max}
use native.Mathlib.Nat.{mul-le-mul_left}
use auzum_zcash.Base.{
  ℕ, ◌+◌, ◌*◌, ◌^◌, ◌≤◌, ◌<◌, ◌≡◌, ◌↔◌, refl, sym, ap, ◌∙◌, arith, List, [], ◌∷◌, Option, none,
  some,
}
use auzum_zcash.Base.Outcome.{success, failure}
use auzum_zcash.Protocol.Value.{max_money, Zatoshis, mul_zatoshis}
use auzum_zcash.Protocol.Value.Arithmetic.{mul_zatoshis_iff}
use auzum_zcash.Primitives.Fees.{
  FeeRule, IsRule, Shape, InputSize, unknown_p2sh_inputs, standard, minimum_fee, ceildiv, sum_usize,
  logical_actions, or_overflow, fee_of, fee_required,
}
use auzum_zcash.Primitives.Fees.Loop.{
  total, known_sizes, unknown_outpoints, sum_usize-total, scan_inputs_lem, ceildiv_mono,
}

-- The logical actions of ZIP 317, as numbers without a bound, from the total size of the inputs.
abbrev pub actions : FeeRule → ℕ → Shape → ℕ
actions rule inputs s =
    max (ceildiv inputs rule.input_size) (ceildiv (total s.output_sizes) rule.output_size)
    + max s.sapling_inputs s.sapling_outputs
    + s.orchard_actions
    + s.ironwood_actions

-- All sizes and counts fit a usize.
pub record Fits (rule : FeeRule) (inputs : ℕ) (s : Shape) : Type 0 where
  pub inputs_fit : inputs < 2 ^ 64
  pub outputs_fit : total s.output_sizes < 2 ^ 64
  pub actions_fit : actions rule inputs s < 2 ^ 64

-- One transaction has no more of anything than another.
pub record IsPart (s s' : Shape) : Type 0 where
  pub outputs : total s.output_sizes ≤ total s'.output_sizes
  pub inputs : s.sapling_inputs ≤ s'.sapling_inputs
  pub made : s.sapling_outputs ≤ s'.sapling_outputs
  pub orchard : s.orchard_actions ≤ s'.orchard_actions
  pub ironwood : s.ironwood_actions ≤ s'.ironwood_actions

logical_actions-eq :
    (rule : FeeRule) (inputs : ℕ) (s : Shape)
    → Fits rule inputs s
    → logical_actions rule inputs s ≡ actions rule inputs s
unfolding logical_actions
logical_actions-eq rule inputs s h =
    rw (sum_usize-total s.output_sizes h.outputs_fit) (omega (arith, h.actions_fit))

actions_mono :
    (rule : FeeRule) (ins ins' : ℕ) (s s' : Shape)
    → IsRule rule
    → ins ≤ ins'
    → IsPart s s'
    → actions rule ins s ≤ actions rule ins' s'
actions_mono rule ins ins' s s' r e p = omega (
  arith,
  p.outputs,
  p.inputs,
  p.made,
  p.orchard,
  p.ironwood,
  ceildiv_mono ins ins' rule.input_size r.input_size e,
  ceildiv_mono (total s.output_sizes) (total s'.output_sizes) rule.output_size r.output_size
      p.outputs,
)

module _ {OutPoint : Type 0} where
  abbrev pub input_total : List (InputSize OutPoint) → ℕ
  input_total ins = total (known_sizes ins)

  -- An input of unknown size refuses the transaction, and the error lists all such inputs in order.
  pub fee_required-unknown :
      (rule : FeeRule) (ins : List (InputSize OutPoint)) (s : Shape) {o : OutPoint}
      {os : List OutPoint}
      → unknown_outpoints ins ≡ o ∷ os
      → fee_required rule ins s ≡ failure (unknown_p2sh_inputs (o ∷ os))
  unfolding fee_required fee_of
  fee_required-unknown rule ins s e = rw (scan_inputs_lem ins, e) refl

  module _ (rule : FeeRule) (ins : List (InputSize OutPoint)) (s : Shape) where
    fee_of-known :
        unknown_outpoints ins ≡ []
        → fee_required rule ins s
          ≡ or_overflow (
              mul_zatoshis rule.marginal_fee
                (max rule.grace_actions (logical_actions rule (sum_usize 0 (known_sizes ins)) s)))
    unfolding fee_required fee_of
    fee_of-known e = rw (scan_inputs_lem ins, e) refl

    known_of_success :
        (found : List OutPoint) (n : ℕ) {fee : Zatoshis}
        → fee_of rule (n, found) s ≡ success fee
        → found ≡ []
    unfolding fee_of
    known_of_success [] n e = refl
    known_of_success (o ∷ os) n e = cc

    pub fee_required-known :
        {fee : Zatoshis} → fee_required rule ins s ≡ success fee → unknown_outpoints ins ≡ []
    unfolding fee_required
    fee_required-known e =
        known_of_success (unknown_outpoints ins) _ (rw (scan_inputs_lem ins) at e)

  or_overflow_iff :
      (o : Option Zatoshis) (fee : Zatoshis)
      → (or_overflow {OutPoint = OutPoint} o ≡ success fee) ↔ (o ≡ some fee)
  or_overflow_iff none fee = (λ e. cc, λ e. cc)
  or_overflow_iff (some a) fee = (λ e. cc, λ e. cc)

  count_actions :
      (rule : FeeRule) (ins : List (InputSize OutPoint)) (s : Shape)
      → Fits rule (input_total ins) s
      → logical_actions rule (sum_usize 0 (known_sizes ins)) s ≡ actions rule (input_total ins) s
  count_actions rule ins s h =
      rw (sum_usize-total (known_sizes ins) h.inputs_fit)
        (logical_actions-eq rule (input_total ins) s h)

  priced :
      (rule : FeeRule) (ins : List (InputSize OutPoint)) (s : Shape) {fee : Zatoshis}
      → fee_required rule ins s ≡ success fee
      → mul_zatoshis rule.marginal_fee
          (max rule.grace_actions (logical_actions rule (sum_usize 0 (known_sizes ins)) s))
        ≡ some fee
  priced rule ins s {fee} e =
      (or_overflow_iff _ fee).0
        (sym (fee_of-known rule ins s (fee_required-known rule ins s e)) ∙ e)

  -- With sizes and counts that fit a usize, a fee is required exactly when every input has a known size and
  -- the marginal fee, for each logical action but at least for the grace actions, is within the money supply; and it is that product.
  pub fee_required_iff :
      (rule : FeeRule) (ins : List (InputSize OutPoint)) (s : Shape) (fee : Zatoshis)
      → Fits rule (input_total ins) s
      → (fee_required rule ins s ≡ success fee) ↔ (
          (unknown_outpoints ins ≡ [])
          × (record {
            amount =
                rule.marginal_fee.amount
                * max rule.grace_actions (actions rule (input_total ins) s);
          }
              ≡ fee)
          × (rule.marginal_fee.amount * max rule.grace_actions (actions rule (input_total ins) s)
              ≤ max_money))
  fee_required_iff rule ins s fee h = (
    λ e.
        let (product, within) =
          (mul_zatoshis_iff rule.marginal_fee fee _).0 (priced rule ins s e) in
        (
          fee_required-known rule ins s e,
          rw (count_actions rule ins s h) at product,
          rw (count_actions rule ins s h) at within,
        ),
    λ (all_known, product, within).
        fee_of-known rule ins s all_known
        ∙ (or_overflow_iff _ fee).1 (
            rw (count_actions rule ins s h)
              ((mul_zatoshis_iff rule.marginal_fee fee _).1 (product, within))),
  )

  -- Whatever fee is required is at least the marginal fee for the grace actions, and within the money supply.
  pub fee_required_bounds :
      (rule : FeeRule) (ins : List (InputSize OutPoint)) (s : Shape) {fee : Zatoshis}
      → fee_required rule ins s ≡ success fee
      → (rule.marginal_fee.amount * rule.grace_actions ≤ fee.amount) × (fee.amount ≤ max_money)
  fee_required_bounds rule ins s {fee} e =
      let n = max rule.grace_actions (logical_actions rule (sum_usize 0 (known_sizes ins)) s) in
      let (product, within) = (mul_zatoshis_iff rule.marginal_fee fee n).0 (priced rule ins s e) in
      let most : rule.grace_actions ≤ n = omega arith in
      let amounts : rule.marginal_fee.amount * n ≡ fee.amount =
        ap (λ (z : Zatoshis). z.amount) product in
      (omega (arith, mul-le-mul_left rule.marginal_fee.amount most), omega arith)

  -- The standard rule requires at least the minimum fee.
  pub minimum_fee-le :
      (ins : List (InputSize OutPoint)) (s : Shape) {fee : Zatoshis}
      → fee_required standard ins s ≡ success fee
      → minimum_fee.amount ≤ fee.amount
  unfolding standard
  minimum_fee-le ins s e = (fee_required_bounds standard ins s e).0

  -- Where two transactions are both required a fee, under a rule whose sizes are not zero, and the
  -- sizes and counts of the second fit a usize, the second pays no less if it has no less of anything.
  pub fee_required_mono :
      (rule : FeeRule) (ins ins' : List (InputSize OutPoint)) (s s' : Shape) {fee fee' : Zatoshis}
      → IsRule rule
      → Fits rule (input_total ins') s'
      → input_total ins ≤ input_total ins'
      → IsPart s s'
      → fee_required rule ins s ≡ success fee
      → fee_required rule ins' s' ≡ success fee'
      → fee.amount ≤ fee'.amount
  fee_required_mono rule ins ins' s s' {fee} {fee'} r h' e p q q' =
      let grown = actions_mono rule (input_total ins) (input_total ins') s s' r e p in
      let h : Fits rule (input_total ins) s = record {
        inputs_fit = omega (arith, h'.inputs_fit);
        outputs_fit = omega (arith, h'.outputs_fit, p.outputs);
        actions_fit = omega (arith, h'.actions_fit);
      } in
      let (_, cost, _) = (fee_required_iff rule ins s fee h).0 q in
      let (_, cost', _) = (fee_required_iff rule ins' s' fee' h').0 q' in
      let more : max rule.grace_actions (actions rule (input_total ins) s)
          ≤ max rule.grace_actions (actions rule (input_total ins') s') =
        omega arith in
      let amounts : rule.marginal_fee.amount
            * max rule.grace_actions (actions rule (input_total ins) s)
          ≡ fee.amount =
        ap (λ (z : Zatoshis). z.amount) cost in
      let amounts' : rule.marginal_fee.amount
            * max rule.grace_actions (actions rule (input_total ins') s')
          ≡ fee'.amount =
        ap (λ (z : Zatoshis). z.amount) cost' in
      omega (arith, mul-le-mul_left rule.marginal_fee.amount more)

-- ===== src/Primitives/Tests/Fees.antt =====
-- The laws of fees, at sample data.
use Prim.Native.Nat.{max}
use auzum_zcash.Protocol.Value.Arithmetic.{zats}
use auzum_zcash.Primitives.Fees.Loop.{unknown_outpoints}
use auzum_zcash.Primitives.Fees.Required.{
  fee_required_mono, IsPart, Fits, fee_required_bounds, input_total, actions, fee_required-unknown,
  fee_required_iff,
}
use auzum_zcash.Primitives.Fees.{
  InputSize, Shape, fee_required, standard, known, ceildiv, fee_of, IsRule, scan_inputs, unknown,
  logical_actions, unknown_p2sh_inputs, sum_usize,
}
use auzum_zcash.Base.{ℕ, ◌*◌, ◌≤◌, ◌≡◌, ◌↔◌, refl, arith, List, [], ◌∷◌}
use auzum_zcash.Base.Outcome.{success, failure}
use auzum_zcash.Protocol.Value.{max_money, mul_zatoshis, zatoshis_from_u64}

-- Three inputs of the standard size, an output, and two Orchard actions.
abbrev shape : Shape
shape = record {
  output_sizes = 34 ∷ [];
  sapling_inputs = 0;
  sapling_outputs = 0;
  orchard_actions = 2;
  ironwood_actions = 0;
}

abbrev larger_shape : Shape
larger_shape = record {
  output_sizes = 34 ∷ 40 ∷ [];
  sapling_inputs = 1;
  sapling_outputs = 0;
  orchard_actions = 2;
  ironwood_actions = 4;
}

abbrev inputs : List (InputSize ℕ)
inputs = known 150 ∷ known 150 ∷ known 149 ∷ []

inputs_fit : Fits standard (input_total inputs) shape
unfolding standard ceildiv
inputs_fit = record {
  inputs_fit = omega arith;
  outputs_fit = omega arith;
  actions_fit = omega arith;
}

larger_fit : Fits standard (input_total inputs) larger_shape
unfolding standard ceildiv
larger_fit = record {
  inputs_fit = omega arith;
  outputs_fit = omega arith;
  actions_fit = omega arith;
}

fee_required_iff_example :
    (fee_required standard inputs shape ≡ success (record { amount = 25_000 })) ↔ (
      (unknown_outpoints inputs ≡ [])
      × (zats (
            standard.marginal_fee.amount
            * max standard.grace_actions (actions standard (input_total inputs) shape))
          ≡ zats 25_000)
      × (standard.marginal_fee.amount
            * max standard.grace_actions (actions standard (input_total inputs) shape)
          ≤ max_money))
fee_required_iff_example =
    fee_required_iff standard inputs shape (record { amount = 25_000 }) inputs_fit

fee_run : fee_required standard inputs shape ≡ success (record { amount = 25_000 })
unfolding fee_required fee_of scan_inputs logical_actions sum_usize ceildiv standard mul_zatoshis
    zatoshis_from_u64
fee_run = refl

larger_fee_run : fee_required standard inputs larger_shape ≡ success (record { amount = 50_000 })
unfolding fee_required fee_of scan_inputs logical_actions sum_usize ceildiv standard mul_zatoshis
    zatoshis_from_u64
larger_fee_run = refl

fee_required_bounds_example :
    (standard.marginal_fee.amount * standard.grace_actions ≤ 25_000) × (25_000 ≤ max_money)
fee_required_bounds_example = fee_required_bounds standard inputs shape fee_run

standard-IsRule : IsRule standard
unfolding standard
standard-IsRule = record { input_size = omega arith; output_size = omega arith }

shapes : IsPart shape larger_shape
shapes = record {
  outputs = omega arith;
  inputs = omega arith;
  made = omega arith;
  orchard = omega arith;
  ironwood = omega arith;
}

fee_required_mono_example : 25_000 ≤ 50_000
fee_required_mono_example =
    fee_required_mono standard inputs inputs shape larger_shape standard-IsRule larger_fit
      (omega arith) shapes fee_run larger_fee_run

abbrev strange : List (InputSize ℕ)
strange = known 150 ∷ unknown 11 ∷ unknown 12 ∷ []

fee_required-unknown_example :
    fee_required standard strange shape ≡ failure (unknown_p2sh_inputs (11 ∷ 12 ∷ []))
fee_required-unknown_example = fee_required-unknown standard strange shape refl

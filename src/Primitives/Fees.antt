-- ===== src/Primitives/Fees.antt =====
-- zcash_primitives/src/transaction/fees/zip317.rs: the fee that a transaction has to pay, and the input
-- sizes of fees/transparent.rs. A usize has 64 bits and its sums wrap, as in a build without overflow
-- checks. An outpoint is a type of the crate zcash_transparent, and a parameter here.
pub mod Loop
pub mod Required
use Prim.Native.Nat.{max}
use auzum_zcash.Base.{
  ℕ, ◌+◌, ◌*◌, ◌/◌, ◌%◌, ◌^◌, ◌<◌, Bool, true, false, ◌||◌, List, [], ◌∷◌, ◌++◌, Option, none, some,
  ◌==◌, if◌then◌else◌,
}
use auzum_zcash.Base.Outcome.{Outcome, success, failure}
use auzum_zcash.Protocol.Value.{BalanceError, overflow, Zatoshis, mul_zatoshis}

abbrev pub standard_marginal_fee : Zatoshis
standard_marginal_fee = record { amount = 5_000 }

abbrev pub standard_grace_actions : ℕ
standard_grace_actions = 2

abbrev pub p2pkh_standard_input_size : ℕ
p2pkh_standard_input_size = 150

abbrev pub p2pkh_standard_output_size : ℕ
p2pkh_standard_output_size = 34

abbrev pub minimum_fee : Zatoshis
minimum_fee = record { amount = 10_000 }

pub record FeeRule : Type 0 where
  pub marginal_fee : Zatoshis
  pub grace_actions : ℕ
  pub input_size : ℕ
  pub output_size : ℕ

unfoldable pub standard : FeeRule
standard = record {
  marginal_fee = standard_marginal_fee;
  grace_actions = standard_grace_actions;
  input_size = p2pkh_standard_input_size;
  output_size = p2pkh_standard_output_size;
}

unfoldable pub non_standard : Zatoshis → ℕ → ℕ → ℕ → Option FeeRule
non_standard marginal_fee grace_actions input_size output_size =
    if input_size == 0 || output_size == 0
    then none
    else some (record {
      marginal_fee = marginal_fee;
      grace_actions = grace_actions;
      input_size = input_size;
      output_size = output_size;
    })

-- `div_ceil`, which the rule calls with sizes that are not zero.
unfoldable pub ceildiv : ℕ → ℕ → ℕ
ceildiv num den = if num % den == 0 then num / den else num / den + 1

abbrev add_usize : ℕ → ℕ → ℕ
add_usize a b = (a + b) % 2 ^ 64

unfoldable pub sum_usize : ℕ → List ℕ → ℕ
sum_usize acc [] = acc
sum_usize acc (size ∷ sizes) = sum_usize (add_usize acc size) sizes

-- What the transaction has besides its transparent inputs.
pub record Shape : Type 0 where
  pub output_sizes : List ℕ
  pub sapling_inputs : ℕ
  pub sapling_outputs : ℕ
  pub orchard_actions : ℕ
  pub ironwood_actions : ℕ

unfoldable pub logical_actions : FeeRule → ℕ → Shape → ℕ
logical_actions rule t_in_total_size s =
    add_usize
      (add_usize
        (add_usize
          (max (ceildiv t_in_total_size rule.input_size)
            (ceildiv (sum_usize 0 s.output_sizes) rule.output_size))
          (max s.sapling_inputs s.sapling_outputs))
        s.orchard_actions)
      s.ironwood_actions

module _ (OutPoint : Type 0) where
  pub data InputSize : Type 0 where
    known : ℕ → InputSize
    unknown : OutPoint → InputSize

  pub data FeeError : Type 0 where
    balance : BalanceError → FeeError
    unknown_p2sh_inputs : List OutPoint → FeeError

module _ {OutPoint : Type 0} where
  -- The loop over the inputs: their total size, and the outpoints of unknown size.
  unfoldable pub scan_inputs : ℕ → List OutPoint → List (InputSize OutPoint) → ℕ × List OutPoint
  scan_inputs total found [] = (total, found)
  scan_inputs total found (known size ∷ sizes) = scan_inputs (add_usize total size) found sizes
  scan_inputs total found (unknown outpoint ∷ sizes) =
      scan_inputs total (found ++ outpoint ∷ []) sizes

  abbrev or_overflow : Option Zatoshis → Outcome (FeeError OutPoint) Zatoshis
  or_overflow none = failure (balance overflow)
  or_overflow (some fee) = success fee

  unfoldable pub fee_of : FeeRule → ℕ × List OutPoint → Shape → Outcome (FeeError OutPoint) Zatoshis
  fee_of rule (total, []) s =
      or_overflow
        (mul_zatoshis rule.marginal_fee (max rule.grace_actions (logical_actions rule total s)))
  fee_of rule (total, outpoint ∷ outpoints) s = failure (unknown_p2sh_inputs (outpoint ∷ outpoints))

  unfoldable pub fee_required :
      FeeRule → List (InputSize OutPoint) → Shape → Outcome (FeeError OutPoint) Zatoshis
  fee_required rule input_sizes s = fee_of rule (scan_inputs 0 [] input_sizes) s

-- The sizes are not zero: the field invariant that both constructors of a rule give.
pub record IsRule (rule : FeeRule) : Type 0 where
  pub input_size : 0 < rule.input_size
  pub output_size : 0 < rule.output_size

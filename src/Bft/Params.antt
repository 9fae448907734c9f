-- ===== src/Bft/Params.antt =====
-- crates/bft_primitives/src/params.rs: the protocol parameters. Arithmetic on u64 wraps, as it does
-- in a build without overflow checks.
pub mod Bounds
use auzum_zcash.Base.{ℕ, ◌*◌, ◌%◌, ◌^◌, Bool, true, false, ltb, ◌==◌, if◌then◌else◌}
use auzum_zcash.Base.Outcome.{Outcome, success, failure}

pub data InvalidParameters : Type 0 where
  zero_confirmation_depth : InvalidParameters
  gap_below_twice_sigma : (sigma gap : ℕ) → InvalidParameters

pub record ZcashCrosslinkParameters : Type 0 where
  pub pow_confirmation_depth_sigma : ℕ
  pub finalization_gap_bound : ℕ

unfoldable pub new_parameters : ℕ → ℕ → Outcome InvalidParameters ZcashCrosslinkParameters
new_parameters sigma gap =
    if sigma == 0
    then failure zero_confirmation_depth
    else if ltb gap (2 * sigma % 2 ^ 64)
    then failure (gap_below_twice_sigma sigma gap)
    else success (record { pow_confirmation_depth_sigma = sigma; finalization_gap_bound = gap })

abbrev pub prototype_parameters : ZcashCrosslinkParameters
prototype_parameters = record { pow_confirmation_depth_sigma = 3; finalization_gap_bound = 7 }

pub record EquihashParameters : Type 0 where
  pub n : ℕ
  pub k : ℕ

abbrev pub zcash_equihash : EquihashParameters
zcash_equihash = record { n = 200; k = 9 }

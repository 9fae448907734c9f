-- ===== src/Bft/Params/Bounds.antt =====
-- Which parameters are accepted.
use auzum_zcash.Base.{ℕ, ◌+◌, ◌*◌, ◌^◌, ◌<◌, ◌≤◌, ◌≡◌, ◌↔◌, arith}
use auzum_zcash.Base.Outcome.{success}
use auzum_zcash.Bft.Params.{ZcashCrosslinkParameters, new_parameters}

abbrev pub parameters : ℕ → ℕ → ZcashCrosslinkParameters
parameters sigma gap = record { pow_confirmation_depth_sigma = sigma; finalization_gap_bound = gap }

-- Below 2 ^ 63, a depth and a gap are accepted, as they are given, exactly when the depth is at
-- least one and the gap at least twice the depth.
pub new_parameters-success_iff :
    (sigma gap : ℕ)
    → sigma < 2 ^ 63
    → (new_parameters sigma gap ≡ success (parameters sigma gap))
      ↔ ((1 ≤ sigma) × (2 * sigma ≤ gap))
unfolding new_parameters
new_parameters-success_iff sigma gap h = (λ e. ground arith, λ (one, twice). ground arith)

-- From 2 ^ 63 on, the product wraps: a depth of 2 ^ 63 + k is accepted with every gap from
-- 2 * k on, however far below twice the depth it is.
pub new_parameters-wraps :
    (k gap : ℕ)
    → k < 2 ^ 63
    → 2 * k ≤ gap
    → new_parameters (2 ^ 63 + k) gap ≡ success (parameters (2 ^ 63 + k) gap)
unfolding new_parameters
new_parameters-wraps k gap h twice = ground arith

-- ===== src/Protocol/Zip318.antt =====
-- components/zcash_protocol/src/zip318.rs: the denominations, expiry heights and anchor boundaries
-- of pool migration.
pub mod Grid
pub mod Denominations
pub mod Classify
use auzum_zcash.Base.{
  ℕ, zero, suc, ◌+◌, ◌-◌, ◌*◌, ◌/◌, ◌%◌, ◌^◌, Bool, true, false, not, ◌&&◌, ◌||◌, ltb, leb, ◌==◌,
  if◌then◌else◌, Option, none, some,
}
use auzum_zcash.Protocol.Value.{coin, Zatoshis}
use auzum_zcash.Protocol.Consensus.{BlockHeight, max_height, add_height}

abbrev pub denomination_radix : ℕ
denomination_radix = 10

abbrev pub denom_cap : Zatoshis
denom_cap = record { amount = 10_000 * coin }

abbrev pub max_residual_value : Zatoshis
max_residual_value = record { amount = coin / 100 }

abbrev pub expiry_modulus : ℕ
expiry_modulus = 34_560

abbrev pub expiry_window : ℕ
expiry_window = 2 * expiry_modulus

-- `checked_mul` gives a product that is a u64.
abbrev pub fits_below : ℕ → ℕ → Bool
fits_below product hi = ltb product (2 ^ 64) && leb product hi

-- The `while` loop, on fuel; `none` is a loop that has not ended. From a power of at least 1 it ends
-- within 20 steps, and from 0 it never ends.
unfoldable pub grow : ℕ → ℕ → ℕ → Option ℕ
grow zero hi pow = none
grow (suc fuel) hi pow =
    let more = grow fuel hi (pow * denomination_radix) in
    if fits_below (pow * denomination_radix) hi then more else some pow

-- The `for` loop over 5, 2 and 1.
unfoldable pub largest_multiple : ℕ → ℕ → ℕ
largest_multiple hi pow =
    if fits_below (pow * 5) hi
    then pow * 5
    else if fits_below (pow * 2) hi
    then pow * 2
    else if fits_below (pow * 1) hi
    then pow * 1
    else pow

abbrev pub with_multiple : ℕ → Option ℕ → Option ℕ
with_multiple hi none = none
with_multiple hi (some pow) = some (largest_multiple hi pow)

unfoldable pub largest_one_two_five : ℕ → ℕ → Option ℕ
largest_one_two_five hi floor = if ltb hi floor then some 0 else with_multiple hi (grow 20 hi floor)

-- The `while` loop, on fuel; `none` is a loop that has not ended. For a u64 that is not 0 it ends within
-- 20 steps, and for 0, which each step leaves as it is, it never ends.
unfoldable pub strip_zeros : ℕ → ℕ → Option ℕ
strip_zeros zero n = none
strip_zeros (suc fuel) n =
    let rest = strip_zeros fuel (n / denomination_radix) in
    if n % denomination_radix == 0 then rest else some n

abbrev pub one_two_five : ℕ → Bool
one_two_five n = n == 5 || (n == 2 || n == 1)

abbrev pub then_test : Option ℕ → Option Bool
then_test none = none
then_test (some n) = some (one_two_five n)

-- `none` is a call that never returns.
unfoldable pub is_canonical_within : Zatoshis → Zatoshis → Zatoshis → Option Bool
is_canonical_within value min max =
    if ltb value.amount min.amount || ltb max.amount value.amount
    then some false
    else then_test (strip_zeros 20 value.amount)

unfoldable pub is_canonical_denomination : Zatoshis → Option Bool
is_canonical_denomination value = is_canonical_within value max_residual_value denom_cap

unfoldable pub expiry_height : BlockHeight → BlockHeight
expiry_height h = add_height (h - h % expiry_modulus) expiry_window

-- A number of blocks that is not zero.
pub record AnchorBucketInterval : Type 0 where
  pub blocks : ℕ

abbrev pub zip_318 : AnchorBucketInterval
zip_318 = record { blocks = 144 }

unfoldable pub is_boundary : AnchorBucketInterval → BlockHeight → Bool
is_boundary i height = height % i.blocks == 0

unfoldable pub boundary_at_or_below : AnchorBucketInterval → BlockHeight → BlockHeight
boundary_at_or_below i h = h - h % i.blocks

unfoldable pub boundary_at_or_above : AnchorBucketInterval → BlockHeight → BlockHeight
boundary_at_or_above i h = let r = h % i.blocks in if r == 0 then h else add_height h (i.blocks - r)

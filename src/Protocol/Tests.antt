-- ===== src/Protocol/Tests.antt =====
-- The laws of amounts, branches and pool migration, at sample data.
use auzum_zcash.Base.{
  ℕ, ◌%◌, ◌/◌, ◌+◌, true, ◌-◌, ◌*◌, ◌≤◌, ◌<◌, ◌≡◌, ◌↔◌, refl, arith, List, [], ◌∷◌, some, false,
  none, sym, ◌∙◌, ◌≢◌,
}
use auzum_zcash.Base.Int.{pos, negsuc, ◌+ℤ◌}
use auzum_zcash.Base.Outcome.{success}
use auzum_zcash.Base.Io.{Bytes, from_le_bytes}
use auzum_zcash.Protocol.Consensus.{
  BlockHeight, BranchId, main, activation_height, for_height, height_bounds, max_height,
}
use auzum_zcash.Protocol.Consensus.Branches.{InBounds, for_height_iff}
use auzum_zcash.Protocol.Zip318.{
  largest_one_two_five, one_two_five, is_canonical_within, max_residual_value, denom_cap,
  expiry_modulus, expiry_window, expiry_height, strip_zeros,
}
use auzum_zcash.Protocol.Zip318.Classify.{
  Zip318Evidence, PoolMigrationConstants, IsExtendedBy, classify, conforms, transfer, unknown,
  classify_monotone, classify_shape, classify_crossing,
}
use auzum_zcash.Protocol.Zip318.Grid.{expiry_height-bounds}
use auzum_zcash.Protocol.Zip318.Denominations.{
  scaled, IsOnSeries, is_canonical_within_iff, largest_one_two_five-greatest,
}
use auzum_zcash.Protocol.Value.{
  max_money, ZatBalance, add_balance, sum_balance, from_i64_le_bytes, IsAmount, from_i64,
}
use auzum_zcash.Protocol.Value.Arithmetic.{
  balance, zats, total, StaysInRange, add_balance_iff, sum_balance_iff,
}

add_balance_iff_example :
    (add_balance (balance (pos 7)) (balance (negsuc 9)) ≡ some (balance (negsuc 2)))
    ↔ ((balance (pos 7 +ℤ negsuc 9) ≡ balance (negsuc 2)) × IsAmount (pos 7 +ℤ negsuc 9))
add_balance_iff_example =
    add_balance_iff (balance (pos 7)) (balance (negsuc 9)) (balance (negsuc 2)) (omega arith)
      (omega arith)

abbrev sample_balances : List ZatBalance
sample_balances = balance (pos max_money) ∷ balance (negsuc 4) ∷ balance (pos 2) ∷ []

sum_balance_iff_example : (sum_balance sample_balances ≡ some (balance (pos (max_money - 3)))) ↔ (
    (balance (total (pos 0) sample_balances) ≡ balance (pos (max_money - 3)))
    × StaysInRange (pos 0) sample_balances)
sum_balance_iff_example =
    sum_balance_iff sample_balances (balance (pos (max_money - 3)))
      (omega arith, (omega arith, (omega arith, tt)))

abbrev minus_one : Bytes
minus_one = 255 ∷ 255 ∷ 255 ∷ 255 ∷ 255 ∷ 255 ∷ 255 ∷ 255 ∷ []

abbrev small : 255 < 256
small = omega arith

minus_one_read : from_i64_le_bytes minus_one ≡ success (balance (negsuc 0))
unfolding from_i64_le_bytes from_i64 from_le_bytes
minus_one_read = refl

for_height_iff_example :
    (for_height (activation_height main) 1_700_000 ≡ BranchId.nu5)
    ↔ InBounds (height_bounds (activation_height main) BranchId.nu5) 1_700_000
for_height_iff_example = for_height_iff main 1_700_000 BranchId.nu5

expiry_height-bounds_example :
    (expiry_height 50_000 % expiry_modulus ≡ 0)
    × (50_000 + expiry_modulus < expiry_height 50_000)
    × (expiry_height 50_000 ≤ 50_000 + expiry_window)
    × ((k : BlockHeight)
        → k / expiry_modulus ≡ 50_000 / expiry_modulus
        → k + expiry_window ≤ max_height
        → expiry_height k ≡ expiry_height 50_000)
expiry_height-bounds_example = expiry_height-bounds 50_000 (omega arith)

is_canonical_within_iff_example :
    ((is_canonical_within (zats 5_000_000) max_residual_value denom_cap ≡ some true) ↔ (
      (max_residual_value.amount ≤ 5_000_000)
      × (5_000_000 ≤ denom_cap.amount)
      × IsOnSeries 5_000_000))
    × ((is_canonical_within (zats 5_000_000) max_residual_value denom_cap ≡ none)
        ↔ (((zats 5_000_000).amount ≡ 0) × (max_residual_value.amount ≡ 0)))
    × ((fuel : ℕ) → strip_zeros fuel 0 ≡ none)
is_canonical_within_iff_example =
    is_canonical_within_iff (zats 5_000_000) max_residual_value denom_cap (omega arith)

zero_unanswered : is_canonical_within (zats 0) (zats 0) denom_cap ≡ none
unfolding is_canonical_within strip_zeros
zero_unanswered = refl

largest_one_two_five-greatest_example :
    (r : ℕ) × (largest_one_two_five 777 1 ≡ some r)
    × (r ≤ 777)
    × ((m : ℕ) × (k : ℕ) × (one_two_five m ≡ true) × (r ≡ scaled 1 k * m))
    × ((m k : ℕ) → one_two_five m ≡ true → scaled 1 k * m ≤ 777 → scaled 1 k * m ≤ r)
largest_one_two_five-greatest_example =
    largest_one_two_five-greatest 777 1 (omega arith) (omega arith) (omega arith)

-- A crossing that is not known to pay itself, and the same with that known.
abbrev partial_evidence : Zip318Evidence
partial_evidence = record {
  source_actions = some 2;
  destination_actions = some 1;
  other_bundles_present = some false;
  source_is_send_to_self = none;
  sole_destination_value = some (zats 5_000_000);
  expiry_is_canonical = some true;
  anchor_on_grid = none;
  fee_is_canonical = none;
}

abbrev full_evidence : Zip318Evidence
full_evidence = record partial_evidence { source_is_send_to_self = some true }

abbrev zip_constants : PoolMigrationConstants
zip_constants = record {
  denomination_cap = denom_cap;
  max_residual_value = max_residual_value;
  preparation_tx_actions = 16;
}

evidence_grows : IsExtendedBy partial_evidence full_evidence
evidence_grows = record {
  source = refl;
  destination = refl;
  other = refl;
  self_send = tt;
  value = refl;
  expiry = refl;
  anchor = refl;
  fee = refl;
}

decided : classify partial_evidence zip_constants ≡ some (conforms transfer)
unfolding classify classify_shape classify_crossing is_canonical_within strip_zeros
decided = refl

conforms-unknown : some (conforms transfer) ≢ some unknown
conforms-unknown e = cc

not_open : classify partial_evidence zip_constants ≢ some unknown
not_open e = conforms-unknown (sym decided ∙ e)

classify_monotone_example :
    classify full_evidence zip_constants ≡ classify partial_evidence zip_constants
classify_monotone_example =
    classify_monotone partial_evidence full_evidence zip_constants evidence_grows not_open

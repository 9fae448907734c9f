-- ===== src/Protocol/Value.antt =====
-- components/zcash_protocol/src/value.rs: balances, between plus and minus the money supply, and
-- amounts that are not negative. i64 and u64 arithmetic wraps, as in a build without overflow
-- checks, where the source does not call a checked operation.
pub mod Amounts
pub mod Arithmetic
pub mod Codec
use auzum_zcash.Base.{
  ℕ, ◌+◌, ◌-◌, ◌*◌, ◌/◌, ◌%◌, ◌^◌, ◌≤◌, ◌<◌, Bool, true, false, not, ◌&&◌, List, [], ◌∷◌, Option,
  none, some, ltb, leb, ◌==◌, if◌then◌else◌,
}
use Prim.Native.String.{String}
use auzum_zcash.Base.Int.{
  ℤ, pos, negsuc, negate, ◌+ℤ◌, ◌-ℤ◌, leb_ℤ, size, times, IsI64, wrap_i64, to_word, of_word,
}
use auzum_zcash.Base.Io.{
  Bytes, invalid_data, Reader, pure, fail, ◌>>=◌, Written, read_exact, write_all, to_le_bytes,
  from_le_bytes,
}
use auzum_zcash.Base.Outcome.{Outcome, success, failure}

abbrev pub coin : ℕ
coin = 1_0000_0000

abbrev pub max_money : ℕ
max_money = 21_000_000 * coin

abbrev pub max_balance : ℤ
max_balance = pos max_money

pub data BalanceError : Type 0 where
  overflow underflow : BalanceError

pub record ZatBalance : Type 0 where
  pub amount : ℤ

pub record Zatoshis : Type 0 where
  pub amount : ℕ

-- `.ok()`
abbrev pub to_option {κ} : {E : Type 0} {A : Type κ} → Outcome E A → Option A
to_option (success a) = some a
to_option (failure e) = none

abbrev pub and_then {ℓ κ} : {A : Type ℓ} {B : Type κ} → Option A → (A → Option B) → Option B
and_then none f = none
and_then (some a) f = f a

unfoldable pub from_i64 : ℤ → Outcome BalanceError ZatBalance
from_i64 amount =
    if leb_ℤ (negate max_balance) amount && leb_ℤ amount max_balance
    then success (record { amount = amount })
    else if leb_ℤ (negate max_balance) amount
    then failure overflow
    else failure underflow

unfoldable pub from_nonnegative_i64 : ℤ → Outcome BalanceError ZatBalance
from_nonnegative_i64 amount =
    if leb_ℤ (pos 0) amount && leb_ℤ amount max_balance
    then success (record { amount = amount })
    else if leb_ℤ (pos 0) amount
    then failure overflow
    else failure underflow

-- The cast of a u64 to an i64.
unfoldable pub from_u64 : ℕ → Outcome BalanceError ZatBalance
from_u64 amount =
    if leb amount max_money then success (record { amount = of_word amount }) else failure overflow

unfoldable pub from_i64_le_bytes : Bytes → Outcome BalanceError ZatBalance
from_i64_le_bytes bytes = from_i64 (of_word (from_le_bytes bytes))

unfoldable pub from_nonnegative_i64_le_bytes : Bytes → Outcome BalanceError ZatBalance
from_nonnegative_i64_le_bytes bytes = from_nonnegative_i64 (of_word (from_le_bytes bytes))

unfoldable pub from_u64_le_bytes : Bytes → Outcome BalanceError ZatBalance
from_u64_le_bytes bytes = from_u64 (from_le_bytes bytes)

unfoldable pub to_i64_le_bytes : ZatBalance → Bytes
to_i64_le_bytes b = to_le_bytes 8 (to_word b.amount)

unfoldable pub add_balance : ZatBalance → ZatBalance → Option ZatBalance
add_balance a b = to_option (from_i64 (wrap_i64 (a.amount +ℤ b.amount)))

unfoldable pub sub_balance : ZatBalance → ZatBalance → Option ZatBalance
sub_balance a b = to_option (from_i64 (wrap_i64 (a.amount -ℤ b.amount)))

unfoldable pub neg_balance : ZatBalance → ZatBalance
neg_balance a = record { amount = wrap_i64 (negate a.amount) }

-- `checked_mul` on i64, by a usize of 64 bits that fits one.
unfoldable pub mul_balance : ZatBalance → ℕ → Option ZatBalance
mul_balance a n =
    let product = times a.amount n in
    if not (ltb n (2 ^ 63))
    then none
    else if leb_ℤ (negsuc (2 ^ 63 - 1)) product && leb_ℤ product (pos (2 ^ 63 - 1))
    then to_option (from_i64 product)
    else none

unfoldable pub sum_from : ZatBalance → List ZatBalance → Option ZatBalance
sum_from result [] = some result
sum_from result (value ∷ values) =
    and_then (add_balance result value) (λ next. sum_from next values)

unfoldable pub sum_balance : List ZatBalance → Option ZatBalance
sum_balance values = sum_from (record { amount = pos 0 }) values

unfoldable pub zatoshis_from_u64 : ℕ → Outcome BalanceError Zatoshis
zatoshis_from_u64 amount =
    if leb amount max_money then success (record { amount = amount }) else failure overflow

unfoldable pub zatoshis_from_i64 : ℤ → Outcome BalanceError Zatoshis
zatoshis_from_i64 (pos amount) = zatoshis_from_u64 amount
zatoshis_from_i64 (negsuc n) = failure underflow

unfoldable pub zatoshis_from_u64_le_bytes : Bytes → Outcome BalanceError Zatoshis
zatoshis_from_u64_le_bytes bytes = zatoshis_from_u64 (from_le_bytes bytes)

unfoldable pub zatoshis_from_i64_le_bytes : Bytes → Outcome BalanceError Zatoshis
zatoshis_from_i64_le_bytes bytes = zatoshis_from_i64 (of_word (from_le_bytes bytes))

unfoldable pub to_u64_le_bytes : Zatoshis → Bytes
to_u64_le_bytes z = to_le_bytes 8 z.amount

unfoldable pub write_zatoshis : Zatoshis → Written
write_zatoshis z = write_all (to_u64_le_bytes z)

abbrev pub in_range : String → Outcome BalanceError Zatoshis → Reader Zatoshis
in_range message (success z) = pure z
in_range message (failure e) = fail (invalid_data message)

-- A balance that a reader of bytes refuses with a message of its own.
abbrev pub balance_in_range : String → Outcome BalanceError ZatBalance → Reader ZatBalance
balance_in_range message (success b) = pure b
balance_in_range message (failure e) = fail (invalid_data message)

unfoldable pub read_zatoshis : Reader Zatoshis
read_zatoshis = do
  bytes ← read_exact 8
  in_range "amount out of range" (zatoshis_from_u64_le_bytes bytes)

-- `NonZeroU64`: the divisor is not zero.
unfoldable pub div_with_remainder : Zatoshis → ℕ → Zatoshis × Zatoshis
div_with_remainder z divisor =
    (record { amount = z.amount / divisor }, record { amount = z.amount % divisor })

unfoldable pub div_zatoshis : Zatoshis → ℕ → Zatoshis
div_zatoshis z divisor = record { amount = z.amount / divisor }

unfoldable pub balance_of : Zatoshis → ZatBalance
balance_of z = record { amount = of_word z.amount }

unfoldable pub zatoshis_of : ZatBalance → Outcome BalanceError Zatoshis
zatoshis_of b = zatoshis_from_i64 b.amount

unfoldable pub neg_zatoshis : Zatoshis → ZatBalance
unfolding balance_of
neg_zatoshis z = neg_balance (balance_of z)

unfoldable pub add_to_balance : ZatBalance → Zatoshis → Option ZatBalance
add_to_balance a z = to_option (from_i64 (wrap_i64 (a.amount +ℤ of_word z.amount)))

unfoldable pub sub_from_balance : ZatBalance → Zatoshis → Option ZatBalance
sub_from_balance a z = to_option (from_i64 (wrap_i64 (a.amount -ℤ of_word z.amount)))

-- The three checked operations on u64.
abbrev checked : ℕ → Option ℕ
checked n = if ltb n (2 ^ 64) then some n else none

abbrev checked_sub : ℕ → ℕ → Option ℕ
checked_sub a b = if ltb a b then none else some (a - b)

unfoldable pub add_zatoshis : Zatoshis → Zatoshis → Option Zatoshis
add_zatoshis a b = and_then (checked (a.amount + b.amount)) (λ n. to_option (zatoshis_from_u64 n))

unfoldable pub sub_zatoshis : Zatoshis → Zatoshis → Option Zatoshis
sub_zatoshis a b = and_then (checked_sub a.amount b.amount) (λ n. to_option (zatoshis_from_u64 n))

unfoldable pub mul_zatoshis : Zatoshis → ℕ → Option Zatoshis
mul_zatoshis a rhs = and_then (checked (a.amount * rhs)) (λ n. to_option (zatoshis_from_u64 n))

unfoldable pub sum_zatoshis_from : Zatoshis → List Zatoshis → Option Zatoshis
sum_zatoshis_from acc [] = some acc
sum_zatoshis_from acc (a ∷ as') = and_then (add_zatoshis acc a) (λ next. sum_zatoshis_from next as')

unfoldable pub sum_zatoshis : List Zatoshis → Option Zatoshis
sum_zatoshis values = sum_zatoshis_from (record { amount = 0 }) values

-- The invariants of the two types.
abbrev pub IsAmount : ℤ → Type 0
IsAmount z = size z ≤ max_money

abbrev pub IsBalance : ZatBalance → Type 0
IsBalance b = IsAmount b.amount

abbrev pub IsZatoshis : Zatoshis → Type 0
IsZatoshis z = z.amount ≤ max_money

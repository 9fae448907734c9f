-- ===== src/Base/Bits.antt =====
-- Masks as arithmetic, at every width, by recursion on the binary digits.
use Prim.Native.Nat.{
  ℕ, zero, suc, ◌+◌, ◌*◌, ◌/◌, ◌%◌, ◌^◌, ◌≤◌, ◌<◌, min, max, bit_and, bit_or, digits,
  bit_and-bitwise, bit_or-bitwise,
}
use mathlib.Core.Path.{◌≡◌, refl, sym, ap, ◌∙◌, subst}
use native.Mathlib.Omega.{arith}

-- The digitwise definition of both operations, whatever joins two digits: steps beyond those that
-- use up the first number change nothing.
module _ (tail : ℕ → ℕ) (join : ℕ → ℕ → ℕ) where
  used_up : (n b : ℕ) → digits tail join n 0 b ≡ tail b
  used_up zero b = refl
  used_up (suc n) b = refl

  spare_steps :
      (a b n more : ℕ) → a ≤ n → n ≤ more → digits tail join more a b ≡ digits tail join n a b
  spare_steps zero b n more small larger = used_up more b ∙ sym (used_up n b)
  spare_steps (suc a) b zero more small larger = absurd (omega arith)
  spare_steps (suc a) b (suc n) zero small larger = absurd (omega arith)
  spare_steps (suc a) b (suc n) (suc more) small larger =
      ap (λ t. t * 2 + join (suc a % 2) (b % 2))
        (spare_steps (suc a / 2) (b / 2) n more (omega arith) (omega arith))

  halves :
      (a b : ℕ)
      → digits tail join (suc a) (suc a) b
        ≡ digits tail join (suc a / 2) (suc a / 2) (b / 2) * 2 + join (suc a % 2) (b % 2)
  halves a b =
      ap (λ t. t * 2 + join (suc a % 2) (b % 2))
        (spare_steps (suc a / 2) (b / 2) (suc a / 2) a (omega arith) (omega arith))

pub bit_and_step : (a b : ℕ) → bit_and a b ≡ bit_and (a / 2) (b / 2) * 2 + min (a % 2) (b % 2)
bit_and_step zero b = rw (bit_and-bitwise 0 b, bit_and-bitwise 0 (b / 2)) (omega arith)
bit_and_step (suc a) b =
    rw (bit_and-bitwise (suc a) b, bit_and-bitwise (suc a / 2) (b / 2)) (halves _ min a b)

zero-bit_or : (b : ℕ) → bit_or 0 b ≡ b
zero-bit_or b = bit_or-bitwise 0 b

pub bit_or_step : (a b : ℕ) → bit_or a b ≡ bit_or (a / 2) (b / 2) * 2 + max (a % 2) (b % 2)
bit_or_step zero b = rw (zero-bit_or b, zero-bit_or (b / 2)) (omega arith)
bit_or_step (suc a) b =
    rw (bit_or-bitwise (suc a) b, bit_or-bitwise (suc a / 2) (b / 2)) (halves _ max a b)

none_set : (n a : ℕ) → digits (λ b. zero) min n a 0 ≡ 0
none_set zero a = refl
none_set (suc n) zero = refl
none_set (suc n) (suc a) = omega (arith, none_set n (suc a / 2))

bit_and-zero : (a : ℕ) → bit_and a 0 ≡ 0
bit_and-zero a = bit_and-bitwise a 0 ∙ none_set a a

-- 2 ^ k, by doubling.
abbrev pub power : ℕ → ℕ
power zero = 1
power (suc k) = 2 * power k

-- k ones.
abbrev pub ones : ℕ → ℕ
ones zero = 0
ones (suc k) = 2 * ones k + 1

-- A number written h * 2 ^ k + l: the mask of k ones keeps l.
bit_and-ones_parts : (k h l : ℕ) → l < power k → bit_and (h * power k + l) (ones k) ≡ l
bit_and-ones_parts zero h l p = omega (arith, bit_and-zero (h * 1 + l))
bit_and-ones_parts (suc k) h l p =
    let e : (h * (2 * power k) + l) / 2 ≡ h * power k + l / 2 = omega arith in
    let o : (2 * ones k + 1) / 2 ≡ ones k = omega arith in
    rw (bit_and_step (h * (2 * power k) + l) (2 * ones k + 1), e, o)
      (rw (bit_and-ones_parts k h (l / 2) (omega arith)) (omega arith))

-- The test of bit k: a number written (2 * h + b) * 2 ^ k + l has the digit b there.
bit_and-power_parts :
    (k h b l : ℕ)
    → b < 2
    → l < power k
    → bit_and ((2 * h + b) * power k + l) (power k) ≡ b * power k
bit_and-power_parts zero h b l q p =
    omega (arith, bit_and_step ((2 * h + b) * 1 + l) 1, bit_and-zero (((2 * h + b) * 1 + l) / 2))
bit_and-power_parts (suc k) h b l q p =
    let e : ((2 * h + b) * (2 * power k) + l) / 2 ≡ (2 * h + b) * power k + l / 2 = omega arith in
    let o : (2 * power k) / 2 ≡ power k = omega arith in
    rw (bit_and_step ((2 * h + b) * (2 * power k) + l) (2 * power k), e, o)
      (rw (bit_and-power_parts k h b (l / 2) q (omega arith)) (omega arith))

-- Setting bit k of a number below 2 ^ k adds 2 ^ k.
pub bit_or-power : (k l : ℕ) → l < power k → bit_or l (power k) ≡ l + power k
bit_or-power zero l p = let e : l ≡ 0 = omega arith in rw e (zero-bit_or 1)
bit_or-power (suc k) l p =
    let o : (2 * power k) / 2 ≡ power k = omega arith in
    rw (bit_or_step l (2 * power k), o) (rw (bit_or-power k (l / 2) (omega arith)) (omega arith))

-- The mask of 31 ones and the test of bit 31.
pub bit_and_low31 : (a : ℕ) → bit_and a 0x7fff_ffff ≡ a % 2 ^ 31
bit_and_low31 a =
    let e : a ≡ a / 2 ^ 31 * 2 ^ 31 + a % 2 ^ 31 = omega arith in
    subst (λ x. bit_and x 0x7fff_ffff ≡ a % 2 ^ 31) (sym e)
      (bit_and-ones_parts 31 (a / 2 ^ 31) (a % 2 ^ 31) (omega arith))

pub bit_and_top31 : (a : ℕ) → bit_and a 0x8000_0000 ≡ a / 2 ^ 31 % 2 * 2 ^ 31
bit_and_top31 a =
    let h = a / 2 ^ 32 in
    let b = a / 2 ^ 31 % 2 in
    let l = a % 2 ^ 31 in
    let e : a ≡ (2 * h + b) * 2 ^ 31 + l = omega arith in
    subst (λ x. bit_and x 0x8000_0000 ≡ a / 2 ^ 31 % 2 * 2 ^ 31) (sym e)
      (bit_and-power_parts 31 h b l (omega arith) (omega arith))

pub bit_or_top31 : (a : ℕ) → a < 2 ^ 31 → bit_or a 0x8000_0000 ≡ a + 2 ^ 31
bit_or_top31 a h = bit_or-power 31 a h

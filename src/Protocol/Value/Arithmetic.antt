-- ===== src/Protocol/Value/Arithmetic.antt =====
-- Laws of the arithmetic of components/zcash_protocol/src/value.rs.
use native.Mathlib.Nat.{div-add-mod', mod-lt, mod-le, div-le_self}
use auzum_zcash.Base.{
  ℕ, ◌+◌, ◌-◌, ◌*◌, ◌^◌, ◌≤◌, ◌<◌, ◌≡◌, ◌↔◌, refl, sym, ap, subst, arith, false, not, ◌&&◌, List,
  [], ◌∷◌, All, Option, Option-cases, inl, inr, none, some, ltb, if◌then◌else◌,
}
use auzum_zcash.Base.Int.{ℤ, pos, negsuc, ◌+ℤ◌, ◌-ℤ◌, leb_ℤ, times, IsI64, wrap_i64-eq}
use auzum_zcash.Protocol.Value.{
  max_money, ZatBalance, Zatoshis, to_option, from_i64, add_balance, sub_balance, mul_balance,
  sum_from, sum_balance, zatoshis_from_u64, add_zatoshis, sub_zatoshis, mul_zatoshis,
  sum_zatoshis_from, sum_zatoshis, div_with_remainder, IsAmount, IsBalance, IsZatoshis,
}

abbrev pub balance : ℤ → ZatBalance
balance z = record { amount = z }

abbrev balance_in : ZatBalance → Option ZatBalance → ZatBalance
balance_in d none = d
balance_in d (some b) = b

-- An i64 is accepted exactly when it is in the range.
pub from_i64_iff :
    (z : ℤ) (c : ZatBalance) → (to_option (from_i64 z) ≡ some c) ↔ ((balance z ≡ c) × IsAmount z)
unfolding from_i64
from_i64_iff (pos n) c = (λ e. ground arith, λ (e, h). ground arith)
from_i64_iff (negsuc n) c = (λ e. ground arith, λ (e, h). ground arith)

sum_fits : (a b : ℤ) → IsAmount a → IsAmount b → IsI64 (a +ℤ b)
sum_fits (pos a) (pos b) h k = omega arith
sum_fits (pos a) (negsuc b) h k = ground arith
sum_fits (negsuc a) (pos b) h k = ground arith
sum_fits (negsuc a) (negsuc b) h k = omega arith

difference_fits : (a b : ℤ) → IsAmount a → IsAmount b → IsI64 (a -ℤ b)
difference_fits (pos a) (pos b) h k = ground arith
difference_fits (pos a) (negsuc b) h k = omega arith
difference_fits (negsuc a) (pos b) h k = omega arith
difference_fits (negsuc a) (negsuc b) h k = ground arith

-- The sum of two balances is their exact sum, where that is in the range, and none where it is not:
-- the i64 addition never wraps.
pub add_balance_iff :
    (a b c : ZatBalance)
    → IsBalance a
    → IsBalance b
    → (add_balance a b ≡ some c)
      ↔ ((balance (a.amount +ℤ b.amount) ≡ c) × IsAmount (a.amount +ℤ b.amount))
unfolding add_balance
add_balance_iff a b c ha hb =
    rw (wrap_i64-eq (a.amount +ℤ b.amount) (sum_fits a.amount b.amount ha hb))
      (from_i64_iff (a.amount +ℤ b.amount) c)

-- The difference of two balances is exact, where it is in the range, and none where it is not.
pub sub_balance_iff :
    (a b c : ZatBalance)
    → IsBalance a
    → IsBalance b
    → (sub_balance a b ≡ some c)
      ↔ ((balance (a.amount -ℤ b.amount) ≡ c) × IsAmount (a.amount -ℤ b.amount))
unfolding sub_balance
sub_balance_iff a b c ha hb =
    rw (wrap_i64-eq (a.amount -ℤ b.amount) (difference_fits a.amount b.amount ha hb))
      (from_i64_iff (a.amount -ℤ b.amount) c)

abbrev pub total : ℤ → List ZatBalance → ℤ
total z [] = z
total z (v ∷ vs) = total (z +ℤ v.amount) vs

-- Every partial sum, from z on, is in the range.
abbrev pub StaysInRange : ℤ → List ZatBalance → Type 0
StaysInRange z [] = Unit {0}
StaysInRange z (v ∷ vs) = IsAmount (z +ℤ v.amount) × StaysInRange (z +ℤ v.amount) vs

widen :
    {S : Type 0} {z : ℤ} {b c : ZatBalance} (vs : List ZatBalance)
    → balance z ≡ b
    → IsAmount z
    → S ↔ ((balance (total b.amount vs) ≡ c) × StaysInRange b.amount vs)
    → S ↔ ((balance (total z vs) ≡ c) × (IsAmount z × StaysInRange z vs))
widen {S} {z} {b} {c} vs same fits h =
    let (to, from) =
      subst (λ (t : ℤ). S ↔ ((balance (total t vs) ≡ c) × StaysInRange t vs))
        (ap (λ (t : ZatBalance). t.amount) (sym same)) h in
    (λ e. let (p, q) = to e in (p, (fits, q)), λ (p, (_, q)). from (p, q))

sum_from_iff :
    (r : ZatBalance) (vs : List ZatBalance) (c : ZatBalance)
    → IsBalance r
    → All IsBalance vs
    → (sum_from r vs ≡ some c) ↔ ((balance (total r.amount vs) ≡ c) × StaysInRange r.amount vs)
unfolding sum_from
sum_from_iff r [] c hr h = (λ e. (ap (balance_in r) e, tt), λ (e, _). ap some e)
sum_from_iff r (v ∷ vs) c hr h = elim (Option-cases (add_balance r v)) [
  | inl e ↦ rw e (
    λ x. cc,
    λ (_, (fits, _)).
        cc (e, (add_balance_iff r v (balance (r.amount +ℤ v.amount)) hr h.0).1 (refl, fits)),
  )
  | inr (b, e) ↦
      let (same, fits) = (add_balance_iff r v b hr h.0).0 e in
      let rest = sum_from_iff b vs c (subst IsBalance same fits) h.1 in
      rw e (widen vs same fits rest)
]

-- The sum of a list of balances is their exact sum, where every partial sum is in the range, and
-- none where one is not.
pub sum_balance_iff :
    (vs : List ZatBalance) (c : ZatBalance)
    → All IsBalance vs
    → (sum_balance vs ≡ some c) ↔ ((balance (total (pos 0) vs) ≡ c) × StaysInRange (pos 0) vs)
unfolding sum_balance
sum_balance_iff vs c h = sum_from_iff (balance (pos 0)) vs c (omega arith) h

checked_product :
    (z : ℤ) (c : ZatBalance)
    → ((if leb_ℤ (negsuc (2 ^ 63 - 1)) z && leb_ℤ z (pos (2 ^ 63 - 1))
          then to_option (from_i64 z)
          else none)
        ≡ some c)
      ↔ ((balance z ≡ c) × IsAmount z)
unfolding from_i64
checked_product (pos n) c = (λ e. ground arith, λ (e, h). ground arith)
checked_product (negsuc n) c = (λ e. ground arith, λ (e, h). ground arith)

-- The product of a balance with a number below 2 ^ 63 is exact, where it is in the range, and none
-- where it is not.
pub mul_balance_iff :
    (a c : ZatBalance) (n : ℕ)
    → n < 2 ^ 63
    → (mul_balance a n ≡ some c) ↔ ((balance (times a.amount n) ≡ c) × IsAmount (times a.amount n))
unfolding mul_balance
mul_balance_iff a c n h =
    let small : not (ltb n (2 ^ 63)) ≡ false = ground arith in
    rw small (checked_product (times a.amount n) c)

abbrev pub zats : ℕ → Zatoshis
zats n = record { amount = n }

-- Amounts add exactly, up to the money supply, and not beyond it.
pub add_zatoshis_iff :
    (a b c : Zatoshis)
    → IsZatoshis a
    → IsZatoshis b
    → (add_zatoshis a b ≡ some c)
      ↔ ((zats (a.amount + b.amount) ≡ c) × (a.amount + b.amount ≤ max_money))
unfolding add_zatoshis zatoshis_from_u64
add_zatoshis_iff a b c ha hb = (λ e. ground arith, λ (e, h). ground arith)

-- A difference of amounts is exact, where it is not negative, and none where it is.
pub sub_zatoshis_iff :
    (a b c : Zatoshis)
    → IsZatoshis a
    → (sub_zatoshis a b ≡ some c) ↔ ((zats (a.amount - b.amount) ≡ c) × (b.amount ≤ a.amount))
unfolding sub_zatoshis zatoshis_from_u64
sub_zatoshis_iff a b c ha = (λ e. ground arith, λ (e, h). ground arith)

-- A product is exact, up to the money supply, and none beyond it, whatever the factor.
pub mul_zatoshis_iff :
    (a c : Zatoshis) (n : ℕ)
    → (mul_zatoshis a n ≡ some c) ↔ ((zats (a.amount * n) ≡ c) × (a.amount * n ≤ max_money))
unfolding mul_zatoshis zatoshis_from_u64
mul_zatoshis_iff a c n = (λ e. ground arith, λ (e, h). ground arith)

abbrev pub total_zatoshis : List Zatoshis → ℕ
total_zatoshis [] = 0
total_zatoshis (z ∷ zs) = z.amount + total_zatoshis zs

sum_zatoshis_from_iff :
    (acc : Zatoshis) (zs : List Zatoshis) (c : Zatoshis)
    → IsZatoshis acc
    → All IsZatoshis zs
    → (sum_zatoshis_from acc zs ≡ some c)
      ↔ ((zats (acc.amount + total_zatoshis zs) ≡ c) × (acc.amount + total_zatoshis zs ≤ max_money))
unfolding sum_zatoshis_from
sum_zatoshis_from_iff acc [] c ha h = (λ e. ground arith, λ (e, _). ground arith)
sum_zatoshis_from_iff acc (z ∷ zs) c ha h = elim (Option-cases (add_zatoshis acc z)) [
  | inl e ↦ rw e (
    λ x. cc,
    λ (_, fits).
        cc
          (e, (add_zatoshis_iff acc z (zats (acc.amount + z.amount)) ha h.0).1 (refl, omega arith)),
  )
  | inr (b, e) ↦
      let (same, fits) = (add_zatoshis_iff acc z b ha h.0).0 e in
      let moved : b.amount + total_zatoshis zs ≡ acc.amount + (z.amount + total_zatoshis zs) =
        omega (arith, ap (λ (t : Zatoshis). t.amount) same) in
      let rest =
        sum_zatoshis_from_iff b zs c (omega (arith, ap (λ (t : Zatoshis). t.amount) same)) h.1 in
      rw e (rw moved at rest)
]

-- The sum of a list of amounts is exact, if it is within the money supply, and none if it is not.
pub sum_zatoshis_iff :
    (zs : List Zatoshis) (c : Zatoshis)
    → All IsZatoshis zs
    → (sum_zatoshis zs ≡ some c)
      ↔ ((zats (total_zatoshis zs) ≡ c) × (total_zatoshis zs ≤ max_money))
unfolding sum_zatoshis
sum_zatoshis_iff zs c h =
    let e : 0 + total_zatoshis zs ≡ total_zatoshis zs = omega arith in
    rw e at (sum_zatoshis_from_iff (zats 0) zs c (omega arith) h)

-- A division by a divisor that is not zero gives two amounts within the money supply, the remainder
-- below the divisor, from which the amount is put together again.
pub div_with_remainder-parts :
    (z : Zatoshis) (d : ℕ)
    → IsZatoshis z
    → 0 < d
    → let (q, r) = div_with_remainder z d in
      (q.amount * d + r.amount ≡ z.amount) × (r.amount < d) × IsZatoshis q × IsZatoshis r
unfolding div_with_remainder
div_with_remainder-parts z d h hd = (
  div-add-mod' z.amount d,
  mod-lt z.amount hd,
  omega (arith, div-le_self z.amount d),
  omega (arith, mod-le z.amount d),
)

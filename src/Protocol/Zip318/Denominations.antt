-- ===== src/Protocol/Zip318/Denominations.antt =====
-- The denominations 1, 2 and 5 times a power of ten: the test for them, and the greatest of them.
use auzum_zcash.Base.{
  ℕ, zero, suc, ◌*◌, ◌/◌, ◌%◌, ◌^◌, ◌≤◌, ◌<◌, ◌≡◌, ◌↔◌, ◌⊎◌, inl, inr, refl, sym, ap, ◌∙◌, arith,
  true, false, ◌||◌, Bool-cases, ltb, ◌==◌, none, some, Bool,
}
use auzum_zcash.Protocol.Value.{Zatoshis}
use auzum_zcash.Protocol.Zip318.{
  fits_below, grow, largest_multiple, largest_one_two_five, strip_zeros, one_two_five,
  is_canonical_within,
}

-- A number with k zeros behind it.
abbrev pub scaled : ℕ → ℕ → ℕ
scaled n zero = n
scaled n (suc k) = scaled n k * 10

scaled_positive : (n k : ℕ) → 0 < n → 0 < scaled n k
scaled_positive n zero h = h
scaled_positive n (suc k) h = omega (arith, scaled_positive n k h)

one_two_five_positive : (m : ℕ) → one_two_five m ≡ true → (0 < m) × (m < 10)
one_two_five_positive m h = ground arith

-- A number is on the series: one, two or five, with zeros behind it.
abbrev pub IsOnSeries : ℕ → Type 0
IsOnSeries n = (m : ℕ) × (k : ℕ) × (one_two_five m ≡ true) × (n ≡ scaled m k)

shorter :
    {n : ℕ} (m k : ℕ)
    → one_two_five m ≡ true
    → n ≡ scaled m k
    → (n % 10 == 0) ≡ true
    → IsOnSeries (n / 10)
shorter m zero p q tens = absurd (ground (arith, one_two_five_positive m p))
shorter m (suc k) p q tens = (m, k, p, omega (arith, q))

whole :
    {n : ℕ} (m k : ℕ)
    → one_two_five m ≡ true
    → n ≡ scaled m k
    → (n % 10 == 0) ≡ false
    → one_two_five n ≡ true
whole m zero p q units = rw q p
whole m (suc k) p q units = absurd (ground arith)

-- For a number that is not zero, and with as many steps as it can have digits, the loop ends.
strip_zeros_lem :
    (fuel n : ℕ)
    → 0 < n
    → n < scaled 1 fuel
    → (r : ℕ) × (strip_zeros fuel n ≡ some r) × ((one_two_five r ≡ true) ↔ IsOnSeries n)
unfolding strip_zeros
strip_zeros_lem zero n positive h = absurd (omega (arith, positive, h))
strip_zeros_lem (suc fuel) n positive h = elim (Bool-cases (n % 10 == 0)) [
  | inl tens ↦
      let (r, ends, (there, back)) = strip_zeros_lem fuel (n / 10) (ground arith) (omega arith) in
      rw tens (
        r,
        ends,
        (
          λ e. let (m, k, p, q) = there e in (m, suc k, p, ground arith),
          λ (m, k, p, q). back (shorter m k p q tens),
        ),
      )
  | inr units ↦ rw units (n, refl, (λ e. (n, 0, e, refl), λ (m, k, p, q). whole m k p q units))
]

-- Zero stays zero, in however many steps.
strip_zeros-zero : (fuel : ℕ) → strip_zeros fuel 0 ≡ none
unfolding strip_zeros
strip_zeros-zero zero = refl
strip_zeros-zero (suc fuel) = strip_zeros-zero fuel

series_positive : {n : ℕ} → IsOnSeries n → 0 < n
series_positive {n} (m, k, e, q) =
    omega (arith, q, scaled_positive m k (one_two_five_positive m e).0)

scaled_times : (n k : ℕ) → scaled (n * 10) k ≡ scaled n k * 10
scaled_times n zero = refl
scaled_times n (suc k) = omega (arith, scaled_times n k)

-- The loop stops at the greatest power, times the first, that does not exceed the bound.
grow_lem :
    (fuel hi pow : ℕ)
    → 0 < pow
    → pow ≤ hi
    → hi < 2 ^ 64
    → hi < scaled pow fuel
    → (k : ℕ) × (grow fuel hi pow ≡ some (scaled pow k))
      × (scaled pow k ≤ hi)
      × (hi < scaled pow k * 10)
unfolding grow
grow_lem zero hi pow one le word enough = absurd (omega arith)
grow_lem (suc fuel) hi pow one le word enough = elim (Bool-cases (fits_below (pow * 10) hi)) [
  | inl fits ↦
      let (k, same, low, high) =
        grow_lem fuel hi (pow * 10) (omega arith) (ground arith) word
          (omega (arith, scaled_times pow fuel)) in
      rw fits (
        suc k,
        same ∙ ap some (scaled_times pow k),
        omega (arith, low, scaled_times pow k),
        omega (arith, high, scaled_times pow k),
      )
  | inr over ↦ rw over (0, refl, le, ground arith)
]

answer_positive :
    (value min max : Zatoshis)
    → 0 < value.amount
    → value.amount < 2 ^ 64
    → (b : Bool) × (is_canonical_within value min max ≡ some b)
      × ((b ≡ true)
          ↔ ((min.amount ≤ value.amount) × (value.amount ≤ max.amount) × IsOnSeries value.amount))
unfolding is_canonical_within
answer_positive value min max positive word =
    let (r, ends, (there, back)) = strip_zeros_lem 20 value.amount positive (omega arith) in
    elim (Bool-cases (ltb value.amount min.amount || ltb max.amount value.amount)) [
      | inl outside ↦
          rw outside (false, refl, (λ e. cc, λ (low, high, series). absurd (ground arith)))
      | inr inside ↦
          rw (inside, ends)
            (
              one_two_five r,
              refl,
              (λ e. (ground arith, ground arith, there e), λ (low, high, series). back series),
            )
    ]

-- A value of zero is refused by a lower bound that is not zero, and never answered under one that is.
answer_zero :
    (value min max : Zatoshis)
    → value.amount ≡ 0
    → ((min.amount ≡ 0) → is_canonical_within value min max ≡ none)
      × ((0 < min.amount) → is_canonical_within value min max ≡ some false)
unfolding is_canonical_within
answer_zero value min max empty = (
  λ h.
      let inside : (ltb value.amount min.amount || ltb max.amount value.amount) ≡ false =
        ground arith in
      rw (inside, empty, strip_zeros-zero 20) refl,
  λ h.
      let outside : (ltb value.amount min.amount || ltb max.amount value.amount) ≡ true =
        ground arith in
      rw outside refl,
)

-- For a value that is a u64, the answer is yes exactly when the value is within the bounds and on the
-- series. The call gives an answer unless the value and the lower bound are both zero; then the loop
-- does not end, in however many steps.
pub is_canonical_within_iff :
    (value min max : Zatoshis)
    → value.amount < 2 ^ 64
    → ((is_canonical_within value min max ≡ some true)
        ↔ ((min.amount ≤ value.amount) × (value.amount ≤ max.amount) × IsOnSeries value.amount))
      × ((is_canonical_within value min max ≡ none) ↔ ((value.amount ≡ 0) × (min.amount ≡ 0)))
      × ((fuel : ℕ) → strip_zeros fuel 0 ≡ none)
is_canonical_within_iff value min max word = elim (Bool-cases (value.amount == 0)) [
  | inl e ↦
      let empty : value.amount ≡ 0 = ground arith in
      let (never, refused) = answer_zero value min max empty in
      elim (Bool-cases (min.amount == 0)) [
        | inl e' ↦ rw (never (ground arith)) (
          (λ t. cc, λ (low, high, series). absurd (omega (arith, empty, series_positive series))),
          (λ t. (empty, ground arith), λ t. refl),
          strip_zeros-zero,
        )
        | inr e' ↦ rw (refused (ground arith)) (
          (λ t. cc, λ (low, high, series). absurd (omega (arith, empty, series_positive series))),
          (λ t. cc, λ (z, m). absurd (ground arith)),
          strip_zeros-zero,
        )
      ]
  | inr e ↦
      let (b, same, (there, back)) = answer_positive value min max (ground arith) word in
      rw same (
        (λ t. there (cc), λ t. ap some (back t)),
        (λ t. cc, λ (z, m). absurd (ground arith)),
        strip_zeros-zero,
      )
]

step_up : (n j k : ℕ) → j < k → scaled n j * 10 ≤ scaled n k
step_up n j zero h = absurd (omega arith)
step_up n j (suc k) h = elim (Bool-cases (j == k)) [
  | inl same ↦ let e : j ≡ k = ground arith in omega (arith, ap (scaled n) e)
  | inr less ↦ omega (arith, step_up n j k (ground arith))
]

multiple_cases :
    (s m : ℕ) → one_two_five m ≡ true → (s * m ≡ s) ⊎ ((s * m ≡ 2 * s) ⊎ (s * m ≡ 5 * s))
multiple_cases s m h = ground arith

-- What the loop over 5, 2 and 1 picks.
largest_multiple_lem :
    (hi pow : ℕ)
    → pow ≤ hi
    → hi < 2 ^ 64
    → (largest_multiple hi pow ≤ hi)
      × ((m : ℕ) × (one_two_five m ≡ true) × (largest_multiple hi pow ≡ pow * m))
      × ((m : ℕ) → one_two_five m ≡ true → pow * m ≤ hi → pow * m ≤ largest_multiple hi pow)
      × (pow ≤ largest_multiple hi pow)
unfolding largest_multiple
largest_multiple_lem hi pow le word = elim (Bool-cases (fits_below (pow * 5) hi)) [
  | inl five ↦
      rw five (
        ground arith,
        (5, refl, refl),
        λ m e l. ground (arith, multiple_cases pow m e),
        omega arith,
      )
  | inr not_five ↦ elim (Bool-cases (fits_below (pow * 2) hi)) [
    | inl two ↦
        rw (not_five, two)
          (
            ground arith,
            (2, refl, refl),
            λ m e l. ground (arith, multiple_cases pow m e),
            omega arith,
          )
    | inr not_two ↦
        let one : fits_below (pow * 1) hi ≡ true = ground arith in
        rw (not_five, not_two, one)
          (
            omega arith,
            (1, refl, refl),
            λ m e l. ground (arith, multiple_cases pow m e),
            omega arith,
          )
  ]
]

-- A value of the series that does not exceed the bound does not exceed what was picked.
beaten :
    {hi p r : ℕ} (floor n j k : ℕ)
    → one_two_five n ≡ true
    → scaled floor j * n ≤ hi
    → p ≡ scaled floor k
    → hi < p * 10
    → ((m : ℕ) → one_two_five m ≡ true → p * m ≤ hi → p * m ≤ r)
    → p ≤ r
    → scaled floor j * n ≤ r
beaten {hi} {p} {r} floor n j k e l same high greatest least = elim (Bool-cases (ltb j k)) [
  | inl less ↦
      let up = step_up floor j k (ground arith) in
      ground (arith, up, multiple_cases (scaled floor j) n e)
  | inr not_less ↦ elim (Bool-cases (j == k)) [
    | inl equal ↦
        let there : scaled floor j ≡ p = ap (scaled floor) (ground arith) ∙ sym same in
        rw there (greatest n e (rw there at l))
    | inr more ↦
        let up = step_up floor k j (ground arith) in
        absurd (ground (arith, up, multiple_cases (scaled floor j) n e))
  ]
]

-- From a first value that is not zero and does not exceed the u64 bound, a value is found; it does not
-- exceed the bound, is one, two or five times the first value with zeros behind it, and is the
-- greatest such value that does not exceed the bound.
pub largest_one_two_five-greatest :
    (hi floor : ℕ)
    → 0 < floor
    → floor ≤ hi
    → hi < 2 ^ 64
    → (r : ℕ) × (largest_one_two_five hi floor ≡ some r)
      × (r ≤ hi)
      × ((m : ℕ) × (k : ℕ) × (one_two_five m ≡ true) × (r ≡ scaled floor k * m))
      × ((m k : ℕ) → one_two_five m ≡ true → scaled floor k * m ≤ hi → scaled floor k * m ≤ r)
unfolding largest_one_two_five
largest_one_two_five-greatest hi floor positive le word =
    let started : ltb hi floor ≡ false = ground arith in
    let (k, same, low, high) = grow_lem 20 hi floor positive le word (omega arith) in
    let p = scaled floor k in
    let (below, (m, e, value), greatest, least) = largest_multiple_lem hi p low word in
    rw (started, same)
      (
        largest_multiple hi p,
        refl,
        below,
        (m, k, e, value),
        λ n j e' l. beaten floor n j k e' l refl high greatest least,
      )

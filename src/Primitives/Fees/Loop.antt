-- ===== src/Primitives/Fees/Loop.antt =====
-- The sums and the loop of the fee rule, and its rounded division.
use native.Mathlib.Nat.{mul_comm, div-le_of_le-mul}
use native.Mathlib.Decide.{dec_lt}
use auzum_zcash.Base.{
  ℕ, ◌+◌, ◌*◌, ◌/◌, ◌%◌, ◌^◌, ◌≤◌, ◌<◌, ◌≡◌, sym, ap, ◌∙◌, arith, List, [], ◌∷◌, ◌++◌, append_assoc,
  append-nil,
}
use auzum_zcash.Primitives.Fees.{InputSize, known, unknown, ceildiv, sum_usize, scan_inputs}

abbrev pub total : List ℕ → ℕ
total [] = 0
total (size ∷ sizes) = size + total sizes

sum_usize-eq :
    (acc : ℕ) (sizes : List ℕ)
    → acc + total sizes < 2 ^ 64
    → sum_usize acc sizes ≡ acc + total sizes
unfolding sum_usize
sum_usize-eq acc [] h = omega arith
sum_usize-eq acc (size ∷ sizes) h =
    let fits : (acc + size) % 2 ^ 64 ≡ acc + size = omega arith in
    rw fits (omega (arith, sum_usize-eq (acc + size) sizes (omega arith)))

-- Sums that fit a usize do not wrap.
pub sum_usize-total : (sizes : List ℕ) → total sizes < 2 ^ 64 → sum_usize 0 sizes ≡ total sizes
sum_usize-total sizes h = omega (arith, sum_usize-eq 0 sizes (omega arith))

module _ {OutPoint : Type 0} where
  abbrev pub known_sizes : List (InputSize OutPoint) → List ℕ
  known_sizes [] = []
  known_sizes (known size ∷ sizes) = size ∷ known_sizes sizes
  known_sizes (unknown outpoint ∷ sizes) = known_sizes sizes

  abbrev pub unknown_outpoints : List (InputSize OutPoint) → List OutPoint
  unknown_outpoints [] = []
  unknown_outpoints (known size ∷ sizes) = unknown_outpoints sizes
  unknown_outpoints (unknown outpoint ∷ sizes) = outpoint ∷ unknown_outpoints sizes

  scan_inputs-from :
      (acc : ℕ) (found : List OutPoint) (sizes : List (InputSize OutPoint))
      → scan_inputs acc found sizes
        ≡ (sum_usize acc (known_sizes sizes), found ++ unknown_outpoints sizes)
  unfolding scan_inputs sum_usize
  scan_inputs-from acc found [] = ap (λ t. (acc, t)) (sym (append-nil found))
  scan_inputs-from acc found (known size ∷ sizes) =
      scan_inputs-from ((acc + size) % 2 ^ 64) found sizes
  scan_inputs-from acc found (unknown outpoint ∷ sizes) =
      scan_inputs-from acc (found ++ outpoint ∷ []) sizes
      ∙ ap (λ t. (sum_usize acc (known_sizes sizes), t))
          (append_assoc found (outpoint ∷ []) (unknown_outpoints sizes))

  -- The loop sums the known sizes and keeps the unknown outpoints in order.
  pub scan_inputs_lem :
      (sizes : List (InputSize OutPoint))
      → scan_inputs 0 [] sizes ≡ (sum_usize 0 (known_sizes sizes), unknown_outpoints sizes)
  scan_inputs_lem sizes = scan_inputs-from 0 [] sizes

-- The rounded division is the least number of parts that hold all.
pub le-ceildiv : (num den : ℕ) → 0 < den → num ≤ ceildiv num den * den
unfolding ceildiv
le-ceildiv num den h = grind arith

pub ceildiv-le : (num den k : ℕ) → 0 < den → num ≤ k * den → ceildiv num den ≤ k
unfolding ceildiv
ceildiv-le num den k h e =
    let swapped : num ≤ den * k = rw (mul_comm den k) e in
    let below : num / den ≤ k = div-le_of_le-mul den swapped in
    elim (dec_lt (num / den) k) [
      | yes under ↦ ground arith
      | no over ↦
          let same : k ≡ num / den = omega arith in
          let exact : num ≤ den * (num / den) = rw same at swapped in ground arith
    ]

pub ceildiv_mono : (a b den : ℕ) → 0 < den → a ≤ b → ceildiv a den ≤ ceildiv b den
ceildiv_mono a b den h e = ceildiv-le a den (ceildiv b den) h (omega (arith, le-ceildiv b den h))

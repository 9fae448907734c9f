-- ===== src/Protocol/Zip318/Grid.antt =====
-- Expiry heights and anchor boundaries.
use native.Mathlib.Nat.{
  div-add-mod', mod-lt, mul-mod_left, le-div_iff_mul-le, mul-le-mul_right, suc-mul,
}
use auzum_zcash.Base.{
  Bool-cases, inl, inr, ℕ, suc, ◌+◌, ◌-◌, ◌*◌, ◌/◌, ◌%◌, ◌≤◌, ◌<◌, ◌≡◌, refl, sym, ◌∙◌, arith, true,
  false, ltb, leb, ◌==◌,
}
use auzum_zcash.Protocol.Consensus.{BlockHeight, max_height, add_height}
use auzum_zcash.Protocol.Zip318.{
  expiry_modulus, expiry_window, expiry_height, AnchorBucketInterval, is_boundary,
  boundary_at_or_below, boundary_at_or_above,
}

-- As long as the window ends within the heights, the expiry height is a multiple of the modulus,
-- more than one modulus and at most the window above the target height, and every target height of
-- the same period has the same expiry height.
pub expiry_height-bounds :
    (h : BlockHeight)
    → h + expiry_window ≤ max_height
    → (expiry_height h % expiry_modulus ≡ 0)
      × (h + expiry_modulus < expiry_height h)
      × (expiry_height h ≤ h + expiry_window)
      × ((k : BlockHeight)
          → k / expiry_modulus ≡ h / expiry_modulus
          → k + expiry_window ≤ max_height
          → expiry_height k ≡ expiry_height h)
unfolding expiry_height add_height
expiry_height-bounds h fits =
    (ground arith, ground arith, ground arith, λ k same fits'. ground arith)

-- At the largest height the expiry height is not above the target height.
pub expiry_height-last : expiry_height max_height ≡ max_height
unfolding expiry_height add_height
expiry_height-last = refl

multiple :
    (i : AnchorBucketInterval) (k : BlockHeight)
    → is_boundary i k ≡ true
    → k ≡ k / i.blocks * i.blocks
unfolding is_boundary
multiple i k e =
    let none_left : k % i.blocks ≡ 0 = ground arith in
    sym (div-add-mod' k i.blocks) ∙ rw none_left (omega arith)

multiple-is_boundary : (i : AnchorBucketInterval) (q : ℕ) → is_boundary i (q * i.blocks) ≡ true
unfolding is_boundary
multiple-is_boundary i q = rw (mul-mod_left q i.blocks) refl

below_eq :
    (i : AnchorBucketInterval) (h : BlockHeight)
    → boundary_at_or_below i h ≡ h / i.blocks * i.blocks
unfolding boundary_at_or_below
below_eq i h = omega (arith, div-add-mod' h i.blocks)

-- The boundary at or below a height is a boundary, and the greatest that does not exceed the height.
pub boundary_at_or_below-greatest :
    (i : AnchorBucketInterval) (h : BlockHeight)
    → 0 < i.blocks
    → (is_boundary i (boundary_at_or_below i h) ≡ true)
      × (boundary_at_or_below i h ≤ h)
      × ((k : BlockHeight) → is_boundary i k ≡ true → k ≤ h → k ≤ boundary_at_or_below i h)
boundary_at_or_below-greatest i h hd = rw (below_eq i h) (
  multiple-is_boundary i (h / i.blocks),
  omega (arith, div-add-mod' h i.blocks),
  λ k bk le.
      let parts = multiple i k bk in
      let quotient : k / i.blocks ≤ h / i.blocks =
        (le-div_iff_mul-le hd).1 (omega (arith, parts, le)) in
      omega (arith, parts, mul-le-mul_right i.blocks quotient),
)

least :
    (i : AnchorBucketInterval) (h k : BlockHeight)
    → (h % i.blocks == 0) ≡ false
    → is_boundary i k ≡ true
    → h ≤ k
    → suc (h / i.blocks) * i.blocks ≤ k
least i h k off bk le =
    let parts = multiple i k bk in
    let above : 0 < h % i.blocks = ground arith in
    elim (Bool-cases (leb (k / i.blocks) (h / i.blocks))) [
      | inl low ↦
          let few : k / i.blocks ≤ h / i.blocks = ground arith in
          absurd (
            omega (arith, above, le, parts, div-add-mod' h i.blocks, mul-le-mul_right i.blocks few))
      | inr high ↦
          let many : suc (h / i.blocks) ≤ k / i.blocks = ground arith in
          omega (arith, parts, mul-le-mul_right i.blocks many)
    ]

-- Where a whole interval above the height is within the heights, the boundary at or above a height is a boundary, and the
-- least that is not below the height.
pub boundary_at_or_above-least :
    (i : AnchorBucketInterval) (h : BlockHeight)
    → 0 < i.blocks
    → h + i.blocks ≤ max_height
    → (is_boundary i (boundary_at_or_above i h) ≡ true)
      × (h ≤ boundary_at_or_above i h)
      × ((k : BlockHeight) → is_boundary i k ≡ true → h ≤ k → boundary_at_or_above i h ≤ k)
unfolding boundary_at_or_above add_height
boundary_at_or_above-least i h hd fits = elim (Bool-cases (h % i.blocks == 0)) [
  | inl on ↦ rw on (unfold is_boundary in on, omega arith, λ k bk le. le)
  | inr off ↦
      let q = h / i.blocks in
      let r = h % i.blocks in
      let small = mod-lt h hd in
      let inside : ltb max_height (h + (i.blocks - r)) ≡ false = ground arith in
      let next : h + (i.blocks - r) ≡ suc q * i.blocks =
        omega (arith, div-add-mod' h i.blocks, suc-mul q i.blocks, small) in
      rw (off, inside, next)
        (
          multiple-is_boundary i (suc q),
          omega (arith, next, small),
          λ k bk le. least i h k off bk le,
        )
]

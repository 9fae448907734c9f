-- ===== src/Bft/Block/Checks.antt =====
-- Laws of `check_headers`, `BftBlock::new` and `BftBlockV2Data::new`.
use auzum_zcash.Base.{
  ℕ, suc, ◌^◌, ◌≤◌, ◌<◌, ◌≡◌, ◌↔◌, refl, ap, arith, false, not, List, [], ◌∷◌, length, All, Option,
  none, some, ltb, ◌==◌, eq_bytes_iff, Bool-cases, inl, inr, subst,
}
use auzum_zcash.Base.Outcome.{Outcome, success, failure}
use auzum_zcash.Bft.HardFork.{HardForkConfig, IsHardFork}
use auzum_zcash.Bft.Params.{ZcashCrosslinkParameters, EquihashParameters}
use auzum_zcash.Bft.PowHeader.{
  PowCrates, EncodedPowHeader, version, prev_block_hash, header_hash, check_pow, min_header_version,
}
use auzum_zcash.Bft.Block.{
  InvalidBftBlock, BftBlock, BftBlockV2Data, v2_plus, then_check, check_versions, check_links,
  check_solutions, check_headers, checked, new_block, new_v2_data, IsVersion,
}

abbrev pub IsKnown : EncodedPowHeader → Type 0
IsKnown h = min_header_version ≤ version h

-- Each header names the hash of the one before it.
abbrev pub IsChain : PowCrates → List EncodedPowHeader → Type 0
IsChain crates [] = Unit {0}
IsChain crates (h ∷ []) = Unit {0}
IsChain crates (h ∷ j ∷ hs) =
    ((prev_block_hash j).bytes ≡ (header_hash crates h).bytes) × IsChain crates (j ∷ hs)

module _ {E : Type 0} where
  check_versions_iff :
      (i : ℕ) (hs : List EncodedPowHeader) → (check_versions {E = E} i hs ≡ none) ↔ All IsKnown hs
  unfolding check_versions
  check_versions_iff i [] = (λ e. tt, λ h. refl)
  check_versions_iff i (h ∷ hs) =
      let rest = check_versions_iff (suc i) hs in
      (λ e. ground (arith, rest.0), λ k. ground (arith, rest.1))

  check_links_iff :
      (crates : PowCrates) (i : ℕ) (hs : List EncodedPowHeader)
      → (check_links {E = E} crates i hs ≡ none) ↔ IsChain crates hs
  unfolding check_links
  check_links_iff crates i [] = (λ e. tt, λ h. refl)
  check_links_iff crates i (h ∷ []) = (λ e. tt, λ h. refl)
  check_links_iff crates i (h ∷ j ∷ hs) =
      let rest = check_links_iff crates (suc i) (j ∷ hs) in
      let same = eq_bytes_iff (prev_block_hash j).bytes (header_hash crates h).bytes in
      (λ e. ground (arith, rest.0, same.0), λ k. ground (arith, rest.1, same.1))

  then_check_iff : (a b : Option E) → (then_check a b ≡ none) ↔ ((a ≡ none) × (b ≡ none))
  then_check_iff none b = (λ e. (refl, e), λ (p, q). q)
  then_check_iff (some x) b = (λ e. cc, λ (p, q). cc)

module _ (crates : PowCrates) where
  check_solutions_iff :
      (pow : EquihashParameters) (i : ℕ) (hs : List EncodedPowHeader)
      → (check_solutions crates pow i hs ≡ none) ↔ All (λ h. check_pow crates pow h ≡ none) hs
  unfolding check_solutions
  check_solutions_iff pow i [] = (λ e. tt, λ h. refl)
  check_solutions_iff pow i (h ∷ hs) =
      let rest = check_solutions_iff pow (suc i) hs in
      (λ e. ground (arith, rest.0), λ k. ground (arith, rest.1))

  -- The checks pass exactly for headers that are as many as the confirmation depth, each of a known
  -- version, each linked to the one before it, and each with a valid Equihash solution.
  pub check_headers_iff :
      (params : ZcashCrosslinkParameters) (pow : EquihashParameters) (hs : List EncodedPowHeader)
      → (check_headers crates params pow hs ≡ none) ↔ (
          (length hs ≡ params.pow_confirmation_depth_sigma)
          × All IsKnown hs
          × IsChain crates hs
          × All (λ h. check_pow crates pow h ≡ none) hs)
  unfolding check_headers
  check_headers_iff params pow hs =
      let versions = check_versions_iff {E = crates.EquihashError} 0 hs in
      let links = check_links_iff {E = crates.EquihashError} crates 0 hs in
      let solutions = check_solutions_iff pow 0 hs in
      let last = then_check_iff (check_links crates 0 hs) (check_solutions crates pow 0 hs) in
      let first =
        then_check_iff (check_versions 0 hs)
          (then_check (check_links crates 0 hs) (check_solutions crates pow 0 hs)) in
      (
        λ e. ground (arith, versions.0, links.0, solutions.0, last.0, first.0),
        λ (n, k, l, s).
            let count : not (length hs == params.pow_confirmation_depth_sigma) ≡ false =
              ground arith in
            rw count (first.1 (versions.1 k, last.1 (links.1 l, solutions.1 s))),
      )

  block_in : Outcome (InvalidBftBlock crates.EquihashError) BftBlock → BftBlock → BftBlock
  block_in (success b) c = b
  block_in (failure e) c = c

  checked-success :
      (given b : BftBlock) (o : Option (InvalidBftBlock crates.EquihashError))
      → checked crates given o ≡ success b
      → (o ≡ none) × (given ≡ b)
  unfolding block_in
  checked-success given b none e = (refl, ap (λ o. block_in o b) e)
  checked-success given b (some x) e = cc

  -- What is built from the parts of a block is the block with these parts; and it is built exactly when
  -- there are as many headers as the confirmation depth, each of a known version, each linked to the one
  -- before it, and each with a valid Equihash solution.
  pub new_block-success_iff :
      (params : ZcashCrosslinkParameters) (pow : EquihashParameters) (given b : BftBlock)
      → (new_block crates params pow given.version given.height given.previous_block_fat_ptr
            given.headers
          ≡ success b)
        ↔ ((given ≡ b)
            × (length given.headers ≡ params.pow_confirmation_depth_sigma)
            × All IsKnown given.headers
            × IsChain crates given.headers
            × All (λ h. check_pow crates pow h ≡ none) given.headers)
  unfolding new_block
  new_block-success_iff params pow given b =
      let checks = check_headers_iff params pow given.headers in
      (
        λ e.
            let (passed, same) =
              checked-success given b (check_headers crates params pow given.headers) e in
            let (count, known, chain, solved) = checks.0 passed in
            (same, count, known, chain, solved),
        λ (same, count, known, chain, solved).
            rw (checks.1 (count, known, chain, solved)) (ap success same),
      )

module _ {E : Type 0} where
  data_in : Outcome (InvalidBftBlock E) BftBlockV2Data → BftBlockV2Data → BftBlockV2Data
  data_in (success d) c = d
  data_in (failure e) c = c

  pub new_v2_data-parts :
      (v : ℕ) (forks : List HardForkConfig) (height : ℕ) (d : BftBlockV2Data)
      → new_v2_data {E = E} v forks height ≡ success d
      → (record { version = v; hardforks = forks; do_not_include_until_bc_height = height } ≡ d)
        × (2 ≤ v)
        × (length forks < 256)
  unfolding new_v2_data data_in
  new_v2_data-parts v forks height d e = elim (Bool-cases (ltb v 2)) [
    | inl low ↦ cc (rw low at e)
    | inr high ↦ elim (Bool-cases (ltb 255 (length forks))) [
      | inl many ↦ cc (rw (high, many) at e)
      | inr few ↦ (ap (λ o. data_in o d) (rw (high, few) at e), ground arith, ground arith)
    ]
  ]

  -- Version data that is built from hardfork rules that the format can hold, with at most 4096
  -- finalizers each, is within the bounds of the format.
  pub new_v2_data-IsVersion :
      (v : ℕ) (forks : List HardForkConfig) (height : ℕ) (d : BftBlockV2Data)
      → v < 2 ^ 32
      → height < 2 ^ 32
      → All IsHardFork forks
      → new_v2_data {E = E} v forks height ≡ success d
      → IsVersion (v2_plus d)
  new_v2_data-IsVersion v forks height d hv hh hf e =
      let (same, two, few) = new_v2_data-parts v forks height d e in
      subst (λ (t : BftBlockV2Data). IsVersion (v2_plus t)) same (two, hv, few, hf, hh)

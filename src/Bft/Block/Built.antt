-- ===== src/Bft/Block/Built.antt =====
-- Blocks as `BftBlockV2Data::new` and `BftBlock::new` build them, written and read.
use auzum_zcash.Base.{ℕ, ◌^◌, ◌≤◌, ◌<◌, ◌≡◌, subst, Bool, List, length, All, none, sym, ◌∙◌, ap}
use auzum_zcash.Base.Io.Decodes.{Decodes}
use auzum_zcash.Base.Outcome.{success}
use auzum_zcash.Bft.Keys.{BftHeight}
use auzum_zcash.Bft.FatPointer.{FatPointerToBftBlock, IsFatPointer}
use auzum_zcash.Bft.HardFork.{HardForkConfig, IsHardFork}
use auzum_zcash.Bft.Params.{ZcashCrosslinkParameters, EquihashParameters}
use auzum_zcash.Bft.PowHeader.{
  PowCrates, EncodedPowHeader, check_pow, read_pow_header, write_pow_header,
}
use auzum_zcash.Bft.Block.{
  BftBlock, BftBlockV2Data, v2_plus, max_header_count, new_block, new_v2_data, IsBlock, read_block,
  write_block,
}
use auzum_zcash.Bft.Block.Checks.{
  IsKnown, IsChain, new_block-success_iff, new_v2_data-parts, new_v2_data-IsVersion,
}
use auzum_zcash.Bft.Block.Codec.{Decodes-read_block}

module _ (crates : PowCrates) (crosslink : Bool) where
  -- A block that is built for a version from 2 on, from a version and heights that are u32, from
  -- hardfork rules and a fat pointer that the format can hold, and from headers that are read back from
  -- what they are written to, under a confirmation depth of at most 2048, has exactly these parts, has
  -- headers that pass every check, and is written without an error and read back, whatever follows.
  pub read_block-new_block :
      (params : ZcashCrosslinkParameters) (pow : EquihashParameters) (v : ℕ)
      (forks : List HardForkConfig) (until : ℕ) (d : BftBlockV2Data) (height : BftHeight)
      (previous : FatPointerToBftBlock) (headers : List EncodedPowHeader) (b : BftBlock)
      → v < 2 ^ 32
      → until < 2 ^ 32
      → height < 2 ^ 32
      → All IsHardFork forks
      → IsFatPointer previous
      → All (λ h. Decodes (write_pow_header h) (read_pow_header crates crosslink) h) headers
      → params.pow_confirmation_depth_sigma ≤ max_header_count
      → new_v2_data {E = crates.EquihashError} v forks until ≡ success d
      → new_block crates params pow (v2_plus d) height previous headers ≡ success b
      → Decodes (write_block b) (read_block crates crosslink) b
        × (b ≡ record {
          version =
              v2_plus
                (record { version = v; hardforks = forks; do_not_include_until_bc_height = until });
          height = height;
          previous_block_fat_ptr = previous;
          headers = headers;
        })
        × (length headers ≡ params.pow_confirmation_depth_sigma)
        × All IsKnown headers
        × IsChain crates headers
        × All (λ h. check_pow crates pow h ≡ none) headers
  read_block-new_block params pow v forks until d height previous headers b hv hu hh hf hp hs depth
        data_built built =
      let given : BftBlock = record {
        version = v2_plus d;
        height = height;
        previous_block_fat_ptr = previous;
        headers = headers;
      } in
      let (same, count, known, chain, solved) =
        (new_block-success_iff crates params pow given b).0 built in
      let (parts, _, _) = new_v2_data-parts v forks until d data_built in
      let fits : IsBlock crates crosslink given = record {
        version = new_v2_data-IsVersion v forks until d hv hu hf data_built;
        height = hh;
        previous = hp;
        few = rw count depth;
        headers = hs;
      } in
      (
        Decodes-read_block crates crosslink b (subst (IsBlock crates crosslink) same fits),
        sym same
            ∙ ap
                (λ (t : BftBlockV2Data). record {
                  version = v2_plus t;
                  height = height;
                  previous_block_fat_ptr = previous;
                  headers = headers;
                })
                (sym parts),
        count,
        known,
        chain,
        solved,
      )

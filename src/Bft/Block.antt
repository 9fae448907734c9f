-- ===== src/Bft/Block.antt =====
-- crates/bft_primitives/src/block.rs, from `BftBlockV2Data` on: BFT blocks, their stateless checks
-- and byte format, and notarized blocks.
pub mod Checks
pub mod Codec
pub mod Parsed
pub mod Built
pub mod Notarized
use Prim.Native.String.{String}
use auzum_zcash.Base.{
  ℕ, suc, ◌-◌, ◌^◌, ◌≤◌, ◌<◌, Bool, not, List, [], ◌∷◌, length, All, Option, none, some, ltb, leb,
  ◌==◌, eq_bytes, if◌then◌else◌,
}
use auzum_zcash.Base.Io.{
  Bytes, invalid_data, Result, ok, err, Reader, pure, fail, ◌>>=◌, ◌>>◌, Written, done, failed,
  read_u8, read_u32_le, write_u32_le, write_u64_le, write_len, read_times, write_each,
}
use auzum_zcash.Base.Io.Decodes.{Decodes}
use auzum_zcash.Base.Outcome.{Outcome, success, failure}
use auzum_zcash.Bft.Keys.{Blake3Hash, BftHeight, IsU32}
use auzum_zcash.Bft.Vote.{Round}
use auzum_zcash.Bft.FatPointer.{
  FatPointerToBftBlock, FatPointerSignature, IsFatPointer, read_fat_pointer, write_fat_pointer,
  from_parts,
}
use auzum_zcash.Bft.HardFork.{
  HardForkConfig, IsHardFork, read_hard_fork, write_hard_fork, read_block_height_u64,
}
use auzum_zcash.Bft.Params.{ZcashCrosslinkParameters, EquihashParameters}
use auzum_zcash.Bft.PowHeader.{
  PowCrates, PowBlockHash, EncodedPowHeader, read_pow_header, write_pow_header, version,
  prev_block_hash, header_hash, check_pow, min_header_version,
}

abbrev pub max_header_count : ℕ
max_header_count = 2048

abbrev pub max_hardforks_per_block : ℕ
max_hardforks_per_block = 255

-- `E` is the error of the Equihash crate.
pub data InvalidBftBlock (E : Type 0) : Type 0 where
  unsupported_version : (version : ℕ) → InvalidBftBlock E
  too_many_hardforks : (count : ℕ) → InvalidBftBlock E
  incorrect_confirmation_depth : (expected actual : ℕ) → InvalidBftBlock E
  unknown_header_version : (index version : ℕ) → InvalidBftBlock E
  broken_header_chain : (index : ℕ) → InvalidBftBlock E
  invalid_equihash_solution : (index : ℕ) → E → InvalidBftBlock E

pub record BftBlockV2Data : Type 0 where
  pub version : ℕ
  pub hardforks : List HardForkConfig
  pub do_not_include_until_bc_height : ℕ

unfoldable pub new_v2_data :
    {E : Type 0} → ℕ → List HardForkConfig → ℕ → Outcome (InvalidBftBlock E) BftBlockV2Data
new_v2_data version hardforks height =
    if ltb version 2
    then failure (unsupported_version version)
    else if ltb max_hardforks_per_block (length hardforks)
    then failure (too_many_hardforks (length hardforks))
    else success (record {
      version = version;
      hardforks = hardforks;
      do_not_include_until_bc_height = height;
    })

pub data BftBlockVersion : Type 0 where
  v1 : BftBlockVersion
  v2_plus : BftBlockV2Data → BftBlockVersion

pub record BftBlock : Type 0 where
  pub version : BftBlockVersion
  pub height : BftHeight
  pub previous_block_fat_ptr : FatPointerToBftBlock
  pub headers : List EncodedPowHeader

abbrev pub number_of : BftBlockVersion → ℕ
number_of v1 = 1
number_of (v2_plus data_of) = data_of.version

unfoldable pub version_number : BftBlock → ℕ
version_number b = number_of b.version

unfoldable pub finalization_candidate : BftBlock → Option EncodedPowHeader
finalization_candidate b = elim b.headers [ [] ↦ none | h ∷ hs ↦ some h ]

-- A failure ends the checks; `none` is `Ok(())`.
abbrev pub then_check : {E : Type 0} → Option E → Option E → Option E
then_check (some e) next = some e
then_check none next = next

unfoldable pub check_versions :
    {E : Type 0} → ℕ → List EncodedPowHeader → Option (InvalidBftBlock E)
check_versions index [] = none
check_versions index (h ∷ hs) =
    let rest = check_versions (suc index) hs in
    if ltb (version h) min_header_version
    then some (unknown_header_version index (version h))
    else rest

-- `index` is the position of the first header of the list.
unfoldable pub check_links :
    {E : Type 0} → PowCrates → ℕ → List EncodedPowHeader → Option (InvalidBftBlock E)
check_links crates index [] = none
check_links crates index (h ∷ []) = none
check_links crates index (h ∷ j ∷ hs) =
    let rest = check_links crates (suc index) (j ∷ hs) in
    if not (eq_bytes (prev_block_hash j).bytes (header_hash crates h).bytes)
    then some (broken_header_chain (suc index))
    else rest

module _ (crates : PowCrates) where
  unfoldable pub check_solutions :
      EquihashParameters → ℕ → List EncodedPowHeader → Option (InvalidBftBlock crates.EquihashError)
  check_solutions pow index [] = none
  check_solutions pow index (h ∷ hs) =
      let rest = check_solutions pow (suc index) hs in
      elim (check_pow crates pow h) [
        | none ↦ rest
        | some e ↦ some (invalid_equihash_solution index e)
      ]

  unfoldable pub check_headers :
      ZcashCrosslinkParameters
      → EquihashParameters
      → List EncodedPowHeader
      → Option (InvalidBftBlock crates.EquihashError)
  check_headers params pow headers =
      let expected = params.pow_confirmation_depth_sigma in
      let actual = length headers in
      if not (actual == expected)
      then some (incorrect_confirmation_depth expected actual)
      else then_check (check_versions 0 headers)
          (then_check (check_links crates 0 headers) (check_solutions pow 0 headers))

  abbrev checked :
      BftBlock
      → Option (InvalidBftBlock crates.EquihashError)
      → Outcome (InvalidBftBlock crates.EquihashError) BftBlock
  checked b none = success b
  checked b (some e) = failure e

  unfoldable pub new_block :
      ZcashCrosslinkParameters
      → EquihashParameters
      → BftBlockVersion
      → BftHeight
      → FatPointerToBftBlock
      → List EncodedPowHeader
      → Outcome (InvalidBftBlock crates.EquihashError) BftBlock
  new_block params pow version height previous headers =
      checked
        (record {
          version = version;
          height = height;
          previous_block_fat_ptr = previous;
          headers = headers;
        })
        (check_headers params pow headers)

  unfoldable pub check_stateless :
      ZcashCrosslinkParameters
      → EquihashParameters
      → BftBlock
      → Option (InvalidBftBlock crates.EquihashError)
  check_stateless params pow b = check_headers params pow b.headers

-- The height that is stored: counted from 1 in a block of version 1.
unfoldable pub read_block_height : ℕ → Reader BftHeight
read_block_height version = do
  raw_height ← read_u32_le
  if ltb version 2
      then if raw_height == 0
        then fail
            (invalid_data "v1 BFT block has a zero serialized height, which cannot be normalized")
        else pure (raw_height - 1)
      else pure raw_height

unfoldable pub write_block_height : BftBlockVersion → BftHeight → Written
write_block_height v1 height =
    if not (ltb (suc height) (2 ^ 32))
    then failed [] (invalid_data "v1 BFT height out of range")
    else write_u32_le (suc height)
write_block_height (v2_plus data_of) height = write_u32_le height

unfoldable pub read_version_data : ℕ → Reader BftBlockVersion
read_version_data version =
    if leb 2 version
    then (do
      hardfork_count ← read_u8
      hardforks ← read_times hardfork_count read_hard_fork
      height ← read_block_height_u64
      pure (
          v2_plus (record {
            version = version;
            hardforks = hardforks;
            do_not_include_until_bc_height = height;
          })))
    else pure v1

unfoldable pub write_version_data : BftBlockVersion → Written
write_version_data v1 = done []
write_version_data (v2_plus data_of) = do
  write_len 1 (length data_of.hardforks) "too many hardforks"
  write_each write_hard_fork data_of.hardforks
  write_u64_le data_of.do_not_include_until_bc_height

module _ (crates : PowCrates) (crosslink : Bool) where
  -- The four bytes behind the previous block's fat pointer are read and dropped.
  unfoldable pub read_block_body : ℕ → Reader BftBlock
  read_block_body version = do
    height ← read_block_height version
    previous_block_fat_ptr ← read_fat_pointer
    slot ← read_u32_le
    header_count ← read_u32_le
    if ltb max_header_count header_count
        then fail (invalid_data "header_count was greater than 2048.")
        else do
          headers ← read_times header_count (read_pow_header crates crosslink)
          version ← read_version_data version
          pure (record {
            version = version;
            height = height;
            previous_block_fat_ptr = previous_block_fat_ptr;
            headers = headers;
          })

  unfoldable pub read_block : Reader BftBlock
  read_block = do
    version ← read_u32_le
    if version == 0
        then fail (invalid_data "BFT block version 0 is not valid")
        else read_block_body version

unfoldable pub write_block : BftBlock → Written
write_block b = do
  write_u32_le (version_number b)
  write_block_height b.version b.height
  write_fat_pointer b.previous_block_fat_ptr
  write_u32_le 0
  write_len 4 (length b.headers) "too many headers"
  write_each write_pow_header b.headers
  write_version_data b.version

unfoldable pub block_bytes : BftBlock → Result Bytes
block_bytes b = elim (write_block b) [ done buf ↦ ok buf | failed buf e ↦ err e ]

-- What a block's fields are, for the format to hold it.
abbrev pub IsVersion : BftBlockVersion → Type 0
IsVersion v1 = Unit {0}
IsVersion (v2_plus data_of) =
    (2 ≤ data_of.version)
    × IsU32 data_of.version
    × (length data_of.hardforks < 256)
    × All IsHardFork data_of.hardforks
    × IsU32 data_of.do_not_include_until_bc_height

abbrev pub IsHeight : BftBlockVersion → BftHeight → Type 0
IsHeight v1 height = suc height < 2 ^ 32
IsHeight (v2_plus data_of) height = IsU32 height

pub record IsBlock (crates : PowCrates) (crosslink : Bool) (b : BftBlock) : Type 0 where
  pub version : IsVersion b.version
  pub height : IsHeight b.version b.height
  pub previous : IsFatPointer b.previous_block_fat_ptr
  pub few : length b.headers ≤ max_header_count
  pub headers :
      All (λ h. Decodes (write_pow_header h) (read_pow_header crates crosslink) h) b.headers

-- `keyed_hash` is BLAKE3 under the key that is derived from a domain string.
module _ (keyed_hash : String → Bytes → Bytes) where
  abbrev hash_of_bytes : Result Bytes → Result Blake3Hash
  hash_of_bytes (ok bytes) = ok (record { bytes = keyed_hash "BFT Value ID" bytes })
  hash_of_bytes (err e) = err e

  unfoldable pub block_hash : BftBlock → Result Blake3Hash
  block_hash b = hash_of_bytes (block_bytes b)

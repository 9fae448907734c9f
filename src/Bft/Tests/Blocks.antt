-- ===== src/Bft/Tests/Blocks.antt =====
-- The laws of parameters, headers and blocks, at sample data.
use Prim.Native.String.{String}
use auzum_zcash.Base.{
  ◌+◌, ◌*◌, ◌^◌, ◌≤◌, ◌≡◌, ◌↔◌, refl, arith, Bool, true, false, ◌&&◌, [], ◌∷◌, ◌++◌, length,
  replicate, take, All, none, some, ltb, if◌then◌else◌,
}
use auzum_zcash.Base.Outcome.{success}
use auzum_zcash.Base.Io.{
  Bytes, IsByte, ok, done, read_u32_le, write_u32_le, to_le_bytes, ◌>>=◌, read_exact, from_le_bytes,
  read_le, collect, ◌>>◌, write_all, write_le, read_times, write_len, write_each,
}
use auzum_zcash.Base.Io.Decodes.{Decodes}
use auzum_zcash.Base.Io.Exact.{Exact, Exact-le, Exact-weaken}
use auzum_zcash.Base.Io.Local.{Local, Local-le}
use auzum_zcash.Bft.Keys.{read_blake3_hash, write_blake3_hash, verified}
use auzum_zcash.Bft.Vote.{
  precommit, read_height_u64, read_round_word, word_kind, write_round_word, verify_signed_vote,
}
use auzum_zcash.Bft.FatPointer.{
  FatPointerSignature, IsFatPointer, null, read_fat_pointer, write_fat_pointer, from_parts,
  verify_signatures,
}
use auzum_zcash.Bft.HardFork.{HardForkConfig, IsHardFork}
use auzum_zcash.Bft.Params.{new_parameters, zcash_equihash}
use auzum_zcash.Bft.Params.Bounds.{parameters, new_parameters-success_iff, new_parameters-wraps}
use auzum_zcash.Bft.PowHeader.{
  PowCrates, EncodedPowHeader, IsPowHeader, read_pow_header, write_pow_header, check_pow,
  read_solution, read_fat_pointer_bytes, has_fat_pointer, logical_header_version, version, solution,
}
use auzum_zcash.Bft.PowHeader.Codec.{Exact-read_pow_header, read_pow_header-again}
use auzum_zcash.Bft.Block.{
  BftBlock, BftBlockV2Data, v1, v2_plus, IsBlock, read_block, write_block, block_bytes, block_hash,
  check_headers, new_block, new_v2_data, read_block_body, read_block_height, read_version_data,
  write_block_height, write_version_data, check_versions, check_links, check_solutions,
}
use auzum_zcash.Bft.Block.Checks.{IsKnown, IsChain, check_headers_iff, new_block-success_iff}
use auzum_zcash.Bft.Block.Codec.{Decodes-read_block}
use auzum_zcash.Bft.Block.Parsed.{read_block-again}
use auzum_zcash.Bft.Block.Notarized.{
  NotarizedBftBlock, notarize, precommit_for, notarize-verify_signatures,
}
use auzum_zcash.Bft.Block.Built.{read_block-new_block}
use auzum_zcash.Bft.Tests.{repeated-IsBytes, key, hash_of, signature, toy, toy_batch_sound}

-- Sizes of four bytes, a hash that keeps 32 bytes, and solutions of 36 bytes valid.
abbrev sample_crates : PowCrates
sample_crates = record {
  EquihashError = Bytes;
  read_compact_size = read_u32_le;
  write_compact_size = write_u32_le;
  sha256 = λ bs. take 32 bs;
  is_valid_solution =
      λ n k input nonce solution. if ltb (length solution) 37 then none else some solution;
}

size_exact :
    Exact (done []) sample_crates.read_compact_size sample_crates.write_compact_size (λ n. Unit {0})
size_exact = Exact-weaken (Exact-le 4) (λ n h. tt)

size_stops : Local sample_crates.read_compact_size
size_stops = Local-le 4

abbrev all_small : Bytes → Bool
all_small [] = true
all_small (b ∷ bs) = ltb b 256 && all_small bs

small_bytes_are : (bs : Bytes) → all_small bs ≡ true → All IsByte bs
small_bytes_are [] h = tt
small_bytes_are (b ∷ bs) h = (ground arith, small_bytes_are bs (ground arith))

abbrev header_bytes : Bytes
header_bytes = to_le_bytes 4 4 ++ (replicate 136 0 ++ (to_le_bytes 4 36 ++ replicate 36 1))

header_bytes-IsByte : All IsByte (header_bytes ++ (7 ∷ []))
unfolding to_le_bytes
header_bytes-IsByte = small_bytes_are (header_bytes ++ (7 ∷ [])) refl

abbrev sample_header : EncodedPowHeader
sample_header = record { bytes = header_bytes; solution_start = 144; solution_len = 36 }

header_read :
    read_pow_header sample_crates false (header_bytes ++ (7 ∷ [])) ≡ ok (sample_header, 7 ∷ [])
unfolding read_pow_header ◌>>=◌ read_exact to_le_bytes from_le_bytes read_le read_solution collect
    ◌>>◌ write_all write_le read_fat_pointer_bytes has_fat_pointer logical_header_version
header_read = refl

Exact-read_pow_header_example :
    Exact (done []) (read_pow_header sample_crates true) write_pow_header IsPowHeader
Exact-read_pow_header_example = Exact-read_pow_header sample_crates true size_exact size_stops

new_parameters-success_iff_example :
    (new_parameters 3 7 ≡ success (parameters 3 7)) ↔ ((1 ≤ 3) × (2 * 3 ≤ 7))
new_parameters-success_iff_example = new_parameters-success_iff 3 7 (omega arith)

new_parameters-wraps_example : new_parameters (2 ^ 63 + 1) 2 ≡ success (parameters (2 ^ 63 + 1) 2)
new_parameters-wraps_example = new_parameters-wraps 1 2 (omega arith) (omega arith)

check_headers_iff_example :
    (check_headers sample_crates (parameters 1 2) zcash_equihash (sample_header ∷ []) ≡ none) ↔ (
      (length (sample_header ∷ []) ≡ 1)
      × All IsKnown (sample_header ∷ [])
      × IsChain sample_crates (sample_header ∷ [])
      × All (λ h. check_pow sample_crates zcash_equihash h ≡ none) (sample_header ∷ []))
check_headers_iff_example =
    check_headers_iff sample_crates (parameters 1 2) zcash_equihash (sample_header ∷ [])

null-IsFatPointer : IsFatPointer null
unfolding null
null-IsFatPointer = record {
  block_hash = repeated-IsBytes 32 0 (omega arith);
  height = omega arith;
  round = omega arith;
  few = omega arith;
  signatures = tt;
}

abbrev sample_block : BftBlock
sample_block = record {
  version = v1;
  height = 0;
  previous_block_fat_ptr = null;
  headers = sample_header ∷ [];
}

new_block-success_iff_example :
    (new_block sample_crates (parameters 1 2) zcash_equihash v1 0 null (sample_header ∷ [])
      ≡ success sample_block)
    ↔ ((sample_block ≡ sample_block)
        × (length (sample_header ∷ []) ≡ 1)
        × All IsKnown (sample_header ∷ [])
        × IsChain sample_crates (sample_header ∷ [])
        × All (λ h. check_pow sample_crates zcash_equihash h ≡ none) (sample_header ∷ []))
new_block-success_iff_example =
    new_block-success_iff sample_crates (parameters 1 2) zcash_equihash sample_block sample_block

abbrev sample_fork : HardForkConfig
sample_fork = record {
  pow_activation_height = 600;
  bft_certificate_height = 20;
  terminated_finalizers = key 3 ∷ [];
}

sample_fork-IsHardFork : IsHardFork sample_fork
sample_fork-IsHardFork = record {
  pow_activation_height = omega arith;
  bft_certificate_height = omega arith;
  few = omega arith;
  terminated_finalizers = (repeated-IsBytes 32 3 (omega arith), tt);
}

abbrev sample_data : BftBlockV2Data
sample_data = record {
  version = 2;
  hardforks = sample_fork ∷ [];
  do_not_include_until_bc_height = 900;
}

data_built :
    new_v2_data {E = sample_crates.EquihashError} 2 (sample_fork ∷ []) 900 ≡ success sample_data
unfolding new_v2_data
data_built = refl

abbrev sample_v2 : BftBlock
sample_v2 = record {
  version = v2_plus sample_data;
  height = 5;
  previous_block_fat_ptr = null;
  headers = sample_header ∷ [];
}

v2_built :
    new_block sample_crates
      (parameters 1 2)
      zcash_equihash
      (v2_plus sample_data)
      5
      null
      (sample_header ∷ [])
    ≡ success sample_v2
unfolding new_block check_headers check_versions check_links check_solutions check_pow version
    from_le_bytes to_le_bytes solution
v2_built = refl

sample_header-again :
    Decodes (write_pow_header sample_header) (read_pow_header sample_crates false) sample_header
sample_header-again =
    read_pow_header-again sample_crates false size_exact size_stops (header_bytes ++ (7 ∷ []))
      sample_header (7 ∷ []) header_bytes-IsByte header_read

read_block-new_block_example :
    Decodes (write_block sample_v2) (read_block sample_crates false) sample_v2
    × (sample_v2 ≡ sample_v2)
    × (length (sample_header ∷ []) ≡ 1)
    × All IsKnown (sample_header ∷ [])
    × IsChain sample_crates (sample_header ∷ [])
    × All (λ h. check_pow sample_crates zcash_equihash h ≡ none) (sample_header ∷ [])
read_block-new_block_example =
    read_block-new_block sample_crates false (parameters 1 2) zcash_equihash 2 (sample_fork ∷ [])
      900 sample_data 5 null (sample_header ∷ []) sample_v2 (omega arith) (omega arith)
      (omega arith) (sample_fork-IsHardFork, tt) null-IsFatPointer (sample_header-again, tt)
      (omega arith) data_built v2_built

sample_block-IsBlock : IsBlock sample_crates false sample_block
sample_block-IsBlock = record {
  version = tt;
  height = omega arith;
  previous = null-IsFatPointer;
  few = omega arith;
  headers = (sample_header-again, tt);
}

Decodes-read_block_example :
    Decodes (write_block sample_block) (read_block sample_crates false) sample_block
Decodes-read_block_example =
    Decodes-read_block sample_crates false sample_block sample_block-IsBlock

-- A block without headers, with a slot of ones.
abbrev small_bytes : Bytes
small_bytes =
    to_le_bytes 4 1 ++ (to_le_bytes 4 1 ++ (replicate 46 0 ++ (replicate 4 255 ++ to_le_bytes 4 0)))

abbrev small_block : BftBlock
small_block = record { version = v1; height = 0; previous_block_fat_ptr = null; headers = [] }

small_bytes-IsByte : All IsByte small_bytes
unfolding to_le_bytes
small_bytes-IsByte = small_bytes_are small_bytes refl

small_read : read_block sample_crates false small_bytes ≡ ok (small_block, [])
unfolding read_block ◌>>=◌ read_le to_le_bytes read_block_body read_block_height read_fat_pointer
    read_blake3_hash read_height_u64 read_round_word read_times read_version_data null word_kind
small_read = refl

read_block-again_example :
    Decodes (write_block small_block) (read_block sample_crates false) small_block
read_block-again_example =
    read_block-again sample_crates false size_exact size_stops small_bytes small_block []
      small_bytes-IsByte small_read

abbrev sample_hash : String → Bytes → Bytes
sample_hash domain bytes = replicate 32 9

abbrev sample_entry : FatPointerSignature
sample_entry = record { pub_key = key 7; signature = signature 7 }

abbrev sample_notarized : NotarizedBftBlock
sample_notarized = record {
  block = small_block;
  fat_ptr = record {
    block_hash = hash_of 9;
    height = 4;
    round = 1;
    kind = precommit;
    signatures = sample_entry ∷ [];
  };
}

small_notarized : notarize sample_hash small_block 4 1 (sample_entry ∷ []) ≡ ok sample_notarized
unfolding notarize block_hash block_bytes write_block ◌>>◌ write_le write_block_height
    write_fat_pointer write_blake3_hash write_round_word write_len null write_each
    write_version_data from_parts
small_notarized = refl

notarize-verify_signatures_example :
    (sample_notarized.block ≡ small_block)
    × (block_hash sample_hash small_block ≡ ok (hash_of 9))
    × ((verify_signatures toy sample_notarized.fat_ptr none tt ≡ verified)
        ↔ All
            (λ s. verify_signed_vote toy (precommit_for (hash_of 9) 4 1 s) none ≡ verified)
            (sample_entry ∷ []))
notarize-verify_signatures_example =
    notarize-verify_signatures toy toy_batch_sound sample_hash small_block 4 1 (sample_entry ∷ [])
      sample_notarized none tt small_notarized

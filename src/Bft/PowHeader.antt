-- ===== src/Bft/PowHeader.antt =====
-- crates/bft_primitives/src/block.rs, `EncodedPowHeader`: proof-of-work headers, kept as their
-- bytes. CompactSize, the hashes and the Equihash check are third-party crates, and parameters.
pub mod Codec
use Prim.Native.Nat.{bit_and}
use auzum_zcash.Base.{
  ℕ, zero, suc, ◌+◌, ◌-◌, ◌*◌, ◌/◌, ◌%◌, ◌^◌, ◌≤◌, ◌≡◌, ◌⊎◌, Bool, true, false, not, ◌&&◌, ◌||◌,
  List, [], Option, ◌++◌, length, take, drop, All, ltb, leb, ◌==◌, if◌then◌else◌,
}
use auzum_zcash.Base.Io.{
  Bytes, IsByte, invalid_data, Reader, pure, fail, collect, ◌>>=◌, ◌>>◌, Written, read_exact,
  write_all, from_le_bytes,
}
use auzum_zcash.Bft.FatPointer.{FatPointerToBftBlock, read_fat_pointer, write_fat_pointer}
use auzum_zcash.Bft.Params.{EquihashParameters}

abbrev pub header_prefix_bytes : ℕ
header_prefix_bytes = 140

abbrev pub equihash_input_bytes : ℕ
equihash_input_bytes = 108

abbrev pub header_nonce_bytes : ℕ
header_nonce_bytes = header_prefix_bytes - equihash_input_bytes

abbrev pub solution_bytes_mainnet : ℕ
solution_bytes_mainnet = 1344

abbrev pub solution_bytes_regtest : ℕ
solution_bytes_regtest = 36

abbrev pub min_header_version : ℕ
min_header_version = 4

abbrev pub fat_pointer_header_version : ℕ
fat_pointer_header_version = 5

pub record PowBlockHash : Type 0 where
  pub bytes : Bytes

pub record EncodedPowHeader : Type 0 where
  pub bytes : Bytes
  pub solution_start : ℕ
  pub solution_len : ℕ

-- What the code uses of the other crates: the variable-length integers of zcash_encoding, SHA-256,
-- and the Equihash check of (n, k, input, nonce, solution), whose result is its error, if any.
pub record PowCrates : Type 1 where
  pub EquihashError : Type 0
  pub read_compact_size : Reader ℕ
  pub write_compact_size : ℕ → Written
  pub sha256 : Bytes → Bytes
  pub is_valid_solution : ℕ → ℕ → Bytes → Bytes → Bytes → Option EquihashError

-- The k low bits of a number, in the opposite order.
unfoldable pub reverse_bits : ℕ → ℕ → ℕ
reverse_bits zero v = 0
reverse_bits (suc k) v = v % 2 * 2 ^ k + reverse_bits k (v / 2)

unfoldable pub logical_header_version : ℕ → ℕ
logical_header_version version =
    if not (bit_and version 0xffff_0000 == 0) then reverse_bits 32 version else version

-- `crosslink` is the build's cfg flag: set, every header carries a fat pointer.
unfoldable pub has_fat_pointer : Bool → ℕ → Bool
has_fat_pointer crosslink version =
    crosslink || leb fat_pointer_header_version (logical_header_version version)

-- The fat pointer of a header, if its version has one, written again.
unfoldable pub read_fat_pointer_bytes : Bool → ℕ → Reader Bytes
read_fat_pointer_bytes crosslink version =
    if has_fat_pointer crosslink version
    then (do
      fat_pointer ← read_fat_pointer
      bytes ← collect (write_fat_pointer fat_pointer)
      pure bytes)
    else pure []

abbrev is_solution_size : ℕ → Bool
is_solution_size n = n == solution_bytes_mainnet || n == solution_bytes_regtest

module _ (crates : PowCrates) (crosslink : Bool) where
  open crates use {read_compact_size, write_compact_size}

  -- The header's bytes, from the solution on, appended to what was read before it.
  unfoldable pub read_solution : Bytes → ℕ → Reader EncodedPowHeader
  read_solution prefix solution_len = do
    head ← collect (write_all prefix >> write_compact_size solution_len)
    solution ← read_exact solution_len
    tail ← read_fat_pointer_bytes crosslink (from_le_bytes (take 4 prefix))
    pure (record {
      bytes = head ++ (solution ++ tail);
      solution_start = length head;
      solution_len = solution_len;
    })

  unfoldable pub read_pow_header : Reader EncodedPowHeader
  read_pow_header = do
    prefix ← read_exact header_prefix_bytes
    if ltb (from_le_bytes (take 4 prefix)) min_header_version
        then fail (invalid_data "header version must be at least 4")
        else do
          solution_len ← read_compact_size
          if not (ltb solution_len (2 ^ 64))
              then fail (invalid_data "solution length overflow")
              else if not (is_solution_size solution_len)
              then fail (invalid_data "incorrect equihash solution size")
              else read_solution prefix solution_len

unfoldable pub write_pow_header : EncodedPowHeader → Written
write_pow_header h = write_all h.bytes

unfoldable pub version : EncodedPowHeader → ℕ
version h = from_le_bytes (take 4 h.bytes)

unfoldable pub prev_block_hash : EncodedPowHeader → PowBlockHash
prev_block_hash h = record { bytes = take 32 (drop 4 h.bytes) }

unfoldable pub header_hash : PowCrates → EncodedPowHeader → PowBlockHash
header_hash crates h = record { bytes = crates.sha256 (crates.sha256 h.bytes) }

unfoldable pub solution : EncodedPowHeader → Bytes
solution h = take h.solution_len (drop h.solution_start h.bytes)

unfoldable pub check_pow :
    (crates : PowCrates) → EquihashParameters → EncodedPowHeader → Option crates.EquihashError
check_pow crates pow h =
    crates.is_valid_solution pow.n pow.k (take equihash_input_bytes h.bytes)
      (take header_nonce_bytes (drop equihash_input_bytes h.bytes)) (solution h)

-- A header that was read: a known version, a whole prefix, and a solution of one of the two sizes.
pub record IsPowHeader (h : EncodedPowHeader) : Type 0 where
  pub known_version : min_header_version ≤ version h
  pub whole_prefix : header_prefix_bytes ≤ length h.bytes
  pub whole_solution : length (solution h) ≡ h.solution_len
  pub known_size :
      (h.solution_len ≡ solution_bytes_mainnet) ⊎ (h.solution_len ≡ solution_bytes_regtest)

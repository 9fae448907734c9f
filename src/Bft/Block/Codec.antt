-- ===== src/Bft/Block/Codec.antt =====
-- Laws of `BftBlock::write`, and of `BftBlock::read` on what was written.
use auzum_zcash.Base.{
  ℕ, suc, ◌-◌, ◌^◌, ◌≤◌, ◌<◌, ◌≡◌, refl, ap, arith, Bool, true, false, not, length, All-imp, ltb,
  leb, ◌==◌,
}
use auzum_zcash.Base.Io.{
  invalid_data, pure, ◌>>◌, Written, write_u32_le, write_each, write_len, err, write_le, write_all,
}
use auzum_zcash.Base.Io.Decodes.{
  Decodes, Decodes-le, Decodes-len, Decodes-bind, Decodes-last, Decodes-check, Decodes-times,
  Decodes-pure,
}
use auzum_zcash.Bft.Keys.{BftHeight}
use auzum_zcash.Bft.FatPointer.{write_fat_pointer}
use auzum_zcash.Bft.FatPointer.Codec.{Decodes-read_fat_pointer}
use auzum_zcash.Bft.HardFork.{write_hard_fork, read_hard_fork}
use auzum_zcash.Bft.HardFork.Codec.{Decodes-read_hard_fork, Decodes-read_block_height}
use auzum_zcash.Bft.PowHeader.{PowCrates, write_pow_header, read_pow_header}
use auzum_zcash.Bft.Block.{
  BftBlock, BftBlockVersion, v1, v2_plus, number_of, version_number, read_block_height,
  write_block_height, read_version_data, write_version_data, read_block_body, read_block,
  write_block, block_bytes, IsVersion, IsHeight, IsBlock,
}

Decodes-read_block_height_of :
    (v : BftBlockVersion) (h : BftHeight)
    → IsVersion v
    → IsHeight v h
    → Decodes (write_block_height v h) (read_block_height (number_of v)) h
unfolding read_block_height write_block_height
Decodes-read_block_height_of v1 h hv hh =
    let fits : not (ltb (suc h) (2 ^ 32)) ≡ false = ground arith in
    let positive : (suc h == 0) ≡ false = ground arith in
    rw fits
      (Decodes-last _ (Decodes-le 4 (suc h) (omega arith)) (rw positive (ap pure (omega arith))))
Decodes-read_block_height_of (v2_plus d) h hv hh =
    let late : ltb d.version 2 ≡ false = ground (arith, hv.0) in
    Decodes-last _ (Decodes-le 4 h (omega arith)) (rw late refl)

Decodes-read_version_data :
    (v : BftBlockVersion)
    → IsVersion v
    → Decodes (write_version_data v) (read_version_data (number_of v)) v
unfolding read_version_data write_version_data
Decodes-read_version_data v1 h = Decodes-pure v1
Decodes-read_version_data (v2_plus d) (two, _, few, forks, height) =
    let late : leb 2 d.version ≡ true = ground (arith, two) in
    rw late (
      Decodes-bind _ (Decodes-len 1 (length d.hardforks) _ (omega arith)) (
        Decodes-bind _
          (Decodes-times write_hard_fork read_hard_fork d.hardforks
            (All-imp Decodes-read_hard_fork d.hardforks forks))
          (Decodes-last _ (Decodes-read_block_height d.do_not_include_until_bc_height height)
            refl)))

number_of-bounds : (v : BftBlockVersion) → IsVersion v → (1 ≤ number_of v) × (number_of v < 2 ^ 32)
number_of-bounds v1 h = (omega arith, omega arith)
number_of-bounds (v2_plus d) h = (omega (arith, h.0), h.1)

-- The writer, with what it puts into the slot that is read and dropped.
abbrev pub write_with_slot : ℕ → BftBlock → Written
write_with_slot slot b =
    write_u32_le (version_number b)
    >> (write_block_height b.version b.height
        >> (write_fat_pointer b.previous_block_fat_ptr
            >> (write_u32_le slot
                >> (write_len 4 (length b.headers) "too many headers"
                    >> (write_each write_pow_header b.headers >> write_version_data b.version)))))

module _ (crates : PowCrates) (crosslink : Bool) where
  -- Whatever the dropped slot holds, the bytes of a block that the format can hold are read as that
  -- block: the slot is the one part of a block's bytes that the block does not determine.
  pub Decodes-write_with_slot :
      (slot : ℕ) (b : BftBlock)
      → slot < 2 ^ 32
      → IsBlock crates crosslink b
      → Decodes (write_with_slot slot b) (read_block crates crosslink) b
  unfolding read_block read_block_body version_number
  Decodes-write_with_slot slot b hs h =
      let (one, word) = number_of-bounds b.version h.version in
      Decodes-bind _ (Decodes-le 4 (number_of b.version) (omega arith)) (
        Decodes-check _ _ (ground arith) (
          Decodes-bind _ (Decodes-read_block_height_of b.version b.height h.version h.height) (
            Decodes-bind _ (Decodes-read_fat_pointer b.previous_block_fat_ptr h.previous) (
              Decodes-bind _ (Decodes-le 4 slot (omega arith)) (
                Decodes-bind _ (Decodes-len 4 (length b.headers) _ (omega (arith, h.few))) (
                  Decodes-check _ _ (ground (arith, h.few)) (
                    Decodes-bind _
                      (Decodes-times write_pow_header (read_pow_header crates crosslink) b.headers
                        h.headers)
                      (Decodes-last _ (Decodes-read_version_data b.version h.version) refl))))))))

  -- A block that the format can hold is written without an error and read back, whatever follows.
  pub Decodes-read_block :
      (b : BftBlock)
      → IsBlock crates crosslink b
      → Decodes (write_block b) (read_block crates crosslink) b
  unfolding write_block
  Decodes-read_block b h = Decodes-write_with_slot 0 b (omega arith) h

-- A block of version 1 at the largest height has no bytes: its height, counted from 1, is no u32.
pub block_bytes-last_height :
    (b : BftBlock)
    → b.version ≡ v1
    → b.height ≡ 2 ^ 32 - 1
    → block_bytes b ≡ err (invalid_data "v1 BFT height out of range")
unfolding block_bytes write_block write_block_height write_le write_all ◌>>◌
block_bytes-last_height b hv hh = rw (hv, hh) refl

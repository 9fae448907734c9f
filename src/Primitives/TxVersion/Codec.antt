-- ===== src/Primitives/TxVersion/Codec.antt =====
-- Laws of the byte format of transaction versions.
use Prim.Native.Nat.{bit_and, bit_or-bitwise}
use auzum_zcash.Base.{
  ℕ, ◌+◌, ◌/◌, ◌^◌, ◌<◌, ◌≡◌, refl, ◌∙◌, arith, true, false, ◌&&◌, ◌==◌, leb, [],
}
use auzum_zcash.Base.Bits.{bit_and_low31}
use auzum_zcash.Base.Io.{done, pure, ◌>>◌, invalid_data, write_u32_le}
use auzum_zcash.Base.Io.Decodes.{Decodes, Decodes-le, Decodes-bind, Decodes-last}
use auzum_zcash.Base.Io.Exact.{
  Exact, Exact-bind, Exact-return, Exact-fail, Exact-branch, Exact-le, done-nil->>, >>-done-nil,
  write_laws,
}
use auzum_zcash.Primitives.TxVersion.{
  TxVersion, sprout, v3, v4, v5, v6, vcrosslink, overwintered_version, after_header, read_version,
  header, version_group_id, write_version, IsVersion,
}

header-sprout : (v : ℕ) → header (sprout v) ≡ v
unfolding header
header-sprout v = bit_or-bitwise 0 v

Decodes-read_sprout :
    (v : ℕ) → IsVersion (sprout v) → Decodes (write_version (sprout v)) read_version (sprout v)
unfolding write_version read_version after_header
Decodes-read_sprout v h =
    let low : bit_and v 0x7fff_ffff ≡ v = omega (arith, bit_and_low31 v) in
    let top : (v / 2 ^ 31 == 1) ≡ false = ground arith in
    let some_version : leb 1 v ≡ true = ground arith in
    rw (header-sprout v, >>-done-nil)
      (Decodes-last _ (Decodes-le 4 v (omega arith)) (rw (low, top, some_version) refl))

-- A version is written without an error and read back, whatever follows.
pub Decodes-read_version : (v : TxVersion) → IsVersion v → Decodes (write_version v) read_version v
unfolding write_version read_version after_header overwintered_version version_group_id header
Decodes-read_version (sprout v) h = Decodes-read_sprout v h
Decodes-read_version v3 h =
    Decodes-bind _ (Decodes-le 4 (2 ^ 31 + 3) (omega arith))
      (Decodes-last _ (Decodes-le 4 0x03c4_8270 (omega arith)) refl)
Decodes-read_version v4 h =
    Decodes-bind _ (Decodes-le 4 (2 ^ 31 + 4) (omega arith))
      (Decodes-last _ (Decodes-le 4 0x892f_2085 (omega arith)) refl)
Decodes-read_version v5 h =
    Decodes-bind _ (Decodes-le 4 (2 ^ 31 + 5) (omega arith))
      (Decodes-last _ (Decodes-le 4 0x26a7_270a (omega arith)) refl)
Decodes-read_version v6 h =
    Decodes-bind _ (Decodes-le 4 (2 ^ 31 + 6) (omega arith))
      (Decodes-last _ (Decodes-le 4 0xd884_b698 (omega arith)) refl)
Decodes-read_version vcrosslink h =
    Decodes-bind _ (Decodes-le 4 (2 ^ 31 + 7) (omega arith))
      (Decodes-last _ (Decodes-le 4 0xffff_fffe (omega arith)) refl)

-- A version after the header word w and the group id that were read.
module _ (w : ℕ) (word : w < 2 ^ 32) (top : (w / 2 ^ 31 == 1) ≡ true) (group : ℕ) where
  Exact-known :
      (v : TxVersion) (k g : ℕ)
      → write_version v ≡ (write_u32_le (2 ^ 31 + k) >> write_u32_le g)
      → IsVersion v
      → (bit_and w 0x7fff_ffff == k && group == g) ≡ true
      → Exact ((done [] >> write_u32_le w) >> write_u32_le group) (pure v) write_version IsVersion
  Exact-known v k g writes h is =
      let low = bit_and_low31 w in
      let same : w ≡ 2 ^ 31 + k = ground (arith, low) in
      let group_is : group ≡ g = ground arith in
      Exact-return v (writes ∙ rw (done-nil->>, same, group_is)) h

  Exact-overwintered :
      Exact
        ((done [] >> write_u32_le w) >> write_u32_le group)
        (overwintered_version (bit_and w 0x7fff_ffff) group)
        write_version
        IsVersion
  unfolding overwintered_version write_version version_group_id header
  Exact-overwintered = Exact-branch _ (Exact-known v3 3 0x03c4_8270 refl tt) λ _.
      Exact-branch _ (Exact-known v4 4 0x892f_2085 refl tt) λ _.
        Exact-branch _ (Exact-known v5 5 0x26a7_270a refl tt) λ _.
          Exact-branch _ (Exact-known v6 6 0xd884_b698 refl tt) λ _.
            Exact-branch _ (Exact-known vcrosslink 7 0xffff_fffe refl tt)
              λ _. Exact-fail (invalid_data "Unknown transaction format")

Exact-early :
    (w : ℕ)
    → w < 2 ^ 32
    → (w / 2 ^ 31 == 1) ≡ false
    → leb 1 (bit_and w 0x7fff_ffff) ≡ true
    → Exact
        (done [] >> write_u32_le w)
        (pure (sprout (bit_and w 0x7fff_ffff)))
        write_version
        IsVersion
unfolding write_version
Exact-early w word top some_version =
    let same : bit_and w 0x7fff_ffff ≡ w = ground (arith, bit_and_low31 w) in
    Exact-return _ (rw (header-sprout (bit_and w 0x7fff_ffff), same) (simp write_laws))
      (ground (arith, bit_and_low31 w))

-- The bytes that a version is read from are those that it is written to, and the version is one that
-- the type allows.
pub Exact-read_version : Exact (done []) read_version write_version IsVersion
unfolding read_version after_header
Exact-read_version = Exact-bind _ (Exact-le 4) λ w word.
    Exact-branch _ (λ top. Exact-bind _ (Exact-le 4) λ group _. Exact-overwintered w word top group)
      λ top.
        Exact-branch _ (Exact-early w word top)
          λ _. Exact-fail (invalid_data "Unknown transaction format")

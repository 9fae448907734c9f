-- ===== src/Bft/Block/Parsed.antt =====
-- Laws of `BftBlock::read` on any bytes.
use auzum_zcash.Base.{
  ℕ, suc, ◌^◌, ◌≤◌, ◌<◌, ◌≡◌, arith, Bool, [], All, ltb, leb, ◌==◌, if◌then◌else◌,
}
use auzum_zcash.Base.Io.{Bytes, IsByte, ok, done, read_u32_le}
use auzum_zcash.Base.Io.Decodes.{Decodes}
use auzum_zcash.Base.Io.Exact.{Exact, Exact-le, Exact-whole}
use auzum_zcash.Base.Io.Local.{Local}
use auzum_zcash.Base.Io.Ensures.{
  Ensures, Ensures-bind, Ensures-pure, Ensures-check, Ensures-if, Exact-Ensures, Ensures-times,
}
use auzum_zcash.Bft.Keys.{BftHeight, IsU32}
use auzum_zcash.Bft.FatPointer.Codec.{Exact-read_fat_pointer}
use auzum_zcash.Bft.HardFork.Codec.{Exact-read_hard_fork, Exact-read_block_height}
use auzum_zcash.Bft.PowHeader.{PowCrates, EncodedPowHeader, read_pow_header, write_pow_header}
use auzum_zcash.Bft.PowHeader.Codec.{Exact-read_pow_header, read_pow_header-again}
use auzum_zcash.Bft.Block.{
  BftBlock, v1, read_block_height, read_version_data, read_block_body, read_block, write_block,
  IsVersion, IsHeight, IsBlock, max_header_count,
}
use auzum_zcash.Bft.Block.Codec.{Decodes-read_block}

u32 : Ensures read_u32_le IsU32
u32 = Exact-Ensures (Exact-le 4)

-- The height that the version stores, in the bounds of that version.
abbrev Fits : ℕ → BftHeight → Type 0
Fits version h = if ltb version 2 then suc h < 2 ^ 32 else h < 2 ^ 32

Ensures-read_block_height : (version : ℕ) → Ensures (read_block_height version) (Fits version)
unfolding read_block_height
Ensures-read_block_height version = Ensures-bind _ u32 λ raw h.
    Ensures-if (ltb version 2)
      (λ early. Ensures-check (raw == 0) _ λ positive. Ensures-pure _ (rw early (ground arith)))
      (λ late. Ensures-pure raw (rw late h))

Ensures-read_version_data :
    (version h : ℕ)
    → 1 ≤ version
    → IsU32 version
    → Fits version h
    → Ensures (read_version_data version) (λ v. IsVersion v × IsHeight v h)
unfolding read_version_data
Ensures-read_version_data version h one word fits =
    Ensures-if (leb 2 version)
      (λ late. Ensures-bind _ (Exact-Ensures (Exact-le 1)) λ count few.
        Ensures-bind _ (Ensures-times count (Exact-Ensures Exact-read_hard_fork)) λ forks (len, hf).
          Ensures-bind _ (Exact-Ensures Exact-read_block_height) λ until hu.
            Ensures-pure _ ((ground arith, word, omega (arith, len, few), hf, hu), ground arith))
      (λ early. Ensures-pure v1 (tt, ground arith))

module _ (crates : PowCrates) (crosslink : Bool)
    (canonical : Exact (done []) crates.read_compact_size crates.write_compact_size (λ n. Unit {0}))
    (no_look_ahead : Local crates.read_compact_size) where
  abbrev IsReadable : EncodedPowHeader → Type 0
  IsReadable h = Decodes (write_pow_header h) (read_pow_header crates crosslink) h

  Ensures-read_pow_header : Ensures (read_pow_header crates crosslink) IsReadable
  Ensures-read_pow_header = record {
    at = λ bs hb h rest e.
        let (_, _, _, hr, _) =
          Exact-whole (Exact-read_pow_header crates crosslink canonical no_look_ahead) bs hb e in
        (hr, read_pow_header-again crates crosslink canonical no_look_ahead bs h rest hb e);
  }

  Ensures-read_block_body :
      (version : ℕ)
      → 1 ≤ version
      → IsU32 version
      → Ensures (read_block_body crates crosslink version) (IsBlock crates crosslink)
  unfolding read_block_body
  Ensures-read_block_body version one word =
      Ensures-bind _ (Ensures-read_block_height version) λ height fits.
        Ensures-bind _ (Exact-Ensures Exact-read_fat_pointer) λ previous hp.
          Ensures-bind _ u32 λ slot _. Ensures-bind _ u32 λ count _.
            Ensures-check (ltb max_header_count count) _ λ few.
              Ensures-bind _ (Ensures-times count Ensures-read_pow_header) λ headers (len, hh).
                Ensures-bind _ (Ensures-read_version_data version height one word fits)
                  λ v (hv, hf). Ensures-pure _ (record {
                    version = hv;
                    height = hf;
                    previous = hp;
                    few = ground arith;
                    headers = hh;
                  })

  Ensures-read_block : Ensures (read_block crates crosslink) (IsBlock crates crosslink)
  unfolding read_block
  Ensures-read_block = Ensures-bind _ u32 λ version word.
      Ensures-check (version == 0) _ λ positive. Ensures-read_block_body version (ground arith) word

  -- A block that was read, from any bytes, is written without an error, and what is written is
  -- read back as the same block, whatever follows.
  pub read_block-again :
      (bs : Bytes) (b : BftBlock) (rest : Bytes)
      → All IsByte bs
      → read_block crates crosslink bs ≡ ok (b, rest)
      → Decodes (write_block b) (read_block crates crosslink) b
  read_block-again bs b rest hb e =
      Decodes-read_block crates crosslink b (Ensures-read_block.at bs hb b rest e).1

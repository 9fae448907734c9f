-- ===== src/Base/Io/Codec.antt =====
-- A reader and a writer that belong together: each undoes the other.
use auzum_zcash.Base.{[], ◌<◌, arith}
use auzum_zcash.Base.Io.{Reader, Written, done, read_u8, write_u8}
use auzum_zcash.Base.Io.Decodes.{Decodes, Decodes-le}
use auzum_zcash.Base.Io.Exact.{Exact, Exact-le, Exact-weaken}

pub record IsCodec {A : Type 0} (r : Reader A) (w : A → Written) (P : A → Type 0) : Type 0 where
  pub decodes : (a : A) → P a → Decodes (w a) r a
  pub exact : Exact (done []) r w P

pub byte-IsCodec : IsCodec read_u8 write_u8 (λ n. n < 256)
byte-IsCodec = record {
  decodes = λ n h. Decodes-le 1 n (omega arith);
  exact = Exact-weaken (Exact-le 1) (λ n h. omega arith);
}

-- ===== src/Base/Io.antt =====
-- Input and output on bytes, as the codecs use `corez::io`: a reader is a byte slice that a read
-- shortens, a writer is a byte vector that a write extends. The integer reads and writes are those
-- of crates/bft_primitives/src/encoding.rs and zcash_primitives/src/encoding.rs.
pub mod Words
pub mod Decodes
pub mod Exact
pub mod Local
pub mod Ensures
pub mod Codec
use Prim.Native.String.{String}
use auzum_zcash.Base.{
  ℕ, zero, suc, ◌+◌, ◌*◌, ◌/◌, ◌%◌, ◌^◌, ◌<◌, ◌≡◌, List, [], ◌∷◌, ◌++◌, All, length, take, drop,
  ltb, not, not, if◌then◌else◌,
}

abbrev pub Bytes : Type 0
Bytes = List ℕ

abbrev pub IsByte : ℕ → Type 0
IsByte b = b < 256

-- A fixed array `[u8; n]`.
abbrev pub IsArray : ℕ → Bytes → Type 0
IsArray n bs = length bs ≡ n

-- A fixed array, its entries bytes.
abbrev pub IsBytes : ℕ → Bytes → Type 0
IsBytes n bs = IsArray n bs × All IsByte bs

-- The kinds of `io::Error` that the code meets, with the code's messages.
pub data IoError : Type 0 where
  unexpected_eof : IoError
  invalid_data : String → IoError
  invalid_input : String → IoError

pub data Result {ℓ} (A : Type ℓ) : Type ℓ where
  ok : A → Result A
  err : IoError → Result A

abbrev pub Reader {ℓ} : Type ℓ → Type ℓ
Reader A = Bytes → Result (A × Bytes)

module _ {ℓ} {A : Type ℓ} where
  unfoldable pub pure : A → Reader A
  pure a bs = ok (a, bs)

  unfoldable pub fail : IoError → Reader A
  fail e bs = err e

infixl 5 ◌>>=◌ ◌>>◌
abbrev pub after {ℓ κ} :
    {A : Type ℓ} {B : Type κ} → Result (A × Bytes) → (A → Reader B) → Result (B × Bytes)
after (ok (a, rest)) f = f a rest
after (err e) f = err e

-- `?`: an error ends the read.
unfoldable pub ◌>>=◌ {ℓ κ} : {A : Type ℓ} {B : Type κ} → Reader A → (A → Reader B) → Reader B
unfolding pure fail
◌>>=◌ r f bs = after (r bs) f

-- What a call of `write` did: the bytes that it appended, and the error that ended it, if any.
pub data Written : Type 0 where
  done : Bytes → Written
  failed : Bytes → IoError → Written

abbrev prepend : Bytes → Written → Written
prepend front (done bs) = done (front ++ bs)
prepend front (failed bs e) = failed (front ++ bs) e

-- `?`: the next write is made only if this one succeeded, and what was written stays written.
unfoldable pub ◌>>◌ : Written → Written → Written
done bs >> w = prepend bs w
failed bs e >> w = failed bs e

-- A value written to a buffer of the reader's own: an error ends the read.
unfoldable pub collect : Written → Reader Bytes
collect (done bs) input = ok (bs, input)
collect (failed bs e) input = err e

unfoldable pub read_exact : ℕ → Reader Bytes
read_exact n bs = if ltb (length bs) n then err unexpected_eof else ok (take n bs, drop n bs)

unfoldable pub write_all : Bytes → Written
write_all bs = done bs

-- `to_le_bytes` and `from_le_bytes` of an integer of k bytes.
unfoldable pub to_le_bytes : ℕ → ℕ → Bytes
to_le_bytes zero v = []
to_le_bytes (suc k) v = v % 256 ∷ to_le_bytes k (v / 256)

unfoldable pub from_le_bytes : Bytes → ℕ
from_le_bytes [] = 0
from_le_bytes (b ∷ bs) = b + 256 * from_le_bytes bs

unfoldable pub read_le : ℕ → Reader ℕ
unfolding ◌>>=◌ read_exact from_le_bytes
read_le k = do repr ← read_exact k; pure (from_le_bytes repr)

unfoldable pub write_le : ℕ → ℕ → Written
unfolding write_all to_le_bytes
write_le k v = write_all (to_le_bytes k v)

abbrev pub read_u8 : Reader ℕ
read_u8 = read_le 1

abbrev pub read_u16_le : Reader ℕ
read_u16_le = read_le 2

abbrev pub read_u32_le : Reader ℕ
read_u32_le = read_le 4

abbrev pub read_u64_le : Reader ℕ
read_u64_le = read_le 8

abbrev pub write_u8 : ℕ → Written
write_u8 = write_le 1

abbrev pub write_u16_le : ℕ → Written
write_u16_le = write_le 2

abbrev pub write_u32_le : ℕ → Written
write_u32_le = write_le 4

abbrev pub write_u64_le : ℕ → Written
write_u64_le = write_le 8

-- A length narrowed to an integer of k bytes by `try_from`, and written.
unfoldable pub write_len : ℕ → ℕ → String → Written
write_len k n message =
    if not (ltb n (256 ^ k)) then failed [] (invalid_data message) else write_le k n

-- `for _ in 0..count { items.push(read()?) }`
unfoldable pub read_times {ℓ} : {A : Type ℓ} → ℕ → Reader A → Reader (List A)
unfolding ◌>>=◌
read_times zero r = pure []
read_times (suc n) r = do a ← r; as' ← read_times n r; pure (a ∷ as')

-- `for item in items { item.write()? }`
unfoldable pub write_each {ℓ} : {A : Type ℓ} → (A → Written) → List A → Written
unfolding ◌>>◌
write_each w [] = done []
write_each w (a ∷ as') = do w a; write_each w as'

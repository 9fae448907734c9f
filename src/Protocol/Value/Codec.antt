-- ===== src/Protocol/Value/Codec.antt =====
-- Laws of the byte forms and conversions of components/zcash_protocol/src/value.rs.
use auzum_zcash.Base.{◌^◌, ◌<◌, ◌≡◌, refl, sym, ap, ◌∙◌, subst, arith, true, leb}
use auzum_zcash.Base.Int.{
  ℤ, pos, negsuc, IsI64, to_word, of_word, of_word-to_word, to_word-of_word, to_word-lt, wrap_i64,
}
use auzum_zcash.Base.Outcome.{Outcome, success, failure}
use auzum_zcash.Base.Io.{Bytes, IsBytes, to_le_bytes, from_le_bytes}
use auzum_zcash.Base.Io.Words.{
  word_bound, length-to_le_bytes, from_le_bytes-to_le_bytes, from_le_bytes-lt,
  to_le_bytes-from_le_bytes,
}
use auzum_zcash.Base.Io.Decodes.{Decodes, Decodes-bytes, Decodes-last}
use auzum_zcash.Protocol.Value.{
  max_money, BalanceError, ZatBalance, Zatoshis, from_i64, from_i64_le_bytes, to_i64_le_bytes,
  zatoshis_from_u64, zatoshis_from_i64, zatoshis_from_u64_le_bytes, to_u64_le_bytes, write_zatoshis,
  read_zatoshis, balance_of, zatoshis_of, neg_balance, neg_zatoshis, IsAmount, IsBalance,
  IsZatoshis,
}

amount-IsI64 : (z : ℤ) → IsAmount z → IsI64 z
amount-IsI64 (pos n) h = omega arith
amount-IsI64 (negsuc n) h = omega arith

from_i64-success : (z : ℤ) → IsAmount z → from_i64 z ≡ success (record { amount = z })
unfolding from_i64
from_i64-success (pos n) h = ground arith
from_i64-success (negsuc n) h = ground arith

-- A balance in the range is read back from its eight bytes.
pub from_i64_le_bytes-to_i64_le_bytes :
    (b : ZatBalance) → IsBalance b → from_i64_le_bytes (to_i64_le_bytes b) ≡ success b
unfolding from_i64_le_bytes to_i64_le_bytes
from_i64_le_bytes-to_i64_le_bytes b h =
    ap (λ w. from_i64 (of_word w))
      (from_le_bytes-to_le_bytes 8 (to_word b.amount) (to_word-lt b.amount))
    ∙ ap from_i64 (of_word-to_word b.amount (amount-IsI64 b.amount h))
    ∙ from_i64-success b.amount h

amount_in : Outcome BalanceError ZatBalance → ZatBalance → ZatBalance
amount_in (success b) d = b
amount_in (failure e) d = d

from_i64-accepts : (z : ℤ) (b : ZatBalance) → from_i64 z ≡ success b → (z ≡ b.amount) × IsAmount z
unfolding from_i64
from_i64-accepts (pos n) b e = ground arith
from_i64-accepts (negsuc n) b e = ground arith

-- Any eight bytes that are read as a balance are the bytes of that balance, which is in the range.
pub to_i64_le_bytes-from_i64_le_bytes :
    (bs : Bytes) (b : ZatBalance)
    → IsBytes 8 bs
    → from_i64_le_bytes bs ≡ success b
    → (to_i64_le_bytes b ≡ bs) × IsBalance b
unfolding from_i64_le_bytes to_i64_le_bytes
to_i64_le_bytes-from_i64_le_bytes bs b h e =
    let (same, fits) = from_i64-accepts (of_word (from_le_bytes bs)) b e in
    let word : from_le_bytes bs < 2 ^ 64 =
      subst (λ n. from_le_bytes bs < word_bound n) h.0 (from_le_bytes-lt bs h.1) in
    let back : to_word b.amount ≡ from_le_bytes bs =
      ap to_word (sym same) ∙ to_word-of_word (from_le_bytes bs) word in
    (
      ap (to_le_bytes 8) back
          ∙ ap (λ n. to_le_bytes n (from_le_bytes bs)) (sym h.0)
          ∙ to_le_bytes-from_le_bytes bs h.1,
      subst IsAmount same fits,
    )

-- An amount is written without an error and read back, whatever follows.
pub Decodes-read_zatoshis :
    (z : Zatoshis) → IsZatoshis z → Decodes (write_zatoshis z) read_zatoshis z
unfolding read_zatoshis write_zatoshis to_u64_le_bytes zatoshis_from_u64_le_bytes zatoshis_from_u64
Decodes-read_zatoshis z h =
    let small : leb z.amount max_money ≡ true = ground arith in
    Decodes-last _ (Decodes-bytes (to_le_bytes 8 z.amount) (length-to_le_bytes 8 z.amount))
      (rw (from_le_bytes-to_le_bytes 8 z.amount (omega arith), small) refl)

-- An amount becomes a balance and is that amount again, and negating twice gives the balance of the
-- amount.
pub zatoshis_of-balance_of :
    (z : Zatoshis)
    → IsZatoshis z
    → (zatoshis_of (balance_of z) ≡ success z) × (neg_balance (neg_zatoshis z) ≡ balance_of z)
unfolding zatoshis_of balance_of neg_zatoshis neg_balance zatoshis_from_i64 zatoshis_from_u64
    wrap_i64
zatoshis_of-balance_of z h = (ground arith, ground arith)

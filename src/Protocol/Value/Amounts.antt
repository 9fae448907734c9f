-- ===== src/Protocol/Value/Amounts.antt =====
-- Amounts in byte formats: a u64 that a reader refuses above the money supply.
use Prim.Native.String.{String}
use auzum_zcash.Base.{
  ℕ, ◌≤◌, ◌≡◌, ◌↔◌, ap, ◌∙◌, subst, length, refl, sym, arith, true, [], leb, Bool-cases, inl, inr,
}
use auzum_zcash.Base.Io.{
  done, invalid_data, ◌>>◌, ◌>>=◌, read_u64_le, write_u64_le, Bytes, IsBytes, read_exact, write_all,
  to_le_bytes, from_le_bytes,
}
use auzum_zcash.Base.Io.Decodes.{Decodes, Decodes-bytes, Decodes-le, Decodes-last}
use auzum_zcash.Base.Io.Exact.{
  Exact, Exact-bind, Exact-return, Exact-fail, Exact-le, Exact-bytes, done-nil->>,
}
use auzum_zcash.Base.Int.{pos, to_word}
use auzum_zcash.Base.Outcome.{Outcome, success, failure}
use auzum_zcash.Base.Io.Words.{
  length-to_le_bytes, from_le_bytes-to_le_bytes, to_le_bytes-from_le_bytes,
}
use auzum_zcash.Protocol.Value.{
  balance_in_range, BalanceError, ZatBalance, to_i64_le_bytes, from_u64, from_u64_le_bytes,
  max_money, Zatoshis, IsZatoshis, zatoshis_from_u64, in_range,
}

pub Decodes-in_range :
    (message : String) (z : Zatoshis)
    → IsZatoshis z
    → Decodes
        (write_u64_le z.amount)
        (read_u64_le >>= λ n. in_range message (zatoshis_from_u64 n))
        z
unfolding zatoshis_from_u64
Decodes-in_range message z h =
    let small : leb z.amount max_money ≡ true = ground arith in
    Decodes-last _ (Decodes-le 8 z.amount (omega arith)) (rw small refl)

within :
    (message : String) (n : ℕ)
    → Exact
        (done [] >> write_u64_le n)
        (in_range message (zatoshis_from_u64 n))
        (λ (z : Zatoshis). write_u64_le z.amount)
        IsZatoshis
unfolding zatoshis_from_u64
within message n = elim (Bool-cases (leb n max_money)) [
  | inl small ↦
      rw small
        (Exact-return (record { amount = n }) (sym (done-nil->> (write_u64_le n))) (ground arith))
  | inr large ↦ rw large (Exact-fail (invalid_data message))
]

pub Exact-in_range :
    (message : String)
    → Exact
        (done [])
        (read_u64_le >>= λ n. in_range message (zatoshis_from_u64 n))
        (λ (z : Zatoshis). write_u64_le z.amount)
        IsZatoshis
Exact-in_range message = Exact-bind _ (Exact-le 8) λ n h. within message n

length-to_i64_le_bytes : (b : ZatBalance) → length (to_i64_le_bytes b) ≡ 8
unfolding to_i64_le_bytes
length-to_i64_le_bytes b = length-to_le_bytes 8 (to_word b.amount)

module _ (message : String) (from : Bytes → Outcome BalanceError ZatBalance) where
  pub Decodes-balance :
      (b : ZatBalance)
      → from (to_i64_le_bytes b) ≡ success b
      → Decodes
          (write_all (to_i64_le_bytes b))
          (read_exact 8 >>= λ bs. balance_in_range message (from bs))
          b
  Decodes-balance b e =
      Decodes-last _ (Decodes-bytes (to_i64_le_bytes b) (length-to_i64_le_bytes b)) (rw e refl)

  module _ {P : ZatBalance → Type 0}
      (canonical : (bs : Bytes) (b : ZatBalance)
        → IsBytes 8 bs
        → from bs ≡ success b
        → (to_i64_le_bytes b ≡ bs) × P b) where
    accepted :
        (bs : Bytes) (o : Outcome BalanceError ZatBalance)
        → from bs ≡ o
        → IsBytes 8 bs
        → Exact
            (done [] >> write_all bs)
            (balance_in_range message o)
            (λ b. write_all (to_i64_le_bytes b))
            P
    accepted bs (success b) e h =
        let (same, p) = canonical bs b h e in
        Exact-return b (ap write_all same ∙ sym (done-nil->> (write_all bs))) p
    accepted bs (failure x) e h = Exact-fail (invalid_data message)

    pub Exact-balance :
        Exact
          (done [])
          (read_exact 8 >>= λ bs. balance_in_range message (from bs))
          (λ b. write_all (to_i64_le_bytes b))
          P
    Exact-balance = Exact-bind _ (Exact-bytes 8) λ bs h. accepted bs (from bs) refl h

-- The amounts of a JoinSplit are balances that are not negative.
abbrev pub IsUnsigned : ZatBalance → Type 0
IsUnsigned b = (n : ℕ) × (b.amount ≡ pos n) × (n ≤ max_money)

from_u64-accepts :
    (n : ℕ) (b : ZatBalance) → (from_u64 n ≡ success b) ↔ ((b.amount ≡ pos n) × (n ≤ max_money))
unfolding from_u64
from_u64-accepts n b = (λ e. ground arith, λ (e, h). ground arith)

pub from_u64_le_bytes-to_i64_le_bytes :
    (b : ZatBalance) → IsUnsigned b → from_u64_le_bytes (to_i64_le_bytes b) ≡ success b
unfolding from_u64_le_bytes to_i64_le_bytes
from_u64_le_bytes-to_i64_le_bytes b (n, e, small) =
    let word : to_word b.amount ≡ n = rw e (omega arith) in
    rw (word, from_le_bytes-to_le_bytes 8 n (omega arith)) ((from_u64-accepts n b).1 (e, small))

pub to_i64_le_bytes-from_u64_le_bytes :
    (bs : Bytes) (b : ZatBalance)
    → IsBytes 8 bs
    → from_u64_le_bytes bs ≡ success b
    → (to_i64_le_bytes b ≡ bs) × IsUnsigned b
unfolding from_u64_le_bytes to_i64_le_bytes
to_i64_le_bytes-from_u64_le_bytes bs b h e =
    let (amount, small) = (from_u64-accepts (from_le_bytes bs) b).0 e in
    let word : to_word b.amount ≡ from_le_bytes bs = rw amount (omega arith) in
    let bytes : to_le_bytes 8 (from_le_bytes bs) ≡ bs =
      subst (λ k. to_le_bytes k (from_le_bytes bs) ≡ bs) h.0 (to_le_bytes-from_le_bytes bs h.1) in
    (ap (to_le_bytes 8) word ∙ bytes, (from_le_bytes bs, amount, small))

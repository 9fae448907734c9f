-- ===== src/Primitives/Transaction/Shared.antt =====
-- Laws of the sections that several transaction formats share.
use auzum_zcash.Base.{
  ℕ, ◌^◌, ◌<◌, ◌≡◌, refl, sym, ap, ◌∙◌, arith, false, ◌&&◌, List, [], ◌∷◌, Option, none, some,
  if◌then◌else◌,
}
use auzum_zcash.Base.Io.{Written, pure, invalid_data, done, ◌>>◌, write_all, write_u32_le}
use auzum_zcash.Base.Io.Codec.{IsCodec}
use auzum_zcash.Base.Io.Decodes.{Decodes, Decodes-le, Decodes-bind, Decodes-last}
use auzum_zcash.Base.Io.Exact.{
  Exact, Exact-bind, Exact-return, Exact-fail, Exact-le, done-nil->>, write_laws,
}
use auzum_zcash.Protocol.Consensus.{BranchId, branch_from_u32, branch_to_u32}
use auzum_zcash.Protocol.Consensus.Branches.{branch_from_u32_iff}
use auzum_zcash.Protocol.Value.{IsBalance, to_i64_le_bytes, from_i64_le_bytes}
use auzum_zcash.Protocol.Value.Amounts.{Decodes-balance, Exact-balance}
use auzum_zcash.Protocol.Value.Codec.{
  from_i64_le_bytes-to_i64_le_bytes, to_i64_le_bytes-from_i64_le_bytes,
}
use auzum_zcash.Primitives.Transaction.Crates.{is_empty, Crates, IsCrates, IsVector}
use auzum_zcash.Primitives.Transaction.Data.{TransparentBundle}
use auzum_zcash.Primitives.Transaction.Sections.{
  read_amount, known_branch, read_branch, HeaderFragment, read_header_fragment, read_transparent,
  write_transparent,
}

-- The balance of a bundle.
pub amount-IsCodec : IsCodec read_amount (λ b. write_all (to_i64_le_bytes b)) IsBalance
unfolding read_amount
amount-IsCodec = record {
  decodes = λ b h.
      Decodes-balance "valueBalance out of range" from_i64_le_bytes b
        (from_i64_le_bytes-to_i64_le_bytes b h);
  exact =
      Exact-balance "valueBalance out of range" from_i64_le_bytes to_i64_le_bytes-from_i64_le_bytes;
}

branch_to_u32-lt : (b : BranchId) → branch_to_u32 b < 2 ^ 32
unfolding branch_to_u32
branch_to_u32-lt b = ground arith

Exact-known_branch :
    (value : ℕ) (o : Option BranchId)
    → branch_from_u32 value ≡ o
    → Exact
        (done [] >> write_u32_le value)
        (known_branch o)
        (λ b. write_u32_le (branch_to_u32 b))
        (λ b. Unit {0})
Exact-known_branch value none e = Exact-fail (invalid_data "invalid consensus branch id")
Exact-known_branch value (some b) e =
    Exact-return b
      (ap write_u32_le ((branch_from_u32_iff value b).0 e) ∙ sym (done-nil->> (write_u32_le value)))
      tt

-- A consensus branch id.
branch-IsCodec : IsCodec read_branch (λ b. write_u32_le (branch_to_u32 b)) (λ b. Unit {0})
unfolding read_branch
branch-IsCodec = record {
  decodes = λ b _.
      Decodes-last _ (Decodes-le 4 (branch_to_u32 b) (branch_to_u32-lt b))
        (rw ((branch_from_u32_iff (branch_to_u32 b) b).1 refl) refl);
  exact =
      Exact-bind _ (Exact-le 4) λ value _. Exact-known_branch value (branch_from_u32 value) refl;
}

abbrev pub write_fragment : HeaderFragment → Written
write_fragment h = do
  write_u32_le (branch_to_u32 h.consensus_branch_id)
  write_u32_le h.lock_time
  write_u32_le h.expiry_height

pub record IsFragment (h : HeaderFragment) : Type 0 where
  pub lock_time : h.lock_time < 2 ^ 32
  pub expiry_height : h.expiry_height < 2 ^ 32

pub fragment-IsCodec : IsCodec read_header_fragment write_fragment IsFragment
unfolding read_header_fragment
fragment-IsCodec = record {
  decodes = λ a h. Decodes-bind _ (branch-IsCodec.decodes a.consensus_branch_id tt) (
      Decodes-bind _ (Decodes-le 4 a.lock_time (omega (arith, h.lock_time)))
        (Decodes-last _ (Decodes-le 4 a.expiry_height (omega (arith, h.expiry_height))) refl));
  exact = Exact-bind _ branch-IsCodec.exact λ b _. Exact-bind _ (Exact-le 4) λ lock_time h.
      Exact-bind _ (Exact-le 4) λ expiry_height k.
        Exact-return _ (simp write_laws)
          (record { lock_time = omega arith; expiry_height = omega arith });
}

module _ {c : Crates} (k : IsCrates c) where
  -- A bundle that is there has an input or an output.
  abbrev pub IsTransparent : Option (TransparentBundle c) → Type 0
  IsTransparent none = Unit
  IsTransparent (some b) =
      IsVector k.IsIn b.vin
      × IsVector k.IsOut b.vout
      × ((is_empty b.vin && is_empty b.vout) ≡ false)

  Exact-vectors :
      (vin : List c.TxIn) (vout : List c.TxOut)
      → IsVector k.IsIn vin
      → IsVector k.IsOut vout
      → Exact
          ((done [] >> c.write_vector c.write_tx_in vin) >> c.write_vector c.write_tx_out vout)
          (pure (
            if is_empty vin && is_empty vout
            then none
            else some (record { vin = vin; vout = vout })))
          write_transparent
          IsTransparent
  unfolding write_transparent
  Exact-vectors [] [] h h' =
      Exact-return none (rw (k.empty c.write_tx_in, k.empty c.write_tx_out) (simp write_laws)) tt
  Exact-vectors (x ∷ xs) ys h h' = Exact-return _ (simp write_laws) (h, h', refl)
  Exact-vectors [] (y ∷ ys) h h' = Exact-return _ (simp write_laws) (h, h', refl)

  Decodes-write_transparent :
      (o : Option (TransparentBundle c))
      → IsTransparent o
      → Decodes (write_transparent o) read_transparent o
  unfolding write_transparent read_transparent
  Decodes-write_transparent none h =
      let first : Decodes c.write_empty (c.read_vector c.read_tx_in) [] =
        rw (k.empty c.write_tx_in) at ((k.vector k.tx_in).decodes [] (tt, omega arith)) in
      let second : Decodes c.write_empty (c.read_vector c.read_tx_out) [] =
        rw (k.empty c.write_tx_out) at ((k.vector k.tx_out).decodes [] (tt, omega arith)) in
      Decodes-bind _ first (Decodes-last _ second refl)
  Decodes-write_transparent (some b) (h, h', some_there) =
      Decodes-bind _ ((k.vector k.tx_in).decodes b.vin h)
        (Decodes-last _ ((k.vector k.tx_out).decodes b.vout h') (rw some_there refl))

  pub read_transparent-IsCodec : IsCodec read_transparent write_transparent IsTransparent
  unfolding read_transparent
  read_transparent-IsCodec = record {
    decodes = Decodes-write_transparent;
    exact =
        Exact-bind _ (k.vector k.tx_in).exact
          λ vin h. Exact-bind _ (k.vector k.tx_out).exact λ vout h'. Exact-vectors vin vout h h';
  }

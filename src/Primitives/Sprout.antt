-- ===== src/Primitives/Sprout.antt =====
-- zcash_primitives/src/transaction/components/sprout.rs: JoinSplit descriptions, their byte format and
-- what they move. An array of two is a pair.
pub mod Codec
pub mod Balance
use auzum_zcash.Base.{ℕ, ◌+◌, Bool, true, false, List, [], ◌∷◌, Option, none, some}
use auzum_zcash.Base.Int.{pos}
use auzum_zcash.Base.Io.{Bytes, Reader, pure, ◌>>=◌, ◌>>◌, Written, read_exact, write_all}
use auzum_zcash.Protocol.Value.{
  ZatBalance, and_then, balance_in_range, from_u64_le_bytes, to_i64_le_bytes, add_balance,
  sub_balance,
}

abbrev pub groth_proof_size : ℕ
groth_proof_size = 48 + 96 + 48

abbrev pub phgr_proof_size : ℕ
phgr_proof_size = 33 + 33 + 65 + 33 + 33 + 33 + 33 + 33

pub data SproutProof : Type 0 where
  groth : Bytes → SproutProof
  phgr : Bytes → SproutProof

pub record JsDescription : Type 0 where
  pub vpub_old : ZatBalance
  pub vpub_new : ZatBalance
  pub anchor : Bytes
  pub nullifiers : Bytes × Bytes
  pub commitments : Bytes × Bytes
  pub ephemeral_key : Bytes
  pub random_seed : Bytes
  pub macs : Bytes × Bytes
  pub proof : SproutProof
  pub ciphertexts : Bytes × Bytes

pub record Bundle : Type 0 where
  pub joinsplits : List JsDescription
  pub joinsplit_pubkey : Bytes
  pub joinsplit_sig : Bytes

unfoldable pub read_pair : ℕ → Reader (Bytes × Bytes)
read_pair size = do first ← read_exact size; second ← read_exact size; pure (first, second)

unfoldable pub write_pair : Bytes × Bytes → Written
write_pair (first, second) = do write_all first; write_all second

unfoldable pub read_proof : Bool → Reader SproutProof
read_proof true = do proof ← read_exact groth_proof_size; pure (groth proof)
read_proof false = do proof ← read_exact phgr_proof_size; pure (phgr proof)

unfoldable pub write_proof : SproutProof → Written
write_proof (groth p) = write_all p
write_proof (phgr p) = write_all p

unfoldable pub read_vpub_old : Reader ZatBalance
read_vpub_old = do
  tmp ← read_exact 8
  balance_in_range "vpub_old out of range" (from_u64_le_bytes tmp)

unfoldable pub read_vpub_new : Reader ZatBalance
read_vpub_new = do
  tmp ← read_exact 8
  balance_in_range "vpub_new out of range" (from_u64_le_bytes tmp)

unfoldable pub read_js : Bool → Reader JsDescription
read_js use_groth = do
  vpub_old ← read_vpub_old
  vpub_new ← read_vpub_new
  anchor ← read_exact 32
  nullifiers ← read_pair 32
  commitments ← read_pair 32
  ephemeral_key ← read_exact 32
  random_seed ← read_exact 32
  macs ← read_pair 32
  proof ← read_proof use_groth
  ciphertexts ← read_pair 601
  pure (record {
    vpub_old = vpub_old;
    vpub_new = vpub_new;
    anchor = anchor;
    nullifiers = nullifiers;
    commitments = commitments;
    ephemeral_key = ephemeral_key;
    random_seed = random_seed;
    macs = macs;
    proof = proof;
    ciphertexts = ciphertexts;
  })

unfoldable pub write_js : JsDescription → Written
write_js js = do
  write_all (to_i64_le_bytes js.vpub_old)
  write_all (to_i64_le_bytes js.vpub_new)
  write_all js.anchor
  write_pair js.nullifiers
  write_pair js.commitments
  write_all js.ephemeral_key
  write_all js.random_seed
  write_pair js.macs
  write_proof js.proof
  write_pair js.ciphertexts

-- `none` is where `expect` would panic, which the amounts that a description is read with rule out.
unfoldable pub net_value : JsDescription → Option ZatBalance
net_value js = sub_balance js.vpub_new js.vpub_old

-- `try_fold`
unfoldable pub fold_net : ZatBalance → List JsDescription → Option ZatBalance
fold_net total [] = some total
fold_net total (js ∷ rest) =
    and_then (net_value js) λ net. and_then (add_balance total net) λ next. fold_net next rest

unfoldable pub value_balance : Bundle → Option ZatBalance
value_balance b = fold_net (record { amount = pos 0 }) b.joinsplits

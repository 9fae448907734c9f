-- ===== src/Primitives/Transaction/Ids.antt =====
-- Transactions with their ids: what is frozen, written and read.
use auzum_zcash.Base.{◌-◌, ◌≡◌, refl, sym, subst, arith, ◌++◌, length, length-append, take}
use auzum_zcash.Base.Io.{Bytes, ok, Reader, Written, done, ◌>>=◌, ◌>>◌}
use auzum_zcash.Base.Io.Decodes.{Decodes, Decodes-bind, take-append}
use auzum_zcash.Protocol.Consensus.{BranchId}
use auzum_zcash.Primitives.TxVersion.{
  TxVersion, sprout, v3, v4, v5, v6, vcrosslink, IsVersion, read_version, write_version,
}
use auzum_zcash.Primitives.TxVersion.Codec.{Decodes-read_version}
use auzum_zcash.Primitives.Transaction.Crates.{Crates, IsCrates}
use auzum_zcash.Primitives.Transaction.Data.{TransactionData, Transaction}
use auzum_zcash.Primitives.Transaction.Early.{read_v4}
use auzum_zcash.Primitives.Transaction.Wire.{
  read_format, write_format, write, read_contents, txid_of, read, from_format, from_data,
}
use auzum_zcash.Primitives.Transaction.Modern.{
  IsV5, IsV6, IsVcrosslink, write_v5-body, write_v6-body, write_vcrosslink-body, Decodes-body_v5,
  Decodes-body_v6, Decodes-body_vcrosslink,
}
use auzum_zcash.Primitives.Transaction.Legacy.{IsV4, body_v4, write_v4-body, Decodes-body_v4}

module _ {c : Crates} (k : IsCrates c) where
  abbrev pub IsFormat : TxVersion → TransactionData c → Type 0
  IsFormat (sprout n) tx = IsVersion (sprout n) × IsV4 k tx
  IsFormat v3 tx = IsV4 k tx
  IsFormat v4 tx = IsV4 k tx
  IsFormat v5 tx = IsV5 k tx
  IsFormat v6 tx = IsV6 k tx
  IsFormat vcrosslink tx = IsVcrosslink k tx

  -- The parts fit the format of the version, and there are no others.
  abbrev pub IsTransaction : TransactionData c → Type 0
  IsTransaction tx = IsFormat tx.version tx

  after-version :
      (v : TxVersion) (tx : TransactionData c) (f : TxVersion → Reader (TransactionData c))
      {body : Written}
      → tx.version ≡ v
      → IsVersion v
      → Decodes body (f v) tx
      → Decodes (write_version tx.version >> body) (read_version >>= f) tx
  after-version v tx f {body} e hv d =
      subst (λ u. Decodes (write_version u >> body) (read_version >>= f) tx) (sym e)
        (Decodes-bind f (Decodes-read_version v hv) d)

  Decodes-early :
      (v : TxVersion) (tx : TransactionData c)
      → tx.version ≡ v
      → IsV4 k tx
      → Decodes (body_v4 k tx) (read_v4 v tx.consensus_branch_id) tx
  Decodes-early v tx e h =
      subst (λ u. Decodes (body_v4 k tx) (read_v4 u tx.consensus_branch_id) tx) e
        (Decodes-body_v4 k tx h)

  Decodes-format :
      (v : TxVersion) (tx : TransactionData c)
      → tx.version ≡ v
      → IsFormat v tx
      → Decodes (write_format v tx) (read_contents tx.consensus_branch_id) tx
  unfolding write_format read_contents read_format
  Decodes-format (sprout n) tx e (hv, h) =
      rw (write_v4-body k tx h.orchard)
        (after-version (sprout n) tx _ e hv (Decodes-early (sprout n) tx e h))
  Decodes-format v3 tx e h =
      rw (write_v4-body k tx h.orchard) (after-version v3 tx _ e tt (Decodes-early v3 tx e h))
  Decodes-format v4 tx e h =
      rw (write_v4-body k tx h.orchard) (after-version v4 tx _ e tt (Decodes-early v4 tx e h))
  Decodes-format v5 tx e h =
      rw (write_v5-body k tx h.sprout) (after-version v5 tx _ e tt (Decodes-body_v5 k tx h))
  Decodes-format v6 tx e h =
      rw (write_v6-body k tx h.sprout) (after-version v6 tx _ e tt (Decodes-body_v6 k tx h))
  Decodes-format vcrosslink tx e h =
      rw (write_vcrosslink-body k tx h.sprout h.ironwood)
        (after-version vcrosslink tx _ e tt (Decodes-body_vcrosslink k tx h))

  -- A transaction whose parts fit its format is written without an error and read back, whatever follows; a
  -- version up to 4 is read for the branch that it has.
  pub Decodes-read_contents :
      (tx : TransactionData c)
      → IsTransaction tx
      → Decodes (write tx) (read_contents tx.consensus_branch_id) tx
  unfolding write
  Decodes-read_contents tx h = Decodes-format tx.version tx refl h

consumed-append :
    (front rest : Bytes) → take (length (front ++ rest) - length rest) (front ++ rest) ≡ front
consumed-append front rest =
    let n : length (front ++ rest) - length rest ≡ length front =
      omega (arith, length-append front rest) in
    rw n (take-append front rest)

module _ {c : Crates} (digest : TransactionData c → Bytes) (hash : Bytes → Bytes) where
  -- A transaction that was written has the id that it was frozen with.
  from_format-txid :
      (v : TxVersion) (tx : TransactionData c) (bs : Bytes)
      → write tx ≡ done bs
      → from_format digest hash v tx
        ≡ ok (record { txid = txid_of digest hash v bs tx; contents = tx })
  unfolding from_format txid_of
  from_format-txid (sprout n) tx bs e = rw e refl
  from_format-txid v3 tx bs e = rw e refl
  from_format-txid v4 tx bs e = rw e refl
  from_format-txid v5 tx bs e = refl
  from_format-txid v6 tx bs e = refl
  from_format-txid vcrosslink tx bs e = refl

  read-identified :
      (branch : BranchId) (front rest : Bytes) (tx : TransactionData c)
      → read_contents branch (front ++ rest) ≡ ok (tx, rest)
      → read digest hash branch (front ++ rest)
        ≡ ok (record { txid = txid_of digest hash tx.version front tx; contents = tx }, rest)
  unfolding read
  read-identified branch front rest tx e = rw e (rw (consumed-append front rest) refl)

  -- A transaction whose parts fit its format can be frozen, which gives it an id, and what is written
  -- of it is read back, whatever follows, as the same transaction with the same id.
  pub read-from_data :
      (k : IsCrates c) (tx : TransactionData c)
      → IsTransaction k tx
      → (frozen : Transaction c) × (from_data digest hash tx ≡ ok frozen)
        × (frozen.contents ≡ tx)
        × Decodes (write tx) (read digest hash tx.consensus_branch_id) frozen
  unfolding from_data
  read-from_data k tx h =
      let d = Decodes-read_contents k tx h in
      (
        record { txid = txid_of digest hash tx.version d.bytes tx; contents = tx },
        from_format-txid tx.version tx d.bytes d.wrote,
        refl,
        record {
          bytes = d.bytes;
          wrote = d.wrote;
          back = λ rest. read-identified tx.consensus_branch_id d.bytes rest tx (d.back rest);
        },
      )

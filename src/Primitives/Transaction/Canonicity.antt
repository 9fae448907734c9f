-- ===== src/Primitives/Transaction/Canonicity.antt =====
-- What transactions are read from, byte for byte, in the formats of the versions from 5 on.
use auzum_zcash.Primitives.Transaction.Ids.{IsFormat, IsTransaction}
use auzum_zcash.Primitives.Transaction.Sections.{HeaderFragment, read_header_fragment}
use auzum_zcash.Base.{◌≡◌, refl, sym, ap, ◌∙◌, subst, ◌++◌, append_assoc, All}
use auzum_zcash.Base.Io.{Bytes, IsByte, ok, done, ◌>>=◌, ◌>>◌}
use auzum_zcash.Base.Io.Exact.{done-nil->>, >>-assoc}
use auzum_zcash.Primitives.Transaction.Shared.{fragment-IsCodec, write_fragment}
use auzum_zcash.Protocol.Consensus.{BranchId}
use auzum_zcash.Primitives.TxVersion.{
  TxVersion, sprout, v3, v4, v5, v6, vcrosslink, read_version, write_version,
}
use auzum_zcash.Primitives.TxVersion.Codec.{Exact-read_version}
use auzum_zcash.Primitives.Transaction.Crates.{Crates, IsCrates}
use auzum_zcash.Primitives.Transaction.Data.{TransactionData}
use auzum_zcash.Primitives.Transaction.Wire.{
  read_format, write_format, write, read_contents, read_v6, read_v6_bundles, write_v6,
}
use auzum_zcash.Primitives.Transaction.Modern.{
  Exact-read_v5, Exact-read_v6_bundles, Exact-read_vcrosslink,
}

-- The versions from 5 on but 6.
abbrev pub IsModern : TxVersion → Type 0
IsModern v5 = Unit
IsModern vcrosslink = Unit
IsModern _ = ⊥

module _ {c : Crates} (k : IsCrates c) where
  -- The bytes are those that the transaction is written to, and what was left of them.
  abbrev pub Canonical : Bytes → Bytes → TransactionData c → Type 0
  Canonical bs rest tx =
      (front : Bytes) × (write tx ≡ done front) × (bs ≡ front ++ rest) × IsTransaction k tx

  -- The rest of the format, after a version whose bytes are `header`.
  after_version-Canonical :
      (v : TxVersion) (header back mid rest : Bytes) (tx : TransactionData c)
      → write_version v ≡ done header
      → write_format v tx ≡ (write_version v >> done back)
      → mid ≡ back ++ rest
      → tx.version ≡ v
      → IsFormat k v tx
      → Canonical (header ++ mid) rest tx
  unfolding write
  after_version-Canonical v header back mid rest tx w wrote split e h = (
    header ++ back,
    ap (λ u. write_format u tx) e ∙ wrote ∙ rw w (unfold ◌>>◌ in refl),
    ap (λ t. header ++ t) split ∙ sym (append_assoc header back rest),
    subst (λ u. IsFormat k u tx) (sym e) h,
  )

  format-exact :
      (v : TxVersion) (header : Bytes)
      → IsModern v
      → write_version v ≡ done header
      → (branch : BranchId) (mid : Bytes) → All IsByte mid
      → (tx : TransactionData c) (rest : Bytes) → read_format branch v mid ≡ ok (tx, rest)
      → Canonical (header ++ mid) rest tx
  unfolding read_format write_format
  format-exact (sprout n) header m w branch mid hb tx rest e = absurd m
  format-exact v3 header m w branch mid hb tx rest e = absurd m
  format-exact v4 header m w branch mid hb tx rest e = absurd m
  format-exact v5 header m w branch mid hb tx rest e =
      let (back, wrote, split, _, h) =
        (Exact-read_v5 k (write_version v5) refl).at mid hb tx rest e in
      after_version-Canonical v5 header back mid rest tx w wrote split h.version h
  format-exact v6 header m w branch mid hb tx rest e = absurd m
  format-exact vcrosslink header m w branch mid hb tx rest e =
      let (back, wrote, split, _, h) =
        (Exact-read_vcrosslink k (write_version vcrosslink) refl).at mid hb tx rest e in
      after_version-Canonical vcrosslink header back mid rest tx w wrote split h.version h

  -- What is read as a transaction of version 5 or 7 is, byte for byte, what that transaction is written
  -- to, and its parts fit its format.
  pub read_contents-Canonical :
      (branch : BranchId) (bs : Bytes)
      → All IsByte bs
      → (v : TxVersion) (mid : Bytes) → read_version bs ≡ ok (v, mid)
      → IsModern v
      → (tx : TransactionData c) (rest : Bytes) → read_contents branch bs ≡ ok (tx, rest)
      → Canonical bs rest tx
  unfolding read_contents ◌>>=◌
  read_contents-Canonical branch bs hb v mid ev m tx rest e =
      let (header, w, split, hm, _) = Exact-read_version.at bs hb v mid ev in
      let next : read_format branch v mid ≡ ok (tx, rest) = rw ev at e in
      rw split (format-exact v header m (w ∙ done-nil->> (done header)) branch mid hm tx rest next)

  -- What is read as a transaction of version 6 for NU6.3 is, byte for byte, what that transaction is
  -- written to, and its parts fit its format.
  pub read_v6-Canonical :
      (branch : BranchId) (bs : Bytes)
      → All IsByte bs
      → (mid : Bytes) → read_version bs ≡ ok (v6, mid)
      → (header : HeaderFragment) (body : Bytes) → read_header_fragment mid ≡ ok (header, body)
      → header.consensus_branch_id ≡ BranchId.nu6_3
      → (tx : TransactionData c) (rest : Bytes) → read_contents branch bs ≡ ok (tx, rest)
      → Canonical bs rest tx
  unfolding read_contents read_format read_v6 write_format ◌>>=◌ ◌>>◌
  read_v6-Canonical branch bs hb mid ev header body eh nu6_3 tx rest e =
      let (front, w, split, hm, _) = Exact-read_version.at bs hb v6 mid ev in
      let fragments = (fragment-IsCodec).exact in
      let (middle, w', split', hb', fits) = fragments.at mid hm header body eh in
      let next : read_v6_bundles v6 header body ≡ ok (tx, rest) = rw (ev, eh) at e in
      let x =
        Exact-read_v6_bundles k header (write_version v6 >> write_fragment header) fits nu6_3
          refl in
      let (back, wrote, split'', _, h) = x.at body hb' tx rest next in
      let joined : mid ≡ (middle ++ back) ++ rest =
        split' ∙ ap (λ t. middle ++ t) split'' ∙ sym (append_assoc middle back rest) in
      let wrote' : write_v6 tx ≡ (write_version v6 >> done (middle ++ back)) =
        wrote
        ∙ >>-assoc (write_version v6) (write_fragment header) (done back)
        ∙ ap (λ u. write_version v6 >> (u >> done back)) w' in
      rw split (
        after_version-Canonical v6 front (middle ++ back) mid rest tx (w ∙ done-nil->> (done front))
          wrote' joined h.version h)

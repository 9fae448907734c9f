-- ===== src/Primitives/Transaction/Modern.antt =====
-- Laws of the formats of the versions from 5 on.
use auzum_zcash.Primitives.Staking.Action.{write_action}
use auzum_zcash.Base.{◌≡◌, refl, ap, ◌∙◌, none, []}
use auzum_zcash.Base.Io.{Written, done, pure, ◌>>◌}
use auzum_zcash.Protocol.Consensus.{BranchId}
use auzum_zcash.Base.Io.Decodes.{Decodes, Decodes-bind, Decodes-last}
use auzum_zcash.Base.Io.Exact.{Exact, Exact-bind, Exact-return, write_laws}
use auzum_zcash.Primitives.Staking.Codec.{IsCarried, Exact-read_action, Decodes-read_action}
use auzum_zcash.Primitives.TxVersion.{v5, v6, vcrosslink, write_version}
use auzum_zcash.Primitives.Transaction.Crates.{Crates, IsCrates, ValuePool, orchard, ironwood}
use auzum_zcash.Primitives.Transaction.Data.{TransactionData}
use auzum_zcash.Primitives.Transaction.Sections.{
  HeaderFragment, wire_consensus_branch_id, write_transparent, write_v5_header, write_v6_header,
}
use auzum_zcash.Primitives.Transaction.Wire.{
  read_v5, write_v5, write_vcrosslink, read_vcrosslink, read_v6, write_v6, read_v6_bundles,
}
use auzum_zcash.Primitives.Transaction.Shared.{
  write_fragment, IsFragment, fragment-IsCodec, IsTransparent, read_transparent-IsCodec,
}

module _ {c : Crates} (k : IsCrates c) where
  abbrev pub fragment : TransactionData c → HeaderFragment
  fragment tx = record {
    consensus_branch_id = tx.consensus_branch_id;
    lock_time = tx.lock_time;
    expiry_height = tx.expiry_height;
  }

  -- A version 5 transaction whose parts fit their formats, and that has no others.
  pub record IsV5 (tx : TransactionData c) : Type 0 where
    pub version : tx.version ≡ v5
    pub header : IsFragment (fragment tx)
    pub transparent : IsTransparent k tx.transparent_bundle
    pub sprout : tx.sprout_bundle ≡ none
    pub sapling : k.IsSaplingV5 tx.sapling_bundle
    pub orchard : k.IsOrchardV5 tx.consensus_branch_id tx.orchard_bundle
    pub ironwood : tx.ironwood_bundle ≡ none
    pub staking : tx.staking_action ≡ none

  pub record IsV6 (tx : TransactionData c) : Type 0 where
    pub version : tx.version ≡ v6
    pub header : IsFragment (fragment tx)
    pub transparent : IsTransparent k tx.transparent_bundle
    pub sprout : tx.sprout_bundle ≡ none
    pub sapling : k.IsSaplingV5 tx.sapling_bundle
    pub orchard : k.IsOrchardV6 tx.consensus_branch_id orchard tx.orchard_bundle
    pub ironwood : k.IsOrchardV6 tx.consensus_branch_id ironwood tx.ironwood_bundle
    pub staking : tx.staking_action ≡ none

  pub record IsVcrosslink (tx : TransactionData c) : Type 0 where
    pub version : tx.version ≡ vcrosslink
    pub header : IsFragment (fragment tx)
    pub transparent : IsTransparent k tx.transparent_bundle
    pub sprout : tx.sprout_bundle ≡ none
    pub sapling : k.IsSaplingV5 tx.sapling_bundle
    pub orchard : k.IsOrchardV5 tx.consensus_branch_id tx.orchard_bundle
    pub ironwood : tx.ironwood_bundle ≡ none
    pub staking : IsCarried tx.staking_action

  -- What is written after the version.
  abbrev pub body_v5 : TransactionData c → Written
  body_v5 tx = do
    write_fragment (fragment tx)
    write_transparent tx.transparent_bundle
    c.write_sapling_v5 tx.sapling_bundle
    c.write_orchard_v5 tx.orchard_bundle

  pub write_v5-body :
      (tx : TransactionData c)
      → tx.sprout_bundle ≡ none
      → write_v5 tx ≡ (write_version tx.version >> body_v5 tx)
  unfolding write_v5 write_v5_header wire_consensus_branch_id
  write_v5-body tx e = rw e (simp write_laws)

  pub Decodes-body_v5 : (tx : TransactionData c) → IsV5 tx → Decodes (body_v5 tx) (read_v5 v5) tx
  unfolding read_v5
  Decodes-body_v5 tx h = Decodes-bind _ (fragment-IsCodec.decodes (fragment tx) h.header) (
      Decodes-bind _ ((read_transparent-IsCodec k).decodes tx.transparent_bundle h.transparent) (
        Decodes-bind _ (k.sapling_v5.decodes tx.sapling_bundle h.sapling) (
          Decodes-last _ ((k.orchard_v5 tx.consensus_branch_id).decodes tx.orchard_bundle h.orchard)
            (ap pure (cc (h.version, h.sprout, h.ironwood, h.staking))))))

  pub Exact-read_v5 :
      (before : Written) → before ≡ write_version v5 → Exact before (read_v5 v5) write_v5 IsV5
  unfolding read_v5
  Exact-read_v5 before e = Exact-bind _ fragment-IsCodec.exact λ header h0.
      Exact-bind _ (read_transparent-IsCodec k).exact λ transparent h1.
        Exact-bind _ k.sapling_v5.exact λ sapling h2.
          Exact-bind _ (k.orchard_v5 header.consensus_branch_id).exact λ orchard' h3.
            Exact-return _ (write_v5-body _ refl ∙ rw e (simp write_laws)) (record {
              version = refl;
              header = h0;
              transparent = h1;
              sprout = refl;
              sapling = h2;
              orchard = h3;
              ironwood = refl;
              staking = refl;
            })

  abbrev pub body_v6 : TransactionData c → Written
  body_v6 tx = do
    write_fragment (fragment tx)
    write_transparent tx.transparent_bundle
    c.write_sapling_v5 tx.sapling_bundle
    c.write_orchard_v6 tx.orchard_bundle
    c.write_orchard_v6 tx.ironwood_bundle

  pub write_v6-body :
      (tx : TransactionData c)
      → tx.sprout_bundle ≡ none
      → write_v6 tx ≡ (write_version tx.version >> body_v6 tx)
  unfolding write_v6 write_v6_header
  write_v6-body tx e = rw e (simp write_laws)

  pub Decodes-body_v6 : (tx : TransactionData c) → IsV6 tx → Decodes (body_v6 tx) (read_v6 v6) tx
  unfolding read_v6 read_v6_bundles
  Decodes-body_v6 tx h = Decodes-bind _ (fragment-IsCodec.decodes (fragment tx) h.header) (
      Decodes-bind _ ((read_transparent-IsCodec k).decodes tx.transparent_bundle h.transparent) (
        Decodes-bind _ (k.sapling_v5.decodes tx.sapling_bundle h.sapling) (
          Decodes-bind _ (k.orchard_v6 tx.consensus_branch_id orchard tx.orchard_bundle h.orchard) (
            Decodes-last _
              (k.orchard_v6 tx.consensus_branch_id ironwood tx.ironwood_bundle h.ironwood)
              (ap pure (cc (h.version, h.sprout, h.staking)))))))

  -- The bundles of version 6, behind a header of NU6.3.
  pub Exact-read_v6_bundles :
      (header : HeaderFragment) (before : Written)
      → IsFragment header
      → header.consensus_branch_id ≡ BranchId.nu6_3
      → before ≡ (write_version v6 >> write_fragment header)
      → Exact before (read_v6_bundles v6 header) write_v6 IsV6
  unfolding read_v6_bundles
  Exact-read_v6_bundles header before h0 branch e =
      let exact : (pool : ValuePool)
          → Exact (done []) (c.read_orchard_v6 header.consensus_branch_id pool) c.write_orchard_v6
              (k.IsOrchardV6 header.consensus_branch_id pool) =
        λ pool. rw branch (k.orchard_v6_exact pool) in
      Exact-bind _ (read_transparent-IsCodec k).exact λ transparent h1.
        Exact-bind _ k.sapling_v5.exact λ sapling h2. Exact-bind _ (exact orchard) λ orchard' h3.
          Exact-bind _ (exact ironwood) λ ironwood' h4.
            Exact-return _ (write_v6-body _ refl ∙ rw e (simp write_laws)) (record {
              version = refl;
              header = h0;
              transparent = h1;
              sprout = refl;
              sapling = h2;
              orchard = h3;
              ironwood = h4;
              staking = refl;
            })

  abbrev pub body_vcrosslink : TransactionData c → Written
  body_vcrosslink tx = do
    write_fragment (fragment tx)
    write_transparent tx.transparent_bundle
    c.write_sapling_v5 tx.sapling_bundle
    c.write_orchard_v5 tx.orchard_bundle
    write_action tx.staking_action

  pub write_vcrosslink-body :
      (tx : TransactionData c)
      → tx.sprout_bundle ≡ none
      → tx.ironwood_bundle ≡ none
      → write_vcrosslink tx ≡ (write_version tx.version >> body_vcrosslink tx)
  unfolding write_vcrosslink write_v5_header wire_consensus_branch_id
  write_vcrosslink-body tx e e' = rw (e, e') (simp write_laws)

  pub Decodes-body_vcrosslink :
      (tx : TransactionData c)
      → IsVcrosslink tx
      → Decodes (body_vcrosslink tx) (read_vcrosslink vcrosslink) tx
  unfolding read_vcrosslink
  Decodes-body_vcrosslink tx h = Decodes-bind _ (fragment-IsCodec.decodes (fragment tx) h.header) (
      Decodes-bind _ ((read_transparent-IsCodec k).decodes tx.transparent_bundle h.transparent) (
        Decodes-bind _ (k.sapling_v5.decodes tx.sapling_bundle h.sapling) (
          Decodes-bind _ ((k.orchard_v5 tx.consensus_branch_id).decodes tx.orchard_bundle h.orchard)
            (Decodes-last _ (Decodes-read_action tx.staking_action h.staking)
              (ap pure (cc (h.version, h.sprout, h.ironwood)))))))

  pub Exact-read_vcrosslink :
      (before : Written)
      → before ≡ write_version vcrosslink
      → Exact before (read_vcrosslink vcrosslink) write_vcrosslink IsVcrosslink
  unfolding read_vcrosslink
  Exact-read_vcrosslink before e = Exact-bind _ fragment-IsCodec.exact λ header h0.
      Exact-bind _ (read_transparent-IsCodec k).exact λ transparent h1.
        Exact-bind _ k.sapling_v5.exact λ sapling h2.
          Exact-bind _ (k.orchard_v5 header.consensus_branch_id).exact λ orchard' h3.
            Exact-bind _ Exact-read_action λ action h4.
              Exact-return _ (write_vcrosslink-body _ refl refl ∙ rw e (simp write_laws)) (record {
                version = refl;
                header = h0;
                transparent = h1;
                sprout = refl;
                sapling = h2;
                orchard = h3;
                ironwood = refl;
                staking = h4;
              })

-- ===== src/Primitives/Orchard/Fill.antt =====
-- The codec of Orchard bundles as the one that transactions use.
use auzum_zcash.Base.{
  ◌≡◌, ◌≢◌, refl, true, false, [], Option, none, some, All, arith, Bool, ◌||◌, ◌∙◌,
}
use auzum_zcash.Base.Io.{Bytes, IsByte, invalid_input, ok, done, failed, ◌>>◌}
use auzum_zcash.Base.Io.Codec.{IsCodec}
use auzum_zcash.Base.Io.Decodes.{Decodes}
use auzum_zcash.Base.Io.Exact.{Exact, done-nil->>}
use auzum_zcash.Protocol.Consensus.{BranchId, OrchardProtocolRevision, orchard_protocol_revision}
use auzum_zcash.Primitives.Transaction.Crates.{
  Crates, IsCrates, ValuePool, orchard, ironwood, components,
}
use auzum_zcash.Primitives.Orchard.Crate.{OrchardCrate, IsOrchardCrate}
use auzum_zcash.Primitives.Orchard.Bundle.{
  bundle_version_for_branch, read_v5_bundle, write_v5_bundle, read_v6_bundle, write_v6_bundle,
  check_v6_bundle_version, is_v6_version, version_for_revision,
}
use auzum_zcash.Primitives.Orchard.Parts.{IsOptional, Decodes-read_bundle, Exact-read_bundle}

-- The version is one of the two of the format of version 6, if there is a bundle.
abbrev pub IsSlot : (o : OrchardCrate) → Option o.Bundle → Type 0
IsSlot o none = Unit
IsSlot o (some b) = is_v6_version o (o.bundle_version b) ≡ true

abbrev pub with_orchard : OrchardCrate → Crates → Crates
with_orchard o c = record {
  TxIn = c.TxIn;
  TxOut = c.TxOut;
  read_tx_in = c.read_tx_in;
  write_tx_in = c.write_tx_in;
  read_tx_out = c.read_tx_out;
  write_tx_out = c.write_tx_out;
  read_vector = c.read_vector;
  write_vector = c.write_vector;
  write_empty = c.write_empty;
  Spend = c.Spend;
  Output = c.Output;
  Sapling = c.Sapling;
  sapling_from_parts = c.sapling_from_parts;
  shielded_spends = c.shielded_spends;
  shielded_outputs = c.shielded_outputs;
  sapling_value = c.sapling_value;
  binding_sig = c.binding_sig;
  read_sapling_v4 = c.read_sapling_v4;
  write_sapling_v4 = c.write_sapling_v4;
  read_sapling_v5 = c.read_sapling_v5;
  write_sapling_v5 = c.write_sapling_v5;
  Orchard = o.Bundle;
  orchard_value = o.value_balance;
  read_orchard_v5 = read_v5_bundle o;
  write_orchard_v5 = write_v5_bundle o;
  read_orchard_v6 = read_v6_bundle o;
  write_orchard_v6 = write_v6_bundle o;
}

or_true : (b : Bool) → (b || true) ≡ true
or_true b = ground arith

only_nu6_3 :
    (branch : BranchId)
    → orchard_protocol_revision branch ≡ some OrchardProtocolRevision.v3
    → branch ≡ BranchId.nu6_3
unfolding orchard_protocol_revision
only_nu6_3 branch e = ground arith

module _ {o : OrchardCrate} (k : IsOrchardCrate o) where
  write_v6-IsSlot : (x : Option o.Bundle) → IsSlot o x → write_v6_bundle o x ≡ write_v5_bundle o x
  unfolding write_v6_bundle write_v5_bundle check_v6_bundle_version
  write_v6-IsSlot none h = refl
  write_v6-IsSlot (some b) h = rw h (done-nil->> _)

  v5-IsCodec :
      (branch : BranchId)
      → IsCodec
          (read_v5_bundle o branch)
          (write_v5_bundle o)
          (IsOptional o (bundle_version_for_branch o branch orchard))
  unfolding read_v5_bundle write_v5_bundle
  v5-IsCodec branch = record {
    decodes = Decodes-read_bundle k (bundle_version_for_branch o branch orchard);
    exact = Exact-read_bundle k (bundle_version_for_branch o branch orchard);
  }

  Decodes-read_v6_bundle :
      (branch : BranchId) (pool : ValuePool) (x : Option o.Bundle)
      → IsOptional o (bundle_version_for_branch o branch pool) x × IsSlot o x
      → Decodes (write_v6_bundle o x) (read_v6_bundle o branch pool) x
  unfolding read_v6_bundle write_v5_bundle
  Decodes-read_v6_bundle branch pool x (h, slot) =
      rw (write_v6-IsSlot x slot)
        (Decodes-read_bundle k (bundle_version_for_branch o branch pool) x h)

  -- Under NU6.3 every bundle that is read has the version of its slot.
  nu6_3-IsSlot :
      (pool : ValuePool) (x : Option o.Bundle)
      → IsOptional o (bundle_version_for_branch o BranchId.nu6_3 pool) x
      → IsSlot o x
  unfolding bundle_version_for_branch orchard_protocol_revision
  nu6_3-IsSlot pool none h = tt
  nu6_3-IsSlot orchard (some b) h = rw (h.bundle_version, k.same_orchard) refl
  nu6_3-IsSlot ironwood (some b) h =
      rw (h.bundle_version, k.same_ironwood) (or_true (o.same_version o.ironwood_v3 o.orchard_v3))

  Exact-read_v6_bundle :
      (pool : ValuePool)
      → Exact
          (done [])
          (read_v6_bundle o BranchId.nu6_3 pool)
          (write_v6_bundle o)
          (λ x. IsOptional o (bundle_version_for_branch o BranchId.nu6_3 pool) x × IsSlot o x)
  unfolding read_v6_bundle write_v5_bundle
  Exact-read_v6_bundle pool = record {
    at = λ bs hb x rest e.
        let plain = Exact-read_bundle k (bundle_version_for_branch o BranchId.nu6_3 pool) in
        let (front, wrote, split, hr, h) = plain.at bs hb x rest e in
        let slot = nu6_3-IsSlot pool x h in
        (front, write_v6-IsSlot x slot ∙ wrote, split, hr, (h, slot));
  }

  -- The codec of Orchard bundles has the laws that transactions rely on, whatever the rest of the crates.
  pub with_orchard-IsCrates : (c : Crates) → IsCrates c → IsCrates (with_orchard o c)
  with_orchard-IsCrates c h = record {
    IsIn = h.IsIn;
    IsOut = h.IsOut;
    IsSaplingV4 = h.IsSaplingV4;
    IsSaplingV5 = h.IsSaplingV5;
    IsOrchardV5 = λ branch. IsOptional o (bundle_version_for_branch o branch orchard);
    IsOrchardV6 =
        λ branch pool x. IsOptional o (bundle_version_for_branch o branch pool) x × IsSlot o x;
    tx_in = h.tx_in;
    tx_out = h.tx_out;
    vector = h.vector;
    empty = h.empty;
    sapling_v4 = λ x.
        elim x
          as (λ y.
            h.IsSaplingV4 y
            → Decodes (c.write_sapling_v4 y true) (c.read_sapling_v4 true)
                (components (with_orchard o c) y)) [
                  | none ↦ h.sapling_v4 none
                  | some b ↦ h.sapling_v4 (some b)
                ];
    sapling_v4_off = h.sapling_v4_off;
    sapling_parts = h.sapling_parts;
    sapling_v5 = h.sapling_v5;
    orchard_v5 = v5-IsCodec;
    orchard_v6 = Decodes-read_v6_bundle;
    orchard_v6_exact = Exact-read_v6_bundle;
  }

  refused :
      (b : o.Bundle) (version : o.BundleVersion)
      → o.bundle_version b ≡ version
      → is_v6_version o version ≡ false
      → write_v6_bundle o (some b)
        ≡ failed [] (invalid_input "v6 Orchard bundles require orchard_v3 or ironwood_v3")
  unfolding write_v6_bundle check_v6_bundle_version ◌>>◌
  refused b version e h = rw (e, h) refl

  refused-version :
      (pool : ValuePool) (revision : Option OrchardProtocolRevision) (b : o.Bundle)
      → revision ≢ some OrchardProtocolRevision.v3
      → IsOptional o (version_for_revision o pool revision) (some b)
      → is_v6_version o (o.bundle_version b) ≡ false
  refused-version orchard none b other h = absurd h
  refused-version orchard (some OrchardProtocolRevision.insecure_v1) b other h =
      rw (h.bundle_version, k.early.0, k.early.1) refl
  refused-version orchard (some OrchardProtocolRevision.v2) b other h =
      rw (h.bundle_version, k.early.2, k.early.3) refl
  refused-version orchard (some OrchardProtocolRevision.v3) b other h = absurd (other refl)
  refused-version ironwood none b other h = absurd h
  refused-version ironwood (some OrchardProtocolRevision.insecure_v1) b other h = absurd h
  refused-version ironwood (some OrchardProtocolRevision.v2) b other h = absurd h
  refused-version ironwood (some OrchardProtocolRevision.v3) b other h = absurd (other refl)

  -- A bundle that is read for version 6 under a branch before NU6.3 cannot be written for version 6.
  pub write_v6_bundle-read_v6_bundle :
      (branch : BranchId) (pool : ValuePool)
      → branch ≢ BranchId.nu6_3
      → (bs : Bytes) → All IsByte bs
      → (b : o.Bundle) (rest : Bytes) → read_v6_bundle o branch pool bs ≡ ok (some b, rest)
      → write_v6_bundle o (some b)
        ≡ failed [] (invalid_input "v6 Orchard bundles require orchard_v3 or ironwood_v3")
  unfolding read_v6_bundle bundle_version_for_branch
  write_v6_bundle-read_v6_bundle branch pool other bs hb b rest e =
      let plain = Exact-read_bundle k (bundle_version_for_branch o branch pool) in
      let (front, wrote, split, hr, h) = plain.at bs hb (some b) rest e in
      refused b (o.bundle_version b) refl (
        refused-version pool (orchard_protocol_revision branch) b
          (λ v3. other (only_nu6_3 branch v3)) h)

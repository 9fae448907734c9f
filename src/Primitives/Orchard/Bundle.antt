-- ===== src/Primitives/Orchard/Bundle.antt =====
-- zcash_primitives/src/transaction/components/orchard.rs: Orchard bundles in the formats of versions 5
-- and 6.
use auzum_zcash.Base.{[], Bool, ◌||◌, List, Option, none, some, if◌then◌else◌}
use auzum_zcash.Base.Io.{
  Bytes, invalid_data, invalid_input, Reader, Written, pure, fail, failed, done, ◌>>=◌, ◌>>◌,
  read_u8, write_u8, write_all,
}
use auzum_zcash.Protocol.Value.{to_i64_le_bytes}
use auzum_zcash.Protocol.Consensus.{BranchId, OrchardProtocolRevision, orchard_protocol_revision}
use auzum_zcash.Primitives.Transaction.Sections.{read_amount}
use auzum_zcash.Primitives.Transaction.Crates.{is_empty, ValuePool, orchard, ironwood}
use auzum_zcash.Primitives.Orchard.Crate.{OrchardCrate}
use auzum_zcash.Primitives.Orchard.Elements.{
  ok_or_data, read_flags, read_anchor, read_signature, read_signatures, read_action_without_auth,
  write_action_without_auth,
}

module _ (o : OrchardCrate) where
  abbrev pub orchard_version : OrchardProtocolRevision → o.BundleVersion
  orchard_version OrchardProtocolRevision.insecure_v1 = o.orchard_insecure_v1
  orchard_version OrchardProtocolRevision.v2 = o.orchard_v2
  orchard_version OrchardProtocolRevision.v3 = o.orchard_v3

  abbrev pub version_for_revision :
      ValuePool → Option OrchardProtocolRevision → Option o.BundleVersion
  version_for_revision pool none = none
  version_for_revision orchard (some revision) = some (orchard_version revision)
  version_for_revision ironwood (some OrchardProtocolRevision.v3) = some o.ironwood_v3
  version_for_revision ironwood (some OrchardProtocolRevision.insecure_v1) = none
  version_for_revision ironwood (some OrchardProtocolRevision.v2) = none

  unfoldable pub bundle_version_for_branch : BranchId → ValuePool → Option o.BundleVersion
  bundle_version_for_branch branch pool =
      version_for_revision pool (orchard_protocol_revision branch)

  -- The rest of a bundle that has actions.
  unfoldable pub read_authorized : Option o.BundleVersion → List o.Action → Reader (Option o.Bundle)
  read_authorized none actions_without_auth = fail (
      invalid_data
        "Orchard-protocol bundles may not be present in this transaction version under the transaction's consensus branch ID")
  read_authorized (some version) actions_without_auth = do
    flags ← read_flags o version
    value_balance ← read_amount
    anchor ← read_anchor o
    proof_bytes ← o.read_vector read_u8
    actions ← read_signatures o actions_without_auth
    binding_signature ← read_signature
    bundle ←
        ok_or_data (
          o.try_from_parts actions flags value_balance anchor proof_bytes binding_signature version)
    pure (some bundle)

  unfoldable pub read_bundle : Option o.BundleVersion → Reader (Option o.Bundle)
  read_bundle version = do
    actions_without_auth ← o.read_vector (read_action_without_auth o)
    if is_empty actions_without_auth
        then pure none
        else read_authorized version actions_without_auth

  unfoldable pub write_bundle : Option o.Bundle → Written
  write_bundle (some bundle) = do
    o.write_nonempty (λ (act : o.Action × Bytes). write_action_without_auth o act.0)
        (o.actions bundle)
    write_u8 (o.flag_byte bundle)
    write_all (to_i64_le_bytes (o.value_balance bundle))
    write_all (o.Anchor.to_bytes (o.anchor bundle))
    o.write_vector write_u8 (o.proof bundle)
    o.write_array (λ (act : o.Action × Bytes). write_all act.1) (o.actions bundle)
    write_all (o.binding_signature bundle)
  write_bundle none = o.write_size 0

  unfoldable pub read_v5_bundle : BranchId → Reader (Option o.Bundle)
  read_v5_bundle branch = read_bundle (bundle_version_for_branch branch orchard)

  unfoldable pub write_v5_bundle : Option o.Bundle → Written
  write_v5_bundle bundle = write_bundle bundle

  abbrev pub is_v6_version : o.BundleVersion → Bool
  is_v6_version version =
      o.same_version version o.orchard_v3 || o.same_version version o.ironwood_v3

  unfoldable pub check_v6_bundle_version : o.BundleVersion → Written
  check_v6_bundle_version version =
      if is_v6_version version
      then done []
      else failed [] (invalid_input "v6 Orchard bundles require orchard_v3 or ironwood_v3")

  unfoldable pub read_v6_bundle : BranchId → ValuePool → Reader (Option o.Bundle)
  read_v6_bundle branch pool = read_bundle (bundle_version_for_branch branch pool)

  unfoldable pub write_v6_bundle : Option o.Bundle → Written
  write_v6_bundle (some bundle) = do
    check_v6_bundle_version (o.bundle_version bundle)
    write_bundle (some bundle)
  write_v6_bundle none = write_bundle none

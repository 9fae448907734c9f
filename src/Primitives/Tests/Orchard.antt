-- ===== src/Primitives/Tests/Orchard.antt =====
-- A sample of the crate orchard, whose encodings are the bytes themselves, and the laws of bundles at it.
use auzum_zcash.Primitives.Encoding.{Encoding, IsElement}
use auzum_zcash.Primitives.Orchard.Size.{write_action_without_auth-action_size}
use auzum_zcash.Bft.Tests.{repeated-IsBytes}
use auzum_zcash.Primitives.Orchard.Codec.{IsAction}
use Prim.Native.String.{String}
use auzum_zcash.Base.{
  ℕ, ◌≡◌, ◌==◌, refl, ap, arith, subst, List, [], ◌∷◌, ◌++◌, replicate, Option, none, some, ◌⊎◌,
  inl, inr, length,
}
use auzum_zcash.Base.Int.{pos}
use auzum_zcash.Base.Io.{
  Bytes, ok, done, failed, invalid_input, ◌>>=◌, read_le, read_times, write_each, write_u32_le,
}
use auzum_zcash.Protocol.Consensus.{BranchId, orchard_protocol_revision}
use auzum_zcash.Protocol.Value.{ZatBalance, from_i64_le_bytes, from_i64}
use auzum_zcash.Primitives.Transaction.Crates.{IsCrates, orchard}
use auzum_zcash.Primitives.Orchard.Crate.{
  NoteCiphertext, OrchardCrate, IsOrchardCrate, IsActionOf, IsBundleOf,
}
use auzum_zcash.Primitives.Orchard.Elements.{
  read_action_without_auth, read_value_commitment, read_nullifier, read_verification_key, read_cmx,
  read_note_ciphertext, read_flags, read_anchor, read_signatures, read_signature,
  write_action_without_auth, action_size,
}
use auzum_zcash.Primitives.Transaction.Sections.{read_amount}
use auzum_zcash.Primitives.Orchard.Bundle.{
  read_v6_bundle, write_v6_bundle, read_bundle, read_authorized, bundle_version_for_branch,
}
use auzum_zcash.Primitives.Orchard.Fill.{
  with_orchard, with_orchard-IsCrates, write_v6_bundle-read_v6_bundle,
}
use auzum_zcash.Primitives.Tests.Crates.{sample, sample_laws, read_list, write_list, list-IsCodec}

abbrev pub plain : Encoding
plain = record { Element = Bytes; from_bytes = λ bs. some bs; to_bytes = λ bs. bs }

record SampleAction : Type 0 where
  nf : Bytes
  key : Bytes
  commitment : Bytes
  note : NoteCiphertext
  cv : Bytes

record SampleBundle : Type 0 where
  signed : List (SampleAction × Bytes)
  switches : ℕ
  value : ZatBalance
  root : Bytes
  pf : Bytes
  sig : Bytes
  version : ℕ

abbrev sample_orchard : OrchardCrate
sample_orchard = record {
  ValueCommitment = plain;
  Nullifier = plain;
  VerificationKey = plain;
  NoteCommitment = plain;
  Anchor = plain;
  Action = SampleAction;
  action_from_parts = λ nf key commitment note cv.
      inr (record { nf = nf; key = key; commitment = commitment; note = note; cv = cv });
  cv_net = λ a. a.cv;
  nullifier = λ a. a.nf;
  rk = λ a. a.key;
  cmx = λ a. a.commitment;
  encrypted_note = λ a. a.note;
  BundleVersion = ℕ;
  orchard_insecure_v1 = 0;
  orchard_v2 = 1;
  orchard_v3 = 2;
  ironwood_v3 = 3;
  same_version = λ v w. v == w;
  Flags = ℕ;
  flags_from_byte = λ n v. some n;
  Bundle = SampleBundle;
  try_from_parts = λ signed switches value root pf sig version. inr (record {
    signed = signed;
    switches = switches;
    value = value;
    root = root;
    pf = pf;
    sig = sig;
    version = version;
  });
  actions = λ b. b.signed;
  flags = λ b. b.switches;
  flag_byte = λ b. b.switches;
  value_balance = λ b. b.value;
  anchor = λ b. b.root;
  proof = λ b. b.pf;
  binding_signature = λ b. b.sig;
  bundle_version = λ b. b.version;
  read_vector = read_list;
  write_vector = write_list;
  write_nonempty = write_list;
  write_array = write_each;
  write_size = write_u32_le;
}

abbrev from_right : {A : Type 0} → String ⊎ A → Option A
from_right (inl message) = none
from_right (inr a) = some a

same_right : {A : Type 0} {a b : A} → some a ≡ some b → a ≡ b
same_right p = cc

unfoldable sample_orchard_laws : IsOrchardCrate sample_orchard
sample_orchard_laws = record {
  value_commitment = λ bs a e. cc;
  nullifier = λ bs a e. cc;
  verification_key = λ bs a e. cc;
  note_commitment = λ bs a e. cc;
  anchor = λ bs a e. cc;
  action_parts = λ nf key commitment note cv a e.
      subst (λ x. IsActionOf sample_orchard x nf key commitment note cv)
        (same_right (ap from_right e))
        (record { nullifier = refl; rk = refl; cmx = refl; encrypted_note = refl; cv_net = refl });
  bundle_parts = λ signed fl value root pf sig version b e.
      subst (λ x. IsBundleOf sample_orchard x signed fl value root pf sig version)
        (same_right (ap from_right e))
        (record {
          actions = refl;
          flags = refl;
          value_balance = refl;
          anchor = refl;
          proof = refl;
          binding_signature = refl;
          bundle_version = refl;
        });
  flag_byte = λ n b e. cc;
  same_orchard = refl;
  same_ironwood = refl;
  early = (refl, refl, refl, refl);
  vector = list-IsCodec;
  vector_format = λ w xs. refl;
  nonempty_format = λ w xs. refl;
  array_format = λ w xs. refl;
}

with_orchard-IsCrates_example : IsCrates (with_orchard sample_orchard sample)
with_orchard-IsCrates_example = with_orchard-IsCrates sample_orchard_laws sample sample_laws

-- One action of NU5, as it stands in a transaction.
abbrev early_action : SampleAction
early_action = record {
  cv = replicate 32 7;
  nf = replicate 32 7;
  key = replicate 32 7;
  commitment = replicate 32 7;
  note = record {
    epk_bytes = replicate 32 7;
    enc_ciphertext = replicate 580 7;
    out_ciphertext = replicate 80 7;
  };
}

abbrev early_bundle : SampleBundle
early_bundle = record {
  signed = (early_action, replicate 64 7) ∷ [];
  switches = 3;
  value = record { amount = pos 0 };
  root = replicate 32 7;
  pf = [];
  sig = replicate 64 7;
  version = 0;
}

abbrev early_bytes : Bytes
early_bytes =
    (1 ∷ 0 ∷ 0 ∷ 0 ∷ [])
    ++ replicate 820 7
    ++ (3 ∷ replicate 8 0)
    ++ replicate 32 7
    ++ replicate 4 0
    ++ replicate 128 7

early_read :
    read_v6_bundle sample_orchard BranchId.nu5 orchard early_bytes ≡ ok (some early_bundle, [])
unfolding read_v6_bundle read_bundle read_authorized bundle_version_for_branch
    orchard_protocol_revision ◌>>=◌ read_le read_times read_action_without_auth
    read_value_commitment read_nullifier read_verification_key read_cmx read_note_ciphertext
    read_flags read_amount from_i64_le_bytes from_i64 read_anchor read_signatures read_signature
early_read = refl

write_v6_bundle-read_v6_bundle_example :
    write_v6_bundle sample_orchard (some early_bundle)
    ≡ failed [] (invalid_input "v6 Orchard bundles require orchard_v3 or ironwood_v3")
write_v6_bundle-read_v6_bundle_example =
    write_v6_bundle-read_v6_bundle sample_orchard_laws BranchId.nu5 orchard (ground arith)
      early_bytes (ground arith) early_bundle [] early_read

early_action-IsAction : IsAction sample_orchard early_action
early_action-IsAction =
    let element : IsElement plain (replicate 32 7) = (repeated-IsBytes 32 7 (omega arith), refl) in
    record {
      cv_net = element;
      nullifier = element;
      rk = element;
      cmx = element;
      encrypted_note = record {
        epk_bytes = repeated-IsBytes 32 7 (omega arith);
        enc_ciphertext = repeated-IsBytes 580 7 (omega arith);
        out_ciphertext = repeated-IsBytes 80 7 (omega arith);
      };
      from_parts = refl;
    }

write_action_without_auth-action_size_example :
    (bs : Bytes) × (write_action_without_auth sample_orchard early_action ≡ done bs)
    × (length bs ≡ action_size)
write_action_without_auth-action_size_example =
    write_action_without_auth-action_size sample_orchard early_action early_action-IsAction

-- ===== src/Primitives/Tests/Sapling.antt =====
-- A sample of the crate sapling, whose encodings are the bytes themselves, and the laws of bundles at it.
use auzum_zcash.Base.{refl, arith, true, [], ◌∷◌, replicate, some}
use auzum_zcash.Base.Int.{negsuc}
use auzum_zcash.Base.Io.Decodes.{Decodes}
use auzum_zcash.Bft.Tests.{repeated-IsBytes}
use auzum_zcash.Primitives.Encoding.{IsElement}
use auzum_zcash.Primitives.Sapling.{
  SaplingCrate, SpendDescription, OutputDescription, SaplingParts, read_v4_components,
  write_v4_components, parts_of,
}
use auzum_zcash.Primitives.Sapling.Codec.{
  IsSaplingCrate, IsSpend, IsOutput, Decodes-read_v4_components,
}
use auzum_zcash.Primitives.Tests.Crates.{read_list, write_list, list-IsCodec}
use auzum_zcash.Primitives.Tests.Orchard.{plain}

abbrev sample_sapling : SaplingCrate
sample_sapling = record {
  ValueCommitment = plain;
  Base = plain;
  VerificationKey = plain;
  NoteCommitment = plain;
  read_vector = read_list;
  write_vector = write_list;
}

sample_sapling_laws : IsSaplingCrate sample_sapling
sample_sapling_laws = record {
  value_commitment = λ bs a e. cc;
  base = λ bs a e. cc;
  verification_key = λ bs a e. cc;
  note_commitment = λ bs a e. cc;
  vector = list-IsCodec;
}

-- A bundle that takes a coin from the pool, with one spend and one output.
abbrev spend : SpendDescription sample_sapling
spend = record {
  cv = replicate 32 1;
  anchor = replicate 32 1;
  nullifier = replicate 32 2;
  rk = replicate 32 1;
  zkproof = replicate 192 3;
  spend_auth_sig = replicate 64 4;
}

abbrev output : OutputDescription sample_sapling
output = record {
  cv = replicate 32 1;
  cmu = replicate 32 1;
  ephemeral_key = replicate 32 2;
  enc_ciphertext = replicate 580 5;
  out_ciphertext = replicate 80 6;
  zkproof = replicate 192 3;
}

abbrev parts : SaplingParts sample_sapling
parts = record {
  value_balance = record { amount = negsuc 99_999_999 };
  shielded_spends = spend ∷ [];
  shielded_outputs = output ∷ [];
}

spend-IsSpend : IsSpend sample_sapling spend
spend-IsSpend =
    let element : IsElement plain (replicate 32 1) = (repeated-IsBytes 32 1 (omega arith), refl) in
    record {
      cv = element;
      anchor = element;
      nullifier = repeated-IsBytes 32 2 (omega arith);
      rk = element;
      zkproof = repeated-IsBytes 192 3 (omega arith);
      spend_auth_sig = repeated-IsBytes 64 4 (omega arith);
    }

output-IsOutput : IsOutput sample_sapling output
output-IsOutput =
    let element : IsElement plain (replicate 32 1) = (repeated-IsBytes 32 1 (omega arith), refl) in
    record {
      cv = element;
      cmu = element;
      ephemeral_key = repeated-IsBytes 32 2 (omega arith);
      enc_ciphertext = repeated-IsBytes 580 5 (omega arith);
      out_ciphertext = repeated-IsBytes 80 6 (omega arith);
      zkproof = repeated-IsBytes 192 3 (omega arith);
    }

Decodes-read_v4_components_example :
    Decodes
      (write_v4_components sample_sapling (some parts) true)
      (read_v4_components sample_sapling true)
      (parts_of sample_sapling (some parts))
Decodes-read_v4_components_example =
    Decodes-read_v4_components sample_sapling_laws (some parts)
      (omega arith, ((spend-IsSpend, tt), omega arith), ((output-IsOutput, tt), omega arith))

-- ===== src/Bft/Tests/Votes.antt =====
-- The laws of votes, fat pointers and hardfork rules, at sample data.
use mathlib.Core.List.{Nodup, Perm}
use auzum_zcash.Base.{
  ◌≡◌, ◌≢◌, ◌↔◌, ◌≤◌, ◌^◌, refl, arith, [], ◌∷◌, length, replicate, All, none, some, map, eq_bytes,
}
use auzum_zcash.Base.Outcome.{success}
use auzum_zcash.Base.Io.{Bytes, ok, read_exact, ◌>>=◌, read_le}
use auzum_zcash.Bft.Keys.{verified, zero_bytes, read_pub_key_id}
use auzum_zcash.Bft.Vote.{
  Vote, IsVote, precommit, prevote, to_bytes, from_bytes, verify_signed_vote, SignedVote, read_vote,
  read_height_u64, read_round_word, vote_value, word_kind,
}
use auzum_zcash.Bft.Vote.Codec.{from_bytes-to_bytes, to_bytes-from_bytes}
use auzum_zcash.Bft.FatPointer.{
  FatPointerToBftBlock, FatPointerSignature, IsFatPointer, fat_pointer_bytes, inflate,
  verify_signatures, batch_item, inflate_entry,
}
use auzum_zcash.Bft.FatPointer.Codec.{fat_pointer_bytes_iff}
use auzum_zcash.Bft.FatPointer.Verify.{verify_signatures_iff, inflate-votes}
use auzum_zcash.Bft.HardFork.{HardForkConfig, IsHardFork, new_hard_fork, equal_neighbours, sort}
use auzum_zcash.Bft.HardFork.Order.{IsAscending}
use auzum_zcash.Bft.HardFork.Finalizers.{new_hard_fork-success, new_hard_fork-success_iff}
use auzum_zcash.Bft.Roster.{RosterMember, IsMember}
use auzum_zcash.Bft.Tests.{repeated-IsBytes, key, hash_of, signature, toy, toy_batch_sound}

abbrev sample_vote : Vote
sample_vote = record {
  validator = key 7;
  value = some (hash_of 9);
  height = 300;
  kind = precommit;
  round = 5;
}

differ : replicate 32 9 ≢ zero_bytes
differ e = cc

sample_vote-IsVote : IsVote sample_vote
sample_vote-IsVote = record {
  validator = repeated-IsBytes 32 7 (omega arith);
  value = (repeated-IsBytes 32 9 (omega arith), differ);
  height = omega arith;
  round = omega arith;
}

from_bytes-to_bytes_example : from_bytes (to_bytes sample_vote) ≡ ok sample_vote
from_bytes-to_bytes_example = from_bytes-to_bytes sample_vote sample_vote-IsVote

-- A Nil prevote, from its 76 bytes.
abbrev nil_bytes : Bytes
nil_bytes = replicate 76 0

abbrev nil_vote : Vote
nil_vote = record { validator = key 0; value = none; height = 0; kind = prevote; round = 0 }

nil_read : from_bytes nil_bytes ≡ ok nil_vote
unfolding from_bytes read_vote ◌>>=◌ read_pub_key_id read_exact read_height_u64 read_le
    read_round_word vote_value word_kind eq_bytes
nil_read = refl

to_bytes-from_bytes_example : (to_bytes nil_vote ≡ nil_bytes) × IsVote nil_vote
to_bytes-from_bytes_example =
    to_bytes-from_bytes nil_bytes nil_vote (repeated-IsBytes 76 0 (omega arith)) nil_read

abbrev sample_pointer : FatPointerToBftBlock
sample_pointer = record {
  block_hash = hash_of 9;
  height = 300;
  round = 5;
  kind = precommit;
  signatures =
      record { pub_key = key 7; signature = signature 7 }
      ∷ record { pub_key = key 8; signature = signature 8 }
      ∷ [];
}

sample_pointer-IsFatPointer : IsFatPointer sample_pointer
sample_pointer-IsFatPointer = record {
  block_hash = repeated-IsBytes 32 9 (omega arith);
  height = omega arith;
  round = omega arith;
  few = omega arith;
  signatures = (
    record {
      pub_key = repeated-IsBytes 32 7 (omega arith);
      signature = repeated-IsBytes 64 7 (omega arith);
    },
    (
      record {
        pub_key = repeated-IsBytes 32 8 (omega arith);
        signature = repeated-IsBytes 64 8 (omega arith);
      },
      tt,
    ),
  );
}

abbrev crowd : FatPointerToBftBlock
crowd = record sample_pointer {
  signatures = replicate 65536 (record { pub_key = key 7; signature = signature 7 });
}

fat_pointer_bytes_iff_example :
    (fat_pointer_bytes crowd ≡ none) ↔ (2 ^ 16 ≤ length crowd.signatures)
fat_pointer_bytes_iff_example = fat_pointer_bytes_iff crowd

verify_signatures_iff_example :
    (verify_signatures toy sample_pointer (some (hash_of 1)) tt ≡ verified)
    ↔ All
        (λ (v : SignedVote). verify_signed_vote toy v (some (hash_of 1)) ≡ verified)
        (inflate sample_pointer)
verify_signatures_iff_example =
    verify_signatures_iff toy toy_batch_sound sample_pointer (some (hash_of 1)) tt

sample_verified : verify_signatures toy sample_pointer (some (hash_of 1)) tt ≡ verified
unfolding verify_signatures inflate eq_bytes batch_item inflate_entry
sample_verified = refl

inflate-votes_example :
    (map (λ (v : SignedVote). v.vote.validator) (inflate sample_pointer)
      ≡ map (λ (s : FatPointerSignature). s.pub_key) sample_pointer.signatures)
    × All (λ (v : SignedVote). from_bytes (to_bytes v.vote) ≡ ok v.vote) (inflate sample_pointer)
inflate-votes_example = inflate-votes sample_pointer sample_pointer-IsFatPointer

abbrev sample_fork : HardForkConfig
sample_fork = record {
  pow_activation_height = 600;
  bft_certificate_height = 20;
  terminated_finalizers = key 3 ∷ key 5 ∷ [];
}

sample_fork-IsHardFork : IsHardFork sample_fork
sample_fork-IsHardFork = record {
  pow_activation_height = omega arith;
  bft_certificate_height = omega arith;
  few = omega arith;
  terminated_finalizers =
      (repeated-IsBytes 32 3 (omega arith), (repeated-IsBytes 32 5 (omega arith), tt));
}

built_fork : new_hard_fork 600 20 (key 5 ∷ key 3 ∷ []) ≡ success sample_fork
unfolding new_hard_fork equal_neighbours sort eq_bytes
built_fork = refl

new_hard_fork-success_example :
    (sample_fork.pow_activation_height ≡ 600)
    × (sample_fork.bft_certificate_height ≡ 20)
    × Perm sample_fork.terminated_finalizers (key 5 ∷ key 3 ∷ [])
    × IsAscending sample_fork.terminated_finalizers
new_hard_fork-success_example =
    new_hard_fork-success 600 20 (key 5 ∷ key 3 ∷ []) sample_fork built_fork

new_hard_fork-success_iff_example :
    ((c : HardForkConfig) × (new_hard_fork 600 20 (key 5 ∷ key 3 ∷ []) ≡ success c))
    ↔ (((key 5 ∷ key 3 ∷ []) ≢ []) × Nodup (key 5 ∷ key 3 ∷ []))
new_hard_fork-success_iff_example = new_hard_fork-success_iff 600 20 (key 5 ∷ key 3 ∷ [])

abbrev sample_member : RosterMember
sample_member = record {
  pub_key = key 7;
  voting_power = record { amount = 500 };
  txids = record { txid = replicate 32 9; zats = record { amount = 500 } } ∷ [];
}

sample_member-IsMember : IsMember sample_member
sample_member-IsMember = record {
  pub_key = repeated-IsBytes 32 7 (omega arith);
  voting_power = omega arith;
  few = omega arith;
  txids = (record { txid = repeated-IsBytes 32 9 (omega arith); zats = omega arith }, tt);
}

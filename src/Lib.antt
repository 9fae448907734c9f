-- ===== src/Lib.antt =====
-- The data of the Crosslink BFT chain, the transactions of the chain under it, and the protocol
-- arithmetic of both: what the crates bft_primitives, zcash_primitives and zcash_protocol read, write,
-- check and compute, as functions, with the laws that make them correct.
--
-- The parts, and the files that model them:
--
-- - Base: lists, bytes and tests over native numbers. Base.Io is reading and writing on bytes, as
--   `corez::io` does it for a slice and a vector: a reader takes the bytes that are left and gives a
--   value with those that are left then, or an error; a write gives the bytes that it appended, and
--   the error that ended it, if any. Its integers are crates/bft_primitives/src/encoding.rs.
--   Base.Io.Decodes states that what was written is read back, whatever follows; Base.Io.Exact that
--   what was read is what is written; Base.Io.Codec pairs the two; Base.Io.Local that a reader does not look ahead; Base.Io.Ensures
--   what holds of every value that is read. Each has one rule for each way to compose readers.
-- - Bft.Keys: keys, signatures and hashes of crates/bft_primitives/src/keys.rs, hash.rs, height.rs.
-- - Bft.Vote: src/vote.rs of that crate, `Vote::to_bytes` and `Vote::from_bytes` as to_bytes and
--   from_bytes, `SignedVote::verify` as verify_signed_vote.
-- - Bft.FatPointer: src/fat_pointer.rs, a bundle of signatures over one vote; `inflate` expands it
--   into the signed votes, which `verify_signatures` checks as a batch.
-- - Bft.HardFork: src/hard_fork.rs; `HardForkConfig::new` is new_hard_fork.
-- - Bft.Params, Bft.PowHeader, Bft.Block: src/params.rs and src/block.rs. A block holds the fat pointer
--   to the block before it, proof-of-work headers, each of which may hold a fat pointer, and hardfork
--   rules. `check_headers`, `BftBlock::new`, `read` and `write` are check_headers, new_block, read_block
--   and write_block; `NotarizedBftBlock` is Bft.Block.Notarized.
-- - Bft.Roster: src/roster.rs, with amounts of Protocol.Value.
-- - Protocol.Value: components/zcash_protocol/src/value.rs, `ZatBalance` over integers and `Zatoshis`
--   over natural numbers.
-- - Protocol.Consensus: components/zcash_protocol/src/consensus.rs, heights, upgrades and branches.
-- - Protocol.Zip318: components/zcash_protocol/src/zip318.rs, denominations, expiry heights, anchor
--   boundaries and the classification of transactions.
-- - Primitives.TxVersion: `TxVersion` of zcash_primitives/src/transaction/mod.rs, with the version and
--   group ids of components/zcash_protocol/src/constants.rs; Pools relates the pools of a version to the
--   upgrades in force.
-- - Primitives.Staking: zcash_primitives/src/transaction/components/staking.rs. Fields and Forms are the
--   seven records, Action the sum of them and its codec, Balance the value that an action moves.
-- - Primitives.Sprout: components/sprout.rs in the same folder, JoinSplit descriptions.
-- - Primitives.Orchard: components/orchard.rs in the same folder. Crate is what it uses of the crate
--   orchard, Elements and Bundle are its readers and writers, and Fill makes them the codec that
--   transactions use.
-- - Primitives.Sapling: components/sapling.rs, the descriptions of spends and outputs and what version 4
--   has of a bundle; Primitives.Encoding is elements of 32 bytes, which both kinds of bundle have.
-- - Primitives.Fees: zcash_primitives/src/transaction/fees/zip317.rs and fees/transparent.rs, with
--   `FeeRule::fee_required` as fee_required; Required relates it to exact numbers.
-- - Primitives.Transaction: zcash_primitives/src/transaction/mod.rs. Crates is what transactions use of
--   other modules, with its laws; Data the transaction itself; Sections, Early and Wire its formats, the
--   versions up to 4 in Early and those from 5 on in Wire; Paid the fee that it pays. Shared, Modern,
--   Legacy, Ids, Canonicity and Fee hold the theorems. `Transaction::read`, `write` and `from_data` are
--   read, write and from_data, and read_contents is `read` without the id.
-- - Bft.Tests, Protocol.Tests and Primitives.Tests: sample data, and the laws at it.
--
-- Machine integers are numbers with their wrap-around or check written out: u64 arithmetic that the
-- source leaves unchecked wraps, and usize has 64 bits. Lists are shorter than 2 ^ 64, as in memory.
--
-- Fuel: the loops of `largest_one_two_five` and of `is_canonical_within` take 20 steps. From a number
-- that is not zero these pass every u64, since each step multiplies or divides by ten. At zero, as the
-- first value of the former or as the value of the latter, the source's loop does not end; the result
-- is `none`, in `classify` as well.
--
-- Parameters, for code of other crates: Ed25519 (ed25519_zebra), CompactSize, Vector and Array
-- (zcash_encoding), SHA-256, Equihash, BLAKE3 under the key of a domain string, transparent inputs and
-- outputs (zcash_transparent), the curve types of the crates sapling and orchard, and the actions and
-- bundles of the latter. A transaction's digest (txid.rs) and its codec of Sapling bundles are parameters
-- too. The laws are the records IsCrates, IsOrchardCrate and IsSaplingCrate.
--
-- Build: the cfg flag crosslink is a Boolean of Bft.PowHeader and Bft.Block and is on for transactions;
-- the flag nu7 is off, and the message for an unknown branch is that of a build without std.
--
-- Of the versions up to 4 the code reads and drops a Sapling value balance without spends and outputs,
-- and of version 6 it reads Orchard bundles under branches before NU6.3 that it does not write; so the
-- laws on what was read leave those out.
--
-- Not modelled: Display, Debug and serde instances; the builder of zcash_primitives, which drives the
-- provers of other crates; the digests of transactions and of signatures; the codec of whole Sapling
-- bundles of version 5; Merkle trees and the block header of zcash_primitives; memos; the constants of
-- addresses.
pub mod Base
pub mod Bft
pub mod Primitives
pub mod Protocol

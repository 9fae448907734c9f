-- ===== src/Primitives/Orchard.antt =====
-- zcash_primitives/src/transaction/components/orchard.rs: the byte format of Orchard bundles, and which
-- version a bundle has under a consensus branch.
pub mod Crate
pub mod Elements
pub mod Bundle
pub mod Codec
pub mod Size
pub mod Parts
pub mod Fill

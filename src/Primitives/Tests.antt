-- ===== src/Primitives/Tests.antt =====
-- Sample data for the laws of transactions, and those laws at it.
pub mod Crates
pub mod Runs
pub mod Fees
pub mod Orchard
pub mod Sapling

-- ===== src/Primitives.antt =====
-- zcash_primitives: transactions, their staking actions, fees and byte formats.
pub mod Encoding
pub mod Fees
pub mod Orchard
pub mod Sapling
pub mod Sprout
pub mod Staking
pub mod Transaction
pub mod TxVersion
pub mod Tests

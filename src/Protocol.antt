-- ===== src/Protocol.antt =====
-- components/zcash_protocol: amounts, and the parameters of pool migration.
pub mod Value
pub mod Consensus
pub mod Zip318
pub mod Tests

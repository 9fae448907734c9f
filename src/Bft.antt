-- ===== src/Bft.antt =====
-- crates/bft_primitives: the data that the Crosslink BFT chain exchanges, and its byte formats.
pub mod Keys
pub mod Params
pub mod PowHeader
pub mod Block
pub mod Vote
pub mod FatPointer
pub mod HardFork
pub mod Roster
pub mod Tests

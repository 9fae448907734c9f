-- ===== src/Primitives/Staking.antt =====
-- zcash_primitives/src/transaction/components/staking.rs: staking actions.
pub mod Fields
pub mod Forms
pub mod Action
pub mod Parts
pub mod Shapes
pub mod Codec
pub mod Balance

-- ===== src/Primitives/Transaction.antt =====
-- zcash_primitives/src/transaction/mod.rs: transactions, their byte formats, their ids and the fee that
-- they pay.
pub mod Crates
pub mod Data
pub mod Sections
pub mod Early
pub mod Wire
pub mod Paid
pub mod Shared
pub mod Modern
pub mod Legacy
pub mod Ids
pub mod Canonicity
pub mod Fee

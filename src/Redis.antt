-- ===== src/Redis.antt =====
-- The Redis side of the sale.
pub mod Runner
pub mod Hash
pub mod Members
pub mod Db
pub mod Scripts
pub mod Ledger
pub mod Store
mod Tests

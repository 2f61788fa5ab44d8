-- ===== src/Redis/Ledger.antt =====
-- What the scripts keep of the ledger of a sale: its stock, buyers and reservations.
pub mod Effects
pub mod Invariant
pub mod Repair
pub mod Runs
pub mod Holders
pub mod Decision

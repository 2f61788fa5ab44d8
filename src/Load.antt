-- ===== src/Load.antt =====
-- The audit of a load run (load).
pub mod Audit
mod Tests

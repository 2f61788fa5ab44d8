-- ===== src/Redis/Scripts.antt =====
-- The Lua scripts of packages/redis/src/scripts, each one atomic step on the keys of one sale: a
-- script's reply and the keys that it leaves. The word of a reply is a constructor here; its
-- spelling on the wire is in Redis/Store.
pub mod Purchase
pub mod Compensate
pub mod Seed
pub mod Reconcile
pub mod Membership

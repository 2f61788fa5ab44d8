-- ===== src/Redis/Store.antt =====
-- `SaleRedisStore` (packages/redis/src/sale-store.ts): the checks that it makes before and after each
-- script, on the keys of one sale. A method gives its result, or the error that it throws, and the
-- keys that it leaves.
pub mod Entry
pub mod Methods
pub mod Admin
pub mod Scan
pub mod Laws
pub mod Window

-- ===== src/Shared.antt =====
-- The package that the API, the worker and the Redis store share (packages/shared/src).
pub mod SaleState
pub mod Pattern
pub mod UserId
pub mod Keys
pub mod Uuid
pub mod Queue
pub mod Results
mod Tests

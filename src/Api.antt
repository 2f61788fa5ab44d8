-- ===== src/Api.antt =====
-- The API: the clock of a pod, the purchase route, the status route and the limit on a user's attempts.
pub mod Sale
pub mod Health
pub mod Filter
pub mod QueueProbe
pub mod Guard
pub mod Clock
pub mod Purchase
pub mod RateLimit
pub mod Producer
mod Tests

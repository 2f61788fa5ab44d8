-- ===== src/Worker.antt =====
-- The worker: what writes the durable order of a reservation, and what repairs the two stores.
pub mod Step
pub mod Env
pub mod Postgres
pub mod Orders
pub mod Job
pub mod Processor
pub mod Sales
pub mod Pages
pub mod Lock
pub mod Queue
pub mod World
pub mod Enqueue
pub mod Keeps
pub mod Recovery
pub mod Scans
pub mod Sweep
pub mod Health
pub mod Pass
pub mod Maintenance
pub mod Service
pub mod Boot
pub mod Lifecycle
mod Tests

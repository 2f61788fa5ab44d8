-- ===== src/Lib.antt =====
-- The Bookipi flash sale: one sale with a limited stock, at most one unit for each user. The API asks
-- Redis, which decides each purchase in one atomic script; a queue and a worker write the durable order
-- to Postgres afterwards, and the worker's reconciler repairs what the two stores and the queue lose.
--
-- The parts, and the files that model them:
--   packages/shared/src: Shared. SaleState holds deriveSaleState, isWithinSaleWindow and
--     msUntilNextTransition; Keys the key builders; UserId the identifier's schema and its repeated
--     checks; Uuid and Queue the job payload and the job identity; Results the outcome tables.
--   packages/redis/src/scripts: Redis/Scripts, one function for each Lua script, on the keys of one
--     sale (Redis/Db). Redis/Ledger is about any sequence of scripts; Redis/Runner is runScript of run.ts.
--   packages/redis/src/sale-store.ts: Redis/Store. Entry decodes replies and ledger values; Methods and
--     Admin hold the methods of SaleRedisStore.
--   apps/worker/src/orders: Worker/Postgres holds the tables and the SQL statements, Worker/Orders
--     persist and resolveFailed of OrderRepository, Worker/Sales ensureSale and listSaleOrders,
--     Worker/Lock withSessionReconciliationLock, Worker/Processor the process method of OrderProcessor.
--   apps/worker/src/reconciliation/reconciliation.service.ts: Worker/Job classifies jobs, Worker/Enqueue
--     gives a live reservation its job, Worker/Recovery restores lost reservations and decides on buyers
--     without one, Worker/Sweep is sweepFailed, Worker/Pages and Worker/Sales scanOrders, Worker/Scans
--     scanLedger and scanJobs, Worker/Pass is runDiff, which composes them all. Worker/World is the
--     state that they share, Worker/Queue the calls of BullMQ. Worker/Service is the state of the
--     service, Worker/Boot bootPass, Worker/Lifecycle startLifecycle, cleanupHalfTransition and
--     stopLifecycle, Worker/Maintenance triggerPass, triggerDlqSweep and scheduleMaintenance.
--   apps/worker/src/orders/orders.consumer.ts: Worker/Service/Consuming, on the state in Worker/Service.
--   apps/worker/src/health/health.service.ts: Worker/Health, with the changes of ReconciliationState.
--   apps/api/src/purchase: Api/Guard is evaluateFastPathGuard, Api/Purchase the purchase and the status
--     services. apps/api/src/common/per-user-rate-limit.guard.ts: Api/RateLimit.
--   apps/api/src/sale/sale.service.ts: Api/Sale. apps/api/src/health/health.service.ts: Api/Health.
--   apps/api/src/common/http-exception.filter.ts: Api/Filter, with the tables and envelopes beside it.
--   apps/api/src/infra: Api/QueueProbe is QueueDepthProbe, Api/Clock is RedisAnchoredClock and the
--     SaleSnapshotCache that it fills.
--   apps/api/src/queue/orders-queue.service.ts: Api/Producer, a state machine with an event for each point
--     where a call, a retirement or the closing begins or ends.
--   load/audit.ts: Load/Audit is evaluateAudit, the check of the system after a load run.
--
-- How the state corresponds: SaleDb is the five keys of one sale, config, stock, buyers, reservations and
-- metrics. A string of digits that Redis treats as an integer is kept as that integer; a ledger value is
-- kept as the text that the script writes. Redis runs one script at a time, so an interleaving of
-- clients is a list of script calls. Tables is the rows of sales and orders; a transaction is one step,
-- since its row lock and its advisory lock keep others out, and CommitOutcome says what its client sees
-- of COMMIT; ROLLBACK does not undo what was done to Redis. Text is a list of character codes (Text).
-- TIME, randomUUID, Date.now, Date.parse, clock_timestamp and the collation are arguments. Code that
-- throws and leaves its state behind is a Step (Worker/Step). BullMQ is the record QueueApi of calls
-- that may throw and may change the queue. At an await of the boot and the start, the state's list of
-- awaits says what is replied and what happens until then: a stop, the end of the consumer's run loop,
-- the end of a pass or of a sweep; an empty list is a quiet success. What would happen in the midst of a
-- pass of the boot comes at its end. In Worker/Maintenance a turn of the event loop runs the `finally` of
-- what has ended before it ends the next work.
--
-- Bounds: restoreReservations takes one round of fuel for each entry, which is enough since each round
-- takes at least one; scanOrders takes one round more than there are orders, which is enough since
-- each round but the last reads a full page; the other loops of a pass end by `unfinished` where their
-- fuel runs out, which no theorem takes for an end of the pass; so do the attempts of a start and the
-- rounds of its drain, where the code goes on until it is stopped or 30 seconds have passed; a number is
-- printed in n + 1 rounds, since each divides by ten.
--
-- Not modelled: what other clients do in the midst of a pass; errors of the disposers, which remove
-- timers and listeners; the construction of the consumer's clients; what the producer waits for, and
-- its sockets; the timers of the pod's clock; the liveness body of the API; what
-- is logged, and the times of the last pass and sweep, which decide nothing. The web client, the rest
-- of the load harness and the Nest modules hold no authority over the sale.
pub mod Prelude
pub mod Text
pub mod Shared
pub mod Redis
pub mod Worker
pub mod Api
pub mod Load

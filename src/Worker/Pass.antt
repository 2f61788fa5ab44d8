-- ===== src/Worker/Pass.antt =====
-- `runDiff` of apps/worker/src/reconciliation/reconciliation.service.ts: one pass over the orders, the
-- jobs, the ledger and the buyers, which derives the stock at its end and sweeps the failed jobs. The pass
-- runs by itself: what other clients do to Redis, Postgres and the queue meanwhile is left out.
use bookipi_technical_test.Prelude.{
  ℕ, zero, suc, ◌+◌, Bool, true, false, not, ◌||◌, ◌&&◌, Option, none, some, List, [], ◌∷◌, length,
  ltb, if◌then◌else◌, ok, plain_error, unfinished,
}
use bookipi_technical_test.Text.{Text, text_eq}
use bookipi_technical_test.Shared.Queue.{OrdersQueueJobPayload}
use bookipi_technical_test.Redis.Hash.{Hash, hget, hset, hexists}
use bookipi_technical_test.Redis.Scripts.Membership.{InspectOutcome, buyer_only}
use bookipi_technical_test.Redis.Scripts.Reconcile.{ReconcileStateOutcome}
use bookipi_technical_test.Redis.Store.Entry.{ReservationEntry, ReservationInspection}
use bookipi_technical_test.Redis.Store.Methods.{
  reconcile_buyer_membership, inspect_reservation_membership, reconcile_stock_from_reservations,
}
use bookipi_technical_test.Redis.Store.Scan.{Scan, first_cursor, scan_buyers}
use bookipi_technical_test.Worker.Step.{Step, pure, fail, ensure, ◌>>=◌, ◌>>◌}
use bookipi_technical_test.Worker.Env.{WorkerEnv}
use bookipi_technical_test.Worker.Orders.{CommitOutcome, DurableOrder}
use bookipi_technical_test.Worker.Queue.{QueueApi}
use bookipi_technical_test.Worker.World.{
  World, Incident, retained_collision, checkpoint, on_db, on_queue, read_db, report,
}
use bookipi_technical_test.Worker.Health.{PassResult}
use bookipi_technical_test.Worker.Enqueue.{
  ensure_live_reservation_queued, is_live, is_persisted, is_row_of,
}
use bookipi_technical_test.Worker.Recovery.{
  is_collision, is_compensated_row, durable_of, when, apply_recovery_candidate, from_persisted,
  from_queue, order_candidate, job_candidate, resolve_buyer_inspection, adjudicate_buyer_only,
}
use bookipi_technical_test.Worker.Sales.{scan_orders}
use bookipi_technical_test.Worker.Scans.{ScannedJob, QueueScanResult, scan_jobs, scan_ledger}
use bookipi_technical_test.Worker.Sweep.{SweepCounts, sweep_failed}
pub mod Keeps
pub mod Ledger
pub mod Buyers
pub mod Iteration
pub mod Alignment
pub mod Sound

-- `new Map(orders.map((order) => [order.userId, order]))`, on a map that is there already.
unfoldable pub orders_map : List DurableOrder → Hash DurableOrder → Hash DurableOrder
orders_map [] m = m
orders_map (o ∷ os) m = orders_map os (hset o.user_id o m)

unfoldable pub ledger_map : List ReservationEntry → Hash ReservationEntry → Hash ReservationEntry
ledger_map [] m = m
ledger_map (e ∷ es) m = ledger_map es (hset e.user_id e m)

abbrev pub is_reconciled : ReconcileStateOutcome → Bool
is_reconciled ReconcileStateOutcome.reconciled = true
is_reconciled _ = false

-- The two iterations of Redis that a pass makes, and the order of user identifiers in Postgres.
pub record PassReads : Type 0 where
  pub hscan : Scan
  pub sscan : Scan
  pub before : Text → Text → Bool

module _ {Q : Type 0} where
  abbrev pub start_with : List DurableOrder → Step (World Q) (Unit {0})
  start_with orders w =
      (ok tt, record w { by_user = orders_map orders []; ledger_by_user = []; incidents = [] })

  abbrev pub note_ledger : List ReservationEntry → Step (World Q) (Unit {0})
  note_ledger entries w = (ok tt, record w { ledger_by_user = ledger_map entries [] })

  abbrev pub is_known : Text → Step (World Q) Bool
  is_known user w = (ok (hexists user w.ledger_by_user), w)

  -- `orders`, read to the end.
  abbrev pub read_orders : PassReads → WorkerEnv → ℕ → Step (World Q) (List DurableOrder)
  read_orders reads env fuel w = elim (scan_orders reads.before env w.stores.tables fuel) [
    | none ↦ fail unfinished w
    | some orders ↦ pure orders w
  ]

  abbrev pub count_jobs : ℕ × ℕ → Step (World Q) (Unit {0})
  count_jobs (active, failed) w = (ok tt, record w { active_jobs = active; failed_jobs = failed })

  abbrev pub pass_result : ℕ → Step (World Q) PassResult
  pass_result issues w = (
    ok (record {
      degraded = ltb 0 issues || ltb 0 (length w.incidents);
      queue_issue_count = issues;
    }),
    w,
  )

module _ {Q : Type 0} (api : QueueApi Q) (env : WorkerEnv) where
  -- Every persisted order is a reservation.
  unfoldable pub recover_orders : List DurableOrder → Step (World Q) (Unit {0})
  recover_orders [] = pure tt
  recover_orders (o ∷ orders) = do
    checkpoint
    when (is_persisted (some o))
        (apply_recovery_candidate api env (order_candidate api env o.user_id o) from_persisted none)
    recover_orders orders

  abbrev pub recover_job : ScannedJob → Option DurableOrder → Step (World Q) (Unit {0})
  recover_job item row = when (not (is_compensated_row item.payload.reservation_id row)) (
      apply_recovery_candidate api env (job_candidate api env item.payload.user_id item.payload)
        from_queue none)

  -- So is every unfinished job, unless its order was compensated.
  unfoldable pub recover_jobs : List ScannedJob → Step (World Q) (Unit {0})
  recover_jobs [] = pure tt
  recover_jobs (item ∷ items) = do
    checkpoint
    when (is_live item.state) (durable_of item.payload.user_id >>= recover_job item)
    recover_jobs items

  abbrev pub align : Text → Step (World Q) (Unit {0})
  align user = on_db (reconcile_buyer_membership env.sale_id user) >>= λ _. pure tt

  abbrev pub cover_reservation : ReservationEntry → Option DurableOrder → Step (World Q) (Unit {0})
  cover_reservation entry row =
      when (not (is_persisted row && is_row_of entry.reservation_id row)) (
        ensure_live_reservation_queued api env entry row none >>= λ coverage.
        when (is_collision coverage) (report (retained_collision entry.user_id)))

  -- Every reservation has an order or a job, and its holder is a buyer.
  unfoldable pub cover_ledger : List ReservationEntry → Step (World Q) (Unit {0})
  cover_ledger [] = pure tt
  cover_ledger (entry ∷ entries) = do
    checkpoint
    row ← durable_of entry.user_id
    cover_reservation entry row
    align entry.user_id
    cover_ledger entries

  abbrev pub is_buyer_only : InspectOutcome → Bool
  is_buyer_only buyer_only = true
  is_buyer_only _ = false

  abbrev pub check_inspected : Text → ReservationInspection → Step (World Q) (Unit {0})
  check_inspected user inspection =
      if not (is_buyer_only inspection.outcome)
      then (durable_of user >>= λ row. resolve_buyer_inspection api env user inspection row none)
      else adjudicate_buyer_only api env user

  abbrev pub check_unless : Text → Bool → Step (World Q) (Unit {0})
  check_unless user true = pure tt
  check_unless user false =
      read_db (inspect_reservation_membership env.sale_id user) >>= check_inspected user

  unfoldable pub check_buyers : List Text → Step (World Q) (Unit {0})
  check_buyers [] = pure tt
  check_buyers (user ∷ users) = do
    checkpoint
    known ← is_known user
    check_unless user known
    check_buyers users

  -- The buyers, from the k-th call of the iteration on.
  unfoldable pub buyer_pages : Scan → ℕ → ℕ → Text → Step (World Q) (Unit {0})
  buyer_pages sscan zero k cursor = fail unfinished
  buyer_pages sscan (suc fuel) k cursor = do
    checkpoint
    page ← read_db (scan_buyers env.sale_id (sscan k cursor env.worker_reconcile_scan_count))
    checkpoint
    check_buyers page.1
    let rest = buyer_pages sscan fuel (suc k) page.0
    if text_eq page.0 first_cursor then pure tt else rest

  -- What the orders and the jobs say is restored, then the ledger and the buyers are repaired.
  unfoldable pub repair :
      PassReads → ℕ → List DurableOrder → List ScannedJob → Step (World Q) (Unit {0})
  repair reads fuel orders jobs = do
    recover_orders orders
    recover_jobs jobs
    checkpoint
    ledger ← scan_ledger reads.hscan env fuel
    note_ledger ledger
    cover_ledger ledger
    buyer_pages reads.sscan fuel 0 first_cursor

  unfoldable pub derive_stock : Step (World Q) (Unit {0})
  derive_stock = do
    checkpoint
    stock ← on_db (reconcile_stock_from_reservations env.sale_id)
    checkpoint
    ensure (is_reconciled stock.outcome) plain_error

  unfoldable pub run_diff :
      PassReads → (OrdersQueueJobPayload → CommitOutcome) → ℕ → Step (World Q) PassResult
  run_diff reads commit fuel = do
    checkpoint
    orders ← read_orders reads env fuel
    start_with orders
    checkpoint
    scan ← scan_jobs api env fuel
    repair reads fuel orders scan.jobs
    derive_stock
    dlq ← sweep_failed api env commit
    checkpoint
    counts ← on_queue api.get_job_counts
    checkpoint
    count_jobs counts
    pass_result (length scan.issues + dlq.retained)

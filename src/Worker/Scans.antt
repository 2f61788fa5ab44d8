-- ===== src/Worker/Scans.antt =====
-- `scanLedger` and `scanJobs` of apps/worker/src/reconciliation/reconciliation.service.ts. Each round of a
-- loop takes one of fuel.
use bookipi_technical_test.Prelude.{
  ℕ, zero, suc, ◌+◌, ◌-◌, Option, none, some, List, [], ◌∷◌, ◌++◌, length, ltb, if◌then◌else◌,
  unfinished,
}
use bookipi_technical_test.Text.{Text, text_eq}
use bookipi_technical_test.Shared.Queue.{OrdersQueueJobPayload}
use bookipi_technical_test.Redis.Store.Entry.{ReservationEntry}
use bookipi_technical_test.Redis.Store.Scan.{Scan, first_cursor, scan_reservations}
use bookipi_technical_test.Worker.Step.{Step, pure, fail, ◌>>=◌, ◌>>◌}
use bookipi_technical_test.Worker.Env.{WorkerEnv}
use bookipi_technical_test.Worker.Job.{
  Job, JobState, waiting, active, delayed, failed, completed, QueueEntryIssueCode, invalid_payload,
  classify_queue_entry, Classified, scanned, issue, is_failed, is_terminal_failed_job_eligible,
}
use bookipi_technical_test.Worker.Queue.{QueueApi}
use bookipi_technical_test.Worker.World.{World, checkpoint, read_db, on_queue}

-- A job of the queue as a pass goes on with it.
pub record ScannedJob : Type 0 where
  pub state : JobState
  pub payload : OrdersQueueJobPayload

pub record QueueEntryIssue : Type 0 where
  pub job_id : Option Text
  pub state : JobState
  pub code : QueueEntryIssueCode

pub record QueueScanResult : Type 0 where
  pub jobs : List ScannedJob
  pub issues : List QueueEntryIssue

abbrev pub nothing_scanned : QueueScanResult
nothing_scanned = record { jobs = []; issues = [] }

abbrev pub with_job : JobState → OrdersQueueJobPayload → QueueScanResult → QueueScanResult
with_job st p r = record r { jobs = r.jobs ++ (record { state = st; payload = p } ∷ []) }

abbrev pub with_issue : Job → JobState → QueueEntryIssueCode → QueueScanResult → QueueScanResult
with_issue job st code r = record r {
  issues = r.issues ++ (record { job_id = job.id; state = st; code = code } ∷ []);
}

abbrev pub queue_states : List JobState
queue_states = waiting ∷ active ∷ delayed ∷ failed ∷ completed ∷ []

module _ {Q : Type 0} (scans : Scan) (env : WorkerEnv) where
  -- `scanLedger` from its k-th call on, with the entries read before.
  unfoldable pub ledger_pages :
      ℕ → ℕ → Text → List ReservationEntry → Step (World Q) (List ReservationEntry)
  ledger_pages zero k cursor result = fail unfinished
  ledger_pages (suc fuel) k cursor result = do
    checkpoint
    page ← read_db (scan_reservations env.sale_id (scans k cursor env.worker_reconcile_scan_count))
    checkpoint
    let rest = ledger_pages fuel (suc k) page.0 (result ++ page.1)
    if text_eq page.0 first_cursor then pure (result ++ page.1) else rest

  unfoldable pub scan_ledger : ℕ → Step (World Q) (List ReservationEntry)
  scan_ledger fuel = ledger_pages fuel 0 first_cursor []

module _ {Q : Type 0} (api : QueueApi Q) (env : WorkerEnv) where
  -- A failed job that may not be resolved is an issue, by the state that the queue gives for it now.
  abbrev pub add_scanned :
      Job → JobState → QueueScanResult → Classified → Step (World Q) QueueScanResult
  add_scanned job st r (issue _ code) = pure (with_issue job st code r)
  add_scanned job st r (scanned _ p) =
      if is_failed st
      then (on_queue (api.get_state job) >>= λ actual. pure (
          if is_terminal_failed_job_eligible actual job
          then with_job st p r
          else with_issue job st invalid_payload r))
      else pure (with_job st p r)

  abbrev pub scan_entry : JobState → QueueScanResult → Option Job → Step (World Q) QueueScanResult
  scan_entry st r none = pure r
  scan_entry st r (some job) = add_scanned job st r (classify_queue_entry job st)

  unfoldable pub scan_entries :
      JobState → List (Option Job) → QueueScanResult → Step (World Q) QueueScanResult
  scan_entries st [] r = pure r
  scan_entries st (entry ∷ entries) r = do
    checkpoint
    next ← scan_entry st r entry
    scan_entries st entries next

  unfoldable pub state_pages : JobState → ℕ → ℕ → QueueScanResult → Step (World Q) QueueScanResult
  state_pages st zero start r = fail unfinished
  state_pages st (suc fuel) start r = do
    checkpoint
    page ← on_queue (api.get_jobs st start (start + env.worker_reconcile_scan_count - 1))
    checkpoint
    next ← scan_entries st page r
    let rest = state_pages st fuel (start + env.worker_reconcile_scan_count) next
    if ltb (length page) env.worker_reconcile_scan_count then pure next else rest

  unfoldable pub scan_states : ℕ → List JobState → QueueScanResult → Step (World Q) QueueScanResult
  scan_states fuel [] r = pure r
  scan_states fuel (st ∷ states) r = do next ← state_pages st fuel 0 r; scan_states fuel states next

  -- `scanJobs`
  unfoldable pub scan_jobs : ℕ → Step (World Q) QueueScanResult
  scan_jobs fuel = scan_states fuel queue_states nothing_scanned

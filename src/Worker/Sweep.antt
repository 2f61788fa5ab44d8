-- ===== src/Worker/Sweep.antt =====
-- `sweepFailed` of apps/worker/src/reconciliation/reconciliation.service.ts: one page of failed jobs,
-- each of which is resolved and removed, or retained.
use bookipi_technical_test.Prelude.{
  ℕ, ◌+◌, ◌-◌, ◌%◌, min, Bool, not, ◌||◌, Option, none, some, List, [], ◌∷◌, ltb, ◌==◌, length,
  if◌then◌else◌, ok, type_error, aggregate_error,
}
use bookipi_technical_test.Shared.Queue.{OrdersQueueJobPayload, orders_job_attempts}
use bookipi_technical_test.Worker.Step.{Step, pure, fail, try_catch, ◌>>=◌, ◌>>◌}
use bookipi_technical_test.Worker.Env.{WorkerEnv}
use bookipi_technical_test.Worker.Job.{
  Job, JobState, failed, classify_queue_entry, Classified, scanned, issue, is_failed, is_exhausted,
  same_count,
}
use bookipi_technical_test.Worker.Orders.{CommitOutcome, resolve_failed}
use bookipi_technical_test.Worker.Orders.Recovery.{store_compensate}
use bookipi_technical_test.Worker.Queue.{QueueApi}
use bookipi_technical_test.Worker.World.{World, on_queue, on_stores, checkpoint}
pub mod Uncaught
pub mod Laws
pub mod Keeps

-- `retainedUnsafeCount`, `removedCount` and the number of `operationalErrors`.
pub record SweepCounts : Type 0 where
  pub retained : ℕ
  pub removed : ℕ
  pub errors : ℕ

abbrev pub no_counts : SweepCounts
no_counts = record { retained = 0; removed = 0; errors = 0 }

abbrev pub count_retained : SweepCounts → SweepCounts
count_retained n = record n { retained = n.retained + 1 }

abbrev pub count_removed : SweepCounts → SweepCounts
count_removed n = record n { removed = n.removed + 1 }

abbrev pub count_error : SweepCounts → SweepCounts
count_error n = record n { errors = n.errors + 1 }

-- A failed job may be resolved now, by the state that the queue gives for it.
unfoldable pub may_resolve : JobState → Job → Bool
may_resolve st job = not (
    not (is_failed st)
    || (not (same_count job.attempts orders_job_attempts) || not (is_exhausted job)))

abbrev pub set_offset : {Q : Type 0} → ℕ → Step (World Q) (Unit {0})
set_offset n w = (ok tt, record w { failed_scan_offset = n })

abbrev pub set_failed_jobs : {Q : Type 0} → ℕ → Step (World Q) (Unit {0})
set_failed_jobs n w = (ok tt, record w { failed_jobs = n })

-- Where the next sweep starts, after one that started at `start` and read `size` jobs.
unfoldable pub next_offset : ℕ → ℕ → ℕ → ℕ → ℕ
next_offset start size removed total =
    if total == 0
    then 0
    else if ltb 0 removed
    then min start (total - 1)
    else (start + size) % total

-- `commit` is what becomes of the transaction of each payload.
module _ {Q : Type 0} (api : QueueApi Q) (env : WorkerEnv)
    (commit : OrdersQueueJobPayload → CommitOutcome) where
  abbrev pub resolve_and_remove :
      Job → OrdersQueueJobPayload → SweepCounts → Step (World Q) SweepCounts
  resolve_and_remove job p n = do
    outcome ← on_stores (resolve_failed (commit p) p (store_compensate p))
    on_queue (api.remove job)
    pure (count_removed n)

  abbrev pub resolve_job :
      Job → OrdersQueueJobPayload → SweepCounts → JobState → Step (World Q) SweepCounts
  resolve_job job p n st =
      if not (may_resolve st job) then pure (count_retained n) else resolve_and_remove job p n

  abbrev pub sweep_classified : Job → SweepCounts → Classified → Step (World Q) SweepCounts
  sweep_classified job n (issue _ _) = pure (count_retained n)
  sweep_classified job n (scanned _ p) =
      try_catch (on_queue (api.get_state job) >>= resolve_job job p n) (λ e. pure (count_error n))

  -- An entry of the page that is no job any more has no name to read.
  unfoldable pub sweep_job : Option Job → SweepCounts → Step (World Q) SweepCounts
  sweep_job none n = checkpoint >> fail type_error
  sweep_job (some job) n = checkpoint >> sweep_classified job n (classify_queue_entry job failed)

  unfoldable pub sweep_jobs : List (Option Job) → SweepCounts → Step (World Q) SweepCounts
  sweep_jobs [] n = pure n
  sweep_jobs (job ∷ jobs) n = sweep_job job n >>= sweep_jobs jobs

  -- The page, from the front where nothing is left at the offset. The page size of the settings is
  -- positive.
  abbrev pub failed_page : ℕ → Step (World Q) (ℕ × List (Option Job))
  failed_page start = do
    page ← on_queue (api.get_jobs failed start (start + env.worker_dlq_scan_count - 1))
    checkpoint
    if length page == 0
        then (on_queue (api.get_jobs failed 0 (env.worker_dlq_scan_count - 1)) >>= λ first.
            (checkpoint >> pure (0, first)))
        else pure (start, page)

  abbrev pub finish : ℕ → ℕ → SweepCounts → Step (World Q) SweepCounts
  finish start size n = do
    checkpoint
    total ← on_queue api.get_failed_count
    checkpoint
    set_failed_jobs total
    set_offset (next_offset start size n.removed total)
    if ltb 0 n.errors then fail aggregate_error else pure n

  abbrev pub sweep_page : ℕ × List (Option Job) → Step (World Q) SweepCounts
  sweep_page (start, page) = sweep_jobs page no_counts >>= finish start (length page)

  abbrev pub sweep_from : ℕ → Step (World Q) SweepCounts
  sweep_from total w =
      (if total == 0
          then set_offset 0 >> (set_failed_jobs 0 >> pure no_counts)
          else failed_page (w.failed_scan_offset % total) >>= sweep_page)
        w

  unfoldable pub sweep_failed : Step (World Q) SweepCounts
  sweep_failed = do checkpoint; total ← on_queue api.get_failed_count; checkpoint; sweep_from total

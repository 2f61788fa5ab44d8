-- ===== src/Worker/Queue.antt =====
-- The calls of BullMQ that the worker makes, which another project implements: each may throw, and
-- each may change the queue.
use bookipi_technical_test.Prelude.{ℕ, Bool, Option, List}
use bookipi_technical_test.Text.{Text}
use bookipi_technical_test.Shared.Queue.{OrdersQueueJobPayload}
use bookipi_technical_test.Worker.Step.{Step}
use bookipi_technical_test.Worker.Job.{Job, JobState}

-- `name`, `data`, `jobId` and `attempts` of an `add`; the backoff and the retention are constants.
pub record NewJob : Type 0 where
  pub name : Text
  pub payload : OrdersQueueJobPayload
  pub job_id : Text
  pub attempts : ℕ

pub record QueueApi (Q : Type 0) : Type 0 where
  pub get_job : Text → Step Q (Option Job)
  pub get_state : Job → Step Q JobState
  pub add : NewJob → Step Q Job
  pub remove : Job → Step Q (Unit {0})
  pub get_jobs : JobState → ℕ → ℕ → Step Q (List (Option Job))
  pub get_failed_count : Step Q ℕ
  pub get_active_count : Step Q ℕ
  -- `getJobCounts('active', 'failed')`
  pub get_job_counts : Step Q (ℕ × ℕ)
  pub pause : Step Q (Unit {0})
  pub resume : Step Q (Unit {0})
  pub is_paused : Step Q Bool

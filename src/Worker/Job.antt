-- ===== src/Worker/Job.antt =====
-- A job of the queue as the worker reads it, and the checks that it makes on one:
-- `process` of apps/worker/src/orders/order.processor.ts, `classifyQueueEntry` and
-- `isTerminalFailedJobEligible` of apps/worker/src/reconciliation/reconciliation.service.ts.
use bookipi_technical_test.Prelude.{
  ℕ, ◌≡◌, ◌↔◌, Bool, true, false, not, ◌&&◌, ◌||◌, Option, none, some, arith, leb, ltb, ◌==◌,
  if◌then◌else◌, Outcome, ok, throw, plain_error, ◌>>=◌,
}
use bookipi_technical_test.Text.{Text, codes, text_eq}
use bookipi_technical_test.Shared.Queue.{
  JsValue, OrdersQueueJobPayload, assert_payload, build_orders_job_id, persist_order_job_name,
  orders_job_attempts,
}

pub record Job : Type 0 where
  pub id : Option Text
  pub name : Text
  pub data_value : JsValue
  pub attempts : Option ℕ
  pub attempts_made : ℕ
  pub failed_reason : Option Text
  pub stalled_counter : ℕ

-- The five states that are scanned; `elsewhere` is any other that BullMQ may reply.
pub data JobState : Type 0 where
  waiting active delayed failed completed elsewhere : JobState

pub data QueueEntryIssueCode : Type 0 where
  unexpected_name invalid_payload job_id_mismatch : QueueEntryIssueCode

pub data Classified : Type 0 where
  scanned : JobState → OrdersQueueJobPayload → Classified
  issue : JobState → QueueEntryIssueCode → Classified

abbrev pub max_stalled_count : ℕ
max_stalled_count = 2

abbrev pub max_stalled_reason : Text
max_stalled_reason = codes "job stalled more than allowable limit"

-- `a === b`, where the left side may be undefined.
abbrev pub same_text : Option Text → Text → Bool
same_text none t = false
same_text (some s) t = text_eq s t

abbrev pub same_count : Option ℕ → ℕ → Bool
same_count none n = false
same_count (some m) n = m == n

unfoldable pub classify_queue_entry : Job → JobState → Classified
classify_queue_entry job st =
    if not (text_eq job.name persist_order_job_name)
    then issue st unexpected_name
    else by_payload (assert_payload job.data_value)
  where
    by_id : OrdersQueueJobPayload → Outcome Text → Classified
    by_id p (throw e) = issue st invalid_payload
    by_id p (ok expected) =
        if not (same_text job.id expected)
        then issue st job_id_mismatch
        else if not (same_count job.attempts orders_job_attempts)
        then issue st invalid_payload
        else scanned st p

    by_payload : Outcome OrdersQueueJobPayload → Classified
    by_payload (throw e) = issue st invalid_payload
    by_payload (ok p) = by_id p (build_orders_job_id p.sale_id p.user_id)

-- `!('issue' in classified)`
abbrev pub is_scanned : Classified → Bool
is_scanned (scanned _ _) = true
is_scanned (issue _ _) = false

-- `attemptsMade >= ORDERS_JOB_ATTEMPTS`, or stalled more often than the limit.
unfoldable pub is_exhausted : Job → Bool
is_exhausted job =
    leb orders_job_attempts job.attempts_made
    || (same_text job.failed_reason max_stalled_reason && ltb max_stalled_count job.stalled_counter)

abbrev pub is_failed : JobState → Bool
is_failed failed = true
is_failed _ = false

-- `isTerminalFailedJobEligible`, with the state that the queue gives for the job.
unfoldable pub is_terminal_failed_job_eligible : JobState → Job → Bool
is_terminal_failed_job_eligible st job =
    is_failed st
    && (text_eq job.name persist_order_job_name && by_payload (assert_payload job.data_value))
  where
    by_id : Outcome Text → Bool
    by_id (throw e) = false
    by_id (ok expected) =
        same_text job.id expected
        && (same_count job.attempts orders_job_attempts && is_exhausted job)

    by_payload : Outcome OrdersQueueJobPayload → Bool
    by_payload (throw e) = false
    by_payload (ok p) = by_id (build_orders_job_id p.sale_id p.user_id)

-- The checks of `process`: the payload that it goes on with.
unfoldable pub processed_payload : Job → Outcome OrdersQueueJobPayload
processed_payload job =
    if not (text_eq job.name persist_order_job_name)
    then throw plain_error
    else (assert_payload job.data_value >>= λ p.
        (build_orders_job_id p.sale_id p.user_id >>= λ expected.
        (if not (same_text job.id expected)
          then throw plain_error
          else if not (same_count job.attempts orders_job_attempts)
          then throw plain_error
          else ok p)))

-- The reconciler takes a job for one of this queue exactly where the processor would go on to persist
-- it, and reads the same payload.
classify_iff_processed :
    (job : Job) (st : JobState) (p : OrdersQueueJobPayload)
    → (classify_queue_entry job st ≡ scanned st p) ↔ (processed_payload job ≡ ok p)
unfolding classify_queue_entry processed_payload
classify_iff_processed job st p = ground arith

-- A failed job may be resolved exactly where it is one of this queue, it is still failed, and its
-- retries are used up or it stalled too often.
pub eligible_iff :
    (job : Job) (st : JobState)
    → (is_terminal_failed_job_eligible st job ≡ true) ↔ (
        (st ≡ failed)
        × (is_exhausted job ≡ true)
        × (is_scanned (classify_queue_entry job failed) ≡ true))
unfolding is_terminal_failed_job_eligible classify_queue_entry
eligible_iff job st = ground arith

-- ===== src/Worker/Enqueue.antt =====
-- How a live reservation gets a job of its own: `ensureLiveReservationQueued`, `enqueueAfterRemoval`,
-- `enqueueLiveReservation` and `retainIdentityCollision` of
-- apps/worker/src/reconciliation/reconciliation.service.ts. What they log is left out.
use bookipi_technical_test.Prelude.{
  ℕ, Bool, true, false, not, ◌&&◌, ◌||◌, Option, none, some, ◌++◌, if◌then◌else◌, ℤ, pos, Outcome,
  ok,
}
use bookipi_technical_test.Text.{Text, codes, text_eq}
use bookipi_technical_test.Shared.Queue.{
  OrdersQueueJobPayload, assert_payload, payload_object, build_orders_job_id,
  persist_order_job_name, orders_job_attempts,
}
use bookipi_technical_test.Redis.Store.Entry.{ReservationEntry}
use bookipi_technical_test.Worker.Step.{Step, pure, lift, ◌>>=◌, ◌>>◌}
use bookipi_technical_test.Worker.Env.{WorkerEnv}
use bookipi_technical_test.Worker.Job.{
  Job, JobState, waiting, active, delayed, failed, completed, elsewhere, classify_queue_entry,
  Classified, scanned, issue,
}
use bookipi_technical_test.Worker.Orders.{DurableOrder}
use bookipi_technical_test.Worker.Postgres.{DurableOrderStatus, persisted, compensated}
use bookipi_technical_test.Worker.Queue.{QueueApi, NewJob}
use bookipi_technical_test.Worker.World.{World, on_queue}
pub mod Laws

pub data EnsureLiveQueueResult : Type 0 where
  enqueued already_covered durably_satisfied retained_collision : EnsureLiveQueueResult

-- `['waiting', 'active', 'delayed', 'failed'].includes(state)`
abbrev pub is_live : JobState → Bool
is_live completed = false
is_live elsewhere = false
is_live _ = true

abbrev is_completed : JobState → Bool
is_completed completed = true
is_completed _ = false

abbrev pub is_active : JobState → Bool
is_active active = true
is_active _ = false

-- `durable?.id === id`
abbrev pub is_row_of : Text → Option DurableOrder → Bool
is_row_of id none = false
is_row_of id (some o) = text_eq o.id id

abbrev pub is_persisted : Option DurableOrder → Bool
is_persisted none = false
is_persisted (some o) = elim o.status [ persisted ↦ true | compensated ↦ false ]

-- `entry.reservedAtMs ?? 0`
abbrev time_or_zero : Option ℕ → ℤ
time_or_zero none = pos 0
time_or_zero (some n) = pos n

abbrev pub repair_payload : WorkerEnv → ReservationEntry → OrdersQueueJobPayload
repair_payload env e = record {
  sale_id = env.sale_id;
  user_id = e.user_id;
  reservation_id = e.reservation_id;
  reserved_at_ms = time_or_zero e.reserved_at_ms;
  request_id = codes "reconcile-" ++ e.reservation_id;
}

abbrev pub repair_job : OrdersQueueJobPayload → Text → NewJob
repair_job p id = record {
  name = persist_order_job_name;
  payload = p;
  job_id = id;
  attempts = orders_job_attempts;
}

-- What `add` has given back, which the code checks once more.
abbrev pub added : OrdersQueueJobPayload → Classified → EnsureLiveQueueResult
added p (issue _ _) = retained_collision
added p (scanned _ q) =
    if not (text_eq q.reservation_id p.reservation_id) then retained_collision else enqueued

module _ {Q : Type 0} (api : QueueApi Q) (env : WorkerEnv) where
  unfoldable pub enqueue_live_reservation :
      ReservationEntry → Text → Step (World Q) EnsureLiveQueueResult
  enqueue_live_reservation entry job_id = do
    p ← lift (assert_payload (payload_object (repair_payload env entry)))
    repaired ← on_queue (api.add (repair_job p job_id))
    pure (added p (classify_queue_entry repaired waiting))

  -- After the removal of the old job, another producer may have been first.
  abbrev met : ReservationEntry → Classified → EnsureLiveQueueResult
  met live (issue _ _) = retained_collision
  met live (scanned _ q) =
      if text_eq q.reservation_id live.reservation_id then already_covered else retained_collision

  abbrev pub raced : ReservationEntry → Text → Option Job → Step (World Q) EnsureLiveQueueResult
  raced live job_id none = enqueue_live_reservation live job_id
  raced live job_id (some job) =
      on_queue (api.get_state job) >>= λ st. pure (met live (classify_queue_entry job st))

  unfoldable pub enqueue_after_removal :
      ReservationEntry → Text → Step (World Q) EnsureLiveQueueResult
  enqueue_after_removal live job_id = on_queue (api.get_job job_id) >>= raced live job_id

  -- The old job gives way. `targeted` is the argument `targetedJob`, `none` where it is undefined.
  abbrev pub again :
      ReservationEntry → Text → Option (Option Job) → Step (World Q) EnsureLiveQueueResult
  again live job_id none = enqueue_after_removal live job_id
  again live job_id (some _) = enqueue_live_reservation live job_id

  unfoldable pub replace_job :
      ReservationEntry → Text → Option (Option Job) → Job → Step (World Q) EnsureLiveQueueResult
  replace_job live job_id targeted current =
      on_queue (api.remove current) >> again live job_id targeted

  -- What becomes of a job of this queue that has the identity's place. Its status on file is one of
  -- `persisted` and `compensated`, the two that there are.
  unfoldable pub cover :
      ReservationEntry
      → Option DurableOrder
      → Text
      → Option (Option Job)
      → Job
      → Classified
      → Step (World Q) EnsureLiveQueueResult
  cover live durable job_id targeted current (issue _ _) = pure retained_collision
  cover live durable job_id targeted current (scanned st p) =
      if text_eq p.reservation_id live.reservation_id
      then (if is_live st
          then pure already_covered
          else if is_row_of live.reservation_id durable && is_persisted durable
          then pure durably_satisfied
          else if not (is_completed st)
          then pure retained_collision
          else replace_job live job_id targeted current)
      else if is_active st
      then pure retained_collision
      else if not (is_live st || is_completed st) || not (is_row_of p.reservation_id durable)
      then pure retained_collision
      else replace_job live job_id targeted current

  abbrev pub lookup : Text → Option (Option Job) → Step (World Q) (Option Job)
  lookup job_id none = on_queue (api.get_job job_id)
  lookup job_id (some job) = pure job

  abbrev pub found :
      ReservationEntry
      → Option DurableOrder
      → Option (Option Job)
      → Text
      → Option Job
      → Step (World Q) EnsureLiveQueueResult
  found live durable targeted job_id none = enqueue_live_reservation live job_id
  found live durable targeted job_id (some current) = on_queue (api.get_state current) >>= λ st.
      cover live durable job_id targeted current (classify_queue_entry current st)

  unfoldable pub ensure_live_reservation_queued :
      ReservationEntry
      → Option DurableOrder
      → Option (Option Job)
      → Step (World Q) EnsureLiveQueueResult
  ensure_live_reservation_queued live durable targeted =
      lift (build_orders_job_id env.sale_id live.user_id) >>= λ job_id.
      lookup job_id targeted >>= found live durable targeted job_id

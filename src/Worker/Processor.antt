-- ===== src/Worker/Processor.antt =====
-- `process` of apps/worker/src/orders/order.processor.ts: one delivery of a job.
use bookipi_technical_test.Prelude.{ℕ, ◌≡◌, sym, ◌∙◌, arith, ok}
use bookipi_technical_test.Shared.Queue.{OrdersQueueJobPayload}
use bookipi_technical_test.Shared.Queue.Laws.{IsPayload, assert_payload_sound}
use bookipi_technical_test.Worker.Step.{Step, pure, lift, continue, continue_ok, ◌>>=◌}
use bookipi_technical_test.Worker.Postgres.{uuid_text}
use bookipi_technical_test.Worker.Job.{Job, processed_payload}
use bookipi_technical_test.Worker.Orders.Adjudication.{persist-persist, reply_of_status, status_of}
use bookipi_technical_test.Worker.Orders.{
  Stores, CommitOutcome, acknowledged, PersistResult, now_persisted, persist,
}

-- The event that the log gets for a delivery that ends well.
pub data OrderEvent : Type 0 where
  order_idempotent order_persisted : OrderEvent

abbrev pub event_of : PersistResult → OrderEvent
event_of now_persisted = order_persisted
event_of _ = order_idempotent

-- The checks, then `persist`, whose error is logged and thrown on.
unfoldable pub process : CommitOutcome → ℕ → Job → Step Stores OrderEvent
process c now job = lift (processed_payload job) >>= λ p. persist c now p >>= λ r. pure (event_of r)

-- The checks let through a payload of the queue's contract only.
processed_payload_sound :
    (job : Job) (p : OrdersQueueJobPayload) → processed_payload job ≡ ok p → IsPayload p
unfolding processed_payload
processed_payload_sound job p h = ground (arith, assert_payload_sound job.data_value p)

process_checked :
    (c : CommitOutcome) (now : ℕ) (job : Job) (p : OrdersQueueJobPayload) (s : Stores)
    → processed_payload job ≡ ok p
    → process c now job s ≡ continue (persist c now p s) (λ r. pure (event_of r))
unfolding process continue
process_checked c now job p s h = rw h

ended :
    (now : ℕ) (p : OrdersQueueJobPayload) (r : PersistResult) (s s' : Stores) {e : OrderEvent}
    → pure (event_of r) s ≡ (ok e, s')
    → persist acknowledged now p s ≡ (ok (reply_of_status (status_of r)), s)
    → continue (persist acknowledged now p s') (λ q. pure (event_of q)) ≡ (ok order_idempotent, s')
unfolding continue
ended now p r s s' rest again = ground arith

-- Delivery at least once is enough: a job that was delivered well, to whatever end, may be delivered
-- again at any time; it ends well again, logs the idempotent event and changes neither store. The
-- reservation's identity is in lower case, as the API makes it.
process-process :
    (now later : ℕ) (job : Job) (p : OrdersQueueJobPayload) (e : OrderEvent) (s s' : Stores)
    → processed_payload job ≡ ok p
    → uuid_text p.reservation_id ≡ p.reservation_id
    → process acknowledged now job s ≡ (ok e, s')
    → process acknowledged later job s' ≡ (ok order_idempotent, s')
process-process now later job p e s s' checked low h =
    let valid = processed_payload_sound job p checked in
    rw (process_checked acknowledged later job p s' checked) (
      continue_ok (sym (process_checked acknowledged now job p s checked) ∙ h) (λ r s1 first rest.
        ended later p r s1 s' rest (persist-persist now later p r s s1 valid low first)))

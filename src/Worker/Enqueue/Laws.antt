-- ===== src/Worker/Enqueue/Laws.antt =====
-- What a reservation may rely on when its job is reported, and which jobs are never taken away.
use bookipi_technical_test.Prelude.{◌≡◌, ap, Bool, true, false, Option, none, some, arith, ok}
use bookipi_technical_test.Text.{Text, text_eq}
use bookipi_technical_test.Shared.Queue.{
  OrdersQueueJobPayload, assert_payload, payload_object, build_orders_job_id,
}
use bookipi_technical_test.Redis.Store.Entry.{ReservationEntry}
use bookipi_technical_test.Worker.Step.{continue_ok}
use bookipi_technical_test.Worker.Env.{WorkerEnv}
use bookipi_technical_test.Worker.Job.{
  Job, JobState, waiting, Classified, scanned, issue, classify_queue_entry,
}
use bookipi_technical_test.Worker.Orders.{DurableOrder}
use bookipi_technical_test.Worker.Queue.{QueueApi, NewJob}
use bookipi_technical_test.Worker.World.{World, on_queue}
use bookipi_technical_test.Worker.Enqueue.{
  enqueued, enqueue_live_reservation, enqueue_after_removal, replace_job, cover,
  ensure_live_reservation_queued, is_live, is_row_of, repair_payload, repair_job, raced, again,
  found, lookup,
}

-- What BullMQ documents of its calls, where nothing else works on the queue meanwhile: a job that is
-- added under an identity that is free is there then, a removed job is not, and the lookups read only. Of
-- an identity that is taken nothing is said: `add` is ignored then, and what it gives back is not the job
-- that is there.
pub record IsBullMq {Q : Type 0} (api : QueueApi Q) : Type 0 where
  pub get_job_reads : (id : Text) (q : Q) → (api.get_job id q).1 ≡ q
  pub get_state_reads : (job : Job) (q : Q) → (api.get_state job q).1 ≡ q
  pub add_stores :
      (new : NewJob) (q q' : Q) (job : Job)
      → api.get_job new.job_id q ≡ (ok none, q)
      → api.add new q ≡ (ok job, q')
      → api.get_job new.job_id q' ≡ (ok (some job), q')
  pub remove_takes :
      (id : Text) (job : Job) (q q' : Q)
      → api.get_job id q ≡ (ok (some job), q)
      → api.remove job q ≡ (ok tt, q')
      → api.get_job id q' ≡ (ok none, q')

-- The entry is of this reservation.
abbrev pub carries : Text → Classified → Bool
carries id (scanned _ p) = text_eq p.reservation_id id
carries id (issue _ _) = false

checked_payload : (p q : OrdersQueueJobPayload) → assert_payload (payload_object p) ≡ ok q → p ≡ q
unfolding assert_payload payload_object text_eq
checked_payload p q h = ground arith

module _ {Q : Type 0} (api : QueueApi Q) (env : WorkerEnv) (live : ReservationEntry) where
  -- Under this identity the queue has a job of this reservation.
  abbrev pub IsQueued : Text → World Q → Type 0
  IsQueued job_id w =
      (job : Job) × (api.get_job job_id w.queue ≡ (ok (some job), w.queue))
      × (carries live.reservation_id (classify_queue_entry job waiting) ≡ true)

  -- An unfinished job of a reservation that is not on file is never taken away, whatever the live
  -- reservation of its user is: nothing changes.
  cover_keeps :
      (durable : Option DurableOrder) (job_id : Text) (targeted : Option (Option Job)) (job : Job)
      (st : JobState) (p : OrdersQueueJobPayload) (w : World Q)
      → is_live st ≡ true
      → is_row_of p.reservation_id durable ≡ false
      → (cover api env live durable job_id targeted job (scanned st p) w).1 ≡ w
  unfolding cover
  cover_keeps durable job_id targeted job st p w pending unknown = ground arith

  -- Under this identity the queue has this job, or none.
  abbrev Has : Text → Option Job → World Q → Type 0
  Has job_id o w = api.get_job job_id w.queue ≡ (ok o, w.queue)

  -- Where the caller has looked the job up itself, it gives what is there.
  abbrev pub IsLookedUp : Text → Option (Option Job) → World Q → Type 0
  IsLookedUp job_id none w = Unit
  IsLookedUp job_id (some o) w = Has job_id o w

  module _ (doc : IsBullMq api) where
    -- A lookup tells what is there.
    looked_up :
        (job_id : Text) (o : Option Job) (w w' : World Q)
        → on_queue (api.get_job job_id) w ≡ (ok o, w')
        → (w' ≡ w) × Has job_id o w
    looked_up job_id o w w' h = ground (arith, h, doc.get_job_reads job_id w.queue)

    state_read :
        (job : Job) (st : JobState) (w w' : World Q)
        → on_queue (api.get_state job) w ≡ (ok st, w')
        → w' ≡ w
    state_read job st w w' h = ground (arith, h, doc.get_state_reads job w.queue)

    enqueued_live :
        (job_id : Text) (w w' : World Q)
        → Has job_id none w
        → enqueue_live_reservation api env live job_id w ≡ (ok enqueued, w')
        → IsQueued job_id w'
    unfolding enqueue_live_reservation
    enqueued_live job_id w w' free h = continue_ok h (λ p w1 checked rest.
        continue_ok rest (λ job w2 adding last. (
          job,
          doc.add_stores (repair_job p job_id) w.queue w'.queue job free
              (ground (arith, last, adding, checked)),
          ground (arith, last, checked_payload (repair_payload env live) p (ap first checked)),
        )))
      where
        first : {A S : Type 0} → A × S → A
        first x = x.0

    enqueued_raced :
        (job_id : Text) (o : Option Job) (w w' : World Q)
        → Has job_id o w
        → raced api env live job_id o w ≡ (ok enqueued, w')
        → IsQueued job_id w'
    enqueued_raced job_id none w w' free h = enqueued_live job_id w w' free h
    enqueued_raced job_id (some job) w w' there h =
        continue_ok h (λ st w1 got rest. absurd (ground (arith, rest)))

    enqueued_again :
        (job_id : Text) (targeted : Option (Option Job)) (w w' : World Q)
        → Has job_id none w
        → again api env live job_id targeted w ≡ (ok enqueued, w')
        → IsQueued job_id w'
    unfolding enqueue_after_removal
    enqueued_again job_id (some _) w w' free h = enqueued_live job_id w w' free h
    enqueued_again job_id none w w' free h = continue_ok h (λ o w1 got rest.
        let (same, there) = looked_up job_id o w w1 got in
        enqueued_raced job_id o w w' there (rw same at rest))

    enqueued_replaced :
        (job_id : Text) (targeted : Option (Option Job)) (job : Job) (w w' : World Q)
        → Has job_id (some job) w
        → replace_job api env live job_id targeted job w ≡ (ok enqueued, w')
        → IsQueued job_id w'
    unfolding replace_job
    enqueued_replaced job_id targeted job w w' there h = continue_ok h (λ _ w1 removing rest.
        enqueued_again job_id targeted w1 w'
          (doc.remove_takes job_id job w.queue w1.queue there (ground (arith, removing))) rest)

    enqueued_cover :
        (durable : Option DurableOrder) (job_id : Text) (targeted : Option (Option Job)) (job : Job)
        (c : Classified) (w w' : World Q)
        → cover api env live durable job_id targeted job c w ≡ (ok enqueued, w')
        → replace_job api env live job_id targeted job w ≡ (ok enqueued, w')
    unfolding cover
    enqueued_cover durable job_id targeted job c w w' h = ground arith

    enqueued_found :
        (durable : Option DurableOrder) (targeted : Option (Option Job)) (job_id : Text)
        (o : Option Job) (w w' : World Q)
        → Has job_id o w
        → found api env live durable targeted job_id o w ≡ (ok enqueued, w')
        → IsQueued job_id w'
    enqueued_found durable targeted job_id none w w' free h = enqueued_live job_id w w' free h
    enqueued_found durable targeted job_id (some job) w w' there h =
        continue_ok h (λ st w1 got rest. enqueued_replaced job_id targeted job w w' there (
          enqueued_cover durable job_id targeted job (classify_queue_entry job st) w w'
            (rw (state_read job st w w1 got) at rest)))

    enqueued_lookup :
        (job_id : Text) (targeted : Option (Option Job)) (o : Option Job) (w w1 : World Q)
        → IsLookedUp job_id targeted w
        → lookup api env job_id targeted w ≡ (ok o, w1)
        → (w1 ≡ w) × Has job_id o w
    enqueued_lookup job_id none o w w1 known h = looked_up job_id o w w1 h
    enqueued_lookup job_id (some t) o w w1 known h = ground (arith, known, h)

-- A live reservation that is reported enqueued is in the queue: under the identity of its user's job
-- there is a job that passes the checks and carries this reservation. The calls of the queue do what
-- BullMQ documents, nothing else works on the queue meanwhile, and where the caller has looked the job up
-- itself, it gives what is there.
pub enqueued-IsQueued :
    {Q : Type 0} (api : QueueApi Q) (env : WorkerEnv) (live : ReservationEntry)
    (durable : Option DurableOrder) (targeted : Option (Option Job)) (job_id : Text)
    (w w' : World Q)
    → IsBullMq api
    → IsLookedUp api env live job_id targeted w
    → build_orders_job_id env.sale_id live.user_id ≡ ok job_id
    → ensure_live_reservation_queued api env live durable targeted w ≡ (ok enqueued, w')
    → IsQueued api env live job_id w'
unfolding ensure_live_reservation_queued
enqueued-IsQueued api env live durable targeted job_id w w' doc known id h =
    continue_ok h (λ built w1 lifted rest. continue_ok rest (λ o w2 looked last.
      let same : built ≡ job_id = ground (arith, lifted, id) in
      let still : w1 ≡ w = ground (arith, lifted) in
      let (unmoved, there) =
        enqueued_lookup api env live doc job_id targeted o w w2 known
          (rw (same, still) at looked) in
      enqueued_found api env live doc durable targeted job_id o w w' there
        (rw (same, unmoved) at last)))

-- ===== src/Worker/Keeps.antt =====
-- What a step of a pass keeps of the keys in Redis and of the ledger that the pass has in hand. The
-- enqueue of a live reservation touches neither.
use bookipi_technical_test.Prelude.{
  ◌≡◌, Bool, true, false, if◌then◌else◌, Option, none, some, arith, Outcome, ok, throw, Thrown,
}
use bookipi_technical_test.Text.{Text}
use bookipi_technical_test.Redis.Hash.{Hash}
use bookipi_technical_test.Redis.Db.{SaleDb}
use bookipi_technical_test.Redis.Store.Entry.{ReservationEntry}
use bookipi_technical_test.Worker.Step.{Step, continue, ensure, ◌>>◌}
use bookipi_technical_test.Worker.Env.{WorkerEnv}
use bookipi_technical_test.Worker.Job.{Job, Classified}
use bookipi_technical_test.Worker.Orders.{DurableOrder}
use bookipi_technical_test.Worker.Queue.{QueueApi}
use bookipi_technical_test.Worker.World.{World, on_queue, checkpoint}
use bookipi_technical_test.Worker.Enqueue.{
  enqueue_live_reservation, enqueue_after_removal, replace_job, cover,
  ensure_live_reservation_queued, raced, again, found, lookup, repair_job,
}

module _ {Q : Type 0} (P : SaleDb → Hash ReservationEntry → Type 0) where
  -- Whatever it replies, what it leaves has the property that it had.
  abbrev pub Keeps : {A : Type 0} → Step (World Q) A → Type 0
  Keeps m =
      (w : World Q) → P w.stores.db w.ledger_by_user → P (m w).1.stores.db (m w).1.ledger_by_user

  Keeps-continue :
      {A B : Type 0} (x : Outcome A × World Q) (f : A → Step (World Q) B)
      → P x.1.stores.db x.1.ledger_by_user
      → ((a : A) → Keeps (f a))
      → P (continue x f).1.stores.db (continue x f).1.ledger_by_user
  unfolding continue
  Keeps-continue (ok a, w) f h kf = kf a w h
  Keeps-continue (throw e, w) f h kf = h

  pub Keeps-bind :
      {A B : Type 0} (m : Step (World Q) A) (f : A → Step (World Q) B)
      → Keeps m
      → ((a : A) → Keeps (f a))
      → Keeps (λ w. continue (m w) f)
  Keeps-bind m f km kf w h = Keeps-continue (m w) f (km w h) kf

  pub Keeps-guard : (b : Bool) (e : Thrown) → Keeps {A = Unit {0}} (ensure b e)
  Keeps-guard true e w h = h
  Keeps-guard false e w h = h

  -- A checkpoint, and then the rest.
  pub Keeps-from : {A : Type 0} (m : Step (World Q) A) → Keeps m → Keeps (checkpoint >> m)
  Keeps-from m = λ km. Keeps-bind checkpoint _ (λ w h. Keeps-guard _ _ w h) (λ _. km)

  pub Keeps-if :
      {A : Type 0} (b : Bool) (m n : Step (World Q) A)
      → Keeps m
      → Keeps n
      → Keeps (if b then m else n)
  Keeps-if true m n km kn = km
  Keeps-if false m n km kn = kn

  pub kept :
      {A : Type 0} {x : Outcome A × World Q} {o : Outcome A} {w : World Q}
      → x ≡ (o, w)
      → P x.1.stores.db x.1.ledger_by_user
      → P w.stores.db w.ledger_by_user
  kept e h = rw e at h

  module _ (api : QueueApi Q) (env : WorkerEnv) where
    Keeps-enqueue :
        (live : ReservationEntry) (job_id : Text)
        → Keeps (enqueue_live_reservation api env live job_id)
    unfolding enqueue_live_reservation
    Keeps-enqueue live job_id =
        Keeps-bind _ _ (λ _ h. h)
          (λ p. Keeps-bind (on_queue (api.add (repair_job p job_id))) _ (λ _ h. h) (λ _ _ h. h))

    Keeps-raced :
        (live : ReservationEntry) (job_id : Text) (o : Option Job)
        → Keeps (raced api env live job_id o)
    Keeps-raced live job_id none = Keeps-enqueue live job_id
    Keeps-raced live job_id (some job) =
        Keeps-bind (on_queue (api.get_state job)) _ (λ _ h. h) (λ _ _ h. h)

    Keeps-again :
        (live : ReservationEntry) (job_id : Text) (targeted : Option (Option Job))
        → Keeps (again api env live job_id targeted)
    unfolding enqueue_after_removal
    Keeps-again live job_id (some _) = Keeps-enqueue live job_id
    Keeps-again live job_id none =
        Keeps-bind (on_queue (api.get_job job_id)) _ (λ _ h. h) (Keeps-raced live job_id)

    Keeps-replace :
        (live : ReservationEntry) (job_id : Text) (targeted : Option (Option Job)) (job : Job)
        → Keeps (replace_job api env live job_id targeted job)
    unfolding replace_job
    Keeps-replace live job_id targeted job =
        Keeps-bind (on_queue (api.remove job)) (λ _. again api env live job_id targeted) (λ _ h. h)
          (λ _. Keeps-again live job_id targeted)

    Keeps-cover :
        (live : ReservationEntry) (durable : Option DurableOrder) (job_id : Text)
        (targeted : Option (Option Job)) (job : Job) (c : Classified)
        → Keeps (cover api env live durable job_id targeted job c)
    unfolding cover
    Keeps-cover live durable job_id targeted job c w h =
        ground (arith, Keeps-replace live job_id targeted job w h)

    Keeps-found :
        (live : ReservationEntry) (durable : Option DurableOrder) (targeted : Option (Option Job))
        (job_id : Text) (o : Option Job)
        → Keeps (found api env live durable targeted job_id o)
    Keeps-found live durable targeted job_id none = Keeps-enqueue live job_id
    Keeps-found live durable targeted job_id (some job) =
        Keeps-bind (on_queue (api.get_state job)) _ (λ _ h. h)
          (λ st. Keeps-cover live durable job_id targeted job _)

    Keeps-lookup :
        (job_id : Text) (targeted : Option (Option Job)) → Keeps (lookup api env job_id targeted)
    Keeps-lookup job_id none w h = h
    Keeps-lookup job_id (some job) w h = h

    pub Keeps-ensure :
        (live : ReservationEntry) (durable : Option DurableOrder) (targeted : Option (Option Job))
        → Keeps (ensure_live_reservation_queued api env live durable targeted)
    unfolding ensure_live_reservation_queued
    Keeps-ensure live durable targeted =
        Keeps-bind _ _ (λ _ h. h)
          (λ job_id.
            Keeps-bind (lookup api env job_id targeted) _ (Keeps-lookup job_id targeted)
              (Keeps-found live durable targeted job_id))

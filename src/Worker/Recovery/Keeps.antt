-- ===== src/Worker/Recovery/Keeps.antt =====
-- What the recovery of a reservation and the decision on a buyer keep of the keys in Redis: whatever the
-- two scripts that they call keep.
use bookipi_technical_test.Prelude.{
  Bool, true, false, Option, none, some, Outcome, ok, arith, plain_error,
}
use bookipi_technical_test.Text.{Text}
use bookipi_technical_test.Shared.Queue.{OrdersQueueJobPayload, build_orders_job_id}
use bookipi_technical_test.Redis.Hash.{Hash, hset}
use bookipi_technical_test.Redis.Db.{SaleDb}
use bookipi_technical_test.Redis.Scripts.Membership.{
  InspectOutcome, both, buyer_only, reservation_only, neither, RestoreOutcome, conflict, restored,
  already_matched,
}
use bookipi_technical_test.Redis.Store.Entry.{ReservationEntry, RestoreInput, ReservationInspection}
use bookipi_technical_test.Redis.Store.Methods.{
  reconcile_buyer_membership, compare_and_restore_reservation, inspect_reservation_membership,
}
use bookipi_technical_test.Worker.Step.{Step, ◌>>◌, ensure, lift}
use bookipi_technical_test.Worker.Env.{WorkerEnv}
use bookipi_technical_test.Worker.Job.{Job, Classified, issue, scanned}
use bookipi_technical_test.Worker.Orders.{DurableOrder, get_by_user}
use bookipi_technical_test.Worker.Queue.{QueueApi}
use bookipi_technical_test.Worker.World.{World, on_db, on_queue, read_db}
use bookipi_technical_test.Worker.Enqueue.{ensure_live_reservation_queued}
use bookipi_technical_test.Worker.Keeps.{Keeps, Keeps-guard, Keeps-bind, Keeps-ensure}
use bookipi_technical_test.Worker.Recovery.Restore.{
  has_time, after_restore, when, note_entry, note_order, durable_of, on_conflict,
  apply_recovery_candidate, Candidate, Source, from_queue, from_persisted,
}
use bookipi_technical_test.Worker.Recovery.Decide.{
  collided, repair_membership, cover_entry, resolve_by, resolve_buyer_inspection, decide_buyer,
  by_persisted, by_job, resolve_finally, adjudicate_buyer_only, known, classify_targeted, note_row,
  agrees, targeted_of,
}

-- A property that the two scripts keep, and the note of a reservation of this user.
pub record IsKept (P : SaleDb → Hash ReservationEntry → Type 0) (noted : Text) : Type 0 where
  pub membership :
      (sale user : Text) (db : SaleDb) (ledger : Hash ReservationEntry)
      → P db ledger
      → P (reconcile_buyer_membership sale user db).1 ledger
  pub restore :
      (sale : Text) (input : Outcome RestoreInput) (db : SaleDb) (ledger : Hash ReservationEntry)
      → P db ledger
      → P (compare_and_restore_reservation sale input db).1 ledger
  pub note :
      (e : ReservationEntry) (db : SaleDb) (ledger : Hash ReservationEntry)
      → P db ledger
      → P db (hset noted e ledger)

module _ {Q : Type 0} (P : SaleDb → Hash ReservationEntry → Type 0) (user : Text)
    (closed : IsKept P user) where
  pub Keeps-when : (b : Bool) (m : Step (World Q) (Unit {0})) → Keeps P m → Keeps P (when b m)
  Keeps-when true m km w h = km w h
  Keeps-when false m km w h = h

  module _ (api : QueueApi Q) (env : WorkerEnv) where
    Keeps-collided : (targeted : Option (Option Job)) → Keeps P (collided api env user targeted)
    Keeps-collided none w h = h
    Keeps-collided (some _) w h = h

    pub Keeps-cover_entry :
        (entry : ReservationEntry) (durable : Option DurableOrder) (targeted : Option (Option Job))
        → Keeps P (cover_entry api env user entry durable targeted)
    Keeps-cover_entry entry durable targeted =
        Keeps-bind P (ensure_live_reservation_queued api env entry durable targeted) _
          (Keeps-ensure P api env entry durable targeted)
          (λ coverage. Keeps-when _ (collided api env user targeted) (Keeps-collided targeted))

    pub Keeps-membership : Keeps P (repair_membership api env user)
    Keeps-membership =
        Keeps-bind P (on_db (reconcile_buyer_membership env.sale_id user)) _
          (λ w h. closed.membership env.sale_id user w.stores.db w.ledger_by_user h)
          (λ m. Keeps-guard P _ _)

    Keeps-resolve_by :
        (i : InspectOutcome) (entry : Option ReservationEntry) (durable : Option DurableOrder)
        (targeted : Option (Option Job))
        → Keeps P (resolve_by api env user i entry durable targeted)
    Keeps-resolve_by neither entry durable targeted = λ w h. h
    Keeps-resolve_by buyer_only entry durable targeted = λ w h. h
    Keeps-resolve_by both none durable targeted = λ w h. h
    Keeps-resolve_by reservation_only none durable targeted = λ w h. h
    Keeps-resolve_by both (some e) durable targeted =
        Keeps-bind P (note_entry user e) (λ _. cover_entry api env user e durable targeted)
          (λ w h. closed.note e w.stores.db w.ledger_by_user h)
          (λ _. Keeps-cover_entry e durable targeted)
    Keeps-resolve_by reservation_only (some e) durable targeted =
        Keeps-bind P (cover_entry api env user e durable targeted)
          (λ _. repair_membership api env user >> note_entry user e)
          (Keeps-cover_entry e durable targeted)
          (λ _.
            Keeps-bind P (repair_membership api env user) (λ _. note_entry user e) Keeps-membership
              (λ _ w h. closed.note e w.stores.db w.ledger_by_user h))

    pub Keeps-resolve :
        (i : ReservationInspection) (durable : Option DurableOrder) (targeted : Option (Option Job))
        → Keeps P (resolve_buyer_inspection api env user i durable targeted)
    unfolding resolve_buyer_inspection
    Keeps-resolve i = Keeps-resolve_by i.outcome i.reservation

    Keeps-on_conflict :
        (c : Candidate) (s : Source) (targeted : Option (Option Job)) (current : ReservationEntry)
        → Keeps P (on_conflict api env c s targeted current)
    unfolding on_conflict
    Keeps-on_conflict c from_queue targeted current =
        Keeps-bind P (durable_of c.user_id) _ (λ _ h. h) (λ durable. Keeps-when _ _ (λ _ h. h))
    Keeps-on_conflict c from_persisted targeted current =
        Keeps-bind P (when (has_time current.reserved_at_ms) _) _
          (Keeps-when (has_time current.reserved_at_ms) _ (
            Keeps-bind P (durable_of c.user_id) _ (λ _ h. h)
              (λ durable.
                Keeps-bind P (ensure_live_reservation_queued api env current durable targeted) _
                  (Keeps-ensure P api env current durable targeted)
                  (λ coverage. Keeps-when _ _ (λ _ h. h)))))
          (λ _ _ h. h)

    Keeps-after_restore :
        (c : Candidate) (s : Source) (targeted : Option (Option Job)) (o : RestoreOutcome)
        (current : Option ReservationEntry)
        → Keeps P (after_restore api env c s targeted o current)
    Keeps-after_restore c s targeted conflict none = λ w h. h
    Keeps-after_restore c s targeted conflict (some current) =
        Keeps-on_conflict c s targeted current
    Keeps-after_restore c s targeted restored current = λ w h. h
    Keeps-after_restore c s targeted already_matched current = λ w h. h

    pub Keeps-apply :
        (c : Candidate) (s : Source) (targeted : Option (Option Job))
        → Keeps P (apply_recovery_candidate api env c s targeted)
    unfolding apply_recovery_candidate
    Keeps-apply c s targeted =
        Keeps-bind P (on_db (compare_and_restore_reservation env.sale_id _)) _
          (λ w h. closed.restore env.sale_id _ w.stores.db w.ledger_by_user h)
          (λ r. Keeps-after_restore c s targeted _ _)

    Keeps-by_persisted :
        (o : DurableOrder) (p : Option OrdersQueueJobPayload) (targeted : Option Job)
        → Keeps P (by_persisted api env user o p targeted)
    Keeps-by_persisted o p targeted =
        Keeps-bind P (ensure (agrees api env o p) plain_error) _ (Keeps-guard P _ _) (λ _.
          Keeps-bind P (note_order user o) _ (λ _ h. h)
            (λ _. Keeps-apply _ from_persisted (targeted_of api env targeted)))

    Keeps-by_job : (p : Option OrdersQueueJobPayload) → Keeps P (by_job api env user p)
    Keeps-by_job (some p) = Keeps-apply _ from_queue none
    Keeps-by_job none =
        Keeps-bind P (on_db (reconcile_buyer_membership env.sale_id user)) _
          (λ w h. closed.membership env.sale_id user w.stores.db w.ledger_by_user h)
          (λ m. Keeps-guard P _ _)

    Keeps-decide :
        (o : Option DurableOrder) (p : Option OrdersQueueJobPayload) (targeted : Option Job)
        → Keeps P (decide_buyer api env user o p targeted)
    unfolding decide_buyer
    Keeps-decide none none targeted = λ w h. h
    Keeps-decide none (some p) targeted = Keeps-apply _ from_queue none
    Keeps-decide (some o) p targeted =
        λ w h. ground (arith, Keeps-by_persisted o p targeted w h, Keeps-by_job p w h)

    pub Keeps-finally : (targeted : Option Job) → Keeps P (resolve_finally api env user targeted)
    unfolding resolve_finally
    Keeps-finally targeted =
        Keeps-bind P (read_db (inspect_reservation_membership env.sale_id user)) _ (λ _ h. h)
          (λ i.
            Keeps-bind P (durable_of user) _ (λ _ h. h)
              (λ durable. Keeps-resolve i durable (targeted_of api env targeted)))

    Keeps-known : (c : Classified) → Keeps P (known api env c)
    Keeps-known (issue _ _) w h = h
    Keeps-known (scanned _ _) w h = h

    Keeps-classify : (targeted : Option Job) → Keeps P (classify_targeted api env targeted)
    Keeps-classify none = λ w h. h
    Keeps-classify (some job) =
        Keeps-bind P (on_queue (api.get_state job)) _ (λ _ h. h) (λ st. Keeps-known _)

    Keeps-note_row : (o : Option DurableOrder) → Keeps P (note_row api env user o)
    Keeps-note_row none w h = h
    Keeps-note_row (some o) w h = h

    pub Keeps-adjudicate : Keeps P (adjudicate_buyer_only api env user)
    unfolding adjudicate_buyer_only
    Keeps-adjudicate =
        Keeps-bind P (λ w. (ok (get_by_user user w.stores.tables), w)) _ (λ _ h. h)
          (λ row.
            Keeps-bind P (lift (build_orders_job_id env.sale_id user)) _ (λ _ h. h)
              (λ job_id.
                Keeps-bind P (on_queue (api.get_job job_id)) _ (λ _ h. h)
                  (λ targeted.
                    Keeps-bind P (classify_targeted api env targeted) _ (Keeps-classify targeted)
                      (λ c. Keeps-bind P (note_row api env user _) _ (Keeps-note_row _) (λ _.
                        Keeps-bind P (decide_buyer api env user _ _ targeted) _
                          (Keeps-decide _ _ targeted) (λ _. Keeps-finally targeted))))))

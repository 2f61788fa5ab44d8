-- ===== src/Worker/Pass/Keeps.antt =====
-- What the parts of a pass before the derivation of the stock keep.
use bookipi_technical_test.Prelude.{
  ℕ, zero, suc, Bool, true, false, not, Option, none, some, List, [], ◌∷◌,
}
use bookipi_technical_test.Text.{Text}
use bookipi_technical_test.Redis.Hash.{Hash}
use bookipi_technical_test.Redis.Db.{SaleDb}
use bookipi_technical_test.Redis.Store.Entry.{ReservationEntry, ReservationInspection}
use bookipi_technical_test.Redis.Store.Methods.{
  reconcile_buyer_membership, inspect_reservation_membership,
}
use bookipi_technical_test.Redis.Store.Scan.{Scan, scan_buyers}
use bookipi_technical_test.Worker.Env.{WorkerEnv}
use bookipi_technical_test.Worker.Job.{Job, JobState, Classified, scanned, issue, is_failed}
use bookipi_technical_test.Worker.Orders.{DurableOrder}
use bookipi_technical_test.Worker.Queue.{QueueApi}
use bookipi_technical_test.Worker.World.{on_db, on_queue, read_db}
use bookipi_technical_test.Worker.Enqueue.{ensure_live_reservation_queued, is_live, is_persisted}
use bookipi_technical_test.Worker.Keeps.{Keeps, Keeps-from, Keeps-if, Keeps-bind, Keeps-ensure}
use bookipi_technical_test.Worker.Recovery.Keeps.{
  IsKept, Keeps-when, Keeps-apply, Keeps-resolve, Keeps-adjudicate,
}
use bookipi_technical_test.Worker.Recovery.{durable_of, from_persisted, from_queue, when}
use bookipi_technical_test.Worker.Scans.{
  ScannedJob, QueueScanResult, add_scanned, scan_entry, scan_entries, state_pages, scan_states,
  scan_jobs, queue_states,
}
use bookipi_technical_test.Worker.Pass.{
  recover_orders, recover_jobs, align, cover_reservation, cover_ledger, check_inspected,
  check_unless, check_buyers, buyer_pages, is_known, is_buyer_only,
}

-- A step that looks at one buyer keeps what is kept with a note of this buyer.
module _ {Q : Type 0} (P : SaleDb → Hash ReservationEntry → Type 0) (user : Text)
    (closed : IsKept P user) (api : QueueApi Q) (env : WorkerEnv) where
  Keeps-check_inspected : (i : ReservationInspection) → Keeps P (check_inspected api env user i)
  Keeps-check_inspected i =
      Keeps-if P (not (is_buyer_only api env i.outcome)) _ _
        (Keeps-bind P (durable_of user) _ (λ _ h. h)
          (λ row. Keeps-resolve P user closed api env i row none))
        (Keeps-adjudicate P user closed api env)

  pub Keeps-check_unless : (known : Bool) → Keeps P (check_unless api env user known)
  Keeps-check_unless true = λ w h. h
  Keeps-check_unless false =
      Keeps-bind P (read_db (inspect_reservation_membership env.sale_id user)) _ (λ _ h. h)
        Keeps-check_inspected

  pub Keeps-align : Keeps P (align api env user)
  Keeps-align =
      Keeps-bind P (on_db (reconcile_buyer_membership env.sale_id user)) _
        (λ w h. closed.membership env.sale_id user w.stores.db w.ledger_by_user h) (λ _ _ h. h)

  pub Keeps-cover_reservation :
      (entry : ReservationEntry) (row : Option DurableOrder)
      → Keeps P (cover_reservation api env entry row)
  Keeps-cover_reservation entry row = Keeps-when P user closed _ _ (
      Keeps-bind P (ensure_live_reservation_queued api env entry row none) _
        (Keeps-ensure P api env entry row none) (λ c. Keeps-when P user closed _ _ (λ _ h. h)))

module _ {Q : Type 0} (P : SaleDb → Hash ReservationEntry → Type 0)
    (closed : (user : Text) → IsKept P user) where
  module _ (api : QueueApi Q) (env : WorkerEnv) where
    Keeps-add_scanned :
        (job : Job) (st : JobState) (r : QueueScanResult) (c : Classified)
        → Keeps P (add_scanned api env job st r c)
    Keeps-add_scanned job st r (issue _ _) = λ w h. h
    Keeps-add_scanned job st r (scanned _ p) =
        Keeps-if P (is_failed st) _ _
          (Keeps-bind P (on_queue (api.get_state job)) _ (λ _ h. h) (λ _ _ h. h)) (λ _ h. h)

    Keeps-scan_entry :
        (st : JobState) (r : QueueScanResult) (entry : Option Job)
        → Keeps P (scan_entry api env st r entry)
    Keeps-scan_entry st r none = λ w h. h
    Keeps-scan_entry st r (some job) = Keeps-add_scanned job st r _

    Keeps-scan_entries :
        (st : JobState) (entries : List (Option Job)) (r : QueueScanResult)
        → Keeps P (scan_entries api env st entries r)
    unfolding scan_entries
    Keeps-scan_entries st [] r = λ w h. h
    Keeps-scan_entries st (entry ∷ entries) r = Keeps-from P _ (
        Keeps-bind P (scan_entry api env st r entry) _ (Keeps-scan_entry st r entry)
          (λ next. Keeps-scan_entries st entries next))

    Keeps-state_pages :
        (st : JobState) (fuel start : ℕ) (r : QueueScanResult)
        → Keeps P (state_pages api env st fuel start r)
    unfolding state_pages
    Keeps-state_pages st zero start r = λ w h. h
    Keeps-state_pages st (suc fuel) start r = Keeps-from P _ (
        Keeps-bind P (on_queue (api.get_jobs st start _)) _ (λ _ h. h)
          (λ page. Keeps-from P _ (
            Keeps-bind P (scan_entries api env st page r) _ (Keeps-scan_entries st page r)
              (λ next. Keeps-if P _ _ _ (λ _ h. h) (Keeps-state_pages st fuel _ next)))))

    Keeps-scan_states :
        (fuel : ℕ) (states : List JobState) (r : QueueScanResult)
        → Keeps P (scan_states api env fuel states r)
    unfolding scan_states
    Keeps-scan_states fuel [] r = λ w h. h
    Keeps-scan_states fuel (st ∷ states) r =
        Keeps-bind P (state_pages api env st fuel 0 r) _ (Keeps-state_pages st fuel 0 r)
          (λ next. Keeps-scan_states fuel states next)

    pub Keeps-scan_jobs : (fuel : ℕ) → Keeps P (scan_jobs api env fuel)
    unfolding scan_jobs
    Keeps-scan_jobs fuel = Keeps-scan_states fuel queue_states _

    pub Keeps-recover_orders :
        (orders : List DurableOrder) → Keeps P (recover_orders api env orders)
    unfolding recover_orders
    Keeps-recover_orders [] = λ w h. h
    Keeps-recover_orders (o ∷ orders) = Keeps-from P _ (
        Keeps-bind P (when (is_persisted (some o)) _) _
          (Keeps-when P o.user_id (closed o.user_id) _ _
            (Keeps-apply P o.user_id (closed o.user_id) api env _ from_persisted none))
          (λ _. Keeps-recover_orders orders))

    pub Keeps-recover_jobs : (items : List ScannedJob) → Keeps P (recover_jobs api env items)
    unfolding recover_jobs
    Keeps-recover_jobs [] = λ w h. h
    Keeps-recover_jobs (item ∷ items) =
        let user = item.payload.user_id in
        Keeps-from P _ (
          Keeps-bind P (when (is_live item.state) _) _
            (Keeps-when P user (closed user) _ _ (
              Keeps-bind P (durable_of user) _ (λ _ h. h)
                (λ row.
                  Keeps-when P user (closed user) _ _
                    (Keeps-apply P user (closed user) api env _ from_queue none))))
            (λ _. Keeps-recover_jobs items))

    pub Keeps-cover_ledger :
        (entries : List ReservationEntry) → Keeps P (cover_ledger api env entries)
    unfolding cover_ledger
    Keeps-cover_ledger [] = λ w h. h
    Keeps-cover_ledger (entry ∷ entries) = Keeps-from P _ (
        Keeps-bind P (durable_of entry.user_id) _ (λ _ h. h)
          (λ row.
            Keeps-bind P (cover_reservation api env entry row) _
              (Keeps-cover_reservation P entry.user_id (closed entry.user_id) api env entry row)
              (λ _.
                Keeps-bind P (align api env entry.user_id) _
                  (Keeps-align P entry.user_id (closed entry.user_id) api env)
                  (λ _. Keeps-cover_ledger entries))))

    pub Keeps-check_buyers : (users : List Text) → Keeps P (check_buyers api env users)
    unfolding check_buyers
    Keeps-check_buyers [] = λ w h. h
    Keeps-check_buyers (user ∷ users) = Keeps-from P _ (
        Keeps-bind P (is_known user) _ (λ _ h. h)
          (λ known.
            Keeps-bind P (check_unless api env user known) _
              (Keeps-check_unless P user (closed user) api env known)
              (λ _. Keeps-check_buyers users)))

    pub Keeps-buyer_pages :
        (sscan : Scan) (fuel k : ℕ) (cursor : Text)
        → Keeps P (buyer_pages api env sscan fuel k cursor)
    unfolding buyer_pages
    Keeps-buyer_pages sscan zero k cursor = λ w h. h
    Keeps-buyer_pages sscan (suc fuel) k cursor = Keeps-from P _ (
        Keeps-bind P
          (read_db (scan_buyers env.sale_id (sscan k cursor env.worker_reconcile_scan_count))) _
          (λ _ h. h)
          (λ page. Keeps-from P _ (
            Keeps-bind P (check_buyers api env page.1) _ (Keeps-check_buyers page.1)
              (λ _. Keeps-if P _ _ _ (λ _ h. h) (Keeps-buyer_pages sscan fuel (suc k) page.0)))))

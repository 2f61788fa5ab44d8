-- ===== src/Worker/Recovery/Decide.antt =====
-- `resolveBuyerInspection` and `adjudicateBuyerOnly`: the decision on a buyer without a reservation.
use bookipi_technical_test.Prelude.{
  Bool, true, false, ◌&&◌, Option, none, some, if◌then◌else◌, ok, plain_error,
}
use bookipi_technical_test.Text.{Text, text_eq}
use bookipi_technical_test.Shared.Queue.{OrdersQueueJobPayload, build_orders_job_id}
use bookipi_technical_test.Redis.Scripts.Membership.{
  MembershipOutcome, InspectOutcome, present, absent, both, buyer_only, reservation_only, neither,
}
use bookipi_technical_test.Redis.Store.Entry.{ReservationEntry, ReservationInspection}
use bookipi_technical_test.Redis.Store.Methods.{
  reconcile_buyer_membership, inspect_reservation_membership,
}
use bookipi_technical_test.Worker.Step.{Step, pure, fail, lift, ensure, ◌>>=◌, ◌>>◌}
use bookipi_technical_test.Worker.Env.{WorkerEnv}
use bookipi_technical_test.Worker.Job.{Job, classify_queue_entry, Classified, scanned, issue}
use bookipi_technical_test.Worker.Postgres.{persisted, compensated}
use bookipi_technical_test.Worker.Orders.{DurableOrder, get_by_user}
use bookipi_technical_test.Worker.Queue.{QueueApi}
use bookipi_technical_test.Worker.World.{
  World, retained_collision, on_queue, on_db, read_db, report,
}
use bookipi_technical_test.Worker.Enqueue.{ensure_live_reservation_queued, is_live}
use bookipi_technical_test.Worker.Recovery.Restore.{
  Candidate, from_persisted, from_queue, is_collision, durable_of, note_order, note_entry, when,
  apply_recovery_candidate,
}

module _ {Q : Type 0} (api : QueueApi Q) (env : WorkerEnv) where
  abbrev pub collided : Text → Option (Option Job) → Step (World Q) (Unit {0})
  collided user none = report (retained_collision user)
  collided user (some _) = fail plain_error

  abbrev is_present : MembershipOutcome → Bool
  is_present present = true
  is_present absent = false

  -- The membership of a holder who is no buyer yet.
  abbrev pub repair_membership : Text → Step (World Q) (Unit {0})
  repair_membership user = do
    membership ← on_db (reconcile_buyer_membership env.sale_id user)
    ensure (is_present membership) plain_error

  abbrev pub cover_entry :
      Text
      → ReservationEntry
      → Option DurableOrder
      → Option (Option Job)
      → Step (World Q) (Unit {0})
  cover_entry user entry durable targeted = do
    coverage ← ensure_live_reservation_queued api env entry durable targeted
    when (is_collision coverage) (collided user targeted)

  abbrev pub resolve_by :
      Text
      → InspectOutcome
      → Option ReservationEntry
      → Option DurableOrder
      → Option (Option Job)
      → Step (World Q) (Unit {0})
  resolve_by user neither entry durable targeted = pure tt
  resolve_by user buyer_only entry durable targeted = fail plain_error
  resolve_by user both none durable targeted = fail plain_error
  resolve_by user reservation_only none durable targeted = fail plain_error
  resolve_by user both (some entry) durable targeted = do
    note_entry user entry
    cover_entry user entry durable targeted
  resolve_by user reservation_only (some entry) durable targeted = do
    cover_entry user entry durable targeted
    repair_membership user
    note_entry user entry

  unfoldable pub resolve_buyer_inspection :
      Text
      → ReservationInspection
      → Option DurableOrder
      → Option (Option Job)
      → Step (World Q) (Unit {0})
  resolve_buyer_inspection user inspection =
      resolve_by user inspection.outcome inspection.reservation

  -- A job of the user's identity that is not finished, as a candidate of this sale and user.
  abbrev pub queue_candidate : Text → Option Classified → Option OrdersQueueJobPayload
  queue_candidate user none = none
  queue_candidate user (some (issue _ _)) = none
  queue_candidate user (some (scanned st p)) =
      if is_live st && (text_eq p.sale_id env.sale_id && text_eq p.user_id user)
      then some p
      else none

  -- `row` where it is of this sale.
  abbrev pub of_sale : Option DurableOrder → Option DurableOrder
  of_sale none = none
  of_sale (some o) = if text_eq o.sale_id env.sale_id then some o else none

  -- The job under the user's identity must be one of this queue.
  abbrev pub known : Classified → Step (World Q) (Option Classified)
  known (issue _ _) = fail plain_error
  known (scanned st p) = pure (some (scanned st p))

  abbrev pub classify_targeted : Option Job → Step (World Q) (Option Classified)
  classify_targeted none = pure none
  classify_targeted (some job) =
      on_queue (api.get_state job) >>= λ st. known (classify_queue_entry job st)

  -- `getJob` gives `undefined` for a job that is not there.
  abbrev pub targeted_of : Option Job → Option (Option Job)
  targeted_of none = none
  targeted_of (some job) = some (some job)

  abbrev pub note_row : Text → Option DurableOrder → Step (World Q) (Unit {0})
  note_row user none = pure tt
  note_row user (some o) = note_order user o

  abbrev pub order_candidate : Text → DurableOrder → Candidate
  order_candidate user o = record {
    user_id = user;
    reservation_id = o.id;
    reserved_at_ms = o.created_at_ms;
  }

  abbrev pub job_candidate : Text → OrdersQueueJobPayload → Candidate
  job_candidate user p = record {
    user_id = user;
    reservation_id = p.reservation_id;
    reserved_at_ms = p.reserved_at_ms;
  }

  abbrev pub is_absent : MembershipOutcome → Bool
  is_absent absent = true
  is_absent present = false

  abbrev pub agrees : DurableOrder → Option OrdersQueueJobPayload → Bool
  agrees o none = true
  agrees o (some p) = text_eq p.reservation_id o.id

  abbrev pub by_persisted :
      Text → DurableOrder → Option OrdersQueueJobPayload → Option Job → Step (World Q) (Unit {0})
  by_persisted user o candidate targeted = do
    ensure (agrees o candidate) plain_error
    note_order user o
    apply_recovery_candidate api env (order_candidate user o) from_persisted (targeted_of targeted)

  -- The order was compensated.
  abbrev pub by_job : Text → Option OrdersQueueJobPayload → Step (World Q) (Unit {0})
  by_job user (some p) = apply_recovery_candidate api env (job_candidate user p) from_queue none
  by_job user none = do
    membership ← on_db (reconcile_buyer_membership env.sale_id user)
    ensure (is_absent membership) plain_error

  -- The order, or else the job, tells which reservation was lost; a compensated order says that there is
  -- none; without any of the three the pass fails.
  unfoldable pub decide_buyer :
      Text
      → Option DurableOrder
      → Option OrdersQueueJobPayload
      → Option Job
      → Step (World Q) (Unit {0})
  decide_buyer user none none targeted = fail plain_error
  decide_buyer user none (some p) targeted =
      apply_recovery_candidate api env (job_candidate user p) from_queue none
  decide_buyer user (some o) candidate targeted = elim o.status [
    | persisted ↦ by_persisted user o candidate targeted
    | compensated ↦ by_job user candidate
  ]

  -- The inspection that closes the decision.
  unfoldable pub resolve_finally : Text → Option Job → Step (World Q) (Unit {0})
  resolve_finally user targeted = do
    inspection ← read_db (inspect_reservation_membership env.sale_id user)
    durable ← durable_of user
    resolve_buyer_inspection user inspection durable (targeted_of targeted)

  unfoldable pub adjudicate_buyer_only : Text → Step (World Q) (Unit {0})
  adjudicate_buyer_only user = do
    row ← λ w. (ok (get_by_user user w.stores.tables), w)
    job_id ← lift (build_orders_job_id env.sale_id user)
    targeted ← on_queue (api.get_job job_id)
    classified ← classify_targeted targeted
    note_row user (of_sale row)
    decide_buyer user (of_sale row) (queue_candidate user classified) targeted
    resolve_finally user targeted

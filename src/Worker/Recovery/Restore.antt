-- ===== src/Worker/Recovery/Restore.antt =====
-- `applyRecoveryCandidate`: a reservation that Redis lost comes back from an order or a job.
use bookipi_technical_test.Prelude.{
  ℕ, Bool, true, false, not, ◌&&◌, Option, none, some, [], ◌∷◌, ℤ, ok, plain_error,
}
use bookipi_technical_test.Text.{Text, codes}
use bookipi_technical_test.Shared.Queue.{JsValue, object, name, str, num}
use bookipi_technical_test.Redis.Hash.{hget, hset}
use bookipi_technical_test.Redis.Scripts.Membership.{
  RestoreOutcome, conflict, restored, already_matched,
}
use bookipi_technical_test.Redis.Store.Entry.{ReservationEntry, assert_restore_input}
use bookipi_technical_test.Redis.Store.Methods.{compare_and_restore_reservation}
use bookipi_technical_test.Worker.Step.{Step, pure, fail, ◌>>=◌, ◌>>◌}
use bookipi_technical_test.Worker.Env.{WorkerEnv}
use bookipi_technical_test.Worker.Job.{Job}
use bookipi_technical_test.Worker.Orders.{DurableOrder}
use bookipi_technical_test.Worker.Queue.{QueueApi}
use bookipi_technical_test.Worker.World.{
  World, retained_collision, conflicting_queue_identity, conflicting_persisted_identity, on_db,
  report,
}
use bookipi_technical_test.Worker.Enqueue
use bookipi_technical_test.Worker.Enqueue.{
  EnsureLiveQueueResult, ensure_live_reservation_queued, is_live, is_row_of, is_persisted,
}

pub record Candidate : Type 0 where
  pub user_id : Text
  pub reservation_id : Text
  pub reserved_at_ms : ℤ

-- What the candidate was read from.
pub data Source : Type 0 where
  from_persisted from_queue : Source

abbrev pub candidate_object : Candidate → JsValue
candidate_object c = object (
    (name (codes "userId"), str c.user_id)
    ∷ (name (codes "reservationId"), str c.reservation_id)
    ∷ (name (codes "reservedAtMs"), num c.reserved_at_ms)
    ∷ [])

-- `durable?.status === 'compensated' && durable.id === id`
abbrev pub is_compensated_row : Text → Option DurableOrder → Bool
is_compensated_row id o = is_row_of id o && not (is_persisted o)

abbrev pub has_time : Option ℕ → Bool
has_time none = false
has_time (some _) = true

abbrev pub is_collision : EnsureLiveQueueResult → Bool
is_collision Enqueue.retained_collision = true
is_collision _ = false

module _ {Q : Type 0} where
  abbrev pub durable_of : Text → Step (World Q) (Option DurableOrder)
  durable_of user w = (ok (hget user w.by_user), w)

  abbrev pub note_order : Text → DurableOrder → Step (World Q) (Unit {0})
  note_order user o w = (ok tt, record w { by_user = hset user o w.by_user })

  abbrev pub note_entry : Text → ReservationEntry → Step (World Q) (Unit {0})
  note_entry user e w = (ok tt, record w { ledger_by_user = hset user e w.ledger_by_user })

  abbrev pub when : Bool → Step (World Q) (Unit {0}) → Step (World Q) (Unit {0})
  when true m = m
  when false m = pure tt

module _ {Q : Type 0} (api : QueueApi Q) (env : WorkerEnv) where
  -- The compare-and-set found another reservation in the ledger.
  unfoldable pub on_conflict :
      Candidate → Source → Option (Option Job) → ReservationEntry → Step (World Q) (Unit {0})
  on_conflict c from_queue targeted current = do
    durable ← durable_of c.user_id
    when (not (is_compensated_row c.reservation_id durable))
        (report (conflicting_queue_identity c.user_id))
  on_conflict c from_persisted targeted current = do
    when (has_time current.reserved_at_ms) (
        durable_of c.user_id >>= λ durable.
        ensure_live_reservation_queued api env current durable targeted >>= λ coverage.
        when (is_collision coverage) (report (retained_collision c.user_id)))
    report (conflicting_persisted_identity c.user_id)

  abbrev pub after_restore :
      Candidate
      → Source
      → Option (Option Job)
      → RestoreOutcome
      → Option ReservationEntry
      → Step (World Q) (Unit {0})
  after_restore c source targeted conflict none = fail plain_error
  after_restore c source targeted conflict (some current) = on_conflict c source targeted current
  after_restore c source targeted restored current = pure tt
  after_restore c source targeted already_matched current = pure tt

  unfoldable pub apply_recovery_candidate :
      Candidate → Source → Option (Option Job) → Step (World Q) (Unit {0})
  apply_recovery_candidate c source targeted =
      on_db
        (compare_and_restore_reservation env.sale_id (assert_restore_input (candidate_object c)))
      >>= λ r. after_restore c source targeted r.outcome r.current

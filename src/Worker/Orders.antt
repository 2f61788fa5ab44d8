-- ===== src/Worker/Orders.antt =====
-- apps/worker/src/orders/order.repository.ts: the durable order of a reservation. One transaction
-- runs at a time on a user's row and on a reservation's lock. The hooks are those of tests, and the
-- backend's pid is read for them only.
use bookipi_technical_test.Prelude.{
  ℕ, Bool, true, false, Option, none, some, ◌==◌, if◌then◌else◌, ℤ, Outcome, ok, throw, plain_error,
  conflict_error,
}
use bookipi_technical_test.Text.{Text, text_eq}
use bookipi_technical_test.Shared.Queue.{OrdersQueueJobPayload}
use bookipi_technical_test.Redis.Db.{SaleDb}
use bookipi_technical_test.Redis.Scripts.Compensate.{CompensateOutcome, noop}
use bookipi_technical_test.Redis.Store.Entry.{ReservationEntry}
use bookipi_technical_test.Redis.Store.Methods.{get_reservation, CompensateResult}
use bookipi_technical_test.Worker.Step.{Step, pure, fail, ensure, ◌>>=◌, ◌>>◌}
use bookipi_technical_test.Worker.Postgres.{
  Tables, OrderRow, DurableOrderStatus, persisted, compensated, find_user, insert_order,
  update_marker,
}
pub mod Adjudication
pub mod Resolved
pub mod Refusal
pub mod Final
pub mod Recovery

-- What the repository reaches: the keys of Redis and the tables of Postgres.
pub record Stores : Type 0 where
  pub db : SaleDb
  pub tables : Tables

pub record DurableOrder : Type 0 where
  pub id : Text
  pub user_id : Text
  pub sale_id : Text
  pub status : DurableOrderStatus
  pub created_at_ms : ℤ
  pub request_id : Text

abbrev pub from_row : OrderRow → DurableOrder
from_row r = record {
  id = r.id;
  user_id = r.user_id;
  sale_id = r.sale_id;
  status = r.status;
  created_at_ms = r.created_at_ms;
  request_id = r.request_id;
}

-- `'persisted'`, `'idempotent'` and `'compensated'`.
pub data PersistResult : Type 0 where
  now_persisted idempotent was_compensated : PersistResult

-- `'persisted'`, `'compensated'` and `'compensation_noop'`.
pub data ResolveFailedResult : Type 0 where
  was_persisted now_compensated compensation_noop : ResolveFailedResult

-- A statement on the tables.
abbrev pub statement : {A : Type 0} → (Tables → Outcome (A × Tables)) → Step Stores A
statement f s = applied (f s.tables) s
  where
    applied : {A : Type 0} → Outcome (A × Tables) → Step Stores A
    applied (ok (a, t)) s = (ok a, record s { tables = t })
    applied (throw e) s = (throw e, s)

-- What the client sees of COMMIT: it is acknowledged; it failed; or it landed and the
-- acknowledgement was lost.
pub data CommitOutcome : Type 0 where
  acknowledged refused unacknowledged : CommitOutcome

-- The tables of `before` with everything else as it is now: ROLLBACK does not reach Redis.
abbrev pub rollback : Stores → Stores → Stores
rollback before now = record now { tables = before.tables }

abbrev pub committed :
    {A : Type 0} → CommitOutcome → Stores → Outcome A × Stores → Outcome A × Stores
committed acknowledged before (ok a, s) = (ok a, s)
committed refused before (ok a, s) = (throw plain_error, rollback before s)
committed unacknowledged before (ok a, s) = (throw plain_error, s)
committed c before (throw e, s) = (throw e, rollback before s)

unfoldable pub transaction : {A : Type 0} → CommitOutcome → Step Stores A → Step Stores A
transaction c work s = committed c s (work s)

abbrev pub select_user : Text → Step Stores (Option OrderRow)
select_user user s = (ok (find_user user s.tables.orders), s)

abbrev row_of : OrdersQueueJobPayload → DurableOrderStatus → Option ℕ → OrderRow
row_of p status at = record {
  id = p.reservation_id;
  user_id = p.user_id;
  sale_id = p.sale_id;
  status = status;
  created_at_ms = p.reserved_at_ms;
  persisted_at = at;
  request_id = p.request_id;
}

abbrev pub persisted_row : ℕ → OrdersQueueJobPayload → OrderRow
persisted_row now p = row_of p persisted (some now)

abbrev pub compensated_row : OrdersQueueJobPayload → OrderRow
compensated_row p = row_of p compensated none

abbrev pub ledger : OrdersQueueJobPayload → Step Stores (Option ReservationEntry)
ledger p s = (get_reservation p.sale_id p.user_id s.db, s)

-- `ledger?.reservationId === payload.reservationId`
abbrev holds : Text → Option ReservationEntry → Bool
holds id none = false
holds id (some e) = text_eq e.reservation_id id

-- A user whose row says `compensated` for another reservation: it gives way to this one, if the
-- ledger of Redis still holds this one.
unfoldable pub promote : ℕ → OrdersQueueJobPayload → OrderRow → Step Stores PersistResult
promote now p current = do
  entry ← ledger p
  ensure (holds p.reservation_id entry) plain_error
  count ← statement (update_marker current.id (persisted_row now p))
  ensure (count == 1) plain_error
  pure now_persisted

-- The user has a row already.
unfoldable pub persist_existing :
    ℕ → OrdersQueueJobPayload → Option OrderRow → Step Stores PersistResult
persist_existing now p none = fail plain_error
persist_existing now p (some current) =
    if text_eq current.id p.reservation_id then same current.status else other current.status
  where
    same : DurableOrderStatus → Step Stores PersistResult
    same persisted = pure idempotent
    same compensated = pure was_compensated

    other : DurableOrderStatus → Step Stores PersistResult
    other persisted = fail conflict_error
    other compensated = promote now p current

unfoldable pub persist_work : ℕ → OrdersQueueJobPayload → Step Stores PersistResult
persist_work now p = do
  count ← statement (insert_order true (persisted_row now p))
  if count == 1 then pure now_persisted else select_user p.user_id >>= persist_existing now p

-- `persist`; `now` is `clock_timestamp()`.
unfoldable pub persist : CommitOutcome → ℕ → OrdersQueueJobPayload → Step Stores PersistResult
persist c now p = transaction c (persist_work now p)

abbrev reply_of : CompensateOutcome → ResolveFailedResult
reply_of noop = compensation_noop
reply_of _ = now_compensated

-- The marker that keeps a late delivery from persisting what was compensated. The row of another
-- reservation that was persisted is left alone.
unfoldable pub mark : OrdersQueueJobPayload → Option OrderRow → Step Stores (Unit {0})
mark p none = statement (insert_order false (compensated_row p)) >>= λ count. pure tt
mark p (some current) = elim current.status [
  | persisted ↦ pure tt
  | compensated ↦ statement (update_marker current.id (compensated_row p)) >>= λ count.
      ensure (count == 1) plain_error
]

-- A method of the store, on the keys of Redis.
abbrev pub on_redis : {A : Type 0} → Step SaleDb A → Step Stores A
on_redis f s = let (a, db) = f s.db in (a, record s { db = db })

-- The status of the row on file, if it is of this reservation.
abbrev pub same_reservation : OrdersQueueJobPayload → Option OrderRow → Option DurableOrderStatus
same_reservation p none = none
same_reservation p (some r) = if text_eq r.id p.reservation_id then some r.status else none

-- The reply by the status of the row on file, if it is of this reservation, and whether to
-- compensate once the transaction is committed.
unfoldable pub resolve_row :
    OrdersQueueJobPayload
    → Step SaleDb CompensateResult
    → Option OrderRow
    → Option DurableOrderStatus
    → Step Stores (ResolveFailedResult × Bool)
resolve_row p compensate current (some persisted) = pure (was_persisted, false)
resolve_row p compensate current (some compensated) = pure (compensation_noop, true)
resolve_row p compensate current none = do
  compensation ← on_redis compensate
  mark p current
  pure (reply_of compensation.outcome, false)

unfoldable pub resolve_work :
    OrdersQueueJobPayload → Step SaleDb CompensateResult → Step Stores (ResolveFailedResult × Bool)
resolve_work p compensate = select_user p.user_id >>= λ current.
    resolve_row p compensate current (same_reservation p current)

abbrev pub after_commit :
    Step SaleDb CompensateResult → ResolveFailedResult × Bool → Step Stores ResolveFailedResult
after_commit compensate (r, true) = on_redis compensate >>= λ _. pure r
after_commit compensate (r, false) = pure r

-- `resolveFailed`; `compensate` is the store's compensation of this reservation. Its three outcomes
-- are all that the type of a result has, so the check on them never throws.
unfoldable pub resolve_failed :
    CommitOutcome
    → OrdersQueueJobPayload
    → Step SaleDb CompensateResult
    → Step Stores ResolveFailedResult
resolve_failed c p compensate =
    transaction c (resolve_work p compensate) >>= after_commit compensate

unfoldable pub get_by_user : Text → Tables → Option DurableOrder
get_by_user user t = elim (find_user user t.orders) [ none ↦ none | some r ↦ some (from_row r) ]

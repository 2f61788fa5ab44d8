-- ===== src/Worker/Orders/Adjudication.antt =====
-- Who decides on a reservation, its delivery or its compensation: each reads what the other left.
use bookipi_technical_test.Prelude.{ℕ, ◌≡◌, refl, List, true, Option, none, some, arith, ok}
use bookipi_technical_test.Text.{text_eq_refl}
use bookipi_technical_test.Shared.Queue.{OrdersQueueJobPayload, request_id_pattern}
use bookipi_technical_test.Shared.Queue.Laws.{IsPayload}
use bookipi_technical_test.Shared.UserId.{assert_user_id}
use bookipi_technical_test.Redis.Db.{SaleDb}
use bookipi_technical_test.Redis.Store.Methods.{CompensateResult}
use bookipi_technical_test.Worker.Step.{Step, continue, continue_ok, continue_of_ok}
use bookipi_technical_test.Worker.Postgres.{
  OrderRow, DurableOrderStatus, find_user, row_checks, uuid_text, persisted, compensated,
  insert_order,
}
use bookipi_technical_test.Worker.Postgres.Laws.{find_user-insert_order, find_user-update_marker}
use bookipi_technical_test.Worker.Orders.Final.{Attempt, attempts, persisted_order_final}
use bookipi_technical_test.Worker.Orders.{
  Stores, acknowledged, persist, persist_work, persist_existing, transaction, promote,
  resolve_failed, resolve_work, resolve_row, PersistResult, now_persisted, idempotent,
  was_compensated, was_persisted, persisted_row, same_reservation,
}

-- The row of a payload that the queue has checked passes the checks of the table.
pub payload-row_checks :
    (now : ℕ) (p : OrdersQueueJobPayload) → IsPayload p → row_checks (persisted_row now p) ≡ true
unfolding row_checks assert_user_id request_id_pattern
payload-row_checks now p v = ground (arith, v.user_ok, v.request_ok)

abbrev pub status_of : PersistResult → DurableOrderStatus
status_of was_compensated = compensated
status_of _ = persisted

abbrev pub reply_of_status : DurableOrderStatus → PersistResult
reply_of_status persisted = idempotent
reply_of_status compensated = was_compensated

abbrev pub on_file : OrdersQueueJobPayload → Stores → Option DurableOrderStatus
on_file p s = same_reservation p (find_user p.user_id s.tables.orders)

persisted_by_promote :
    (now : ℕ) (p : OrdersQueueJobPayload) (r : OrderRow) (s s' : Stores)
    → uuid_text p.reservation_id ≡ p.reservation_id
    → promote now p r s ≡ (ok now_persisted, s')
    → on_file p s' ≡ some persisted
unfolding promote continue
persisted_by_promote now p r s s' low h = ground (
  arith,
  find_user-update_marker r.id (persisted_row now p) s.tables p.user_id,
  text_eq_refl p.user_id,
  text_eq_refl p.reservation_id,
)

persisted_by_existing :
    (now : ℕ) (p : OrdersQueueJobPayload) (o : Option OrderRow) (s s' : Stores)
    → uuid_text p.reservation_id ≡ p.reservation_id
    → persist_existing now p o s ≡ (ok now_persisted, s')
    → on_file p s' ≡ some persisted
unfolding persist_existing
persisted_by_existing now p none s s' low h = ground arith
persisted_by_existing now p (some r) s s' low h =
    ground (arith, persisted_by_promote now p r s s' low)

-- What is on file once a delivery replied `persisted`.
persisted_by_work :
    (now : ℕ) (p : OrdersQueueJobPayload) (s s' : Stores)
    → uuid_text p.reservation_id ≡ p.reservation_id
    → persist_work now p s ≡ (ok now_persisted, s')
    → on_file p s' ≡ some persisted
unfolding persist_work
persisted_by_work now p s s' low h = continue_ok h (λ count s1 inserted rest. ground (
  arith,
  continue_of_ok (find_user p.user_id s1.tables.orders) s1 (persist_existing now p),
  find_user-insert_order true (persisted_row now p) s.tables p.user_id,
  persisted_by_existing now p (find_user p.user_id s1.tables.orders) s1 s' low,
  text_eq_refl p.user_id,
  text_eq_refl p.reservation_id,
))

-- What a delivery that ended well says is on file.
existing_lem :
    (now : ℕ) (p : OrdersQueueJobPayload) (r : PersistResult) (s s' : Stores)
    → uuid_text p.reservation_id ≡ p.reservation_id
    → persist_existing now p (find_user p.user_id s.tables.orders) s ≡ (ok r, s')
    → on_file p s' ≡ some (status_of r)
unfolding persist_existing promote continue
existing_lem now p now_persisted s s' low h =
    persisted_by_existing now p (find_user p.user_id s.tables.orders) s s' low h
existing_lem now p idempotent s s' low h = ground arith
existing_lem now p was_compensated s s' low h = ground arith

work_lem :
    (now : ℕ) (p : OrdersQueueJobPayload) (r : PersistResult) (s s' : Stores)
    → uuid_text p.reservation_id ≡ p.reservation_id
    → persist_work now p s ≡ (ok r, s')
    → on_file p s' ≡ some (status_of r)
unfolding persist_work
work_lem now p r s s' low h = continue_ok h (λ count s1 inserted rest. ground (
  arith,
  continue_of_ok (find_user p.user_id s1.tables.orders) s1 (persist_existing now p),
  find_user-insert_order true (persisted_row now p) s.tables p.user_id,
  existing_lem now p r s1 s' low,
  text_eq_refl p.user_id,
  text_eq_refl p.reservation_id,
))

pub transaction_acknowledged :
    {A : Type 0} (work : Step Stores A) (s : Stores) (a : A) (s' : Stores)
    → transaction acknowledged work s ≡ (ok a, s')
    → work s ≡ (ok a, s')
unfolding transaction
transaction_acknowledged work s a s' h = ground arith

-- A delivery of a reservation whose row is on file replies by that row and changes nothing.
pub work_on_file :
    (now : ℕ) (p : OrdersQueueJobPayload) (st : DurableOrderStatus) (s : Stores)
    → IsPayload p
    → on_file p s ≡ some st
    → persist_work now p s ≡ (ok (reply_of_status st), s)
unfolding persist_work persist_existing insert_order continue
work_on_file now p st s v h = ground (arith, payload-row_checks now p v)

-- Whatever a delivery replied, delivering again replies by the row it left and changes nothing.
pub persist-persist :
    (now later : ℕ) (p : OrdersQueueJobPayload) (r : PersistResult) (s s' : Stores)
    → IsPayload p
    → uuid_text p.reservation_id ≡ p.reservation_id
    → persist acknowledged now p s ≡ (ok r, s')
    → persist acknowledged later p s' ≡ (ok (reply_of_status (status_of r)), s')
unfolding persist transaction
persist-persist now later p r s s' v low h = ground (
  arith,
  work_lem now p r s s' low (transaction_acknowledged (persist_work now p) s r s' h),
  work_on_file later p (status_of r) s' v,
)

on_file_row :
    (p : OrdersQueueJobPayload) (o : Option OrderRow)
    → same_reservation p o ≡ some persisted
    → (r : OrderRow) × (o ≡ some r) × (r.status ≡ persisted)
on_file_row p none h = absurd (ground (arith, h))
on_file_row p (some r) h = (r, refl, ground (arith, h))

on_file_stays :
    (p : OrdersQueueJobPayload) (todo : List Attempt) (s : Stores)
    → on_file p s ≡ some persisted
    → on_file p (attempts todo s) ≡ some persisted
on_file_stays p todo s h =
    let (r, on, final) = on_file_row p (find_user p.user_id s.tables.orders) h in
    ground (arith, h, on, persisted_order_final p.user_id r todo s final on)

settled_on_file :
    (later : ℕ) (p : OrdersQueueJobPayload) (s : Stores) (compensate : Step SaleDb CompensateResult)
    → IsPayload p
    → on_file p s ≡ some persisted
    → (persist acknowledged later p s ≡ (ok idempotent, s))
      × (resolve_failed acknowledged p compensate s ≡ (ok was_persisted, s))
unfolding persist resolve_failed resolve_work resolve_row transaction continue
settled_on_file later p s compensate v h = ground (arith, h, work_on_file later p persisted s v)

-- A reservation that a delivery has persisted, or found persisted, is settled for good: after any
-- deliveries and resolutions whatever, of any reservations and with any commits, delivering it again
-- replies idempotent, and resolving its failed job replies persisted without compensating; neither changes
-- Redis or the tables. The reservation's identity is written in lower case, as Postgres writes it, and the
-- commits of the first delivery and of the two that are asked about are acknowledged.
pub persisted_settles :
    (now later : ℕ) (p : OrdersQueueJobPayload) (r : PersistResult) (s s' : Stores)
    (todo : List Attempt) (compensate : Step SaleDb CompensateResult)
    → IsPayload p
    → uuid_text p.reservation_id ≡ p.reservation_id
    → persist acknowledged now p s ≡ (ok r, s')
    → status_of r ≡ persisted
    → let after = attempts todo s' in
      (persist acknowledged later p after ≡ (ok idempotent, after))
      × (resolve_failed acknowledged p compensate after ≡ (ok was_persisted, after))
unfolding persist
persisted_settles now later p r s s' todo compensate v low h settled =
    settled_on_file later p (attempts todo s') compensate v (
      on_file_stays p todo s' (
        ground (
          arith,
          settled,
          work_lem now p r s s' low (transaction_acknowledged (persist_work now p) s r s' h),
        )))

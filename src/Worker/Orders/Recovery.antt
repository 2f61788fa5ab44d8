-- ===== src/Worker/Orders/Recovery.antt =====
-- A compensation whose marker was lost with its transaction: Redis has it, the tables have not.
use bookipi_technical_test.Prelude.{◌≡◌, ◌⊎◌, refl, arith, ok}
use bookipi_technical_test.Text.{Text, text_eq, text_eq_refl}
use bookipi_technical_test.Shared.Keys.{assert_sale_id}
use bookipi_technical_test.Shared.Queue.{OrdersQueueJobPayload}
use bookipi_technical_test.Redis.Hash.{hget-hdel}
use bookipi_technical_test.Redis.Db.{SaleDb, stock_or_zero}
use bookipi_technical_test.Redis.Scripts
use bookipi_technical_test.Redis.Scripts.Compensate.{
  release, noop, compensate_reply, CompensateReply,
}
use bookipi_technical_test.Redis.Store.Methods.{compensate, decode_compensate, CompensateResult}
use bookipi_technical_test.Redis.Store.Entry.{assert_member}
use bookipi_technical_test.Worker.Step.{Step, continue}
use bookipi_technical_test.Worker.Orders.{
  Stores, acknowledged, refused, transaction, mark, resolve_failed, resolve_work, resolve_row,
  ResolveFailedResult, compensation_noop,
}

-- A compensation that is repeated does nothing more.
script_twice :
    (user id : Text) (db : SaleDb)
    → let once = (Scripts.Compensate.compensate user id db).1 in
      Scripts.Compensate.compensate user id once
      ≡ (compensate_reply noop (stock_or_zero once), once)
unfolding Scripts.Compensate.compensate release
script_twice user id db = ground (arith, hget-hdel user user db.reservations, text_eq_refl user)

abbrev pub store_compensate : OrdersQueueJobPayload → Step SaleDb CompensateResult
store_compensate p = compensate p.sale_id p.user_id p.reservation_id

abbrev result_of : CompensateReply → CompensateResult
result_of r = record { outcome = r.code; stock_remaining = r.stock_remaining }

-- The method replies as the script does.
method_lem :
    (p : OrdersQueueJobPayload) (db : SaleDb)
    → assert_sale_id p.sale_id ≡ ok tt
    → let (reply, once) = Scripts.Compensate.compensate p.user_id p.reservation_id db in
      store_compensate p db ≡ (ok (result_of reply), once)
unfolding compensate decode_compensate assert_member text_eq
method_lem p db h = ground arith

settled_twice :
    (p : OrdersQueueJobPayload) (c : Step SaleDb CompensateResult) (r q : CompensateResult)
    (once : SaleDb) (reply : ResolveFailedResult) (s s' : Stores)
    → c s.db ≡ (ok r, once)
    → c once ≡ (ok q, once)
    → q.outcome ≡ noop
    → resolve_failed acknowledged p c s ≡ (ok reply, s')
    → let again = resolve_failed acknowledged p c (resolve_failed refused p c s).1 in
      (again ≡ (ok reply, s')) ⊎ (again ≡ (ok compensation_noop, s'))
unfolding resolve_failed resolve_work resolve_row transaction mark continue
settled_twice p c r q once reply s s' first second none_left h = ground arith

-- A compensation whose transaction failed after Redis had been changed is made good by the next
-- sweep: resolving the failed job once more ends in the stores, tables and Redis, in which a resolution
-- without the failure ends, with the same reply or with the reply that there was nothing left to
-- compensate.
pub lost_marker_recovers :
    (p : OrdersQueueJobPayload) (reply : ResolveFailedResult) (s s' : Stores)
    → assert_sale_id p.sale_id ≡ ok tt
    → resolve_failed acknowledged p (store_compensate p) s ≡ (ok reply, s')
    → let again =
        resolve_failed acknowledged p
          (store_compensate p)
          (resolve_failed refused p (store_compensate p) s).1 in
      (again ≡ (ok reply, s')) ⊎ (again ≡ (ok compensation_noop, s'))
lost_marker_recovers p reply s s' h run =
    let (first, once) = Scripts.Compensate.compensate p.user_id p.reservation_id s.db in
    settled_twice p (store_compensate p) (result_of first)
      (result_of (compensate_reply noop (stock_or_zero once))) once reply s s' (method_lem p s.db h)
      (rw (script_twice p.user_id p.reservation_id s.db) at (method_lem p once h)) refl run

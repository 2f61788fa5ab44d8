-- ===== src/Worker/Orders/Resolved.antt =====
-- The row that the resolution of a failed job by a compensation leaves for its user.
use bookipi_technical_test.Prelude.{
  ◌≡◌, sym, ◌∙◌, ◌⊎◌, ◌≢◌, refl, Bool, true, false, not, ◌&&◌, Option, none, some, arith, ok,
}
use bookipi_technical_test.Text.{text_eq, text_eq_refl}
use bookipi_technical_test.Shared.Queue.{OrdersQueueJobPayload}
use bookipi_technical_test.Redis.Db.{SaleDb}
use bookipi_technical_test.Redis.Store.Methods.{CompensateResult}
use bookipi_technical_test.Worker.Step.{Step, continue, continue_ok}
use bookipi_technical_test.Worker.Postgres.{
  OrderRow, DurableOrderStatus, find_user, uuid_text, persisted, compensated,
}
use bookipi_technical_test.Worker.Postgres.Laws.{
  find_user-insert_order, find_user-update_marker, insert_order_plain,
}
use bookipi_technical_test.Worker.Orders.{
  Stores, after_commit, acknowledged, mark, resolve_failed, resolve_work, resolve_row,
  was_persisted, ResolveFailedResult, same_reservation, compensated_row,
}
use bookipi_technical_test.Worker.Orders.Adjudication.{on_file, transaction_acknowledged}

-- The user's row is of another reservation, which was persisted.
abbrev pub held_by_other : OrdersQueueJobPayload → Option OrderRow → Bool
held_by_other p none = false
held_by_other p (some r) = not (text_eq r.id p.reservation_id) && held r.status
  where
    held : DurableOrderStatus → Bool
    held persisted = true
    held compensated = false

abbrev pub other_on_file : OrdersQueueJobPayload → Stores → Bool
other_on_file p s = held_by_other p (find_user p.user_id s.tables.orders)

mark_lem :
    (p : OrdersQueueJobPayload) (o : Option OrderRow) (s s' : Stores)
    → uuid_text p.reservation_id ≡ p.reservation_id
    → find_user p.user_id s.tables.orders ≡ o
    → same_reservation p o ≡ none
    → mark p o s ≡ (ok tt, s')
    → (on_file p s' ≡ some compensated) ⊎ (other_on_file p s' ≡ true)
unfolding mark continue
mark_lem p none s s' low on new h = ground (
  arith,
  insert_order_plain (compensated_row p) s.tables,
  find_user-insert_order false (compensated_row p) s.tables p.user_id,
  text_eq_refl p.user_id,
  text_eq_refl p.reservation_id,
)
mark_lem p (some r) s s' low on new h = ground (
  arith,
  find_user-update_marker r.id (compensated_row p) s.tables p.user_id,
  text_eq_refl p.user_id,
  text_eq_refl p.reservation_id,
)

resolved_row :
    (p : OrdersQueueJobPayload) (compensate : Step SaleDb CompensateResult) (o : Option OrderRow)
    (st : Option DurableOrderStatus) (r : ResolveFailedResult × Bool) (s s' : Stores)
    → uuid_text p.reservation_id ≡ p.reservation_id
    → find_user p.user_id s.tables.orders ≡ o
    → same_reservation p o ≡ st
    → resolve_row p compensate o st s ≡ (ok r, s')
    → r.0 ≢ was_persisted
    → (on_file p s' ≡ some compensated) ⊎ (other_on_file p s' ≡ true)
unfolding resolve_row
resolved_row p compensate o (some persisted) r s s' low on same h new = ground arith
resolved_row p compensate o (some compensated) r s s' low on same h new = ground arith
resolved_row p compensate o none r s s' low on same h new =
    continue_ok h (λ result s1 compensation rest.
      continue_ok rest (λ marked s2 marking last. ground (arith, mark_lem p o s1 s2 low)))

resolved_work :
    (p : OrdersQueueJobPayload) (compensate : Step SaleDb CompensateResult)
    (r : ResolveFailedResult × Bool) (s s' : Stores)
    → uuid_text p.reservation_id ≡ p.reservation_id
    → resolve_work p compensate s ≡ (ok r, s')
    → r.0 ≢ was_persisted
    → (on_file p s' ≡ some compensated) ⊎ (other_on_file p s' ≡ true)
unfolding resolve_work continue
resolved_work p compensate r s s' low h new =
    let o = find_user p.user_id s.tables.orders in
    resolved_row p compensate o (same_reservation p o) r s s' low refl refl h new

-- What follows the commit leaves the tables and the reply alone.
after_commit_lem :
    (compensate : Step SaleDb CompensateResult) (reply : ResolveFailedResult × Bool)
    (r : ResolveFailedResult) (s s' : Stores)
    → after_commit compensate reply s ≡ (ok r, s')
    → (reply.0 ≡ r) × (s.tables ≡ s'.tables)
unfolding continue
after_commit_lem compensate (r', again) r s s' h = ground arith

pub resolved_failed :
    (p : OrdersQueueJobPayload) (compensate : Step SaleDb CompensateResult)
    (r : ResolveFailedResult) (s s' : Stores)
    → uuid_text p.reservation_id ≡ p.reservation_id
    → resolve_failed acknowledged p compensate s ≡ (ok r, s')
    → r ≢ was_persisted
    → (on_file p s' ≡ some compensated) ⊎ (other_on_file p s' ≡ true)
unfolding resolve_failed
resolved_failed p compensate r s s' low h new = continue_ok h (λ reply s1 work rest.
    let same = after_commit_lem compensate reply r s1 s' rest in
    rw (sym same.1) (
      resolved_work p compensate reply s s1 low
        (transaction_acknowledged (resolve_work p compensate) s reply s1 work)
        (λ e. new (sym same.0 ∙ e))))

-- ===== src/Api/Purchase.antt =====
-- `purchase` and `enqueueConfirmedOrder` of apps/api/src/purchase/purchase.service.ts, and `getStatus`
-- of apps/api/src/purchase/purchase-status.service.ts.
use bookipi_technical_test.Prelude.{
  ◌≡◌, Bool, true, false, Option, none, some, [], arith, ℤ, pos, Outcome, ok, throw, plain_error,
  if◌then◌else◌,
}
use bookipi_technical_test.Text.{Text, text_eq, text_eq_refl}
use bookipi_technical_test.Shared.Keys.{assert_sale_id}
use bookipi_technical_test.Shared.Queue.{OrdersQueueJobPayload}
use bookipi_technical_test.Shared.Results.{
  confirmed, not_initialized, AttemptOutcome, purchase_outcome, upstream_unavailable,
}
use bookipi_technical_test.Redis.Hash.{hget, hget-hset_self}
use bookipi_technical_test.Redis.Members.{sismember, sismember-sadd}
use bookipi_technical_test.Redis.Db.{SaleDb, RedisTime, now_ms}
use bookipi_technical_test.Redis.Scripts
use bookipi_technical_test.Redis.Scripts.Purchase.{decide, ledger_value}
use bookipi_technical_test.Redis.Store.Entry.{assert_member}
use bookipi_technical_test.Redis.Store.Methods
use bookipi_technical_test.Redis.Store.Methods.{PurchaseResult, has_purchased, decode_purchase}
use bookipi_technical_test.Redis.Store.Admin.{bump_metric}
use bookipi_technical_test.Worker.Postgres.{DurableOrderStatus, persisted, compensated}
use bookipi_technical_test.Worker.Step.{Step, pure, try_catch}
use bookipi_technical_test.Api.Guard.{FastPathGuardResult}

-- What the API sees of a call of Redis: the reply; nothing, where the call was never run; or nothing,
-- where it was run and the reply was lost.
pub data RedisCall : Type 0 where
  replied refused reply_lost : RedisCall

abbrev pub over_network : {A : Type 0} → RedisCall → Step SaleDb A → Step SaleDb A
over_network replied f db = f db
over_network refused f db = (throw plain_error, db)
over_network reply_lost f db = (throw plain_error, (f db).1)

-- The keys of the sale and the queue of the producer.
pub record Backend (Q : Type 0) : Type 0 where
  pub db : SaleDb
  pub queue : Q

pub record PurchaseDecision : Type 0 where
  pub outcome : AttemptOutcome
  pub stock_remaining : Option ℤ
  pub server_time_ms : ℤ
  pub reservation_id : Option Text

abbrev pub decision : AttemptOutcome → Option ℤ → ℤ → Option Text → PurchaseDecision
decision o n t id = record {
  outcome = o;
  stock_remaining = n;
  server_time_ms = t;
  reservation_id = id;
}

-- `result.reservationId ?? ''`
abbrev text_or_empty : Option Text → Text
text_or_empty none = []
text_or_empty (some t) = t

-- `stockRemaining`, which is null for a sale that is not initialized.
abbrev shown_stock : PurchaseResult → Option ℤ
shown_stock r = elim r.outcome [ not_initialized ↦ none | _ ↦ some r.stock_remaining ]

abbrev order_payload : Text → Text → Text → PurchaseResult → OrdersQueueJobPayload
order_payload sale user request r = record {
  sale_id = sale;
  user_id = user;
  reservation_id = text_or_empty r.reservation_id;
  reserved_at_ms = pos r.server_time_ms;
  request_id = request;
}

abbrev bumped : {Q : Type 0} → Text → AttemptOutcome → Backend Q → Backend Q
bumped sale o b = record b { db = bump_metric sale o b.db }

-- `enqueue` is the producer's, which may throw and may have handed the job over when it does.
module _ {Q : Type 0} (enqueue : OrdersQueueJobPayload → Step Q (Unit {0})) where
  -- One attempt, and one more where the first fails; a second failure is logged only.
  unfoldable pub enqueue_confirmed_order : OrdersQueueJobPayload → Step Q (Unit {0})
  enqueue_confirmed_order p = try_catch (enqueue p) (λ _. try_catch (enqueue p) (λ _. pure tt))

  abbrev hand_over : Text → Text → Text → PurchaseResult → Backend Q → Backend Q
  hand_over sale user request r b = elim r.outcome [
    | confirmed ↦ record b {
      queue = (enqueue_confirmed_order (order_payload sale user request r) b.queue).1;
    }
    | _ ↦ b
  ]

  -- What is decided on the reply of the store; `clock_now` is `this.clock.nowMs()`.
  abbrev on_reply :
      Text → Text → Text → ℤ → Outcome PurchaseResult → Backend Q → PurchaseDecision × Backend Q
  on_reply sale user request clock_now (throw e) b =
      (decision upstream_unavailable none clock_now none, b)
  on_reply sale user request clock_now (ok r) b = (
    decision (purchase_outcome r.outcome) (shown_stock r) (pos r.server_time_ms) r.reservation_id,
    bumped sale (purchase_outcome r.outcome) (hand_over sale user request r b),
  )

  -- `purchase`, after the guard's reply; it throws nothing.
  unfoldable pub purchase :
      Option FastPathGuardResult
      → RedisCall
      → Text
      → RedisTime
      → Text
      → ℤ
      → Text
      → Text
      → Backend Q
      → PurchaseDecision × Backend Q
  purchase (some g) call sale t id clock_now user request b = (
    decision (purchase_outcome g.outcome) none g.now none,
    bumped sale (purchase_outcome g.outcome) b,
  )
  purchase none call sale t id clock_now user request b =
      let (reply, db) = over_network call (Methods.purchase sale t id user) b.db in
      on_reply sale user request clock_now reply (record b { db = db })

  script_confirmed :
      (t : RedisTime) (user id : Text) (db : SaleDb)
      → (Scripts.Purchase.purchase t user id db).0.code ≡ confirmed
      → (hget user (Scripts.Purchase.purchase t user id db).1.reservations
          ≡ some (ledger_value id (now_ms t)))
        × (sismember user (Scripts.Purchase.purchase t user id db).1.buyers ≡ true)
        × ((Scripts.Purchase.purchase t user id db).0.reservation_id ≡ id)
  unfolding Scripts.Purchase.purchase decide
  script_confirmed t user id db h = ground (
    arith,
    hget-hset_self user (ledger_value id (now_ms t)) db.reservations,
    sismember-sadd user user db.buyers,
    text_eq_refl user,
  )

  -- However the queue behaves, failing both attempts included, a buyer who is told that the purchase is
  -- confirmed is told so on a reply of Redis only, and holds the reservation that the reply names: the
  -- ledger has it with the time of the purchase, and the user is among the buyers.
  pub confirmed_is_reserved :
      (call : RedisCall) (sale : Text) (t : RedisTime) (id : Text) (clock_now : ℤ)
      (user request : Text) (b : Backend Q)
      → (purchase none call sale t id clock_now user request b).0.outcome
        ≡ purchase_outcome confirmed
      → (call ≡ replied)
        × ((purchase none call sale t id clock_now user request b).0.reservation_id ≡ some id)
        × (hget user (purchase none call sale t id clock_now user request b).1.db.reservations
            ≡ some (ledger_value id (now_ms t)))
        × (sismember user (purchase none call sale t id clock_now user request b).1.db.buyers
            ≡ true)
  unfolding purchase Methods.purchase decode_purchase assert_member text_eq bump_metric
  confirmed_is_reserved call sale t id clock_now user request b h =
      ground (arith, script_confirmed t user id b.db)

confirmed_sale :
    {Q : Type 0} (enqueue : OrdersQueueJobPayload → Step Q (Unit {0})) (call : RedisCall)
    (sale : Text) (t : RedisTime) (id : Text) (clock_now : ℤ) (user request : Text) (b : Backend Q)
    → (purchase enqueue none call sale t id clock_now user request b).0.outcome
      ≡ purchase_outcome confirmed
    → assert_sale_id sale ≡ ok tt
unfolding purchase Methods.purchase
confirmed_sale enqueue call sale t id clock_now user request b h = ground arith

-- `OrderStatus`: the status of a row, or `reserved` where Redis alone knows of the purchase.
pub data OrderStatus : Type 0 where
  reserved : OrderStatus
  durable : DurableOrderStatus → OrderStatus

-- The body that answers, with `purchased` and the order's status, or the 503.
pub data PurchaseStatus : Type 0 where
  answered : Bool → Option OrderStatus → PurchaseStatus
  unavailable : PurchaseStatus

-- `readPersistedOrder`: Postgres that cannot be reached reads as no row.
unfoldable pub read_persisted_order :
    Outcome (Option DurableOrderStatus) → Option DurableOrderStatus
read_persisted_order (ok row) = row
read_persisted_order (throw e) = none

abbrev is_persisted_status : DurableOrderStatus → Bool
is_persisted_status persisted = true
is_persisted_status compensated = false

abbrev redis_status : Outcome Bool → PurchaseStatus
redis_status (ok in_redis) = answered in_redis (if in_redis then some reserved else none)
redis_status (throw e) = unavailable

-- `getStatus`
unfoldable pub get_status :
    Outcome (Option DurableOrderStatus) → RedisCall → Text → Text → SaleDb → PurchaseStatus
get_status row call sale user db = elim (read_persisted_order row) [
  | some st ↦ answered (is_persisted_status st) (some (durable st))
  | none ↦ redis_status (over_network call (λ k. (has_purchased sale user k, k)) db).0
]

-- A buyer who was told confirmed is told purchased by the status route from then on, before the order is
-- durable and while Postgres cannot be reached: on the keys that the purchase left, where Redis replies,
-- the answer is purchased and reserved.
pub status-purchase :
    {Q : Type 0} (enqueue : OrdersQueueJobPayload → Step Q (Unit {0})) (call : RedisCall)
    (sale : Text) (t : RedisTime) (id : Text) (clock_now : ℤ) (user request : Text) (b : Backend Q)
    (row : Outcome (Option DurableOrderStatus))
    → (purchase enqueue none call sale t id clock_now user request b).0.outcome
      ≡ purchase_outcome confirmed
    → read_persisted_order row ≡ none
    → get_status row replied sale user
        (purchase enqueue none call sale t id clock_now user request b).1.db
      ≡ answered true (some reserved)
unfolding get_status has_purchased
status-purchase enqueue call sale t id clock_now user request b row h no_row = ground (
  arith,
  confirmed_is_reserved enqueue call sale t id clock_now user request b h,
  confirmed_sale enqueue call sale t id clock_now user request b h,
)

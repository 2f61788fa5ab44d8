-- ===== src/Redis/Store/Methods/Purchasing.antt =====
-- `purchase` and `compensate`, and the form of a method that calls one script.
use bookipi_technical_test.Prelude.{ℕ, Option, none, some, ℤ, Outcome, ok, throw, ◌>>=◌}
use bookipi_technical_test.Text.{Text}
use bookipi_technical_test.Shared.Keys.{assert_sale_id}
use bookipi_technical_test.Shared.Results.{
  PurchaseOutcome, confirmed, purchase_word, purchase_outcomes,
}
use bookipi_technical_test.Redis.Db.{SaleDb, RedisTime}
use bookipi_technical_test.Redis.Scripts
use bookipi_technical_test.Redis.Scripts.Purchase.{PurchaseReply}
use bookipi_technical_test.Redis.Scripts.Compensate.{CompensateOutcome, CompensateReply}
use bookipi_technical_test.Redis.Store.Entry.{assert_member, compensate_word, compensate_outcomes}

-- What a method does to the keys: a check that fails leaves them alone.
abbrev pub Method : Type 0 → Type 0
Method A = SaleDb → Outcome A × SaleDb

-- The checks in front of a script, then the script, then the reading of its reply.
abbrev pub checked :
    {A R : Type 0} → Outcome (Unit {0}) → (SaleDb → R × SaleDb) → (R → Outcome A) → Method A
checked (throw e) script decode db = (throw e, db)
checked (ok _) script decode db = let (reply, db') = script db in (decode reply, db')

pub record PurchaseResult : Type 0 where
  pub outcome : PurchaseOutcome
  pub stock_remaining : ℤ
  pub server_time_ms : ℕ
  pub reservation_id : Option Text

abbrev pub confirmed_id : PurchaseOutcome → Text → Option Text
confirmed_id confirmed id = some id
confirmed_id _ id = none

unfoldable pub decode_purchase : PurchaseReply → Outcome PurchaseResult
decode_purchase reply = do
  outcome ← assert_member purchase_word purchase_outcomes (purchase_word reply.code)
  ok (record {
    outcome = outcome;
    stock_remaining = reply.stock_remaining;
    server_time_ms = reply.server_time_ms;
    reservation_id = confirmed_id outcome reply.reservation_id;
  })

-- `purchase`, with the clock of Redis and the identity that `randomUUID` gives.
unfoldable pub purchase : Text → RedisTime → Text → Text → Method PurchaseResult
unfolding decode_purchase
purchase sale t id user =
    checked (assert_sale_id sale) (Scripts.Purchase.purchase t user id) decode_purchase

pub record CompensateResult : Type 0 where
  pub outcome : CompensateOutcome
  pub stock_remaining : ℤ

unfoldable pub decode_compensate : CompensateReply → Outcome CompensateResult
decode_compensate reply = do
  outcome ← assert_member compensate_word compensate_outcomes (compensate_word reply.code)
  ok (record { outcome = outcome; stock_remaining = reply.stock_remaining })

unfoldable pub compensate : Text → Text → Text → Method CompensateResult
unfolding decode_compensate
compensate sale user id =
    checked (assert_sale_id sale) (Scripts.Compensate.compensate user id) decode_compensate

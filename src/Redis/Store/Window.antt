-- ===== src/Redis/Store/Window.antt =====
-- The state that the store reports and the decision of the purchase script are one: the advisory view
-- of `status` predicts what a purchase by a new user gets at the same instant.
use bookipi_technical_test.Prelude.{◌≡◌, true, false, ◌||◌, some, ℤ, arith, ok}
use bookipi_technical_test.Text.{Text}
use bookipi_technical_test.Shared.SaleState.{
  SaleState, upcoming, active, sold_out, ended, derive_sale_state,
}
use bookipi_technical_test.Shared.Results.{PurchaseOutcome, confirmed, sale_not_started, sale_ended}
use bookipi_technical_test.Redis.Hash.{hexists}
use bookipi_technical_test.Redis.Members.{sismember}
use bookipi_technical_test.Redis.Db.{SaleDb, RedisTime}
use bookipi_technical_test.Redis.Scripts
use bookipi_technical_test.Redis.Scripts.Purchase.{sale_window}
use bookipi_technical_test.Redis.Store.Methods.{status, SaleSnapshot}

-- The outcome for a user with no purchase, by the state of the sale.
abbrev pub expected : SaleState → PurchaseOutcome
expected upcoming = sale_not_started
expected active = confirmed
expected sold_out = PurchaseOutcome.sold_out
expected ended = sale_ended

-- While the sale's window and stock are on file, the purchase of a user who is neither a buyer nor a
-- holder gets, at the instant of a snapshot, exactly the outcome that the snapshot's state names.
pub status_predicts_purchase :
    (sale user id : Text) (t : RedisTime) (db : SaleDb) {snapshot : SaleSnapshot}
    {starts ends stock : ℤ}
    → status sale t db ≡ ok snapshot
    → snapshot.initialized ≡ true
    → sale_window db.config ≡ some (starts, ends)
    → db.stock ≡ some stock
    → (sismember user db.buyers || hexists user db.reservations) ≡ false
    → (Scripts.Purchase.purchase t user id db).0.code ≡ expected snapshot.state
unfolding status Scripts.Seed.status derive_sale_state Scripts.Purchase.purchase
status_predicts_purchase sale user id t db {snapshot} h live w k new = ground arith

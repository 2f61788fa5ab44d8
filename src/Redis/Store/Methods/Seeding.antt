-- ===== src/Redis/Store/Methods/Seeding.antt =====
-- `seed`, `reconcileStock` and `reconcileStockFromReservations`.
use bookipi_technical_test.Prelude.{
  ℕ, Option, if◌then◌else◌, ℤ, leb_ℤ, Outcome, ok, throw, range_error, ◌>>=◌, ◌>>◌,
}
use bookipi_technical_test.Text.{Text}
use bookipi_technical_test.Shared.Keys.{assert_sale_id}
use bookipi_technical_test.Shared.SaleState.{JsNumber, whole}
use bookipi_technical_test.Redis.Db.{get_or}
use bookipi_technical_test.Redis.Scripts
use bookipi_technical_test.Redis.Scripts.Seed.{SeedOutcome, SeedReply, SeedArgs, StatusReply}
use bookipi_technical_test.Redis.Scripts.Reconcile.{
  ReconcileOutcome, ReconcileReply, ReconcileStateOutcome, ReconcileStateReply,
}
use bookipi_technical_test.Redis.Store.Entry.{
  assert_member, seed_word, seed_outcomes, reconcile_word, reconcile_outcomes, reconcile_state_word,
  reconcile_state_outcomes,
}
use bookipi_technical_test.Redis.Store.Methods.Purchasing.{Method, checked}

pub record SaleConfigInput : Type 0 where
  pub sale_id : Text
  pub name : Text
  pub starts_at : Text
  pub ends_at : Text
  pub total_stock : ℤ
  pub stock_remaining : Option ℤ

-- `Date.parse` of both ends, which must be finite and in order.
abbrev pub parsed_window : (Text → JsNumber) → SaleConfigInput → Outcome (ℤ × ℤ)
parsed_window parse_date c = window (parse_date c.starts_at) (parse_date c.ends_at)
  where
    window : JsNumber → JsNumber → Outcome (ℤ × ℤ)
    window (whole s) (whole e) = if leb_ℤ e s then throw range_error else ok (s, e)
    window _ _ = throw range_error

abbrev seed_args : SaleConfigInput → ℤ × ℤ → SeedArgs
seed_args c (s, e) = record {
  sale_id = c.sale_id;
  name = c.name;
  starts_at = c.starts_at;
  ends_at = c.ends_at;
  starts_at_ms = s;
  ends_at_ms = e;
  total_stock = c.total_stock;
  stock_remaining = get_or c.stock_remaining c.total_stock;
}

pub record SeedResult : Type 0 where
  pub outcome : SeedOutcome
  pub stock_remaining : ℤ
  pub total_stock : ℤ
  pub starts_at_ms : ℤ
  pub ends_at_ms : ℤ

unfoldable pub decode_seed : SeedReply → Outcome SeedResult
decode_seed reply = do
  outcome ← assert_member seed_word seed_outcomes (seed_word reply.code)
  ok (record {
    outcome = outcome;
    stock_remaining = reply.stock_remaining;
    total_stock = reply.total_stock;
    starts_at_ms = reply.starts_at_ms;
    ends_at_ms = reply.ends_at_ms;
  })

-- `seed`; `parse_date` is `Date.parse`.
unfoldable pub seed : (Text → JsNumber) → SaleConfigInput → Method SeedResult
unfolding decode_seed
seed parse_date c db = elim (assert_sale_id c.sale_id >> parsed_window parse_date c) [
  | throw e ↦ (throw e, db)
  | ok w ↦ checked (ok tt) (Scripts.Seed.seed (seed_args c w)) decode_seed db
]

pub record ReconcileResult : Type 0 where
  pub outcome : ReconcileOutcome
  pub previous_stock : ℤ
  pub new_stock : ℤ

unfoldable pub decode_reconcile : ReconcileReply → Outcome ReconcileResult
decode_reconcile reply = do
  outcome ← assert_member reconcile_word reconcile_outcomes (reconcile_word reply.code)
  ok (record {
    outcome = outcome;
    previous_stock = reply.previous_stock;
    new_stock = reply.new_stock;
  })

unfoldable pub reconcile_stock : Text → ℤ → Method ReconcileResult
unfolding decode_reconcile
reconcile_stock sale n =
    checked (assert_sale_id sale) (Scripts.Reconcile.reconcile n) decode_reconcile

pub record ReconcileStateResult : Type 0 where
  pub outcome : ReconcileStateOutcome
  pub previous_stock : ℤ
  pub new_stock : ℤ
  pub reservation_count : ℕ
  pub total_stock : ℤ

unfoldable pub decode_reconcile_state : ReconcileStateReply → Outcome ReconcileStateResult
decode_reconcile_state reply = do
  outcome ←
      assert_member reconcile_state_word reconcile_state_outcomes (reconcile_state_word reply.code)
  ok (record {
    outcome = outcome;
    previous_stock = reply.previous_stock;
    new_stock = reply.new_stock;
    reservation_count = reply.reservation_count;
    total_stock = reply.total_stock;
  })

unfoldable pub reconcile_stock_from_reservations : Text → Method ReconcileStateResult
unfolding decode_reconcile_state
reconcile_stock_from_reservations sale =
    checked (assert_sale_id sale) Scripts.Reconcile.reconcile_state decode_reconcile_state

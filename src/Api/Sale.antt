-- ===== src/Api/Sale.antt =====
-- SaleService of apps/api/src/sale/sale.service.ts, and `readMetrics` of
-- packages/redis/src/sale-store.ts, which it reads. The ISO text of a time only prints it.
use bookipi_technical_test.Prelude.{
  ℕ, not, ◌||◌, List, [], ◌∷◌, map, ℤ, pos, ltb_ℤ, if◌then◌else◌, Outcome, ok, ◌>>=◌, ◌>>◌,
}
use bookipi_technical_test.Text.{Text, codes}
use bookipi_technical_test.Shared.Keys.{assert_sale_id}
use bookipi_technical_test.Shared.SaleState.{SaleState}
use bookipi_technical_test.Redis.Hash.{Hash, hget}
use bookipi_technical_test.Redis.Db.{SaleDb, RedisTime, get_or}
use bookipi_technical_test.Redis.Store.Methods.{SaleSnapshot, status}

-- `SaleStatusResponse`
pub record SaleStatusResponse : Type 0 where
  pub sale_id : Text
  pub name : Text
  pub state : SaleState
  pub starts_at : Text
  pub ends_at : Text
  pub starts_at_ms : ℤ
  pub ends_at_ms : ℤ
  pub total_stock : ℤ
  pub stock_remaining : ℤ
  pub server_time_ms : ℕ

-- A response, or the 503 that stands for NOT_INITIALIZED.
pub data SaleStatus : Type 0 where
  served : SaleStatusResponse → SaleStatus
  not_initialized : SaleStatus

abbrev pub status_of : SaleSnapshot → SaleStatus
status_of s =
    if not s.initialized || ltb_ℤ s.stock_remaining (pos 0)
    then not_initialized
    else served (record {
      sale_id = s.sale_id;
      name = s.name;
      state = s.state;
      starts_at = s.starts_at;
      ends_at = s.ends_at;
      starts_at_ms = s.starts_at_ms;
      ends_at_ms = s.ends_at_ms;
      total_stock = s.total_stock;
      stock_remaining = s.stock_remaining;
      server_time_ms = s.server_time_ms;
    })

-- `getStatus`
unfoldable pub get_status : Text → RedisTime → SaleDb → Outcome SaleStatus
get_status sale t db = status sale t db >>= λ snapshot. ok (status_of snapshot)

-- `readMetrics`
unfoldable pub read_metrics : Text → SaleDb → Outcome (Hash ℤ)
read_metrics sale db = assert_sale_id sale >> ok db.metrics

-- `SALE_METRIC_FIELDS`
abbrev pub sale_metric_fields : List Text
sale_metric_fields =
    codes "confirmed"
    ∷ codes "already_purchased"
    ∷ codes "sold_out"
    ∷ codes "sale_not_active"
    ∷ codes "not_initialized"
    ∷ codes "rate_limited"
    ∷ codes "invalid_user_id"
    ∷ []

abbrev pub metric_or_zero : Hash ℤ → Text → Text × ℤ
metric_or_zero raw field = (field, get_or (hget field raw) (pos 0))

-- `getMetrics`
unfoldable pub get_metrics : Text → SaleDb → Outcome (List (Text × ℤ))
get_metrics sale db =
    read_metrics sale db >>= λ raw. ok (map (metric_or_zero raw) sale_metric_fields)

-- ===== src/Redis/Store/Methods/Snapshot.antt =====
-- `status`, which reads the snapshot of a sale, and `hasPurchased`.
use bookipi_technical_test.Prelude.{
  ℕ, Bool, true, false, not, [], if◌then◌else◌, ℤ, pos, Outcome, ok, ◌>>=◌, ◌>>◌,
}
use bookipi_technical_test.Text.{Text}
use bookipi_technical_test.Shared.Keys.{assert_sale_id}
use bookipi_technical_test.Shared.SaleState.{whole, SaleState, upcoming, derive_sale_state}
use bookipi_technical_test.Redis.Members.{sismember}
use bookipi_technical_test.Redis.Db.{SaleDb, RedisTime}
use bookipi_technical_test.Redis.Scripts
use bookipi_technical_test.Redis.Scripts.Seed.{SeedOutcome, SeedReply, SeedArgs, StatusReply}

pub record SaleSnapshot : Type 0 where
  pub initialized : Bool
  pub sale_id : Text
  pub name : Text
  pub starts_at : Text
  pub ends_at : Text
  pub starts_at_ms : ℤ
  pub ends_at_ms : ℤ
  pub total_stock : ℤ
  pub stock_remaining : ℤ
  pub server_time_ms : ℕ
  pub state : SaleState

abbrev no_sale : Text → ℕ → SaleSnapshot
no_sale sale now = record {
  initialized = false;
  sale_id = sale;
  name = [];
  starts_at = [];
  ends_at = [];
  starts_at_ms = pos 0;
  ends_at_ms = pos 0;
  total_stock = pos 0;
  stock_remaining = pos 0;
  server_time_ms = now;
  state = upcoming;
}

abbrev snapshot_of : Text → StatusReply → SaleState → SaleSnapshot
snapshot_of sale r state = record {
  initialized = true;
  sale_id = sale;
  name = r.name;
  starts_at = r.starts_at;
  ends_at = r.ends_at;
  starts_at_ms = r.starts_at_ms;
  ends_at_ms = r.ends_at_ms;
  total_stock = r.total_stock;
  stock_remaining = r.stock_remaining;
  server_time_ms = r.server_time_ms;
  state = state;
}

unfoldable pub decode_status : Text → StatusReply → Outcome SaleSnapshot
decode_status sale r =
    if not r.initialized
    then ok (no_sale sale r.server_time_ms)
    else derive_sale_state (record {
      now_ms = whole (pos r.server_time_ms);
      starts_at_ms = whole r.starts_at_ms;
      ends_at_ms = whole r.ends_at_ms;
      stock_remaining = r.stock_remaining;
    })
      >>= λ state. ok (snapshot_of sale r state)

unfoldable pub status : Text → RedisTime → SaleDb → Outcome SaleSnapshot
unfolding decode_status
status sale t db = do assert_sale_id sale; decode_status sale (Scripts.Seed.status t db)

unfoldable pub has_purchased : Text → Text → SaleDb → Outcome Bool
has_purchased sale user db = do assert_sale_id sale; ok (sismember user db.buyers)

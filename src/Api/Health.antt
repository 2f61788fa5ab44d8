-- ===== src/Api/Health.antt =====
-- `getReadiness` of apps/api/src/health/health.service.ts and its five checks. Each check but the clock's
-- may be late for the budget, which is an argument, as is what Redis and Postgres reply; the latencies are
-- arguments too.
use bookipi_technical_test.Prelude.{
  ℕ, ◌≡◌, ◌↔◌, refl, Bool, true, false, ◌&&◌, Option, none, some, ℤ, pos, leb_ℤ, arith,
  if◌then◌else◌, Outcome, ok, throw, ◌>>=◌,
}
use bookipi_technical_test.Text.{Text}
use bookipi_technical_test.Redis.Db.{SaleDb, RedisTime}
use bookipi_technical_test.Redis.Store.Methods.{SaleSnapshot, status}
use bookipi_technical_test.Api.Sale.{SaleStatus, served, get_status, status_of}

pub record LatencyCheck : Type 0 where
  pub is_ok : Bool
  pub latency_ms : Option ℕ

pub record ClockCheck : Type 0 where
  pub is_ok : Bool
  pub offset_ms : ℤ
  pub rtt_ms : ℤ
  pub age_ms : ℤ

pub record SaleCheck : Type 0 where
  pub is_ok : Bool
  pub initialized : Bool
  pub stock_key_present : Bool

pub record QueueDepth : Type 0 where
  pub waiting : ℕ
  pub active : ℕ
  pub delayed : ℕ
  pub failed : ℕ

pub record QueueCheck : Type 0 where
  pub is_ok : Bool
  pub depth : QueueDepth

pub record ReadinessChecks : Type 0 where
  pub redis : LatencyCheck
  pub postgres : LatencyCheck
  pub clock : ClockCheck
  pub sale : SaleCheck
  pub queue : QueueCheck

abbrev pub timed_out_latency : LatencyCheck
timed_out_latency = record { is_ok = false; latency_ms = none }

abbrev pub timed_out_sale : SaleCheck
timed_out_sale = record { is_ok = false; initialized = false; stock_key_present = false }

abbrev pub no_depth : QueueDepth
no_depth = record { waiting = 0; active = 0; delayed = 0; failed = 0 }

abbrev pub timed_out_queue : QueueCheck
timed_out_queue = record { is_ok = false; depth = no_depth }

-- `withBudget`: the fallback where the check is late.
abbrev pub with_budget : {A : Type 0} → Bool → A → A → A
with_budget in_time check fallback = if in_time then check else fallback

-- `checkRedis`, given how `ping` ended.
unfoldable pub check_redis : Outcome Bool → ℕ → LatencyCheck
check_redis (ok pong) latency = record { is_ok = pong; latency_ms = some latency }
check_redis (throw e) latency = record { is_ok = false; latency_ms = some latency }

-- `checkPostgres`, given how its query ended.
unfoldable pub check_postgres : Outcome (Unit {0}) → ℕ → LatencyCheck
check_postgres (ok _) latency = record { is_ok = true; latency_ms = some latency }
check_postgres (throw e) latency = record { is_ok = false; latency_ms = some latency }

abbrev sale_check_of : Outcome SaleSnapshot → SaleCheck
sale_check_of (ok s) =
    let present = s.initialized && leb_ℤ (pos 0) s.stock_remaining in
    record { is_ok = present; initialized = s.initialized; stock_key_present = present }
sale_check_of (throw e) = record { is_ok = false; initialized = false; stock_key_present = false }

-- `checkSale`
unfoldable pub check_sale : Text → RedisTime → SaleDb → SaleCheck
check_sale sale t db = sale_check_of (status sale t db)

-- `checkQueue`, given how the probe of its depth ended.
unfoldable pub check_queue : Outcome QueueDepth → QueueCheck
check_queue (ok depth) = record { is_ok = true; depth = depth }
check_queue (throw e) = record { is_ok = false; depth = no_depth }

-- What the checks meet: which are in time, and what they read.
pub record ReadinessInput : Type 0 where
  pub redis_in_time : Bool
  pub postgres_in_time : Bool
  pub sale_in_time : Bool
  pub queue_in_time : Bool
  pub ping : Outcome Bool
  pub query : Outcome (Unit {0})
  pub clock : ClockCheck
  pub redis_time : RedisTime
  pub db : SaleDb
  pub depth : Outcome QueueDepth
  pub redis_latency : ℕ
  pub postgres_latency : ℕ

unfoldable pub readiness_checks : Text → ReadinessInput → ReadinessChecks
readiness_checks sale i = record {
  redis = with_budget i.redis_in_time (check_redis i.ping i.redis_latency) timed_out_latency;
  postgres =
      with_budget i.postgres_in_time (check_postgres i.query i.postgres_latency) timed_out_latency;
  clock = i.clock;
  sale = with_budget i.sale_in_time (check_sale sale i.redis_time i.db) timed_out_sale;
  queue = with_budget i.queue_in_time (check_queue i.depth) timed_out_queue;
}

-- `getReadiness`: whether the pod is healthy, and the checks of its body.
unfoldable pub get_readiness : Text → ReadinessInput → Bool × ReadinessChecks
unfolding readiness_checks
get_readiness sale i =
    let checks = readiness_checks sale i in
    (checks.redis.is_ok && (checks.clock.is_ok && checks.sale.is_ok), checks)

-- A reply of the status route that is no 503 and no error.
abbrev is_served : Outcome SaleStatus → Bool
is_served (ok (served r)) = true
is_served _ = false

check_sale-get_status :
    (sale : Text) (t : RedisTime) (db : SaleDb)
    → (check_sale sale t db).is_ok ≡ is_served (get_status sale t db)
unfolding check_sale get_status
check_sale-get_status sale t db = by_status (status sale t db)
  where
    by_status :
        (o : Outcome SaleSnapshot)
        → (sale_check_of o).is_ok ≡ is_served (o >>= λ snapshot. ok (status_of snapshot))
    by_status (ok s) = ground arith
    by_status (throw e) = refl

-- A pod is healthy exactly if Redis answers the ping in time, its clock is fresh, and the sale is read in
-- time and is one that the status route serves on the same keys: the readiness and the status route
-- never disagree, and neither Postgres nor the queue, late, failing or well, changes the answer.
pub get_readiness-get_status :
    (sale : Text) (i : ReadinessInput)
    → ((get_readiness sale i).0 ≡ true) ↔ (
        (i.redis_in_time ≡ true)
        × (i.ping ≡ ok true)
        × (i.clock.is_ok ≡ true)
        × (i.sale_in_time ≡ true)
        × (is_served (get_status sale i.redis_time i.db) ≡ true))
unfolding get_readiness readiness_checks check_redis
get_readiness-get_status sale i = ground (arith, check_sale-get_status sale i.redis_time i.db)

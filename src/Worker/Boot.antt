-- ===== src/Worker/Boot.antt =====
-- `bootPass` of apps/worker/src/reconciliation/reconciliation.service.ts: the queue is paused and
-- drained, the sale is on file in both stores as the settings say, and one pass is run.
use bookipi_technical_test.Prelude.{
  ℕ, zero, suc, ◌+◌, Bool, true, false, not, ◌&&◌, none, ℤ, leb, ◌==◌, if◌then◌else◌, Outcome, ok,
  throw, plain_error, unfinished,
}
use bookipi_technical_test.Text.{Text, text_eq}
use bookipi_technical_test.Shared.SaleState.{JsNumber}
use bookipi_technical_test.Shared.Queue.{OrdersQueueJobPayload}
use bookipi_technical_test.Redis.Db.{RedisTime}
use bookipi_technical_test.Redis.Scripts.Seed.{SeedOutcome, config_drift}
use bookipi_technical_test.Redis.Store.Methods.{
  SaleConfigInput, SeedResult, seed, SaleSnapshot, status,
}
use bookipi_technical_test.Worker.Step.{Step, pure, fail, ensure, ◌>>=◌, ◌>>◌}
use bookipi_technical_test.Worker.Env.{WorkerEnv}
use bookipi_technical_test.Worker.Orders.{CommitOutcome}
use bookipi_technical_test.Worker.Queue.{QueueApi}
use bookipi_technical_test.Worker.World.{World, on_queue, on_db, read_db}
use bookipi_technical_test.Worker.Sales.{ensure_sale, eq_ℤ, same_instant}
use bookipi_technical_test.Worker.Health.{PassResult}
use bookipi_technical_test.Worker.Pass.{PassReads, run_diff}
use bookipi_technical_test.Worker.Service.{Service, call, check_signal, delay}
use bookipi_technical_test.Worker.Service.Consuming.{prepare_for_bootstrap_recovery}
pub mod Sound

-- What a boot reads from outside: the iterations of its pass and how its commits end, `timestamptz` and
-- `Date.parse`, the clock of Redis, its own clock before the drain and at its k-th round, and the fuel.
pub record Outside : Type 0 where
  pub reads : PassReads
  pub commit : OrdersQueueJobPayload → CommitOutcome
  pub timestamptz : Text → ℤ
  pub parse_date : Text → JsNumber
  pub redis_time : RedisTime
  pub drain_from : ℕ
  pub drain_now : ℕ → ℕ
  pub fuel : ℕ

abbrev pub sale_config : WorkerEnv → SaleConfigInput
sale_config env = record {
  sale_id = env.sale_id;
  name = env.sale_name;
  starts_at = env.sale_starts_at;
  ends_at = env.sale_ends_at;
  total_stock = env.sale_total_stock;
  stock_remaining = none;
}

abbrev pub is_config_drift : SeedOutcome → Bool
is_config_drift config_drift = true
is_config_drift _ = false

abbrev pub matches_settings : (Text → JsNumber) → WorkerEnv → SaleSnapshot → Bool
matches_settings parse_date env s =
    text_eq s.name env.sale_name
    && (eq_ℤ s.total_stock env.sale_total_stock
        && (same_instant s.starts_at_ms (parse_date env.sale_starts_at)
            && same_instant s.ends_at_ms (parse_date env.sale_ends_at)))

abbrev pub drain_budget_ms : ℕ
drain_budget_ms = 30000

module _ {Q : Type 0} where
  abbrev pub ensure_sale_row :
      (Text → ℤ) → (Text → JsNumber) → WorkerEnv → Step (World Q) (Unit {0})
  ensure_sale_row timestamptz parse_date env w =
      let (o, t) = ensure_sale timestamptz parse_date env w.stores.tables in
      (o, record w { stores = record w.stores { tables = t } })

module _ {Q : Type 0} (api : QueueApi Q) (env : WorkerEnv) (outside : Outside) where
  -- `prepareConsumerForBootstrap`: an abort wins the race with the preparation.
  abbrev pub race_abort : Outcome (Unit {0}) × Service Q → Outcome (Unit {0}) × Service Q
  race_abort (o, s) = raced (check_signal s)
    where
      raced : Outcome (Unit {0}) × Service Q → Outcome (Unit {0}) × Service Q
      raced (ok _, t) = (o, t)
      raced (throw e, t) = (throw e, t)

  unfoldable pub prepare_consumer_for_bootstrap : Step (Service Q) (Unit {0})
  prepare_consumer_for_bootstrap =
      check_signal >> (λ s. race_abort (prepare_for_bootstrap_recovery s))

  -- A round of the loop that waits until no job is active; `rest` is the rounds that follow.
  abbrev pub drain_on : ℕ → Step (Service Q) (Unit {0}) → ℕ → Step (Service Q) (Unit {0})
  drain_on k rest active =
      if active == 0
      then pure tt
      else if leb (outside.drain_from + drain_budget_ms) (outside.drain_now k)
      then fail plain_error
      else delay >> check_signal >> rest

  unfoldable pub drain_round : ℕ → Step (Service Q) (Unit {0}) → Step (Service Q) (Unit {0})
  drain_round k rest = do
    check_signal
    active ← call (on_queue api.get_active_count)
    drain_on k rest active

  -- The loop, from its k-th round on.
  unfoldable pub drain : ℕ → ℕ → Step (Service Q) (Unit {0})
  drain zero k = fail unfinished
  drain (suc fuel) k = let rest = drain fuel (suc k) in drain_round k rest

  abbrev pub ensure_seeded : SeedResult → Step (Service Q) (Unit {0})
  ensure_seeded r = ensure (not (is_config_drift r.outcome)) plain_error

  abbrev pub create_sale : Step (Service Q) (Unit {0})
  create_sale = do
    seeded ← call (on_db (seed outside.parse_date (sale_config env)))
    check_signal
    ensure_seeded seeded

  -- The sale in Redis is created from the settings, or agrees with them.
  abbrev pub initialise : SaleSnapshot → Step (Service Q) (Unit {0})
  initialise snapshot =
      if not snapshot.initialized
      then create_sale
      else ensure (matches_settings outside.parse_date env snapshot) plain_error

  unfoldable pub pause_queue : Step (Service Q) (Unit {0})
  pause_queue = do
    check_signal
    call (on_queue api.pause)
    check_signal
    paused ← call (on_queue api.is_paused)
    ensure paused plain_error

  unfoldable pub settle_sale : Step (Service Q) (Unit {0})
  settle_sale = do
    check_signal
    call (ensure_sale_row outside.timestamptz outside.parse_date env)
    check_signal
    snapshot ← call (read_db (status env.sale_id outside.redis_time))
    check_signal
    initialise snapshot

  unfoldable pub run_pass : Step (Service Q) PassResult
  run_pass = do
    check_signal
    result ← call (run_diff api env outside.reads outside.commit outside.fuel)
    check_signal
    pure result

  -- What is done once the queue is drained.
  unfoldable pub boot_sale : Step (Service Q) PassResult
  boot_sale = settle_sale >> run_pass

  unfoldable pub boot_pass : Step (Service Q) PassResult
  boot_pass = do
    pause_queue
    check_signal
    prepare_consumer_for_bootstrap
    check_signal
    drain outside.fuel 0
    boot_sale

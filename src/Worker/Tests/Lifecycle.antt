-- ===== src/Worker/Tests/Lifecycle.antt =====
-- A start whose first attempt cannot get the lock, and whose second finds a sale with a wrong stock and
-- an idle queue that remembers whether it is paused.
use bookipi_technical_test.Prelude.{
  ◌≡◌, Bool, true, false, not, ◌&&◌, ◌||◌, refl, none, some, [], ◌∷◌, pos, Outcome, ok, throw,
  plain_error, if◌then◌else◌,
}
use bookipi_technical_test.Text.{codes, text_eq, all_codes}
use bookipi_technical_test.Shared.SaleState.{derive_sale_state, whole}
use bookipi_technical_test.Worker.Health.{live_state, booted_state, fail_state, initial_state}
use bookipi_technical_test.Worker.Orders.{acknowledged}
use bookipi_technical_test.Worker.Queue.{QueueApi}
use bookipi_technical_test.Worker.Job.{waiting}
use bookipi_technical_test.Worker.Service.{awaited, happen_all, delay, call, Service, Consumer}
use bookipi_technical_test.Worker.Service.Consuming.{
  prepare_for_bootstrap_recovery, start_consumer, start_processing, run_worker, is_ok,
}
use bookipi_technical_test.Worker.Boot.{
  boot_pass, pause_queue, prepare_consumer_for_bootstrap, drain, drain_round, settle_sale,
  boot_sale, run_pass, Outside,
}
use bookipi_technical_test.Worker.Lifecycle.{
  attempts, with_lock, transition, go_live, start_lifecycle,
}
use bookipi_technical_test.Worker.Lifecycle.Ready.{start_lifecycle_ready}
use bookipi_technical_test.Worker.Lifecycle.Backoff.{IsBackoff, Within, start_lifecycle-IsBackoff}
use bookipi_technical_test.Worker.Step.{continue}
use bookipi_technical_test.Worker.Sales.{ensure_sale, scan_orders, list_sale_orders, sorted_of_sale}
use bookipi_technical_test.Worker.Postgres.{insert_sale}
use bookipi_technical_test.Redis.Store.Methods.{
  status, decode_status, reconcile_stock_from_reservations, decode_reconcile_state,
}
use bookipi_technical_test.Shared.Keys.{assert_sale_id, sale_id_pattern}
use bookipi_technical_test.Worker.Pass.{
  run_diff, repair, recover_orders, recover_jobs, ledger_map, orders_map, cover_ledger, buyer_pages,
  check_buyers, derive_stock,
}
use bookipi_technical_test.Worker.Pages.{scan_pages}
use bookipi_technical_test.Worker.Scans.{
  scan_jobs, scan_states, state_pages, scan_entries, scan_ledger, ledger_pages,
}
use bookipi_technical_test.Redis.Store.Scan.{scan_reservations, scan_buyers}
use bookipi_technical_test.Redis.Store.Admin.{entries_of_flat}
use bookipi_technical_test.Redis.Store.Entry.{assert_member}
use bookipi_technical_test.Redis.Scripts.Reconcile.{reconcile_state}
use bookipi_technical_test.Worker.Sweep.{sweep_failed}
use bookipi_technical_test.Worker.Tests.{ann_stores, test_env}
use bookipi_technical_test.Worker.Tests.Queue.{added_job}
use bookipi_technical_test.Worker.Tests.Pass.{reads, whole_hscan-IsComplete, whole_sscan-IsComplete}
use bookipi_technical_test.Redis.Ledger.Invariant.{IsSound}
use bookipi_technical_test.Worker.Boot.Sound.{boot_sale-IsSound}

abbrev idle_queue : QueueApi Bool
idle_queue = record {
  get_job = λ id q. (ok none, q);
  get_state = λ job q. (ok waiting, q);
  add = λ n q. (ok (added_job n), q);
  remove = λ job q. (ok tt, q);
  get_jobs = λ st start stop q. (ok [], q);
  get_failed_count = λ q. (ok 0, q);
  get_active_count = λ q. (ok 0, q);
  get_job_counts = λ q. (ok (0, 0), q);
  pause = λ q. (ok tt, true);
  resume = λ q. (ok tt, false);
  is_paused = λ q. (ok q, q);
}

abbrev outside : Outside
outside = record {
  reads = reads;
  commit = λ _. acknowledged;
  timestamptz = λ t. if text_eq t (codes "s") then pos 1000 else pos 9000;
  parse_date = λ t. whole (if text_eq t (codes "s") then pos 1000 else pos 9000);
  redis_time = record { seconds = 2; micros = 0 };
  drain_from = 0;
  drain_now = λ k. k;
  fuel = 3;
}

abbrev new_consumer : Consumer
new_consumer = record {
  prepared = false;
  has_worker = false;
  start_promise = none;
  running = false;
  processing_ready = false;
  closing = false;
  close_called = false;
}

abbrev new_service : Service Bool
new_service = record {
  world = record {
    stores = record ann_stores {
      db = record ann_stores.db { reservations = []; buyers = []; stock = some (pos 7) };
    };
    queue = false;
    failed_scan_offset = 0;
    failed_jobs = 0;
    active_jobs = 0;
    aborted = false;
    by_user = [];
    ledger_by_user = [];
    incidents = [];
  };
  health = initial_state;
  consumer = new_consumer;
  listening = false;
  installed = false;
  fatal = false;
  closing = false;
  processing_started = false;
  transition_cleaned = false;
  awaits = [];
  delays = [];
}

-- The lock cannot be asked for at first.
abbrev new_start : Service Bool
new_start = record new_service {
  awaits = record { reply = throw plain_error; happenings = [] } ∷ [];
}

abbrev start_outcome : Outcome (Unit {0})
start_outcome = (start_lifecycle idle_queue test_env outside 2 new_start).0

abbrev started : Service Bool
started = (start_lifecycle idle_queue test_env outside 2 new_start).1

start_lifecycle_ready_example :
    (started.health.bootstrap_reconciled && started.health.consumer_ready)
    ≡ (is_ok start_outcome && not (started.closing || started.fatal))
start_lifecycle_ready_example =
    start_lifecycle_ready idle_queue test_env outside 2 new_start started start_outcome refl refl

start_lifecycle-IsBackoff_example : IsBackoff started.delays × Within started.delays
start_lifecycle-IsBackoff_example =
    start_lifecycle-IsBackoff idle_queue test_env outside 2 new_start refl

abbrev booted : Service Bool
booted = (boot_sale idle_queue test_env outside new_service).1

boot_sale-IsSound_example : IsSound 2 booted.world.stores.db
unfolding continue awaited happen_all call boot_sale settle_sale ensure_sale insert_sale status
    assert_sale_id sale_id_pattern all_codes text_eq decode_status derive_sale_state run_pass
    run_diff scan_orders scan_pages list_sale_orders sorted_of_sale scan_jobs scan_states
    state_pages scan_entries repair recover_orders recover_jobs scan_ledger ledger_pages
    scan_reservations entries_of_flat ledger_map orders_map cover_ledger buyer_pages scan_buyers
    check_buyers derive_stock reconcile_stock_from_reservations decode_reconcile_state assert_member
    reconcile_state sweep_failed bookipi_technical_test.Worker.Postgres.find_sale
    bookipi_technical_test.Redis.Scripts.Seed.status
boot_sale-IsSound_example =
    boot_sale-IsSound idle_queue test_env outside 2 refl
      (record { degraded = false; queue_issue_count = 0 }) new_service booted whole_hscan-IsComplete
      whole_sscan-IsComplete refl tt refl

-- The second attempt leaves the worker ready.
retried_start : (started.health.bootstrap_reconciled && started.health.consumer_ready) ≡ true
unfolding start_lifecycle attempts with_lock continue awaited happen_all delay transition boot_pass
    pause_queue call prepare_consumer_for_bootstrap prepare_for_bootstrap_recovery drain drain_round
    settle_sale boot_sale ensure_sale insert_sale status assert_sale_id sale_id_pattern all_codes
    text_eq decode_status derive_sale_state run_pass run_diff scan_orders scan_pages
    list_sale_orders sorted_of_sale scan_jobs scan_states state_pages scan_entries repair
    recover_orders recover_jobs scan_ledger ledger_pages scan_reservations entries_of_flat
    ledger_map orders_map cover_ledger buyer_pages scan_buyers check_buyers derive_stock
    reconcile_stock_from_reservations decode_reconcile_state assert_member reconcile_state
    sweep_failed go_live start_consumer start_processing run_worker live_state booted_state
    fail_state bookipi_technical_test.Worker.Postgres.find_sale
    bookipi_technical_test.Redis.Scripts.Seed.status
retried_start = refl

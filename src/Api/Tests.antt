-- ===== src/Api/Tests.antt =====
-- The API's theorems at concrete inputs.
mod Http
mod Syncs
use bookipi_technical_test.Prelude.{
  List, false, ◌≤◌, ℕ, ◌+◌, ◌≡◌, refl, true, none, some, [], ◌∷◌, pos, throw, plain_error, arith,
  ◌+ℤ◌, ◌-ℤ◌,
}
use bookipi_technical_test.Text.{Text, codes, text_eq, all_codes}
use bookipi_technical_test.Shared.SaleState.{ended}
use bookipi_technical_test.Shared.Keys.{assert_sale_id, sale_id_pattern}
use bookipi_technical_test.Shared.Queue.{OrdersQueueJobPayload}
use bookipi_technical_test.Shared.Results.{sale_ended}
use bookipi_technical_test.Redis.Hash.{hget, hset, hexists}
use bookipi_technical_test.Redis.Members.{sismember, sadd}
use bookipi_technical_test.Redis.Db.{SaleDb, RedisTime, now_ms}
use bookipi_technical_test.Redis.Scripts
use bookipi_technical_test.Redis.Scripts.Purchase.{decide, ledger_value}
use bookipi_technical_test.Redis.Store.Entry.{assert_member}
use bookipi_technical_test.Redis.Store.Methods
use bookipi_technical_test.Redis.Store.Methods.{decode_purchase, SaleSnapshot}
use bookipi_technical_test.Worker.Step.{Step}
use bookipi_technical_test.Api.Guard.{
  Clock, SaleSnapshotEntry, GuardEnv, evaluate_fast_path_guard, guard_window, guard_result,
}
use bookipi_technical_test.Api.Purchase.{
  replied, Backend, purchase, get_status, answered, reserved, read_persisted_order,
  confirmed_is_reserved, status-purchase,
}
use bookipi_technical_test.Api.Producer.{
  Producer, ProducerEvent, in_flight_count, enqueue_begins, enqueue_ends, begin_enqueue,
  finish_retirement, producer_run, end_enqueue, producer_step,
}
use bookipi_technical_test.Api.Producer.Calls.{
  count_of, remove_call, current_calls, calls_step, calls_run, no_calls, in_flight_bounded,
}
use bookipi_technical_test.Api.Producer.Circuit.{circuit_open, none_retired, all_begin_before}
use bookipi_technical_test.Api.RateLimit.{
  LimitEnv, allowed, attempt, bucket, allowed_count, all_before, window_admits, open_at_expiry,
}

abbrev pub ann : Text
ann = codes "ann"

abbrev pub flash : Text
flash = codes "flash-1"

abbrev pub id1 : Text
id1 = codes "3f2504e0-4f89-41d3-9a0c-0305e82c3301"

abbrev pub open_db : SaleDb
open_db = record {
  config = some (record {
    sale_id = flash;
    name = codes "Flash";
    starts_at = codes "s";
    ends_at = codes "e";
    starts_at_ms = some (pos 1000);
    ends_at_ms = some (pos 9000);
    total_stock = some (pos 2);
  });
  stock = some (pos 2);
  buyers = [];
  reservations = [];
  metrics = [];
}

abbrev pub at_second : ℕ → RedisTime
at_second n = record { seconds = n; micros = 0 }

abbrev pub cached_sale : SaleSnapshotEntry
cached_sale = record {
  snapshot = record {
    initialized = true;
    sale_id = flash;
    name = codes "Flash";
    starts_at = codes "s";
    ends_at = codes "e";
    starts_at_ms = pos 1000;
    ends_at_ms = pos 9000;
    total_stock = pos 2;
    stock_remaining = pos 2;
    server_time_ms = 9000;
    state = ended;
  };
  age_ms = pos 20;
}

abbrev pub guard_env : GuardEnv
guard_env = record { clock_guard_skew_ms = pos 250; clock_max_staleness_ms = pos 30000 }

-- A queue that refuses every handoff.
abbrev broken_queue : OrdersQueueJobPayload → Step ℕ (Unit {0})
broken_queue p n = (throw plain_error, n + 1)

abbrev backend : Backend ℕ
backend = record { db = open_db; queue = 0 }

confirmed_is_reserved_example :
    (replied ≡ replied)
    × ((purchase broken_queue none replied flash
          (at_second 2)
          id1
          (pos 0)
          ann
          (codes "r")
          backend).0.reservation_id
        ≡ some id1)
    × (hget ann
          (purchase broken_queue none replied flash
            (at_second 2)
            id1
            (pos 0)
            ann
            (codes "r")
            backend).1.db.reservations
        ≡ some (ledger_value id1 (now_ms (at_second 2))))
    × (sismember ann
          (purchase broken_queue none replied flash
            (at_second 2)
            id1
            (pos 0)
            ann
            (codes "r")
            backend).1.db.buyers
        ≡ true)
unfolding purchase Methods.purchase decode_purchase assert_member Scripts.Purchase.purchase decide
    text_eq assert_sale_id sale_id_pattern all_codes hget hset hexists sismember sadd ◌-ℤ◌
confirmed_is_reserved_example =
    confirmed_is_reserved broken_queue replied flash (at_second 2) id1 (pos 0) ann (codes "r")
      backend refl

status-purchase_example :
    get_status
      (throw plain_error)
      replied
      flash
      ann
      (purchase broken_queue none replied flash
        (at_second 2)
        id1
        (pos 0)
        ann
        (codes "r")
        backend).1.db
    ≡ answered true (some reserved)
unfolding purchase Methods.purchase decode_purchase assert_member Scripts.Purchase.purchase decide
    text_eq assert_sale_id sale_id_pattern all_codes hget hset hexists sismember sadd ◌-ℤ◌
    read_persisted_order
status-purchase_example =
    status-purchase broken_queue replied flash (at_second 2) id1 (pos 0) ann (codes "r") backend
      (throw plain_error) refl refl

abbrev limit_env : LimitEnv
limit_env = record { sale_id = flash; rate_limit_user_max = 2; rate_limit_user_window_ms = 1000 }

window_admits_example : allowed_count limit_env (0 ∷ 500 ∷ 400 ∷ []) none ≡ 2
unfolding all_before
window_admits_example = window_admits limit_env 0 (500 ∷ 400 ∷ []) (omega arith) (omega arith) refl

open_at_expiry_example :
    attempt limit_env 1000 (some (bucket 7 (some 1000))) ≡ (allowed, some (bucket 8 (some 1000)))
open_at_expiry_example = open_at_expiry limit_env 7 1000

-- The third call in flight has failed, and its generation is being retired.
abbrev failing : Producer
failing = record {
  generation = some (record { id = 4; in_flight = 2; retiring = false });
  reopen_at_ms = 0;
  closing = false;
  next_id = 5;
}

circuit_open_example :
    ((begin_enqueue 60 (
        producer_run
          (enqueue_begins 50 ∷ enqueue_ends 4 true ∷ [])
          (end_enqueue 4 false failing))).0
      ≡ throw plain_error)
    × ((begin_enqueue 1000 (
          producer_run (enqueue_begins 200 ∷ enqueue_ends 4 false ∷ []) (
            finish_retirement 100 4 (
              producer_run
                (enqueue_begins 50 ∷ enqueue_ends 4 true ∷ [])
                (end_enqueue 4 false failing))))).0
        ≡ throw plain_error)
unfolding none_retired all_begin_before
circuit_open_example =
    circuit_open 4 failing (enqueue_begins 50 ∷ enqueue_ends 4 true ∷ [])
      (enqueue_begins 200 ∷ enqueue_ends 4 false ∷ []) 60 100 1000 refl refl refl (omega arith)

abbrev three_events : List ProducerEvent
three_events = enqueue_begins 5 ∷ enqueue_begins 6 ∷ enqueue_ends 0 true ∷ []

in_flight_bounded_example :
    (count_of 0 (calls_run three_events no_calls).calls ≤ 64)
    × (in_flight_count (calls_run three_events no_calls).producer
        ≡ current_calls (calls_run three_events no_calls))
in_flight_bounded_example = in_flight_bounded three_events 0

-- One of the two calls is in flight still.
one_in_flight : count_of 0 (calls_run three_events no_calls).calls ≡ 1
unfolding calls_run calls_step producer_step begin_enqueue end_enqueue count_of remove_call
one_in_flight = refl

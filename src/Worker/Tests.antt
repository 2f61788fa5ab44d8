-- ===== src/Worker/Tests.antt =====
-- The worker on small stores and a small queue, and each theorem about it at a concrete input.
mod Orders
mod Queue
mod Health
mod Session
mod Pass
mod Maintenance
mod Lifecycle
use bookipi_technical_test.Prelude.{◌≡◌, refl, none, some, [], ◌∷◌, pos, ok}
use bookipi_technical_test.Text.{Text, codes, all_codes, text_eq}
use bookipi_technical_test.Shared.Keys.{assert_sale_id, sale_id_pattern}
use bookipi_technical_test.Shared.UserId.{assert_user_id, trim, drop_space, user_id_pattern}
use bookipi_technical_test.Shared.Uuid.{is_uuid, versioned}
use bookipi_technical_test.Shared.Pattern.{matches}
use bookipi_technical_test.Shared.Queue.{
  OrdersQueueJobPayload, payload_object, persist_order_job_name, request_id_pattern,
}
use bookipi_technical_test.Shared.Queue.Laws.{IsPayload}
use bookipi_technical_test.Redis.Db.{SaleConfig, SaleDb}
use bookipi_technical_test.Worker.Env.{WorkerEnv}
use bookipi_technical_test.Worker.Job.{Job}
use bookipi_technical_test.Worker.Postgres.{SaleRow, uuid_text}
use bookipi_technical_test.Worker.Orders.{Stores}

abbrev pub flash : Text
flash = codes "flash-1"

abbrev pub ann : Text
ann = codes "ann"

abbrev pub id1 : Text
id1 = codes "3f2504e0-4f89-41d3-9a0c-0305e82c3301"

abbrev pub ann_payload : OrdersQueueJobPayload
ann_payload = record {
  sale_id = flash;
  user_id = ann;
  reservation_id = id1;
  reserved_at_ms = pos 2000;
  request_id = codes "req-1";
}

pub ann_payload-IsPayload : IsPayload ann_payload
unfolding assert_sale_id sale_id_pattern assert_user_id trim drop_space user_id_pattern all_codes
    text_eq is_uuid matches versioned request_id_pattern
ann_payload-IsPayload = record {
  sale_ok = refl;
  user_ok = refl;
  reservation_ok = refl;
  time_ok = refl;
  request_ok = refl;
}

pub id1_lower : uuid_text id1 ≡ id1
unfolding uuid_text
id1_lower = refl

abbrev flash_row : SaleRow
flash_row = record {
  id = flash;
  name = codes "Flash";
  total_stock = pos 2;
  starts_ms = pos 1000;
  ends_ms = pos 9000;
}

-- The ledger holds the reservation of ann, one of two units is left, and no order is on file.
abbrev pub ann_db : SaleDb
ann_db = record {
  config = some (record {
    sale_id = flash;
    name = codes "Flash";
    starts_at = codes "s";
    ends_at = codes "e";
    starts_at_ms = some (pos 1000);
    ends_at_ms = some (pos 9000);
    total_stock = some (pos 2);
  });
  stock = some (pos 1);
  buyers = ann ∷ [];
  reservations = (ann, codes "3f2504e0-4f89-41d3-9a0c-0305e82c3301:2000") ∷ [];
  metrics = [];
}

abbrev pub ann_stores : Stores
ann_stores = record { db = ann_db; tables = record { sales = flash_row ∷ []; orders = [] } }

abbrev pub ann_job : Job
ann_job = record {
  id = some (codes "flash-1-ann");
  name = persist_order_job_name;
  data_value = payload_object ann_payload;
  attempts = some 5;
  attempts_made = 0;
  failed_reason = none;
  stalled_counter = 0;
}

-- The same job once its retries are used up.
abbrev pub failed_job : Job
failed_job = record ann_job { attempts_made = 5; failed_reason = some (codes "pg down") }

abbrev pub test_env : WorkerEnv
test_env = record {
  sale_id = flash;
  sale_name = codes "Flash";
  sale_total_stock = pos 2;
  sale_starts_at = codes "s";
  sale_ends_at = codes "e";
  worker_reconcile_interval_ms = 2000;
  worker_reconcile_scan_count = 10;
  worker_dlq_scan_count = 10;
}

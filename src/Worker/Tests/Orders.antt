-- ===== src/Worker/Tests/Orders.antt =====
-- The theorems on the durable orders, on one reservation.
use bookipi_technical_test.Prelude.{
  List, ◌≡◌, refl, ◌⊎◌, none, some, [], ◌∷◌, pos, true, ok, throw, ℤ, ◌+ℤ◌, if◌then◌else◌,
  conflict_error, arith,
}
use bookipi_technical_test.Text.{Text, codes, text_eq, all_codes, split_at}
use bookipi_technical_test.Shared.SaleState.{JsNumber, whole}
use bookipi_technical_test.Redis.Hash.{hget, hdel}
use bookipi_technical_test.Redis.Members.{sismember, srem}
use bookipi_technical_test.Redis.Scripts
use bookipi_technical_test.Redis.Scripts.Compensate.{release, entry_id}
use bookipi_technical_test.Redis.Store.Entry.{assert_member}
use bookipi_technical_test.Redis.Store.Methods.{compensate, decode_compensate}
use bookipi_technical_test.Shared.Keys.{assert_sale_id, sale_id_pattern}
use bookipi_technical_test.Worker.Step.{continue}
use bookipi_technical_test.Worker.Postgres.{
  OrderRow, SaleRow, find_user, insert_order, row_checks, uuid_text, has_id, has_sale, find_sale,
  insert_sale,
}
use bookipi_technical_test.Worker.Orders.{
  Stores, acknowledged, refused, unacknowledged, persist, persist_work, transaction, persisted_row,
  now_persisted, idempotent, was_persisted, resolve_failed, resolve_work, resolve_row, mark,
  compensation_noop, now_compensated, was_compensated, compensated_row, from_row,
}
use bookipi_technical_test.Worker.Orders.Adjudication.{persisted_settles}
use bookipi_technical_test.Worker.Orders.Recovery.{store_compensate, lost_marker_recovers}
use bookipi_technical_test.Worker.Orders.Refusal.{is_alone, compensated_settles}
use bookipi_technical_test.Worker.Orders.Final.{
  Attempt, deliver, resolve, attempts, persisted_order_final,
}
use bookipi_technical_test.Worker.Sales.{
  ensure_sale, IsConfigured, ensure_sale_lem, scan_orders, sorted_of_sale, insert_sorted,
  scan_orders_complete,
}
use bookipi_technical_test.Worker.Tests.{
  ann_payload, ann_payload-IsPayload, id1_lower, ann_stores, ann, flash, test_env,
}

abbrev ann_row : OrderRow
ann_row = persisted_row 3000 ann_payload

abbrev persisted_stores : Stores
persisted_stores = record ann_stores { tables = record ann_stores.tables { orders = ann_row ∷ [] } }

ann_persisted :
    persist acknowledged 3000 ann_payload ann_stores ≡ (ok now_persisted, persisted_stores)
unfolding persist persist_work transaction insert_order row_checks find_user has_id has_sale
    find_sale uuid_text text_eq continue
ann_persisted = refl

-- The reservation's job is resolved and delivered again, and another reservation of the user is resolved.
abbrev after_persist : List Attempt
after_persist =
    resolve refused ann_payload (store_compensate ann_payload)
    ∷ deliver unacknowledged 3500 ann_payload
    ∷ resolve acknowledged
        (record ann_payload { reservation_id = codes "00000000-0000-4000-8000-000000000001" })
        (store_compensate ann_payload)
    ∷ []

persisted_settles_example :
    let after = attempts after_persist persisted_stores in
    (persist acknowledged 4000 ann_payload after ≡ (ok idempotent, after))
    × (resolve_failed acknowledged ann_payload (store_compensate ann_payload) after
        ≡ (ok was_persisted, after))
persisted_settles_example =
    persisted_settles 3000 4000 ann_payload now_persisted ann_stores persisted_stores after_persist
      (store_compensate ann_payload) ann_payload-IsPayload id1_lower ann_persisted refl

abbrev compensated_stores : Stores
compensated_stores = record {
  db = record ann_stores.db { stock = some (pos 2); buyers = []; reservations = [] };
  tables = record ann_stores.tables { orders = compensated_row ann_payload ∷ [] };
}

ann_compensated :
    resolve_failed acknowledged ann_payload (store_compensate ann_payload) ann_stores
    ≡ (ok now_compensated, compensated_stores)
unfolding resolve_failed resolve_work resolve_row transaction mark insert_order row_checks find_user
    has_id has_sale find_sale uuid_text text_eq continue assert_sale_id sale_id_pattern all_codes
    compensate decode_compensate assert_member Scripts.Compensate.compensate release entry_id
    split_at hget hdel sismember srem ◌+ℤ◌
ann_compensated = refl

abbrev meanwhile : List Attempt
meanwhile =
    deliver refused 4000 ann_payload
    ∷ resolve unacknowledged ann_payload (store_compensate ann_payload)
    ∷ deliver acknowledged 4500 (record ann_payload { user_id = codes "bob" })
    ∷ []

compensated_settles_example :
    (persist acknowledged 5000 ann_payload (attempts meanwhile compensated_stores)
      ≡ (ok was_compensated, attempts meanwhile compensated_stores))
    ⊎ (persist acknowledged 5000 ann_payload (attempts meanwhile compensated_stores)
        ≡ (throw conflict_error, attempts meanwhile compensated_stores))
unfolding is_alone text_eq
compensated_settles_example =
    compensated_settles 5000 ann_payload (store_compensate ann_payload) now_compensated ann_stores
      compensated_stores meanwhile ann_payload-IsPayload id1_lower ann_compensated (ground arith)
      refl

lost_marker_recovers_example :
    let again =
      resolve_failed acknowledged ann_payload
        (store_compensate ann_payload)
        (resolve_failed refused ann_payload (store_compensate ann_payload) ann_stores).1 in
    (again ≡ (ok now_compensated, compensated_stores))
    ⊎ (again ≡ (ok compensation_noop, compensated_stores))
unfolding assert_sale_id sale_id_pattern all_codes
lost_marker_recovers_example =
    lost_marker_recovers ann_payload now_compensated ann_stores compensated_stores refl
      ann_compensated

persisted_order_final_example :
    find_user ann
      (attempts
        (deliver refused 5 ann_payload
          ∷ resolve acknowledged ann_payload (store_compensate ann_payload)
          ∷ [])
        persisted_stores).tables.orders
    ≡ some ann_row
unfolding find_user text_eq
persisted_order_final_example =
    persisted_order_final ann ann_row
      (deliver refused 5 ann_payload
        ∷ resolve acknowledged ann_payload (store_compensate ann_payload)
        ∷ [])
      persisted_stores refl refl

abbrev read_date : Text → JsNumber
read_date t = if text_eq t (codes "s") then whole (pos 1000) else whole (pos 9000)

abbrev read_instant : Text → ℤ
read_instant t = if text_eq t (codes "s") then pos 1000 else pos 9000

ensure_sale_lem_example :
    ((r : SaleRow) × (find_sale flash persisted_stores.tables.sales ≡ some r)
      × IsConfigured read_date test_env r)
    × ((persisted_stores.tables ≡ persisted_stores.tables)
        ⊎ ((find_sale flash persisted_stores.tables.sales ≡ none)
            × (persisted_stores.tables.orders ≡ persisted_stores.tables.orders)))
    × (ensure_sale read_instant read_date test_env persisted_stores.tables
        ≡ (ok tt, persisted_stores.tables))
unfolding ensure_sale insert_sale find_sale text_eq
ensure_sale_lem_example =
    ensure_sale_lem read_instant read_date test_env persisted_stores.tables persisted_stores.tables
      refl

scan_orders_complete_example :
    scan_orders (λ _ _. true) test_env persisted_stores.tables 2 ≡ some (from_row ann_row ∷ [])
unfolding sorted_of_sale insert_sorted text_eq
scan_orders_complete_example =
    scan_orders_complete (λ _ _. true) test_env persisted_stores.tables (omega arith)

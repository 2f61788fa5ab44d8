-- ===== src/Worker/Tests/Pass.antt =====
-- A whole pass on a store that has drifted: Redis has lost the reservation of ann, who has a persisted
-- order, and its stock is wrong. HSCAN and SSCAN reply everything at once.
use bookipi_technical_test.Prelude.{◌≡◌, refl, true, false, List, [], ◌∷◌, pos, some, arith, ◌-ℤ◌}
use bookipi_technical_test.Text.{
  Text, codes, text_eq, text_eq_refl, all_codes, split_at, contains_code, decimal, parse_decimal,
}
use bookipi_technical_test.Shared.Keys.{assert_sale_id, sale_id_pattern}
use bookipi_technical_test.Shared.UserId.{assert_user_id, trim, drop_space, user_id_pattern}
use bookipi_technical_test.Shared.Uuid.{is_uuid, versioned}
use bookipi_technical_test.Shared.Pattern.{matches}
use bookipi_technical_test.Shared.Queue.{property, includes}
use bookipi_technical_test.Redis.Hash.{Hash, hget, hset, hexists}
use bookipi_technical_test.Redis.Members.{sismember, sadd, is_listed}
use bookipi_technical_test.Redis.Ledger.Invariant.{IsSound}
use bookipi_technical_test.Redis.Scripts.Reconcile.{reconcile_state}
use bookipi_technical_test.Redis.Scripts.Membership.{compare_restore, reconcile_membership}
use bookipi_technical_test.Redis.Store.Admin.{entries_of_flat}
use bookipi_technical_test.Redis.Store.Entry.{
  assert_restore_input, only_restore_keys, restore_input_of, parse_reservation_entry, assert_member,
}
use bookipi_technical_test.Redis.Store.Methods.{
  compare_and_restore_reservation, decode_restore, reconcile_buyer_membership,
  reconcile_stock_from_reservations, decode_reconcile_state,
}
use bookipi_technical_test.Redis.Store.Scan.{
  Scan, IsComplete, fields_of, first_cursor, scan_reservations, scan_buyers,
}
use bookipi_technical_test.Worker.Job.{Job}
use bookipi_technical_test.Worker.Step.{continue}
use bookipi_technical_test.Worker.Orders.{acknowledged, persisted_row}
use bookipi_technical_test.Worker.Sales.{
  scan_orders, list_sale_orders, sorted_of_sale, insert_sorted,
}
use bookipi_technical_test.Worker.Pages.{scan_pages}
use bookipi_technical_test.Worker.Scans.{
  ledger_pages, scan_ledger, scan_jobs, scan_states, state_pages, scan_entries,
}
use bookipi_technical_test.Worker.Recovery.{apply_recovery_candidate}
use bookipi_technical_test.Worker.Sweep.{sweep_failed}
use bookipi_technical_test.Worker.World.{World}
use bookipi_technical_test.Worker.Pass.{
  PassReads, run_diff, repair, derive_stock, recover_orders, recover_jobs, cover_ledger,
  check_buyers, buyer_pages, orders_map, ledger_map,
}
use bookipi_technical_test.Worker.Pass.Ledger.{holds}
use bookipi_technical_test.Worker.Pass.Iteration.{buys, names}
use bookipi_technical_test.Worker.Pass.Sound.{run_diff-IsSound}
use bookipi_technical_test.Worker.Tests.{ann_payload, ann_stores, test_env}
use bookipi_technical_test.Worker.Tests.Queue.{small_queue, empty_world}

-- The flat list of fields and values.
abbrev flat_of : Hash Text → List Text
flat_of [] = []
flat_of (e ∷ m) = e.0 ∷ e.1 ∷ flat_of m

abbrev whole_hscan : Scan
whole_hscan k cursor count db = (codes "0", flat_of db.reservations)

abbrev whole_sscan : Scan
whole_sscan k cursor count db = (codes "0", db.buyers)

listed_fields : (u : Text) (m : Hash Text) → is_listed u (fields_of (flat_of m)) ≡ hexists u m
unfolding hexists hget
listed_fields u [] = refl
listed_fields u (e ∷ m) = ground (arith, listed_fields u m)

listed_members : (u : Text) (s : List Text) → is_listed u s ≡ sismember u s
unfolding sismember
listed_members u [] = refl
listed_members u (x ∷ s) = ground (arith, listed_members u s)

pub whole_hscan-IsComplete : IsComplete fields_of holds whole_hscan
whole_hscan-IsComplete u count [] ends all = ground (arith, ends)
whole_hscan-IsComplete u count (db ∷ []) ends all =
    ground (arith, all, listed_fields u db.reservations)
whole_hscan-IsComplete u count (db ∷ next ∷ dbs) ends all =
    absurd (ground (arith, ends, text_eq_refl first_cursor))

pub whole_sscan-IsComplete : IsComplete names buys whole_sscan
whole_sscan-IsComplete u count [] ends all = ground (arith, ends)
whole_sscan-IsComplete u count (db ∷ []) ends all = ground (arith, all, listed_members u db.buyers)
whole_sscan-IsComplete u count (db ∷ next ∷ dbs) ends all =
    absurd (ground (arith, ends, text_eq_refl first_cursor))

abbrev pub reads : PassReads
reads = record { hscan = whole_hscan; sscan = whole_sscan; before = λ s t. true }

abbrev drifted : World (Hash Job)
drifted = record empty_world {
  stores = record {
    db = record ann_stores.db { reservations = []; buyers = []; stock = some (pos 7) };
    tables = record ann_stores.tables { orders = persisted_row 3000 ann_payload ∷ [] };
  };
}

abbrev passed : World (Hash Job)
passed = (run_diff small_queue test_env reads (λ _. acknowledged) 3 drifted).1

run_diff-IsSound_example : IsSound 2 passed.stores.db
unfolding run_diff continue scan_orders scan_pages list_sale_orders sorted_of_sale text_eq
    insert_sorted scan_jobs scan_states state_pages scan_entries repair recover_orders recover_jobs
    apply_recovery_candidate compare_and_restore_reservation assert_sale_id sale_id_pattern
    all_codes assert_restore_input only_restore_keys restore_input_of property includes
    assert_user_id trim drop_space user_id_pattern is_uuid matches versioned compare_restore hget
    hset sadd sismember decode_restore assert_member parse_reservation_entry split_at contains_code
    decimal parse_decimal scan_ledger ledger_pages scan_reservations entries_of_flat ledger_map
    orders_map cover_ledger reconcile_buyer_membership reconcile_membership hexists buyer_pages
    scan_buyers check_buyers derive_stock reconcile_stock_from_reservations decode_reconcile_state
    reconcile_state ◌-ℤ◌ sweep_failed
run_diff-IsSound_example =
    run_diff-IsSound small_queue test_env reads (λ _. acknowledged) 3 2
      (record { degraded = false; queue_issue_count = 0 }) drifted passed whole_hscan-IsComplete
      whole_sscan-IsComplete (refl, tt) refl

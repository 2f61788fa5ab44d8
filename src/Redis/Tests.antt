-- ===== src/Redis/Tests.antt =====
-- The scripts and the store on one small sale, and each theorem about them at a concrete input.
mod Runner
use bookipi_technical_test.Prelude.{
  ℕ, ◌+◌, ◌*◌, ◌≡◌, ◌≢◌, refl, true, false, ◌||◌, some, none, List, [], ◌∷◌, ok, pos, arith, ◌+ℤ◌,
  ◌-ℤ◌, ◌≤ℤ◌, ◌<ℤ◌, ◌∙◌,
}
use bookipi_technical_test.Text.{
  Text, codes, text_eq, text_eq_iff, all_codes, decimal, split_at, contains_code,
}
use bookipi_technical_test.Shared.SaleState.{active, derive_sale_state}
use bookipi_technical_test.Shared.Keys.{assert_sale_id, sale_id_pattern}
use bookipi_technical_test.Redis.Hash.{hget, hset, hdel, hexists, hlen}
use bookipi_technical_test.Redis.Members.{sismember, sadd, srem}
use bookipi_technical_test.Redis.Db.{SaleConfig, SaleDb, RedisTime, now_ms, stock_or_zero}
use bookipi_technical_test.Redis.Scripts
use bookipi_technical_test.Redis.Scripts.Purchase.{purchase, confirmed, ledger_value}
use bookipi_technical_test.Redis.Scripts.Compensate.{
  compensate, compensate_reply, compensated, noop, entry_id,
}
use bookipi_technical_test.Redis.Scripts.Seed.{SeedArgs, seed, seeded_config}
use bookipi_technical_test.Redis.Scripts.Reconcile.{reconcile_state}
use bookipi_technical_test.Redis.Ledger.Effects.{units}
use bookipi_technical_test.Redis.Ledger.Invariant.{IsSound}
use bookipi_technical_test.Redis.Ledger.Repair.{realign, repair-IsSound}
use bookipi_technical_test.Redis.Ledger.Runs.{
  Call, buy, undo, run, step, empty_db, no_sales, no_oversell,
}
use bookipi_technical_test.Redis.Ledger.Holders.{one_per_user}
use bookipi_technical_test.Redis.Ledger.Decision.{
  confirmed_iff, compensate-purchase, entry_id-ledger_value,
}
use bookipi_technical_test.Redis.Store.Methods.{SaleSnapshot, status}
use bookipi_technical_test.Redis.Store.Admin.{
  RestoreRow, executed, restore_rows, restore_reservations, restore_reservations_lem, is_row_of,
}
use bookipi_technical_test.Redis.Store.Window.{expected, status_predicts_purchase}

abbrev sale : SeedArgs
sale = record {
  sale_id = codes "flash-1";
  name = codes "Flash";
  starts_at = codes "s";
  ends_at = codes "e";
  starts_at_ms = pos 1000;
  ends_at_ms = pos 9000;
  total_stock = pos 2;
  stock_remaining = pos 2;
}

abbrev pub at_ms : ℕ → RedisTime
at_ms n = record { seconds = 0; micros = n * 1000 }

abbrev ann : Text
ann = codes "ann"

abbrev pub bob : Text
bob = codes "bob"

abbrev cid : Text
cid = codes "cid"

abbrev id1 : Text
id1 = codes "3f2504e0-4f89-41d3-9a0c-0305e82c3301"

abbrev pub id2 : Text
id2 = codes "3f2504e0-4f89-41d3-9a0c-0305e82c3302"

abbrev fresh_config : SaleConfig
fresh_config = seeded_config sale

abbrev fresh : SaleDb
fresh = (seed sale empty_db).1

abbrev calls : List Call
calls =
    buy (at_ms 1500) ann id1
    ∷ buy (at_ms 1600) bob id2
    ∷ buy (at_ms 1700) cid id1
    ∷ undo ann id1
    ∷ undo ann id1
    ∷ buy (at_ms 1800) cid id2
    ∷ []

-- Two units: the third buyer is turned away, and gets the unit that is returned once.
calls_end :
    let (n, db) = run calls (no_sales, fresh) in
    (n.sold ≡ 3) × (n.returned ≡ 1) × (db.stock ≡ some (pos 0)) × (hlen db.reservations ≡ 2)
unfolding run step purchase compensate seed hget hset hdel hexists sismember sadd srem text_eq
    decimal entry_id split_at ◌+ℤ◌ ◌-ℤ◌
calls_end = (refl, refl, refl, refl)

no_oversell_example :
    let (n, db) = run calls (no_sales, fresh) in
    (n.sold ≡ n.returned + hlen db.reservations)
    × (units db + hlen db.reservations ≡ 2)
    × (db.stock ≡ some (pos (units db)))
no_oversell_example = no_oversell sale 2 calls refl refl

-- Ann holds one of the two units.
abbrev pub held : SaleDb
held = record {
  config = some fresh_config;
  stock = some (pos 1);
  buyers = ann ∷ [];
  reservations = (ann, ledger_value id1 1500) ∷ [];
  metrics = [];
}

one_per_user_example :
    (hget ann (run (undo ann id2 ∷ buy (at_ms 2000) bob id2 ∷ []) (no_sales, held)).1.reservations
      ≡ some (ledger_value id1 1500))
    × ((purchase
          (at_ms 3000)
          ann
          id2
          (run (undo ann id2 ∷ buy (at_ms 2000) bob id2 ∷ []) (no_sales, held)).1).0.code
        ≢ confirmed)
unfolding hget text_eq contains_code
one_per_user_example =
    one_per_user (undo ann id2 ∷ buy (at_ms 2000) bob id2 ∷ []) ann (ledger_value id1 1500)
      (no_sales, held) (at_ms 3000) id2 spared refl
  where
    spared : (ann ≡ ann → id2 ≢ entry_id (ledger_value id1 1500)) × (Unit {0} × Unit {0})
    spared = (
      λ _ e.
          let other : false ≡ true =
            (text_eq_iff id2 id1).1 (e ∙ entry_id-ledger_value id1 1500 refl) in
          cc,
      (tt, tt),
    )

confirmed_iff_example :
    (pos 1000 ≤ℤ pos (now_ms (at_ms 2000)))
    × (pos (now_ms (at_ms 2000)) <ℤ pos 9000)
    × (pos 1 ≤ℤ stock_or_zero held)
    × (sismember bob held.buyers ≡ false)
    × (hexists bob held.reservations ≡ false)
unfolding purchase hexists hget sismember text_eq
confirmed_iff_example = (confirmed_iff (at_ms 2000) bob id2 held (pos 1000) (pos 9000) refl).0 refl

compensate-purchase_example :
    (compensate bob id2 (purchase (at_ms 2000) bob id2 held).1
      ≡ (compensate_reply compensated (pos 1), held))
    × (compensate bob id2 held ≡ (compensate_reply noop (pos 1), held))
unfolding purchase hexists hget sismember text_eq contains_code
compensate-purchase_example =
    compensate-purchase (at_ms 2000) bob id2 held 2 refl refl (omega arith) refl

-- A crash lost a buyer and the decrement, and left a stranger among the buyers.
abbrev drifted : SaleDb
drifted = record held { stock = some (pos 2); buyers = bob ∷ [] }

repair-IsSound_example : IsSound 2 (reconcile_state (realign (ann ∷ bob ∷ []) drifted)).1
unfolding hget hexists sismember
repair-IsSound_example =
    repair-IsSound 2 (ann ∷ bob ∷ []) drifted refl (omega arith) (refl, tt) (λ u out. ground arith)

abbrev snapshot : SaleSnapshot
snapshot = record {
  initialized = true;
  sale_id = codes "flash-1";
  name = codes "Flash";
  starts_at = codes "s";
  ends_at = codes "e";
  starts_at_ms = pos 1000;
  ends_at_ms = pos 9000;
  total_stock = pos 2;
  stock_remaining = pos 1;
  server_time_ms = 2000;
  state = active;
}

status_predicts_purchase_example : (purchase (at_ms 2000) bob id2 held).0.code ≡ expected active
unfolding status Scripts.Seed.status derive_sale_state assert_sale_id sale_id_pattern all_codes
    hexists hget sismember text_eq
status_predicts_purchase_example =
    status_predicts_purchase (codes "flash-1") bob id2 (at_ms 2000) held {snapshot = snapshot}
      {starts = pos 1000} {ends = pos 9000} {stock = pos 1} refl refl refl refl refl

abbrev rows : List RestoreRow
rows = record { user_id = bob; reservation_id = id2; reserved_at_ms = none; now_ms = 1234 } ∷ []

restore_reservations_lem_example :
    let after = restore_rows rows held in
    (restore_reservations (codes "flash-1") (λ _. executed) rows held ≡ (ok tt, after))
    × ((u : Text)
        → (sismember u after.buyers ≡ (is_row_of u rows || sismember u held.buyers))
          × (hexists u after.reservations ≡ (is_row_of u rows || hexists u held.reservations)))
unfolding assert_sale_id sale_id_pattern all_codes
restore_reservations_lem_example =
    restore_reservations_lem (codes "flash-1") (λ _. executed) rows held refl (λ _. refl)

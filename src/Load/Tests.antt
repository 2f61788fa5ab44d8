-- ===== src/Load/Tests.antt =====
-- A sold-out run: ten units, ten buyers, ten persisted orders.
use bookipi_technical_test.Prelude.{
  ℕ, zero, suc, ◌+◌, ◌≡◌, refl, true, some, List, [], ◌∷◌, length, pos, arith, ◌+ℤ◌,
}
use bookipi_technical_test.Text.{Text, codes, text_eq}
use bookipi_technical_test.Redis.Hash.{Hash, hget, hexists, hlen}
use bookipi_technical_test.Redis.Members.{Members, sismember, sadd}
use bookipi_technical_test.Redis.Db.{SaleDb}
use bookipi_technical_test.Redis.Ledger.Invariant.{IsSound}
use bookipi_technical_test.Load.Audit.{
  AuditInput, AuditOrder, SaleConfig, sold_out, persisted, Reservation, evaluate_audit, invariant_1,
  invariant_2, invariant_3, invariant_4, all_of, orders_with, users_of, keys_of, equal_set,
  config_equal, identities_match, compensated_absent, scenario_counts_pass, is_persisted,
}
use bookipi_technical_test.Load.Audit.Sound.{IsTaken, evaluate_audit-IsSound}

abbrev sale_id : Text
sale_id = codes "load-1"

-- The k-th buyer, and the identity of the reservation.
abbrev buyer : ℕ → Text
buyer k = (97 + k) ∷ codes "-user"

abbrev reservation : ℕ → Text
reservation k = (97 + k) ∷ codes "-id"

abbrev buyers_to : ℕ → Members
buyers_to zero = []
buyers_to (suc k) = buyer k ∷ buyers_to k

abbrev fields_to : ℕ → Hash Text
fields_to zero = []
fields_to (suc k) = (buyer k, (97 + k) ∷ codes "-id:2000") ∷ fields_to k

abbrev entries_to : ℕ → Hash Reservation
entries_to zero = []
entries_to (suc k) = (buyer k, (reservation k, pos 2000)) ∷ entries_to k

abbrev orders_to : ℕ → List AuditOrder
orders_to zero = []
orders_to (suc k) =
    record { id = reservation k; user_id = buyer k; status = persisted; created_at_ms = pos 2000 }
    ∷ orders_to k

abbrev sale : SaleConfig
sale = record {
  id = sale_id;
  name = codes "Load";
  total_stock = pos 10;
  starts_at_ms = pos 1000;
  ends_at_ms = pos 9000;
}

abbrev sold_out_db : SaleDb
sold_out_db = record {
  config = some (record {
    sale_id = sale_id;
    name = codes "Load";
    starts_at = codes "s";
    ends_at = codes "e";
    starts_at_ms = some (pos 1000);
    ends_at_ms = some (pos 9000);
    total_stock = some (pos 10);
  });
  stock = some (pos 0);
  buyers = buyers_to 10;
  reservations = fields_to 10;
  metrics = [];
}

abbrev input : AuditInput
input = record {
  scenario = sold_out;
  sale_id = sale_id;
  initial_stock = pos 10;
  expected_confirmed = 10;
  sale = sale;
  api_sale = sale;
  redis_sale = sale;
  convergence = record {
    api_ready = true;
    worker_ready = true;
    waiting = pos 0;
    active = pos 0;
    delayed = pos 0;
    failed = pos 0;
    matching_snapshots = 2;
    stable_interval_ms = 250;
    final_live_collection = true;
  };
  postgres = record {
    persisted_count = 10;
    compensated_count = 0;
    reserved_count = 0;
    duplicate_users_global = 0;
    duplicate_users_in_sale = 0;
    outside_window = 0;
  };
  redis_stock = pos 0;
  redis_reservations = 10;
  orders = orders_to 10;
  buyers = buyers_to 10;
  reservations = entries_to 10;
  ledger_errors = 0;
}

fields-entries : (u : Text) (k : ℕ) → hexists u (entries_to k) ≡ hexists u (fields_to k)
unfolding hexists hget
fields-entries u zero = refl
fields-entries u (suc k) = ground (arith, fields-entries u k)

input-IsTaken : IsTaken sold_out_db input
unfolding sismember text_eq hget
input-IsTaken = record {
  on_file = refl;
  stock = refl;
  counted = refl;
  size = refl;
  buyers = refl;
  fields = λ u. fields-entries u 10;
  once = (refl, (refl, (refl, (refl, (refl, (refl, (refl, (refl, (refl, (refl, tt))))))))));
  map_distinct = (refl, (refl, (refl, (refl, (refl, (refl, (refl, (refl, (refl, (refl, tt))))))))));
  distinct = (refl, (refl, (refl, (refl, (refl, (refl, (refl, (refl, (refl, (refl, tt))))))))));
}

evaluate_audit-IsSound_example :
    IsSound 10 sold_out_db
    × (length (orders_with is_persisted input.orders) ≡ hlen sold_out_db.reservations)
    × (identities_match input ≡ true)
unfolding evaluate_audit invariant_1 invariant_2 invariant_3 invariant_4 all_of orders_with users_of
    keys_of equal_set config_equal identities_match compensated_absent scenario_counts_pass
    sismember sadd text_eq hget hexists ◌+ℤ◌
evaluate_audit-IsSound_example = evaluate_audit-IsSound input sold_out_db 10 input-IsTaken refl refl

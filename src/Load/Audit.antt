-- ===== src/Load/Audit.antt =====
-- `evaluateAudit` of load/audit.ts: the four invariants that a run must leave, on what the audit has
-- collected from Redis, Postgres and the probes. The evidence texts only print it.
use bookipi_technical_test.Prelude.{
  ℕ, ◌+◌, Bool, true, false, not, ◌&&◌, ◌||◌, Option, none, some, List, [], ◌∷◌, length, leb, ◌==◌,
  ℤ, pos, leb_ℤ, ltb_ℤ, eqb_ℤ, ◌+ℤ◌, if◌then◌else◌,
}
use bookipi_technical_test.Text.{Text, text_eq}
use bookipi_technical_test.Redis.Hash.{Hash, hget, hset, hexists, hlen}
use bookipi_technical_test.Redis.Members.{Members, sismember, sadd}
pub mod Sound

pub data StressScenario : Type 0 where
  warmup smoke surge duplicate_storm sold_out window_edge : StressScenario

pub record SaleConfig : Type 0 where
  pub id : Text
  pub name : Text
  pub total_stock : ℤ
  pub starts_at_ms : ℤ
  pub ends_at_ms : ℤ

pub data OrderStatus : Type 0 where
  reserved persisted compensated : OrderStatus

pub record AuditOrder : Type 0 where
  pub id : Text
  pub user_id : Text
  pub status : OrderStatus
  pub created_at_ms : ℤ

pub record Convergence : Type 0 where
  pub api_ready : Bool
  pub worker_ready : Bool
  pub waiting : ℤ
  pub active : ℤ
  pub delayed : ℤ
  pub failed : ℤ
  pub matching_snapshots : ℕ
  pub stable_interval_ms : ℕ
  pub final_live_collection : Bool

pub record PostgresCounts : Type 0 where
  pub persisted_count : ℕ
  pub compensated_count : ℕ
  pub reserved_count : ℕ
  pub duplicate_users_global : ℕ
  pub duplicate_users_in_sale : ℕ
  pub outside_window : ℕ

-- A reservation's identity and time.
abbrev pub Reservation : Type 0
Reservation = Text × ℤ

pub record AuditInput : Type 0 where
  pub scenario : StressScenario
  pub sale_id : Text
  pub initial_stock : ℤ
  pub expected_confirmed : ℕ
  pub sale : SaleConfig
  pub api_sale : SaleConfig
  pub redis_sale : SaleConfig
  pub convergence : Convergence
  pub postgres : PostgresCounts
  pub redis_stock : ℤ
  pub redis_reservations : ℕ
  pub orders : List AuditOrder
  pub buyers : Members
  pub reservations : Hash Reservation
  pub ledger_errors : ℕ

unfoldable pub all_of : {A : Type 0} → (A → Bool) → List A → Bool
all_of p [] = true
all_of p (x ∷ xs) = p x && all_of p xs

abbrev pub is_persisted : OrderStatus → Bool
is_persisted persisted = true
is_persisted _ = false

abbrev pub is_compensated : OrderStatus → Bool
is_compensated compensated = true
is_compensated _ = false

unfoldable pub orders_with : (OrderStatus → Bool) → List AuditOrder → List AuditOrder
orders_with p [] = []
orders_with p (o ∷ os) = let rest = orders_with p os in if p o.status then o ∷ rest else rest

-- `new Set(persisted.map((order) => order.userId))`
unfoldable pub users_of : List AuditOrder → Members
users_of [] = []
users_of (o ∷ os) = sadd o.user_id (users_of os)

-- `new Set(input.reservations.keys())`
unfoldable pub keys_of : {V : Type 0} → Hash V → Members
keys_of [] = []
keys_of (e ∷ m) = e.0 ∷ keys_of m

-- `equalSet`
unfoldable pub equal_set : Members → Members → Bool
equal_set left right = (length left == length right) && all_of (λ value. sismember value right) left

abbrev pub same_config : AuditInput → SaleConfig → Bool
same_config input sale =
    text_eq sale.id input.sale_id
    && (text_eq sale.name input.sale.name
        && (eqb_ℤ sale.total_stock input.initial_stock
            && (eqb_ℤ sale.starts_at_ms input.sale.starts_at_ms
                && eqb_ℤ sale.ends_at_ms input.sale.ends_at_ms)))

unfoldable pub config_equal : AuditInput → Bool
config_equal input =
    same_config input input.sale
    && (same_config input input.api_sale && same_config input input.redis_sale)

abbrev pub is_reservation_of : AuditOrder → Option Reservation → Bool
is_reservation_of o none = false
is_reservation_of o (some (id, at)) = text_eq id o.id && eqb_ℤ at o.created_at_ms

abbrev pub has_identity : AuditInput → AuditOrder → Bool
has_identity input o = is_reservation_of o (hget o.user_id input.reservations)

unfoldable pub identities_match : AuditInput → Bool
identities_match input = all_of (has_identity input) (orders_with is_persisted input.orders)

unfoldable pub compensated_absent : AuditInput → Bool
compensated_absent input =
    all_of
      (λ o. not (sismember o.user_id input.buyers) && not (hexists o.user_id input.reservations))
      (orders_with is_compensated input.orders)

abbrev pub fixed : StressScenario → ℕ
fixed warmup = 200
fixed smoke = 200
fixed surge = 500
fixed duplicate_storm = 5000
fixed sold_out = 10
fixed window_edge = 1000

-- `scenarioCountsPass`
unfoldable pub scenario_counts_pass : StressScenario → ℕ → ℕ → Bool
scenario_counts_pass scenario expected persisted_count =
    (expected == fixed scenario) && (persisted_count == fixed scenario)

-- Stock and reservations make up the total, and each reservation is persisted.
unfoldable pub invariant_1 : AuditInput → Bool
invariant_1 i =
    leb_ℤ (pos 0) i.redis_stock
    && (leb_ℤ i.redis_stock i.initial_stock
        && (leb_ℤ (pos i.redis_reservations) i.initial_stock
            && (eqb_ℤ (i.redis_stock +ℤ pos i.redis_reservations) i.initial_stock
                && ((i.postgres.persisted_count == i.redis_reservations)
                    && scenario_counts_pass i.scenario i.expected_confirmed
                        i.postgres.persisted_count))))

-- Nobody has two orders, and the buyers, the holders and the users of persisted orders are the same.
unfoldable pub invariant_2 : AuditInput → Bool
invariant_2 i =
    (i.postgres.duplicate_users_global == 0)
    && ((i.postgres.duplicate_users_in_sale == 0)
        && (equal_set i.buyers (keys_of i.reservations)
            && equal_set i.buyers (users_of (orders_with is_persisted i.orders))))

abbrev pub in_window : AuditInput → ℤ → Bool
in_window i at = leb_ℤ i.sale.starts_at_ms at && ltb_ℤ at i.sale.ends_at_ms

-- Every order and every reservation was made inside the window.
unfoldable pub invariant_3 : AuditInput → Bool
invariant_3 i =
    (i.postgres.outside_window == 0)
    && (all_of (λ o. in_window i o.created_at_ms) i.orders
        && all_of (λ e. in_window i e.1.1) i.reservations)

abbrev pub is_idle : Convergence → Bool
is_idle c =
    eqb_ℤ c.waiting (pos 0)
    && (eqb_ℤ c.active (pos 0) && (eqb_ℤ c.delayed (pos 0) && eqb_ℤ c.failed (pos 0)))

abbrev pub has_settled : Convergence → Bool
has_settled c =
    c.api_ready
    && (c.worker_ready
        && ((c.matching_snapshots == 2)
            && (leb 250 c.stable_interval_ms && (c.final_live_collection && is_idle c))))

-- The run has settled: nothing waits, and every confirmed purchase is persisted or compensated.
unfoldable pub invariant_4 : AuditInput → Bool
invariant_4 i =
    has_settled i.convergence
    && ((i.postgres.reserved_count == 0)
        && ((i.expected_confirmed == i.postgres.persisted_count + i.postgres.compensated_count)
            && (identities_match i
                && ((hlen i.reservations == length (orders_with is_persisted i.orders))
                    && (compensated_absent i && (config_equal i && (i.ledger_errors == 0)))))))

-- `evaluateAudit`: whether the report passes.
unfoldable pub evaluate_audit : AuditInput → Bool
evaluate_audit i = invariant_1 i && (invariant_2 i && (invariant_3 i && invariant_4 i))

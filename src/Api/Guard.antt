-- ===== src/Api/Guard.antt =====
-- `evaluateFastPathGuard` of apps/api/src/purchase/purchase.service.ts: the rejection that needs no call
-- of Redis.
use bookipi_technical_test.Prelude.{
  ◌≡◌, ◌⊎◌, Bool, not, ◌||◌, Option, none, some, if◌then◌else◌, ℤ, pos, ltb_ℤ, leb_ℤ, ◌+ℤ◌, ◌-ℤ◌,
  ◌≤ℤ◌, ◌<ℤ◌, int_laws, arith,
}
use bookipi_technical_test.Text.{Text}
use bookipi_technical_test.Shared.Results.{PurchaseOutcome, sale_not_started, sale_ended}
use bookipi_technical_test.Redis.Db.{SaleDb, RedisTime, now_ms}
use bookipi_technical_test.Redis.Scripts
use bookipi_technical_test.Redis.Scripts.Purchase.{sale_window, decide}
use bookipi_technical_test.Redis.Store.Methods.{SaleSnapshot}

-- What the guard reads of the pod's clock.
pub record Clock : Type 0 where
  pub is_fresh : Bool
  pub now : ℤ
  pub rtt : ℤ

-- `SaleSnapshotEntry`
pub record SaleSnapshotEntry : Type 0 where
  pub snapshot : SaleSnapshot
  pub age_ms : ℤ

pub record GuardEnv : Type 0 where
  pub clock_guard_skew_ms : ℤ
  pub clock_max_staleness_ms : ℤ

pub record FastPathGuardResult : Type 0 where
  pub outcome : PurchaseOutcome
  pub now : ℤ

abbrev pub guard_result : PurchaseOutcome → ℤ → FastPathGuardResult
guard_result o n = record { outcome = o; now = n }

abbrev max_ℤ : ℤ → ℤ → ℤ
max_ℤ a b = if ltb_ℤ a b then b else a

-- `Math.max(env.CLOCK_GUARD_SKEW_MS, 4 * clock.rttMs())`
abbrev pub skew : Clock → GuardEnv → ℤ
skew clock env =
    max_ℤ env.clock_guard_skew_ms ((clock.rtt +ℤ clock.rtt) +ℤ (clock.rtt +ℤ clock.rtt))

-- The comparison with the window that was cached, under the margin.
unfoldable pub guard_window : ℤ → ℤ → SaleSnapshot → Option FastPathGuardResult
guard_window now margin s =
    if ltb_ℤ now (s.starts_at_ms -ℤ margin)
    then some (guard_result sale_not_started now)
    else if leb_ℤ (s.ends_at_ms +ℤ margin) now
    then some (guard_result sale_ended now)
    else none

unfoldable pub evaluate_fast_path_guard :
    Clock → Option SaleSnapshotEntry → GuardEnv → Option FastPathGuardResult
evaluate_fast_path_guard clock none env = none
evaluate_fast_path_guard clock (some cached) env =
    if not clock.is_fresh
    then none
    else if not cached.snapshot.initialized || ltb_ℤ env.clock_max_staleness_ms cached.age_ms
    then none
    else guard_window clock.now (skew clock env) cached.snapshot

before_start :
    (now starts margin t : ℤ) → now <ℤ (starts -ℤ margin) → t ≤ℤ (now +ℤ margin) → t <ℤ starts
before_start now starts margin t h late = omega (int_laws, h, late)

after_end : (now ends margin t : ℤ) → (ends +ℤ margin) ≤ℤ now → now ≤ℤ (t +ℤ margin) → ends ≤ℤ t
after_end now ends margin t h early = omega (int_laws, h, early)

-- What a rejection says of the instant, by the outcome.
abbrev IsRejected : ℤ → ℤ → ℤ → FastPathGuardResult → Type 0
IsRejected starts ends t r =
    ((r.outcome ≡ sale_not_started) × (t <ℤ starts)) ⊎ ((r.outcome ≡ sale_ended) × (ends ≤ℤ t))

guard_window_lem :
    (now margin t : ℤ) (s : SaleSnapshot) (r : FastPathGuardResult)
    → guard_window now margin s ≡ some r
    → t ≤ℤ (now +ℤ margin)
    → now ≤ℤ (t +ℤ margin)
    → IsRejected s.starts_at_ms s.ends_at_ms t r
unfolding guard_window
guard_window_lem now margin t s r h late early =
    ground (arith, before_start now s.starts_at_ms margin t, after_end now s.ends_at_ms margin t)

-- The guard never turns down what Redis would have let through: if the pod's clock is off from that of
-- Redis by at most the margin, and the cached window is the one on file, a start before an end, then
-- purchase.lua at that instant replies the very outcome that the guard replies.
pub fast_path_sound :
    (clock : Clock) (cached : SaleSnapshotEntry) (env : GuardEnv) (r : FastPathGuardResult)
    (t : RedisTime) (user id : Text) (db : SaleDb)
    → evaluate_fast_path_guard clock (some cached) env ≡ some r
    → sale_window db.config ≡ some (cached.snapshot.starts_at_ms, cached.snapshot.ends_at_ms)
    → cached.snapshot.starts_at_ms <ℤ cached.snapshot.ends_at_ms
    → pos (now_ms t) ≤ℤ (clock.now +ℤ skew clock env)
    → clock.now ≤ℤ (pos (now_ms t) +ℤ skew clock env)
    → (Scripts.Purchase.purchase t user id db).0.code ≡ r.outcome
unfolding evaluate_fast_path_guard Scripts.Purchase.purchase decide
fast_path_sound clock cached env r t user id db h window order late early = ground (
  arith,
  λ (w : guard_window clock.now (skew clock env) cached.snapshot ≡ some r).
      guard_window_lem clock.now (skew clock env) (pos (now_ms t)) cached.snapshot r w late early,
)

-- ===== src/Api/Clock.antt =====
-- `RedisAnchoredClock` of apps/api/src/infra/clock.service.ts and the cache of
-- apps/api/src/infra/sale-snapshot.cache.ts that it fills. The readings of `Date.now` are arguments, in
-- whole milliseconds; the timers are the environment's.
use bookipi_technical_test.Prelude.{
  ℕ, ◌+◌, ◌-◌, ◌*◌, ◌/◌, ◌≡◌, Bool, true, false, Option, none, some, List, [], ◌∷◌, ◌++◌,
  if◌then◌else◌, ℤ, pos, negsuc, sub_ℕ, ltb_ℤ, leb_ℤ, ◌+ℤ◌, leb, ltb, length, drop, Outcome, ok,
  throw,
}
use bookipi_technical_test.Redis.Store.Methods.{SaleSnapshot}
use bookipi_technical_test.Api.Guard.{Clock, SaleSnapshotEntry, GuardEnv}
pub mod Laws

pub record ClockSample : Type 0 where
  pub offset_ms : ℤ
  pub rtt_ms : ℤ

-- `received_at_ms` and the snapshot of `SaleSnapshotCache`.
pub record CacheState : Type 0 where
  pub snapshot : SaleSnapshot
  pub received_at_ms : ℕ

pub record RedisAnchoredClock : Type 0 where
  pub samples : List ClockSample
  pub best : Option ClockSample
  pub last_sync_at_ms : Option ℕ
  pub snapshot_cache : Option CacheState

abbrev pub fresh_clock : RedisAnchoredClock
fresh_clock = record { samples = []; best = none; last_sync_at_ms = none; snapshot_cache = none }

-- One call of `status`: when it was made, what it gave, and when that came.
pub record Sync : Type 0 where
  pub t0 : ℕ
  pub reply : Outcome SaleSnapshot
  pub t1 : ℕ

abbrev rtt_sample_window : ℕ
rtt_sample_window = 5

-- `Math.round(serverTimeMs - (t0 + rtt / 2))`, which is half of 2 * serverTimeMs - t0 - t1, a half
-- rounded up.
unfoldable pub rounded_offset : ℕ → ℕ → ℕ → ℤ
rounded_offset server t0 t1 =
    if leb (t0 + t1) (2 * server + 1)
    then pos ((2 * server + 1 - (t0 + t1)) / 2)
    else negsuc ((t0 + t1 - 2 * server) / 2 - 1)

abbrev pub sample_of : ℕ → ℕ → ℕ → ClockSample
sample_of server t0 t1 = record { offset_ms = rounded_offset server t0 t1; rtt_ms = sub_ℕ t1 t0 }

-- `push`, then `shift` where there are more than five.
unfoldable pub push_sample : ClockSample → List ClockSample → List ClockSample
push_sample s samples =
    let pushed = samples ++ (s ∷ []) in
    if ltb rtt_sample_window (length pushed) then drop 1 pushed else pushed

abbrev pub lower : ClockSample → ClockSample → ClockSample
lower s best = if ltb_ℤ s.rtt_ms best.rtt_ms then s else best

-- The loop over the samples, with the lowest of those before.
unfoldable pub lowest_from : ClockSample → List ClockSample → ClockSample
lowest_from best [] = best
lowest_from best (s ∷ samples) = lowest_from (lower s best) samples

abbrev pub lowest : List ClockSample → Option ClockSample
lowest [] = none
lowest (s ∷ samples) = some (lowest_from s (s ∷ samples))

-- `attemptSync`
unfoldable pub attempt_sync : Sync → RedisAnchoredClock → Bool × RedisAnchoredClock
attempt_sync sync c = elim sync.reply [
  | throw e ↦ (false, c)
  | ok snapshot ↦ (
    true,
    record {
      samples = push_sample (sample_of snapshot.server_time_ms sync.t0 sync.t1) c.samples;
      best = lowest (push_sample (sample_of snapshot.server_time_ms sync.t0 sync.t1) c.samples);
      last_sync_at_ms = some sync.t1;
      snapshot_cache = some (record { snapshot = snapshot; received_at_ms = sync.t1 });
    },
  )
]

-- `this.best?.offsetMs ?? 0`
abbrev pub offset_of : Option ClockSample → ℤ
offset_of none = pos 0
offset_of (some s) = s.offset_ms

-- `this.best?.rttMs ?? 0`
abbrev pub rtt_of : Option ClockSample → ℤ
rtt_of none = pos 0
rtt_of (some s) = s.rtt_ms

unfoldable pub now_ms : RedisAnchoredClock → ℕ → ℤ
now_ms c date_now = pos date_now +ℤ offset_of c.best

-- `none` for infinity.
unfoldable pub age_ms : RedisAnchoredClock → ℕ → Option ℤ
age_ms c date_now = elim c.last_sync_at_ms [ none ↦ none | some t ↦ some (sub_ℕ date_now t) ]

unfoldable pub is_fresh : RedisAnchoredClock → GuardEnv → ℕ → Bool
is_fresh c env date_now = elim (age_ms c date_now) [
  | none ↦ false
  | some age ↦ leb_ℤ age env.clock_max_staleness_ms
]

-- `SaleSnapshotCache.get`
unfoldable pub get : RedisAnchoredClock → ℕ → Option SaleSnapshotEntry
get c date_now = elim c.snapshot_cache [
  | none ↦ none
  | some s ↦ some (record { snapshot = s.snapshot; age_ms = sub_ℕ date_now s.received_at_ms })
]

-- What the fast-path guard reads of the clock.
abbrev pub guard_clock : RedisAnchoredClock → GuardEnv → ℕ → Clock
guard_clock c env date_now = record {
  is_fresh = is_fresh c env date_now;
  now = now_ms c date_now;
  rtt = rtt_of c.best;
}

-- The syncs of a pod's life, in order.
abbrev pub sync_run : List Sync → RedisAnchoredClock → RedisAnchoredClock
sync_run [] c = c
sync_run (s ∷ syncs) c = sync_run syncs (attempt_sync s c).1

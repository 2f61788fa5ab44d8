-- ===== src/Api/Clock/Laws.antt =====
-- How far the clock of a pod is off from that of Redis after any run of syncs.
use bookipi_technical_test.Prelude.{
  ℕ, ◌+◌, ◌*◌, ◌≡◌, ◌≤◌, refl, Bool, true, false, ◌&&◌, Option, none, some, List, [], ◌∷◌, ◌++◌, ℤ,
  pos, pos_part, neg_part, leb_ℤ, ◌+ℤ◌, ◌≤ℤ◌, ◌<ℤ◌, leb, drop, ok, throw, arith, +ℤ_parts,
}
use bookipi_technical_test.Text.{Text}
use bookipi_technical_test.Redis.Db.{SaleDb, RedisTime}
use bookipi_technical_test.Redis.Db
use bookipi_technical_test.Redis.Scripts
use bookipi_technical_test.Redis.Scripts.Purchase.{sale_window}
use bookipi_technical_test.Api.Guard.{
  Clock, SaleSnapshotEntry, GuardEnv, FastPathGuardResult, evaluate_fast_path_guard, skew,
  fast_path_sound,
}
use bookipi_technical_test.Api.Clock.{
  ClockSample, RedisAnchoredClock, fresh_clock, Sync, rounded_offset, sample_of, push_sample,
  lowest_from, lower, lowest, attempt_sync, offset_of, rtt_of, now_ms, age_ms, is_fresh, get,
  guard_clock, sync_run,
}

-- The clock of Redis is the pod's, plus `ahead`, minus `behind`: Redis read it between the call and the
-- reply.
abbrev pub is_read_between : ℕ → ℕ → ℕ → ℕ → ℕ → Bool
is_read_between ahead behind server t0 t1 =
    leb (t0 + ahead) (server + behind) && leb (server + behind) (t1 + ahead)

abbrev pub is_honest : ℕ → ℕ → Sync → Bool
is_honest ahead behind sync = elim sync.reply [
  | throw e ↦ true
  | ok snapshot ↦ is_read_between ahead behind snapshot.server_time_ms sync.t0 sync.t1
]

abbrev pub all_honest : ℕ → ℕ → List Sync → Bool
all_honest ahead behind [] = true
all_honest ahead behind (s ∷ syncs) = is_honest ahead behind s && all_honest ahead behind syncs

-- The offset is off by half of the round trip, rounded up, at most.
abbrev within : ℕ → ℕ → ClockSample → Bool
within ahead behind s =
    leb (2 * (pos_part s.offset_ms + behind) + neg_part s.rtt_ms)
      (2 * (neg_part s.offset_ms + ahead) + pos_part s.rtt_ms + 1)
    && (leb (2 * (neg_part s.offset_ms + ahead) + neg_part s.rtt_ms)
          (2 * (pos_part s.offset_ms + behind) + pos_part s.rtt_ms + 1)
        && leb_ℤ (pos 0) s.rtt_ms)

abbrev all_within : ℕ → ℕ → List ClockSample → Bool
all_within ahead behind [] = true
all_within ahead behind (s ∷ samples) = within ahead behind s && all_within ahead behind samples

-- The best sample, where there is one.
abbrev is_known : ℕ → ℕ → Option ClockSample → Bool
is_known ahead behind none = true
is_known ahead behind (some s) = within ahead behind s

abbrev has_best : Option ClockSample → Bool
has_best none = false
has_best (some s) = true

-- A clock that has synced has a best sample.
abbrev is_based : Option ClockSample → Option ℕ → Bool
is_based best none = true
is_based best (some t) = has_best best

has_best-push :
    (s : ClockSample) (samples : List ClockSample)
    → has_best (lowest (push_sample s samples)) ≡ true
unfolding push_sample
has_best-push s [] = refl
has_best-push s (x ∷ []) = refl
has_best-push s (x ∷ y ∷ samples) = ground arith

abbrev IsSound : ℕ → ℕ → RedisAnchoredClock → Type 0
IsSound ahead behind c =
    (all_within ahead behind c.samples ≡ true)
    × (is_known ahead behind c.best ≡ true)
    × (is_based c.best c.last_sync_at_ms ≡ true)

module _ (ahead behind : ℕ) where
  sample_of-within :
      (server t0 t1 : ℕ)
      → is_read_between ahead behind server t0 t1 ≡ true
      → within ahead behind (sample_of server t0 t1) ≡ true
  unfolding rounded_offset
  sample_of-within server t0 t1 h = ground (arith, h)

  all_within-append :
      (samples : List ClockSample) (s : ClockSample)
      → all_within ahead behind samples ≡ true
      → within ahead behind s ≡ true
      → all_within ahead behind (samples ++ (s ∷ [])) ≡ true
  all_within-append [] s h hs = ground (arith, hs)
  all_within-append (x ∷ samples) s h hs = ground (arith, h, all_within-append samples s)

  all_within-drop :
      (samples : List ClockSample)
      → all_within ahead behind samples ≡ true
      → all_within ahead behind (drop 1 samples) ≡ true
  all_within-drop [] h = h
  all_within-drop (x ∷ samples) h = ground (arith, h)

  all_within-push :
      (samples : List ClockSample) (s : ClockSample)
      → all_within ahead behind samples ≡ true
      → within ahead behind s ≡ true
      → all_within ahead behind (push_sample s samples) ≡ true
  unfolding push_sample
  all_within-push samples s h hs = ground (
    arith,
    all_within-append samples s h hs,
    all_within-drop (samples ++ (s ∷ [])) (all_within-append samples s h hs),
  )

  within-lower :
      (s best : ClockSample)
      → within ahead behind s ≡ true
      → within ahead behind best ≡ true
      → within ahead behind (lower s best) ≡ true
  within-lower s best hs hb = ground (arith, hs, hb)

  lowest_from-within :
      (best : ClockSample) (samples : List ClockSample)
      → within ahead behind best ≡ true
      → all_within ahead behind samples ≡ true
      → within ahead behind (lowest_from best samples) ≡ true
  unfolding lowest_from
  lowest_from-within best [] hb h = hb
  lowest_from-within best (s ∷ samples) hb h =
      lowest_from-within (lower s best) samples (within-lower s best (ground (arith, h)) hb)
        (ground (arith, h))

  lowest-within :
      (samples : List ClockSample)
      → all_within ahead behind samples ≡ true
      → is_known ahead behind (lowest samples) ≡ true
  lowest-within [] h = refl
  lowest-within (s ∷ samples) h = lowest_from-within s (s ∷ samples) (ground (arith, h)) h

  attempt_sync-IsSound :
      (sync : Sync) (c : RedisAnchoredClock)
      → is_honest ahead behind sync ≡ true
      → IsSound ahead behind c
      → IsSound ahead behind (attempt_sync sync c).1
  unfolding attempt_sync
  attempt_sync-IsSound sync c honest sound =
      elim sync.reply
          as (λ r.
            is_honest ahead behind (record { t0 = sync.t0; reply = r; t1 = sync.t1 }) ≡ true
            → IsSound ahead behind
                (attempt_sync (record { t0 = sync.t0; reply = r; t1 = sync.t1 }) c).1) [
                  | throw e ↦ λ _. sound
                  | ok snapshot ↦ λ h.
                      let kept =
                        all_within-push c.samples
                          (sample_of snapshot.server_time_ms sync.t0 sync.t1) sound.0
                          (sample_of-within snapshot.server_time_ms sync.t0 sync.t1 h) in
                      (
                        kept,
                        lowest-within
                            (push_sample (sample_of snapshot.server_time_ms sync.t0 sync.t1)
                              c.samples)
                            kept,
                        has_best-push (sample_of snapshot.server_time_ms sync.t0 sync.t1) c.samples,
                      )
                ]
        honest

  sync_run-IsSound :
      (syncs : List Sync) (c : RedisAnchoredClock)
      → all_honest ahead behind syncs ≡ true
      → IsSound ahead behind c
      → IsSound ahead behind (sync_run syncs c)
  sync_run-IsSound [] c h sound = sound
  sync_run-IsSound (s ∷ syncs) c h sound =
      sync_run-IsSound syncs (attempt_sync s c).1 (ground (arith, h))
        (attempt_sync-IsSound s c (ground (arith, h)) sound)

-- The margin of the guard covers half of the round trip, rounded up.
skew_lem :
    (clock : Clock) (env : GuardEnv)
    → leb_ℤ (pos 0) clock.rtt ≡ true
    → leb_ℤ (pos 1) env.clock_guard_skew_ms ≡ true
    → pos_part clock.rtt + 1 + 2 * neg_part (skew clock env)
      ≤ 2 * pos_part (skew clock env) + neg_part clock.rtt
unfolding ◌+ℤ◌
skew_lem clock env h wide = ground (arith, h, wide)

abbrev IsNear : ℤ → ℕ → ℤ → Type 0
IsNear at now margin = (pos now ≤ℤ (at +ℤ margin)) × (at ≤ℤ (pos now +ℤ margin))

IsNear-within :
    (ahead behind date_now now : ℕ) (s : ClockSample) (margin : ℤ)
    → within ahead behind s ≡ true
    → now + behind ≡ date_now + ahead
    → pos_part s.rtt_ms + 1 + 2 * neg_part margin ≤ 2 * pos_part margin + neg_part s.rtt_ms
    → IsNear (pos date_now +ℤ s.offset_ms) now margin
IsNear-within ahead behind date_now now s margin h same wide = ground (
  arith,
  h,
  same,
  wide,
  +ℤ_parts (pos date_now) s.offset_ms,
  +ℤ_parts (pos date_now +ℤ s.offset_ms) margin,
  +ℤ_parts (pos now) margin,
)

abbrev clock_at : Bool → ℤ → Option ClockSample → Clock
clock_at fresh now best = record { is_fresh = fresh; now = now; rtt = rtt_of best }

IsNear-best :
    (ahead behind date_now now : ℕ) (env : GuardEnv) (fresh : Bool) (at : ℤ)
    (best : Option ClockSample)
    → is_known ahead behind best ≡ true
    → has_best best ≡ true
    → now + behind ≡ date_now + ahead
    → leb_ℤ (pos 1) env.clock_guard_skew_ms ≡ true
    → IsNear (pos date_now +ℤ offset_of best) now (skew (clock_at fresh at best) env)
IsNear-best ahead behind date_now now env fresh at none is based same wide =
    absurd (ground (arith, based))
IsNear-best ahead behind date_now now env fresh at (some s) is based same wide =
    IsNear-within ahead behind date_now now s _ is same
      (skew_lem (clock_at fresh at (some s)) env (ground (arith, is)) wide)

-- A clock that is fresh has synced.
fresh_based :
    (env : GuardEnv) (date_now : ℕ) (best : Option ClockSample) (c : RedisAnchoredClock)
    → is_fresh c env date_now ≡ true
    → is_based best c.last_sync_at_ms ≡ true
    → has_best best ≡ true
unfolding is_fresh age_ms
fresh_based env date_now best c fresh based = ground (arith, fresh, based)

rejects_fresh :
    (clock : Clock) (cached : SaleSnapshotEntry) (env : GuardEnv) (r : FastPathGuardResult)
    → evaluate_fast_path_guard clock (some cached) env ≡ some r
    → clock.is_fresh ≡ true
unfolding evaluate_fast_path_guard
rejects_fresh clock cached env r h = ground (arith, h)

-- Let the clock of Redis be the pod's plus `ahead` minus `behind`, and let it have been read, by each
-- sync that succeeded, between the call and the reply. Then, with a configured margin of a millisecond at
-- least, whatever syncs a pod has made, failed ones between them: what the guard turns down on the clock
-- and the cache that they left, purchase.lua would have turned down at that instant with the same
-- outcome, provided that the cached window is the one on file, its start before its end.
pub guard_after_syncs :
    (ahead behind : ℕ) (syncs : List Sync) (date_now : ℕ) (cached : SaleSnapshotEntry)
    (env : GuardEnv) (r : FastPathGuardResult) (t : RedisTime) (user id : Text) (db : SaleDb)
    → all_honest ahead behind syncs ≡ true
    → Db.now_ms t + behind ≡ date_now + ahead
    → leb_ℤ (pos 1) env.clock_guard_skew_ms ≡ true
    → get (sync_run syncs fresh_clock) date_now ≡ some cached
    → evaluate_fast_path_guard
        (guard_clock (sync_run syncs fresh_clock) env date_now)
        (get (sync_run syncs fresh_clock) date_now)
        env
      ≡ some r
    → sale_window db.config ≡ some (cached.snapshot.starts_at_ms, cached.snapshot.ends_at_ms)
    → cached.snapshot.starts_at_ms <ℤ cached.snapshot.ends_at_ms
    → (Scripts.Purchase.purchase t user id db).0.code ≡ r.outcome
unfolding now_ms
guard_after_syncs ahead behind syncs date_now cached env r t user id db honest same wide read h
      window order =
    let c = sync_run syncs fresh_clock in
    let sound = sync_run-IsSound ahead behind syncs fresh_clock honest (refl, refl, refl) in
    let rejected : evaluate_fast_path_guard (guard_clock c env date_now) (some cached) env
        ≡ some r =
      cc (read, h) in
    let near =
      IsNear-best ahead behind date_now (Db.now_ms t) env (is_fresh c env date_now)
        (now_ms c date_now) c.best sound.1
        (fresh_based env date_now c.best c
          (rejects_fresh (guard_clock c env date_now) cached env r rejected) sound.2)
        same wide in
    fast_path_sound (guard_clock c env date_now) cached env r t user id db rejected window order
      near.0 near.1

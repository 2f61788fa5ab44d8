-- ===== src/Worker/Health/Runs.antt =====
-- The readiness of a worker over any sequence of passes, sweeps, failures and probes.
use bookipi_technical_test.Prelude.{
  ℕ, ◌+◌, ◌*◌, ◌≤◌, ◌≡◌, ◌↔◌, Bool, true, false, not, ◌&&◌, ◌||◌, Option, none, some, List, [], ◌∷◌,
  arith,
}
use bookipi_technical_test.Worker.Env.{WorkerEnv}
use bookipi_technical_test.Worker.Health.{
  ReconciliationState, PassResult, fail_state, pass_state, sweep_state, stop_state,
  terminated_state, is_reconciliation_healthy, readiness,
}

-- What may happen to a worker between two readings of its readiness.
pub data HealthEvent : Type 0 where
  passed : PassResult → HealthEvent
  swept : ℕ → HealthEvent
  failed_once terminated stopped : HealthEvent
  probed : ℕ → HealthEvent

unfoldable pub health_step :
    WorkerEnv → HealthEvent → ReconciliationState × Option ℕ → ReconciliationState × Option ℕ
health_step env (passed r) (s, t) = (pass_state r s, t)
health_step env (swept n) (s, t) = (sweep_state n s, t)
health_step env failed_once (s, t) = (fail_state s, t)
health_step env terminated (s, t) = (terminated_state s, t)
health_step env stopped (s, t) = (stop_state s, t)
health_step env (probed now) (s, t) = (s, (readiness env now s t).1)

unfoldable pub health_run :
    WorkerEnv → List HealthEvent → ReconciliationState × Option ℕ → ReconciliationState × Option ℕ
health_run env [] h = h
health_run env (e ∷ es) h = health_run env es (health_step env e h)

-- No pass of the run ends healthy.
unfoldable pub no_recovery : List HealthEvent → Bool
no_recovery [] = true
no_recovery (passed r ∷ es) = r.degraded && no_recovery es
no_recovery (_ ∷ es) = no_recovery es

abbrev pub is_confirmed : ReconciliationState → Bool
is_confirmed s = not s.reconciliation_healthy && s.reconciliation_failure_confirmed

-- Only passes that are degraded, and probes.
unfoldable pub only_flaps : List HealthEvent → Bool
only_flaps [] = true
only_flaps (passed r ∷ es) = r.degraded && only_flaps es
only_flaps (probed now ∷ es) = only_flaps es
only_flaps (_ ∷ es) = false

abbrev pub is_flapping : ReconciliationState → Bool
is_flapping s =
    (s.bootstrap_reconciled && s.consumer_ready)
    && not (s.reconciliation_healthy || s.reconciliation_failure_confirmed)

flap_step :
    (env : WorkerEnv) (e : HealthEvent) (es : List HealthEvent) (h : ReconciliationState × Option ℕ)
    (first : ℕ)
    → is_flapping h.0 ≡ true
    → h.1 ≡ some first
    → only_flaps (e ∷ es) ≡ true
    → (is_flapping (health_step env e h).0 ≡ true)
      × ((health_step env e h).1 ≡ some first)
      × (only_flaps es ≡ true)
unfolding health_step only_flaps pass_state readiness is_reconciliation_healthy
flap_step env (passed r) es (s, t) first f k o = ground arith
flap_step env (probed now) es (s, t) first f k o = ground arith
flap_step env (swept n) es (s, t) first f k o = absurd (ground (arith, o))
flap_step env failed_once es (s, t) first f k o = absurd (ground (arith, o))
flap_step env terminated es (s, t) first f k o = absurd (ground (arith, o))
flap_step env stopped es (s, t) first f k o = absurd (ground (arith, o))

flap_run :
    (env : WorkerEnv) (es : List HealthEvent) (h : ReconciliationState × Option ℕ) (first : ℕ)
    → is_flapping h.0 ≡ true
    → h.1 ≡ some first
    → only_flaps es ≡ true
    → (is_flapping (health_run env es h).0 ≡ true) × ((health_run env es h).1 ≡ some first)
unfolding health_run
flap_run env [] h first f k o = (f, k)
flap_run env (e ∷ es) h first f k o =
    let (f', k', o') = flap_step env e es h first f k o in
    flap_run env es (health_step env e h) first f' k' o'

-- An unconfirmed flip of a worker that is ready is forgiven for five reconcile intervals, counted from
-- the first probe that sees it, and no longer: whatever degraded passes and probes come meanwhile, a
-- probe replies ok exactly up to that time.
pub grace_window :
    (env : WorkerEnv) (es : List HealthEvent) (s : ReconciliationState) (first now : ℕ)
    → is_flapping s ≡ true
    → only_flaps es ≡ true
    → let (s', since') = health_run env (probed first ∷ es) (s, none) in
      ((readiness env now s' since').0 ≡ true)
      ↔ (now ≤ first + env.worker_reconcile_interval_ms * 5)
unfolding health_run health_step readiness is_reconciliation_healthy
grace_window env es s first now f o =
    ground (arith, flap_run env es (health_step env (probed first) (s, none)) first)

-- ===== src/Worker/Health.antt =====
-- The state that the reconciler shares with its readiness probe
-- (apps/worker/src/reconciliation/reconciliation.service.ts), and the probe
-- (apps/worker/src/health/health.service.ts). The timestamps and the counters of the state decide
-- nothing and are left out.
use bookipi_technical_test.Prelude.{
  ℕ, ◌+◌, ◌-◌, ◌*◌, ◌≤◌, max, ◌≡◌, ◌↔◌, refl, Bool, true, false, not, ◌&&◌, ◌||◌, Option, none,
  some, List, [], ◌∷◌, arith, leb, ltb, if◌then◌else◌,
}
use bookipi_technical_test.Worker.Env.{WorkerEnv}
pub mod Runs

pub record ReconciliationState : Type 0 where
  pub bootstrap_reconciled : Bool
  pub consumer_ready : Bool
  pub reconciliation_healthy : Bool
  pub retained_queue_entries : ℕ
  pub reconciliation_failure_confirmed : Bool

-- `createReconciliationState`
abbrev pub initial_state : ReconciliationState
initial_state = record {
  bootstrap_reconciled = false;
  consumer_ready = false;
  reconciliation_healthy = false;
  retained_queue_entries = 0;
  reconciliation_failure_confirmed = false;
}

-- `ReconciliationPassResult`
pub record PassResult : Type 0 where
  pub degraded : Bool
  pub queue_issue_count : ℕ

-- `fail`
unfoldable pub fail_state : ReconciliationState → ReconciliationState
fail_state s = record s { reconciliation_healthy = false; reconciliation_failure_confirmed = true }

-- The end of a periodic pass, in `runContinuousPass`.
unfoldable pub pass_state : PassResult → ReconciliationState → ReconciliationState
pass_state r s = record s {
  retained_queue_entries = r.queue_issue_count;
  reconciliation_healthy = not r.degraded;
  reconciliation_failure_confirmed =
      if not r.degraded || s.reconciliation_healthy
      then false
      else s.reconciliation_failure_confirmed;
}

-- The end of a sweep, in `triggerDlqSweep`.
unfoldable pub sweep_state : ℕ → ReconciliationState → ReconciliationState
sweep_state retained s =
    if ltb 0 retained
    then record s {
      retained_queue_entries = max s.retained_queue_entries retained;
      reconciliation_healthy = false;
      reconciliation_failure_confirmed = true;
    }
    else s

-- `stopLifecycle` and `cleanupHalfTransition`: the worker is not ready in any respect.
unfoldable pub stop_state : ReconciliationState → ReconciliationState
stop_state s = record s {
  bootstrap_reconciled = false;
  consumer_ready = false;
  reconciliation_healthy = false;
  reconciliation_failure_confirmed = true;
}

-- `handleUnexpectedConsumerTermination`
unfoldable pub terminated_state : ReconciliationState → ReconciliationState
terminated_state s = record s {
  consumer_ready = false;
  reconciliation_healthy = false;
  reconciliation_failure_confirmed = true;
}

-- After the boot pass, in `startLifecycle`.
unfoldable pub booted_state : PassResult → ReconciliationState → ReconciliationState
booted_state r s = record s {
  bootstrap_reconciled = false;
  consumer_ready = false;
  reconciliation_healthy = false;
  retained_queue_entries = r.queue_issue_count;
}

-- The end of the transition, in `startLifecycle`.
unfoldable pub live_state : PassResult → ReconciliationState → ReconciliationState
live_state r s = record s {
  bootstrap_reconciled = true;
  consumer_ready = true;
  reconciliation_healthy = not r.degraded;
  reconciliation_failure_confirmed = r.degraded;
}

abbrev pub grace_cycles : ℕ
grace_cycles = 5

abbrev since_or : Option ℕ → ℕ → ℕ
since_or none now = now
since_or (some t) now = t

-- `isReconciliationHealthy`: the reply and `unhealthySinceMs`. The difference of two readings of the
-- clock is at most the budget also where the clock went back.
unfoldable pub is_reconciliation_healthy :
    WorkerEnv → ℕ → ReconciliationState → Option ℕ → Bool × Option ℕ
is_reconciliation_healthy env now s since =
    if s.reconciliation_healthy
    then (true, none)
    else if s.reconciliation_failure_confirmed
    then (false, none)
    else (
      leb (now - since_or since now) (env.worker_reconcile_interval_ms * grace_cycles),
      some (since_or since now),
    )

-- `readiness`: whether the status is `ok`.
unfoldable pub readiness : WorkerEnv → ℕ → ReconciliationState → Option ℕ → Bool × Option ℕ
readiness env now s since =
    let (healthy, since') = is_reconciliation_healthy env now s since in
    (s.bootstrap_reconciled && (s.consumer_ready && healthy), since')

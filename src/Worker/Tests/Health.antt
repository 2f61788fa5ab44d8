-- ===== src/Worker/Tests/Health.antt =====
-- The theorems on the readiness, at a confirmed and at an unconfirmed failure.
use bookipi_technical_test.Prelude.{◌+◌, ◌*◌, ◌≤◌, ◌≡◌, ◌↔◌, refl, true, false, none, [], ◌∷◌}
use bookipi_technical_test.Worker.Health.{ReconciliationState, PassResult, readiness}
use bookipi_technical_test.Worker.Health.Runs.{passed, probed, health_run, only_flaps, grace_window}
use bookipi_technical_test.Worker.Tests.{test_env}

abbrev ready : ReconciliationState
ready = record {
  bootstrap_reconciled = true;
  consumer_ready = true;
  reconciliation_healthy = false;
  retained_queue_entries = 1;
  reconciliation_failure_confirmed = false;
}

abbrev degraded_pass : PassResult
degraded_pass = record { degraded = true; queue_issue_count = 1 }

abbrev confirmed : ReconciliationState
confirmed = record ready { reconciliation_failure_confirmed = true }

grace_window_example :
    let (s, since) =
      health_run test_env (probed 100 ∷ passed degraded_pass ∷ probed 3000 ∷ []) (ready, none) in
    ((readiness test_env 10100 s since).0 ≡ true)
    ↔ (10100 ≤ 100 + test_env.worker_reconcile_interval_ms * 5)
unfolding only_flaps
grace_window_example =
    grace_window test_env (passed degraded_pass ∷ probed 3000 ∷ []) ready 100 10100 refl refl

-- ===== src/Worker/Env.antt =====
-- The values of apps/worker/src/config/env.ts that the worker's decisions read.
use bookipi_technical_test.Prelude.{ℕ, ℤ}
use bookipi_technical_test.Text.{Text}

pub record WorkerEnv : Type 0 where
  pub sale_id : Text
  pub sale_name : Text
  pub sale_total_stock : ℤ
  pub sale_starts_at : Text
  pub sale_ends_at : Text
  pub worker_reconcile_interval_ms : ℕ
  pub worker_reconcile_scan_count : ℕ
  pub worker_dlq_scan_count : ℕ

-- ===== src/Worker/World.antt =====
-- What a pass of apps/worker/src/reconciliation/reconciliation.service.ts reads and changes: the two
-- stores, the queue, the service's own fields, and the maps and incidents that a pass shares with the
-- functions that it calls.
use bookipi_technical_test.Prelude.{ℕ, Bool, not, List, ◌∷◌, Outcome, lifecycle_abort, ok}
use bookipi_technical_test.Text.{Text}
use bookipi_technical_test.Redis.Db.{SaleDb}
use bookipi_technical_test.Redis.Hash.{Hash}
use bookipi_technical_test.Redis.Store.Entry.{ReservationEntry}
use bookipi_technical_test.Worker.Step.{Step, ensure}
use bookipi_technical_test.Worker.Orders.{Stores, DurableOrder}

-- The three kinds of message that a pass collects in `recoveryIncidents`, with the user that each names.
pub data Incident : Type 0 where
  retained_collision : Text → Incident
  conflicting_queue_identity : Text → Incident
  conflicting_persisted_identity : Text → Incident

pub record World (Q : Type 0) : Type 0 where
  pub stores : Stores
  pub queue : Q
  pub failed_scan_offset : ℕ
  pub failed_jobs : ℕ
  pub active_jobs : ℕ
  pub aborted : Bool
  pub by_user : Hash DurableOrder
  pub ledger_by_user : Hash ReservationEntry
  pub incidents : List Incident

module _ {Q : Type 0} where
  abbrev pub on_stores : {A : Type 0} → Step Stores A → Step (World Q) A
  on_stores f w = let (a, s) = f w.stores in (a, record w { stores = s })

  abbrev pub on_queue : {A : Type 0} → Step Q A → Step (World Q) A
  on_queue f w = let (a, q) = f w.queue in (a, record w { queue = q })

  abbrev pub on_db : {A : Type 0} → Step SaleDb A → Step (World Q) A
  on_db f w = let (a, db) = f w.stores.db in (a, record w { stores = record w.stores { db = db } })

  -- A read of Redis.
  abbrev pub read_db : {A : Type 0} → (SaleDb → Outcome A) → Step (World Q) A
  read_db f w = (f w.stores.db, w)

  abbrev pub report : Incident → Step (World Q) (Unit {0})
  report i w = (ok tt, record w { incidents = i ∷ w.incidents })

  -- `checkpoint`: `signal.throwIfAborted()`
  abbrev pub checkpoint : Step (World Q) (Unit {0})
  checkpoint w = ensure (not w.aborted) lifecycle_abort w

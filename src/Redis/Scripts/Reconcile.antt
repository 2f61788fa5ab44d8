-- ===== src/Redis/Scripts/Reconcile.antt =====
-- The two corrections of the stock: reconcile.lua sets it to the caller's number, and
-- reconcile-state.lua derives it from the reservations that are on file.
use bookipi_technical_test.Prelude.{ℕ, ◌||◌, none, some, ℤ, pos, negsuc, ltb_ℤ, ◌-ℤ◌, if◌then◌else◌}
use bookipi_technical_test.Redis.Hash.{hlen}
use bookipi_technical_test.Redis.Db.{SaleDb, get_or}

pub data ReconcileOutcome : Type 0 where
  reconciled not_initialized : ReconcileOutcome

pub record ReconcileReply : Type 0 where
  pub code : ReconcileOutcome
  pub previous_stock : ℤ
  pub new_stock : ℤ

unfoldable pub reconcile : ℤ → SaleDb → ReconcileReply × SaleDb
reconcile n db = elim db.config [
  | none ↦ (record { code = not_initialized; previous_stock = negsuc 0; new_stock = negsuc 0 }, db)
  | some _ ↦ (
    record { code = reconciled; previous_stock = get_or db.stock (negsuc 0); new_stock = n },
    record db { stock = some n },
  )
]

pub data ReconcileStateOutcome : Type 0 where
  reconciled not_initialized overcommitted : ReconcileStateOutcome

pub record ReconcileStateReply : Type 0 where
  pub code : ReconcileStateOutcome
  pub previous_stock : ℤ
  pub new_stock : ℤ
  pub reservation_count : ℕ
  pub total_stock : ℤ

abbrev pub state_reply : ReconcileStateOutcome → ℤ → ℤ → ℕ → ℤ → ReconcileStateReply
state_reply code previous new count total = record {
  code = code;
  previous_stock = previous;
  new_stock = new;
  reservation_count = count;
  total_stock = total;
}

unfoldable pub reconcile_state : SaleDb → ReconcileStateReply × SaleDb
reconcile_state db = elim db.config [
  | none ↦
      (state_reply ReconcileStateOutcome.not_initialized (negsuc 0) (negsuc 0) 0 (negsuc 0), db)
  | some c ↦
      let total = get_or c.total_stock (negsuc 0) in
      let count = hlen db.reservations in
      let previous = get_or db.stock (negsuc 0) in
      let desired = total -ℤ pos count in
      if ltb_ℤ total (pos 0) || ltb_ℤ total (pos count)
      then (state_reply overcommitted previous previous count total, db)
      else (
        state_reply ReconcileStateOutcome.reconciled previous desired count total,
        record db { stock = some desired },
      )
]

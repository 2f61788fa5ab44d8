-- ===== src/Worker/Recovery.antt =====
-- How a pass brings back a reservation that Redis lost, from an order or a job, and how it decides on a
-- buyer without a reservation: `applyRecoveryCandidate`, `resolveBuyerInspection` and
-- `adjudicateBuyerOnly` of apps/worker/src/reconciliation/reconciliation.service.ts.
mod Restore
mod Decide
pub mod Keeps
pub mod Laws
pub use bookipi_technical_test.Worker.Recovery.Restore.{
  Candidate, Source, from_persisted, from_queue, candidate_object, is_compensated_row, is_collision,
  durable_of, note_order, note_entry, when,
}
unfoldable pub use bookipi_technical_test.Worker.Recovery.Restore.{
  on_conflict, apply_recovery_candidate,
}
pub use bookipi_technical_test.Worker.Recovery.Decide.{
  collided, repair_membership, cover_entry, resolve_by, order_candidate, job_candidate,
  queue_candidate, of_sale, targeted_of,
}
unfoldable pub use bookipi_technical_test.Worker.Recovery.Decide.{
  resolve_buyer_inspection, decide_buyer, resolve_finally, adjudicate_buyer_only,
}

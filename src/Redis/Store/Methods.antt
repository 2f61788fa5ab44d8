-- ===== src/Redis/Store/Methods.antt =====
-- The methods of the store that call one script, and its two plain reads.
mod Purchasing
mod Seeding
mod Buyers
mod Snapshot
pub use bookipi_technical_test.Redis.Store.Methods.Purchasing.{
  Method, checked, PurchaseResult, confirmed_id, CompensateResult,
}
unfoldable pub use bookipi_technical_test.Redis.Store.Methods.Purchasing.{
  decode_purchase, purchase, decode_compensate, compensate,
}
pub use bookipi_technical_test.Redis.Store.Methods.Seeding.{
  SaleConfigInput, parsed_window, SeedResult, ReconcileResult, ReconcileStateResult,
}
unfoldable pub use bookipi_technical_test.Redis.Store.Methods.Seeding.{
  decode_seed, seed, decode_reconcile, reconcile_stock, decode_reconcile_state,
  reconcile_stock_from_reservations,
}
pub use bookipi_technical_test.Redis.Store.Methods.Buyers.{RestoreResult, restore_input}
unfoldable pub use bookipi_technical_test.Redis.Store.Methods.Buyers.{
  get_reservation, inspect_reservation_membership, reconcile_buyer_membership, decode_restore,
  compare_and_restore_reservation,
}
pub use bookipi_technical_test.Redis.Store.Methods.Snapshot.{SaleSnapshot}
unfoldable pub use bookipi_technical_test.Redis.Store.Methods.Snapshot.{
  decode_status, status, has_purchased,
}

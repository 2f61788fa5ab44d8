-- ===== src/Redis/Store/Methods/Buyers.antt =====
-- The methods that read and repair one buyer: `getReservation`, `inspectReservationMembership`,
-- `reconcileBuyerMembership` and `compareAndRestoreReservation`.
use bookipi_technical_test.Prelude.{
  ℕ, Option, none, some, ℤ, pos, negsuc, Outcome, ok, throw, ◌>>=◌, ◌>>◌,
}
use bookipi_technical_test.Text.{Text}
use bookipi_technical_test.Shared.Keys.{assert_sale_id}
use bookipi_technical_test.Shared.UserId.{assert_user_id}
use bookipi_technical_test.Redis.Hash.{hget}
use bookipi_technical_test.Redis.Db.{SaleDb}
use bookipi_technical_test.Redis.Scripts
use bookipi_technical_test.Redis.Scripts.Membership.{
  MembershipOutcome, RestoreOutcome, RestoreReply, InspectOutcome,
}
use bookipi_technical_test.Redis.Store.Entry.{
  assert_member, membership_word, membership_outcomes, restore_word, restore_outcomes, inspect_word,
  ReservationEntry, parse_reservation_entry, ReservationInspection, decode_inspection, RestoreInput,
}
use bookipi_technical_test.Redis.Store.Methods.Purchasing.{Method, checked}

abbrev entry_or_null : Text → Option Text → Outcome (Option ReservationEntry)
entry_or_null user none = ok none
entry_or_null user (some v) = parse_reservation_entry user v >>= λ e. ok (some e)

unfoldable pub get_reservation : Text → Text → SaleDb → Outcome (Option ReservationEntry)
get_reservation sale user db = do
  assert_sale_id sale
  entry_or_null user (hget user db.reservations)

unfoldable pub inspect_reservation_membership : Text → Text → SaleDb → Outcome ReservationInspection
inspect_reservation_membership sale user db = do
  assert_sale_id sale
  assert_user_id user
  let (outcome, value) = Scripts.Membership.inspect user db
  decode_inspection user (inspect_word outcome, value)

unfoldable pub reconcile_buyer_membership : Text → Text → Method MembershipOutcome
reconcile_buyer_membership sale user =
    checked (assert_sale_id sale) (Scripts.Membership.reconcile_membership user)
      (λ code. assert_member membership_word membership_outcomes (membership_word code))

pub record RestoreResult : Type 0 where
  pub outcome : RestoreOutcome
  pub current : Option ReservationEntry

unfoldable pub decode_restore : Text → RestoreReply → Outcome RestoreResult
decode_restore user reply = do
  outcome ← assert_member restore_word restore_outcomes (restore_word reply.code)
  entry ← parse_reservation_entry user reply.current
  ok (record { outcome = outcome; current = some entry })

-- The time is no negative number once it is checked.
abbrev whole_time : ℤ → ℕ
whole_time (pos n) = n
whole_time (negsuc n) = 0

abbrev pub restore_input : Outcome RestoreInput → Method RestoreResult
restore_input (throw e) db = (throw e, db)
restore_input (ok i) db =
    checked (ok tt)
      (Scripts.Membership.compare_restore i.user_id i.reservation_id (whole_time i.reserved_at_ms))
      (decode_restore i.user_id) db

-- `compareAndRestoreReservation` on an input that its checks have let through; the checks are
-- `assert_restore_input`.
unfoldable pub compare_and_restore_reservation : Text → Outcome RestoreInput → Method RestoreResult
compare_and_restore_reservation sale input = restore_input (assert_sale_id sale >> input)

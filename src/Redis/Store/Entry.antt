-- ===== src/Redis/Store/Entry.antt =====
-- The words of the scripts' replies, and the texts of the reservation ledger, as the store reads them.
use bookipi_technical_test.Prelude.{
  ℕ, Bool, true, false, not, ◌&&◌, Option, none, some, List, [], ◌∷◌, leb, ◌==◌, length,
  if◌then◌else◌, ℤ, Outcome, ok, throw, plain_error, type_error, guard, ◌>>=◌, ◌>>◌,
}
use bookipi_technical_test.Text.{Text, codes, text_eq, split_at, contains_code, parse_decimal}
use bookipi_technical_test.Shared.Uuid.{is_uuid}
use bookipi_technical_test.Shared.Queue.{
  JsValue, object, not_object, PropertyKey, name, symbol, Scalar, property, includes, user_id_value,
  text_value, time_value,
}
use bookipi_technical_test.Redis.Scripts.Compensate.{
  CompensateOutcome, compensated, compensated_capped, noop,
}
use bookipi_technical_test.Redis.Scripts.Seed.{
  SeedOutcome, seeded, already_seeded, config_drift, stock_missing,
}
use bookipi_technical_test.Redis.Scripts.Reconcile.{ReconcileOutcome, ReconcileStateOutcome}
use bookipi_technical_test.Redis.Scripts.Membership.{
  MembershipOutcome, present, absent, RestoreOutcome, restored, already_matched, conflict,
  InspectOutcome, both, neither, buyer_only, reservation_only,
}

-- `assertMember`: the word of a reply must be one of those allowed.
unfoldable pub assert_member : {C : Type 0} → (C → Text) → List C → Text → Outcome C
assert_member word [] value = throw plain_error
assert_member word (c ∷ cs) value =
    if text_eq (word c) value then ok c else assert_member word cs value

abbrev pub compensate_word : CompensateOutcome → Text
compensate_word compensated = codes "COMPENSATED"
compensate_word compensated_capped = codes "COMPENSATED_CAPPED"
compensate_word noop = codes "NOOP"

abbrev pub compensate_outcomes : List CompensateOutcome
compensate_outcomes = compensated ∷ compensated_capped ∷ noop ∷ []

abbrev pub seed_word : SeedOutcome → Text
seed_word seeded = codes "SEEDED"
seed_word already_seeded = codes "ALREADY_SEEDED"
seed_word config_drift = codes "CONFIG_DRIFT"
seed_word stock_missing = codes "STOCK_MISSING"

abbrev pub seed_outcomes : List SeedOutcome
seed_outcomes = seeded ∷ already_seeded ∷ config_drift ∷ stock_missing ∷ []

abbrev pub reconcile_word : ReconcileOutcome → Text
reconcile_word ReconcileOutcome.reconciled = codes "RECONCILED"
reconcile_word ReconcileOutcome.not_initialized = codes "NOT_INITIALIZED"

abbrev pub reconcile_outcomes : List ReconcileOutcome
reconcile_outcomes = ReconcileOutcome.reconciled ∷ ReconcileOutcome.not_initialized ∷ []

abbrev pub reconcile_state_word : ReconcileStateOutcome → Text
reconcile_state_word ReconcileStateOutcome.reconciled = codes "RECONCILED"
reconcile_state_word ReconcileStateOutcome.not_initialized = codes "NOT_INITIALIZED"
reconcile_state_word ReconcileStateOutcome.overcommitted = codes "OVERCOMMITTED"

abbrev pub reconcile_state_outcomes : List ReconcileStateOutcome
reconcile_state_outcomes =
    ReconcileStateOutcome.reconciled ∷ ReconcileStateOutcome.not_initialized
    ∷ ReconcileStateOutcome.overcommitted ∷ []

abbrev pub membership_word : MembershipOutcome → Text
membership_word present = codes "PRESENT"
membership_word absent = codes "ABSENT"

abbrev pub membership_outcomes : List MembershipOutcome
membership_outcomes = present ∷ absent ∷ []

abbrev pub restore_word : RestoreOutcome → Text
restore_word restored = codes "RESTORED"
restore_word already_matched = codes "ALREADY_MATCHED"
restore_word conflict = codes "CONFLICT"

abbrev pub restore_outcomes : List RestoreOutcome
restore_outcomes = restored ∷ already_matched ∷ conflict ∷ []

abbrev pub inspect_word : InspectOutcome → Text
inspect_word both = codes "BOTH"
inspect_word neither = codes "NEITHER"
inspect_word buyer_only = codes "BUYER_ONLY"
inspect_word reservation_only = codes "RESERVATION_ONLY"

abbrev pub inspect_outcomes : List InspectOutcome
inspect_outcomes = both ∷ neither ∷ buyer_only ∷ reservation_only ∷ []

-- One entry of the ledger; a value with no time is from before the suffix.
pub record ReservationEntry : Type 0 where
  pub user_id : Text
  pub reservation_id : Text
  pub reserved_at_ms : Option ℕ

abbrev safe_decimal : Text → Outcome ℕ
safe_decimal s = elim (parse_decimal s) [
  | none ↦ throw plain_error
  | some n ↦ if leb n 9007199254740991 then ok n else throw plain_error
]

-- A second colon, a name that is no UUID, and a time that is not a safe decimal are errors.
unfoldable pub parse_reservation_entry : Text → Text → Outcome ReservationEntry
parse_reservation_entry user value = elim (split_at b':' value) [
  | none ↦
      if is_uuid value
      then ok (record { user_id = user; reservation_id = value; reserved_at_ms = none })
      else throw plain_error
  | some (id, rest) ↦
      if contains_code b':' rest
      then throw plain_error
      else if not (is_uuid id)
      then throw plain_error
      else safe_decimal rest >>= λ at.
          ok (record { user_id = user; reservation_id = id; reserved_at_ms = some at })
]

pub record ReservationInspection : Type 0 where
  pub outcome : InspectOutcome
  pub reservation : Option ReservationEntry

abbrev reservation_bearing : InspectOutcome → Bool
reservation_bearing both = true
reservation_bearing reservation_only = true
reservation_bearing _ = false

abbrev pub is_empty : Text → Bool
is_empty [] = true
is_empty (_ ∷ _) = false

-- `reservationBearing === (storedValue.length === 0)`
abbrev same_truth : Bool → Bool → Bool
same_truth true b = b
same_truth false b = not b

inspection_of : Text → Text → InspectOutcome → Outcome ReservationInspection
inspection_of user stored outcome =
    if reservation_bearing outcome
    then (parse_reservation_entry user stored >>= λ e.
        ok (record { outcome = outcome; reservation = some e }))
    else ok (record { outcome = outcome; reservation = none })

-- A value must come with exactly the two outcomes that bear a reservation.
unfoldable pub decode_inspection : Text → Text × Text → Outcome ReservationInspection
unfolding inspection_of
decode_inspection user (word, stored) = do
  outcome ← assert_member inspect_word inspect_outcomes word
  guard (not (same_truth (reservation_bearing outcome) (is_empty stored))) plain_error
  inspection_of user stored outcome

pub record RestoreInput : Type 0 where
  pub user_id : Text
  pub reservation_id : Text
  pub reserved_at_ms : ℤ

abbrev pub restore_keys : List Text
restore_keys = codes "userId" ∷ codes "reservationId" ∷ codes "reservedAtMs" ∷ []

abbrev is_restore_key : PropertyKey → Bool
is_restore_key symbol = false
is_restore_key (name k) = includes restore_keys k

unfoldable pub only_restore_keys : List (PropertyKey × Scalar) → Bool
only_restore_keys [] = true
only_restore_keys ((k, v) ∷ ps) = is_restore_key k && only_restore_keys ps

unfoldable pub restore_input_of : List (PropertyKey × Scalar) → Outcome RestoreInput
restore_input_of ps = do
  u ← user_id_value (property (codes "userId") ps)
  r ← text_value is_uuid (property (codes "reservationId") ps)
  t ← time_value (property (codes "reservedAtMs") ps)
  ok (record { user_id = u; reservation_id = r; reserved_at_ms = t })

-- `assertCompareRestoreReservationInput`
unfoldable pub assert_restore_input : JsValue → Outcome RestoreInput
unfolding only_restore_keys restore_input_of
assert_restore_input not_object = throw type_error
assert_restore_input (object ps) =
    if length ps == length restore_keys && only_restore_keys ps
    then restore_input_of ps
    else throw type_error

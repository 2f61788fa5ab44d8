-- ===== src/Redis/Scripts/Membership.antt =====
-- The scripts that keep the buyers and the reservations in step: reconcile-membership.lua,
-- compare-restore-reservation.lua and inspect-reservation-membership.lua.
use bookipi_technical_test.Prelude.{ℕ, none, some, [], if◌then◌else◌}
use bookipi_technical_test.Text.{Text, text_eq}
use bookipi_technical_test.Redis.Hash.{hget, hset, hexists}
use bookipi_technical_test.Redis.Members.{sismember, sadd, srem}
use bookipi_technical_test.Redis.Db.{SaleDb}
use bookipi_technical_test.Redis.Scripts.Purchase.{ledger_value}
use bookipi_technical_test.Redis.Scripts.Compensate.{entry_id}

pub data MembershipOutcome : Type 0 where
  present absent : MembershipOutcome

unfoldable pub reconcile_membership : Text → SaleDb → MembershipOutcome × SaleDb
reconcile_membership user db =
    if hexists user db.reservations
    then (present, record db { buyers = sadd user db.buyers })
    else (absent, record db { buyers = srem user db.buyers })

pub data RestoreOutcome : Type 0 where
  restored already_matched conflict : RestoreOutcome

pub record RestoreReply : Type 0 where
  pub code : RestoreOutcome
  pub current : Text

abbrev pub restore_reply : RestoreOutcome → Text → RestoreReply
restore_reply code v = record { code = code; current = v }

unfoldable pub compare_restore : Text → Text → ℕ → SaleDb → RestoreReply × SaleDb
compare_restore user id at db =
    let candidate = ledger_value id at in
    let with_buyer : SaleDb = record db { buyers = sadd user db.buyers } in
    elim (hget user db.reservations) [
      | none ↦ (
        restore_reply restored candidate,
        record with_buyer { reservations = hset user candidate db.reservations },
      )
      | some current ↦
          if text_eq (entry_id current) id
          then (restore_reply already_matched current, with_buyer)
          else (restore_reply conflict current, db)
    ]

pub data InspectOutcome : Type 0 where
  both neither buyer_only reservation_only : InspectOutcome

-- The reply's word and the ledger value, which is empty where there is none to show.
unfoldable pub inspect : Text → SaleDb → InspectOutcome × Text
inspect user db = elim (hget user db.reservations) [
  | none ↦ if sismember user db.buyers then (buyer_only, []) else (neither, [])
  | some v ↦ if sismember user db.buyers then (both, v) else (reservation_only, v)
]

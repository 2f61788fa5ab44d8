-- ===== src/Redis/Scripts/Compensate.antt =====
-- compensate.lua: returns the unit of one reservation, once, if it is the one on file.
use bookipi_technical_test.Prelude.{Bool, false, not, Option, none, some, ℤ, leb_ℤ, if◌then◌else◌}
use bookipi_technical_test.Text.{Text, text_eq, split_at}
use bookipi_technical_test.Redis.Hash.{hget, hdel}
use bookipi_technical_test.Redis.Members.{sismember, srem}
use bookipi_technical_test.Redis.Db.{SaleDb, config_field, stock_or_zero, incr}

pub data CompensateOutcome : Type 0 where
  compensated compensated_capped noop : CompensateOutcome

pub record CompensateReply : Type 0 where
  pub code : CompensateOutcome
  pub stock_remaining : ℤ

-- `{ code, stock }`
abbrev pub compensate_reply : CompensateOutcome → ℤ → CompensateReply
compensate_reply c n = record { code = c; stock_remaining = n }

-- The part of a ledger value before its first colon, or all of it.
unfoldable pub entry_id : Text → Text
entry_id v = elim (split_at b':' v) [ none ↦ v | some (id, _) ↦ id ]

-- `total ~= nil and stock >= total`
abbrev pub is_capped : Option ℤ → ℤ → Bool
is_capped none stock = false
is_capped (some total) stock = leb_ℤ total stock

-- From where the reservation on file is the one to be compensated.
unfoldable pub release : Text → SaleDb → CompensateReply × SaleDb
release user db =
    let stock = stock_or_zero db in
    let released : SaleDb = record db {
      reservations = hdel user db.reservations;
      buyers = srem user db.buyers;
    } in
    if not (sismember user db.buyers)
    then (compensate_reply noop stock, released)
    else if is_capped (config_field (λ c. c.total_stock) db.config) stock
    then (compensate_reply compensated_capped stock, released)
    else (
      compensate_reply compensated (incr db.stock),
      record released { stock = some (incr db.stock) },
    )

unfoldable pub compensate : Text → Text → SaleDb → CompensateReply × SaleDb
unfolding release
compensate user id db =
    let kept = compensate_reply noop (stock_or_zero db) in
    elim (hget user db.reservations) [
      | none ↦ (kept, db)
      | some v ↦ if not (text_eq (entry_id v) id) then (kept, db) else release user db
    ]

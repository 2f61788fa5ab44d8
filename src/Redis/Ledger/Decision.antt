-- ===== src/Redis/Ledger/Decision.antt =====
-- The decision of purchase.lua: what each reply means, and how it undoes.
use bookipi_technical_test.Prelude.{
  ℕ, suc, ◌-◌, ◌≤◌, ◌≡◌, ◌↔◌, false, some, ℤ, pos, arith, ◌||◌, ◌+ℤ◌, ◌≤ℤ◌, ◌<ℤ◌,
}
use bookipi_technical_test.Text.{Text, text_eq_refl, split_at-append, contains_code, decimal}
use bookipi_technical_test.Redis.Hash.{hexists, hget_of_absent, hget-hset_self, hdel-hset_new}
use bookipi_technical_test.Redis.Members.{sismember, srem-sadd_new, sismember-sadd}
use bookipi_technical_test.Redis.Db.{SaleDb, RedisTime, now_ms, stock_or_zero, config_field}
use bookipi_technical_test.Redis.Scripts.Purchase.{purchase, confirmed, ledger_value, sale_window}
use bookipi_technical_test.Redis.Scripts.Compensate.{
  compensate, release, compensated, noop, compensate_reply, entry_id,
}
use bookipi_technical_test.Redis.Ledger.Effects.{units, Purchased, purchase_effect, reserved}

-- The identity is read back from in front of the time in a ledger value.
pub entry_id-ledger_value :
    (id : Text) (at : ℕ) → contains_code b':' id ≡ false → entry_id (ledger_value id at) ≡ id
unfolding entry_id
entry_id-ledger_value id at h = rw (split_at-append b':' id (decimal at) h, entry_id)

-- A purchase is confirmed exactly inside the window, with the start included and the end excluded,
-- with a unit in stock, by a user who is neither a buyer nor a holder.
pub confirmed_iff :
    (t : RedisTime) (user id : Text) (db : SaleDb) (starts ends : ℤ)
    → sale_window db.config ≡ some (starts, ends)
    → ((purchase t user id db).0.code ≡ confirmed) ↔ (
        (starts ≤ℤ pos (now_ms t))
        × (pos (now_ms t) <ℤ ends)
        × (pos 1 ≤ℤ stock_or_zero db)
        × (sismember user db.buyers ≡ false)
        × (hexists user db.reservations ≡ false))
unfolding purchase
confirmed_iff t user id db starts ends w = ground arith

undo_reserved :
    (user id v : Text) (db : SaleDb) (total : ℕ)
    → entry_id v ≡ id
    → config_field (λ c. c.total_stock) db.config ≡ some (pos total)
    → units db ≤ total
    → (sismember user db.buyers || hexists user db.reservations) ≡ false
    → db.stock ≡ some (pos (suc (units db - 1)))
    → compensate user id (reserved (units db - 1) user v db)
      ≡ (compensate_reply compensated (stock_or_zero db), db)
unfolding compensate release ◌+ℤ◌
undo_reserved user id v db total same on_file room free stock = ground (
  arith,
  hget-hset_self user v db.reservations,
  text_eq_refl id,
  text_eq_refl user,
  sismember-sadd user user db.buyers,
  srem-sadd_new user db.buyers,
  hget_of_absent user db.reservations,
  hdel-hset_new user v db.reservations,
)

undo_absent :
    (user id : Text) (db : SaleDb)
    → (sismember user db.buyers || hexists user db.reservations) ≡ false
    → compensate user id db ≡ (compensate_reply noop (stock_or_zero db), db)
unfolding compensate
undo_absent user id db free = ground (arith, hget_of_absent user db.reservations)

-- A compensation under the identity of a confirmed purchase undoes it: the keys are again what they
-- were, down to the order of their entries, and a second delivery of it finds nothing to do.
pub compensate-purchase :
    (t : RedisTime) (user id : Text) (db : SaleDb) (total : ℕ)
    → contains_code b':' id ≡ false
    → config_field (λ c. c.total_stock) db.config ≡ some (pos total)
    → units db ≤ total
    → (purchase t user id db).0.code ≡ confirmed
    → let bought = (purchase t user id db).1 in
      (compensate user id bought ≡ (compensate_reply compensated (stock_or_zero db), db))
      × (compensate user id db ≡ (compensate_reply noop (stock_or_zero db), db))
compensate-purchase t user id db total h on_file room c =
    let (free, stock, e) : Purchased confirmed (now_ms t) user id db (purchase t user id db).1 =
      rw c at (purchase_effect t user id db) in
    let same = entry_id-ledger_value id (now_ms t) h in
    (
      rw e (
          undo_reserved user id (ledger_value id (now_ms t)) db total same on_file room free stock),
      undo_absent user id db free,
    )

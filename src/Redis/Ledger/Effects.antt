-- ===== src/Redis/Ledger/Effects.antt =====
-- What a purchase and a compensation can do to the keys of a sale.
use bookipi_technical_test.Prelude.{
  ℕ, suc, ◌-◌, ◌≡◌, true, false, ◌||◌, some, pos, pos_part, arith, ◌-ℤ◌,
}
use bookipi_technical_test.Text.{Text}
use bookipi_technical_test.Redis.Hash.{hset, hdel, hexists}
use bookipi_technical_test.Redis.Members.{sismember, sadd, srem}
use bookipi_technical_test.Redis.Db.{SaleDb, RedisTime, stock_or_zero, now_ms}
use bookipi_technical_test.Redis.Scripts.Purchase.{
  purchase, ledger_value, confirmed, already_purchased, PurchaseOutcome,
}

-- The keys after one unit is reserved, where `n` units are left.
abbrev pub reserved : ℕ → Text → Text → SaleDb → SaleDb
reserved n user v db = record db {
  stock = some (pos n);
  buyers = sadd user db.buyers;
  reservations = hset user v db.reservations;
}

-- The keys after the unit of a holder is given back, where `n` units are left.
abbrev pub released : ℕ → Text → SaleDb → SaleDb
released n user db = record db {
  stock = some (pos n);
  buyers = srem user db.buyers;
  reservations = hdel user db.reservations;
}

abbrev pub units : SaleDb → ℕ
units db = pos_part (stock_or_zero db)

-- What a purchase with this reply has done.
abbrev pub Purchased : PurchaseOutcome → ℕ → Text → Text → SaleDb → SaleDb → Type 0
Purchased confirmed now user id db db' =
    (sismember user db.buyers || hexists user db.reservations ≡ false)
    × (db.stock ≡ some (pos (suc (units db - 1))))
    × (db' ≡ reserved (units db - 1) user (ledger_value id now) db)
Purchased already_purchased now user id db db' =
    (sismember user db.buyers || hexists user db.reservations ≡ true)
    × (db' ≡ record db { buyers = sadd user db.buyers })
Purchased _ now user id db db' = db' ≡ db

pub purchase_effect :
    (t : RedisTime) (user id : Text) (db : SaleDb)
    → Purchased (purchase t user id db).0.code (now_ms t) user id db (purchase t user id db).1
unfolding purchase ◌-ℤ◌
purchase_effect t user id db = ground arith

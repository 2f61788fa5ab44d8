-- ===== src/Redis/Scripts/Purchase.antt =====
-- purchase.lua: the atomic decision on one purchase.
use bookipi_technical_test.Prelude.{
  ℕ, Bool, ◌||◌, Option, none, some, ◌++◌, ◌∷◌, [], ℤ, pos, negsuc, ltb_ℤ, leb_ℤ, if◌then◌else◌,
}
pub use bookipi_technical_test.Shared.Results.{
  PurchaseOutcome, confirmed, already_purchased, sold_out, sale_not_started, sale_ended,
  not_initialized,
}
use bookipi_technical_test.Text.{Text, decimal}
use bookipi_technical_test.Redis.Hash.{hexists, hset}
use bookipi_technical_test.Redis.Members.{sismember, sadd}
use bookipi_technical_test.Redis.Db.{
  SaleConfig, SaleDb, RedisTime, now_ms, config_field, stock_or_zero, decr,
}

pub record PurchaseReply : Type 0 where
  pub code : PurchaseOutcome
  pub stock_remaining : ℤ
  pub server_time_ms : ℕ
  pub reservation_id : Text

-- `{ code, stock, nowMs, reservationId }`
abbrev pub purchase_reply : PurchaseOutcome → ℤ → ℕ → Text → PurchaseReply
purchase_reply c n now id = record {
  code = c;
  stock_remaining = n;
  server_time_ms = now;
  reservation_id = id;
}

-- The window, if both ends are on file: `startsAtMs == nil or endsAtMs == nil`.
abbrev pub both : Option ℤ → Option ℤ → Option (ℤ × ℤ)
both (some s) (some e) = some (s, e)
both _ _ = none

abbrev pub sale_window : Option SaleConfig → Option (ℤ × ℤ)
sale_window c = both (config_field (λ c. c.starts_at_ms) c) (config_field (λ c. c.ends_at_ms) c)

-- `if stock < 0 then stock = 0 end`
abbrev pub floor_zero : ℤ → ℤ
floor_zero n = if ltb_ℤ n (pos 0) then pos 0 else n

-- The value of the ledger: `ARGV[2] .. ':' .. nowMs`.
abbrev pub ledger_value : Text → ℕ → Text
ledger_value id at = id ++ (b':' ∷ decimal at)

abbrev is_taken : Text → SaleDb → Bool
is_taken user db = sismember user db.buyers || hexists user db.reservations

-- The checks after the window is known, in the script's order.
unfoldable pub decide : ℤ → ℤ → ℕ → Text → Text → SaleDb → PurchaseReply × SaleDb
decide starts ends now user id db =
    let stock = floor_zero (stock_or_zero db) in
    if ltb_ℤ (pos now) starts
    then (purchase_reply sale_not_started stock now [], db)
    else if leb_ℤ ends (pos now)
    then (purchase_reply sale_ended stock now [], db)
    else if is_taken user db
    then (purchase_reply already_purchased stock now [], record db { buyers = sadd user db.buyers })
    else if leb_ℤ stock (pos 0)
    then (purchase_reply sold_out (pos 0) now [], db)
    else (
      purchase_reply confirmed (decr db.stock) now id,
      record db {
        stock = some (decr db.stock);
        buyers = sadd user db.buyers;
        reservations = hset user (ledger_value id now) db.reservations;
      },
    )

unfoldable pub purchase : RedisTime → Text → Text → SaleDb → PurchaseReply × SaleDb
unfolding decide
purchase t user id db = elim (sale_window db.config) [
  | none ↦ (purchase_reply not_initialized (negsuc 0) (now_ms t) [], db)
  | some (starts, ends) ↦ decide starts ends (now_ms t) user id db
]

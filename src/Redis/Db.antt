-- ===== src/Redis/Db.antt =====
-- The five keys of one sale in Redis (packages/shared/src/keys.ts names them). A string of digits
-- that Redis and Lua treat as an integer is kept as that integer; a key that does not exist is
-- `none`, or the empty hash or set.
use bookipi_technical_test.Prelude.{ℕ, ◌+◌, ◌*◌, ◌/◌, Option, none, some, ℤ, pos, ◌+ℤ◌, ◌-ℤ◌}
use bookipi_technical_test.Text.{Text}
use bookipi_technical_test.Redis.Hash.{Hash}
use bookipi_technical_test.Redis.Members.{Members}

-- The hash `sale:{id}:config`. A numeric field that is missing or no number is `none`.
pub record SaleConfig : Type 0 where
  pub sale_id : Text
  pub name : Text
  pub starts_at : Text
  pub ends_at : Text
  pub starts_at_ms : Option ℤ
  pub ends_at_ms : Option ℤ
  pub total_stock : Option ℤ

pub record SaleDb : Type 0 where
  pub config : Option SaleConfig
  pub stock : Option ℤ
  pub buyers : Members
  pub reservations : Hash Text
  pub metrics : Hash ℤ

-- The reply of TIME.
pub record RedisTime : Type 0 where
  pub seconds : ℕ
  pub micros : ℕ

-- `tonumber(t[1]) * 1000 + math.floor(tonumber(t[2]) / 1000)`
abbrev pub now_ms : RedisTime → ℕ
now_ms t = t.seconds * 1000 + t.micros / 1000

-- `x or d`
abbrev pub get_or {ℓ} : {A : Type ℓ} → Option A → A → A
get_or none d = d
get_or (some a) d = a

-- A numeric field of the config hash, as HGET and `tonumber` read it.
abbrev pub config_field : (SaleConfig → Option ℤ) → Option SaleConfig → Option ℤ
config_field f none = none
config_field f (some c) = f c

-- `tonumber(redis.call('GET', stock) or '0')`
abbrev pub stock_or_zero : SaleDb → ℤ
stock_or_zero db = get_or db.stock (pos 0)

-- DECR and INCR count a missing key as 0.
abbrev pub decr : Option ℤ → ℤ
decr n = get_or n (pos 0) -ℤ pos 1

abbrev pub incr : Option ℤ → ℤ
incr n = get_or n (pos 0) +ℤ pos 1

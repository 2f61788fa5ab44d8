-- ===== src/Redis/Scripts/Seed.antt =====
-- seed.lua: creates the sale's keys once; and status.lua: the read-only snapshot.
use bookipi_technical_test.Prelude.{
  ℕ, Bool, true, false, not, ◌||◌, Option, none, some, [], ℤ, negsuc, eqb_ℤ, if◌then◌else◌,
}
use bookipi_technical_test.Text.{Text}
use bookipi_technical_test.Redis.Db.{SaleConfig, SaleDb, RedisTime, now_ms, get_or}

pub data SeedOutcome : Type 0 where
  seeded already_seeded config_drift stock_missing : SeedOutcome

pub record SeedReply : Type 0 where
  pub code : SeedOutcome
  pub stock_remaining : ℤ
  pub total_stock : ℤ
  pub starts_at_ms : ℤ
  pub ends_at_ms : ℤ

-- ARGV of seed.lua.
pub record SeedArgs : Type 0 where
  pub sale_id : Text
  pub name : Text
  pub starts_at : Text
  pub ends_at : Text
  pub starts_at_ms : ℤ
  pub ends_at_ms : ℤ
  pub total_stock : ℤ
  pub stock_remaining : ℤ

-- `cur[i] ~= ARGV[j]`
abbrev pub differs : Option ℤ → ℤ → Bool
differs none n = true
differs (some m) n = not (eqb_ℤ m n)

-- The reply about the config on file, a missing number as -1.
abbrev pub on_file : SeedOutcome → ℤ → SaleConfig → SeedReply
on_file code stock c = record {
  code = code;
  stock_remaining = stock;
  total_stock = get_or c.total_stock (negsuc 0);
  starts_at_ms = get_or c.starts_at_ms (negsuc 0);
  ends_at_ms = get_or c.ends_at_ms (negsuc 0);
}

abbrev pub has_drift : SeedArgs → SaleConfig → Bool
has_drift a c =
    differs c.starts_at_ms a.starts_at_ms
    || (differs c.ends_at_ms a.ends_at_ms || differs c.total_stock a.total_stock)

-- The branch in which the config exists: nothing is written.
abbrev pub seed_again : SeedArgs → SaleConfig → Option ℤ → SeedReply
seed_again a c none = on_file stock_missing (negsuc 0) c
seed_again a c (some stock) =
    if has_drift a c then on_file config_drift stock c else on_file already_seeded stock c

abbrev pub seeded_config : SeedArgs → SaleConfig
seeded_config a = record {
  sale_id = a.sale_id;
  name = a.name;
  starts_at = a.starts_at;
  ends_at = a.ends_at;
  starts_at_ms = some a.starts_at_ms;
  ends_at_ms = some a.ends_at_ms;
  total_stock = some a.total_stock;
}

unfoldable pub seed : SeedArgs → SaleDb → SeedReply × SaleDb
seed a db = elim db.config [
  | some c ↦ (seed_again a c db.stock, db)
  | none ↦ (
    record {
      code = seeded;
      stock_remaining = a.stock_remaining;
      total_stock = a.total_stock;
      starts_at_ms = a.starts_at_ms;
      ends_at_ms = a.ends_at_ms;
    },
    record db { config = some (seeded_config a); stock = some a.stock_remaining },
  )
]

pub record StatusReply : Type 0 where
  pub server_time_ms : ℕ
  pub initialized : Bool
  pub stock_remaining : ℤ
  pub total_stock : ℤ
  pub starts_at_ms : ℤ
  pub ends_at_ms : ℤ
  pub name : Text
  pub starts_at : Text
  pub ends_at : Text

-- The config, if it holds a total: `cfg[1] == false` is the other case.
abbrev pub with_total : SaleConfig → Option ℤ → Option (SaleConfig × ℤ)
with_total c none = none
with_total c (some total) = some (c, total)

abbrev pub known : Option SaleConfig → Option (SaleConfig × ℤ)
known none = none
known (some c) = with_total c c.total_stock

-- A config with no `totalStock` reads as a sale that does not exist. Where another number is
-- missing, which seed.lua never leaves, Redis cuts the reply short; here it reads as -1.
unfoldable pub status : RedisTime → SaleDb → StatusReply
status t db = elim (known db.config) [
  | none ↦ record {
    server_time_ms = now_ms t;
    initialized = false;
    stock_remaining = negsuc 0;
    total_stock = negsuc 0;
    starts_at_ms = negsuc 0;
    ends_at_ms = negsuc 0;
    name = [];
    starts_at = [];
    ends_at = [];
  }
  | some (c, total) ↦ record {
    server_time_ms = now_ms t;
    initialized = true;
    stock_remaining = get_or db.stock (negsuc 0);
    total_stock = total;
    starts_at_ms = get_or c.starts_at_ms (negsuc 0);
    ends_at_ms = get_or c.ends_at_ms (negsuc 0);
    name = c.name;
    starts_at = c.starts_at;
    ends_at = c.ends_at;
  }
]

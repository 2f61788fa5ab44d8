-- ===== src/Api/RateLimit.antt =====
-- The limit on a user's attempts: the script, `incrementAndBound` and `canActivate` of
-- apps/api/src/common/per-user-rate-limit.guard.ts.
use bookipi_technical_test.Prelude.{
  ℕ, suc, ◌+◌, ◌-◌, ◌/◌, ◌≤◌, min, max, ◌≡◌, Bool, true, not, ◌&&◌, ◌||◌, Option, none, some, List,
  [], ◌∷◌, ◌++◌, arith, leb, ltb, length, if◌then◌else◌, ℤ, pos, negsuc, ltb_ℤ, Outcome, ok, throw,
  plain_error,
}
use bookipi_technical_test.Text.{Text, codes}
use bookipi_technical_test.Shared.UserId.{rate_limit_candidate}
use bookipi_technical_test.Api.Purchase.{RedisCall, replied, refused, reply_lost}
use bookipi_technical_test.Redis.Hash.{Hash, hget, hset}

-- The key of a bucket: its count, and when it expires, if it does.
pub record Bucket : Type 0 where
  pub count : ℕ
  pub expires_at : Option ℕ

abbrev pub bucket : ℕ → Option ℕ → Bucket
bucket n e = record { count = n; expires_at = e }

pub record LimitEnv : Type 0 where
  pub sale_id : Text
  pub rate_limit_user_max : ℕ
  pub rate_limit_user_window_ms : ℕ

-- `PTTL`: -2 for no key, -1 for a key without a time, or what is left, which is 0 in the key's last
-- millisecond.
unfoldable pub pttl : ℕ → Option Bucket → ℤ
pttl now none = negsuc 1
pttl now (some b) = elim b.expires_at [
  | none ↦ negsuc 0
  | some e ↦ if ltb e now then negsuc 1 else pos (e - now)
]

-- `INCR` counts a missing key as 0 and keeps the time.
abbrev counted : Option Bucket → Bucket
counted none = bucket 1 none
counted (some b) = bucket (b.count + 1) b.expires_at

abbrev count_of : Option Bucket → ℕ
count_of b = (counted b).count

-- `RATE_LIMIT_USER_SCRIPT`: the reply, the count and the time left, and the bucket after it.
unfoldable pub rate_limit_script : ℕ → ℕ → Option Bucket → (ℕ × ℤ) × Option Bucket
rate_limit_script window now b =
    let ttl = pttl now b in
    if ltb_ℤ ttl (pos 0)
    then ((1, pos window), some (bucket 1 (some (now + window))))
    else ((count_of b, ttl), some (counted b))

-- The reply must be a positive count and a positive time.
unfoldable pub increment_and_bound : ℕ → ℕ → Option Bucket → Outcome (ℕ × ℤ) × Option Bucket
increment_and_bound window now b =
    let (reply, b') = rate_limit_script window now b in
    (if ltb reply.0 1 || not (ltb_ℤ (pos 0) reply.1) then throw plain_error else ok reply, b')

-- `true`, or the rejection with its `retry-after` in seconds.
pub data Verdict : Type 0 where
  allowed : Verdict
  rejected : ℕ → Verdict

abbrev whole_ms : ℤ → ℕ
whole_ms (pos n) = n
whole_ms (negsuc n) = 0

-- `Math.max(1, Math.ceil(ttlMs / 1000))`
abbrev pub retry_after : ℤ → ℕ
retry_after ttl = max 1 ((whole_ms ttl + 999) / 1000)

-- The limiter lets a request pass that it cannot count.
unfoldable pub judge : ℕ → Outcome (ℕ × ℤ) → Verdict
judge limit (throw e) = allowed
judge limit (ok (count, ttl)) = if leb count limit then allowed else rejected (retry_after ttl)

-- One request, on the bucket of its user and address.
unfoldable pub attempt : LimitEnv → ℕ → Option Bucket → Verdict × Option Bucket
attempt env now b =
    let (reply, b') = increment_and_bound env.rate_limit_user_window_ms now b in
    (judge env.rate_limit_user_max reply, b')

-- `buildUserRateLimitKey`
unfoldable pub build_user_rate_limit_key : Text → Option Text → Text → Text
build_user_rate_limit_key sale ip user =
    codes "rl:u:" ++ (sale ++ (b':' ∷ (address ip ++ (b':' ∷ user))))
  where
    address : Option Text → Text
    address none = codes "unknown-ip"
    address (some a) = a

abbrev keep : Text → Option Bucket → Hash Bucket → Hash Bucket
keep key none buckets = buckets
keep key (some b) buckets = hset key b buckets

abbrev answered : RedisCall → Text → Verdict × Option Bucket → Hash Bucket → Verdict × Hash Bucket
answered replied key (verdict, b) buckets = (verdict, keep key b buckets)
answered refused key r buckets = (allowed, buckets)
answered reply_lost key (verdict, b) buckets = (allowed, keep key b buckets)

-- `canActivate`: `user` is the body's `userId` where that is a string, and `call` what becomes of the
-- call of the limiter's Redis.
unfoldable pub can_activate :
    LimitEnv → ℕ → RedisCall → Option Text → Option Text → Hash Bucket → Verdict × Hash Bucket
can_activate env now call ip none buckets = (allowed, buckets)
can_activate env now call ip (some raw) buckets = elim (rate_limit_candidate raw) [
  | none ↦ (allowed, buckets)
  | some user ↦
      let key = build_user_rate_limit_key env.sale_id ip user in
      answered call key (attempt env now (hget key buckets)) buckets
]

abbrev count_allowed : Verdict → ℕ
count_allowed allowed = 1
count_allowed (rejected n) = 0

-- How many of the requests at these times are let through.
unfoldable pub allowed_count : LimitEnv → List ℕ → Option Bucket → ℕ
allowed_count env [] b = 0
allowed_count env (now ∷ times) b =
    let (verdict, b') = attempt env now b in
    let rest = allowed_count env times b' in count_allowed verdict + rest

unfoldable pub all_before : ℕ → List ℕ → Bool
all_before e [] = true
all_before e (now ∷ times) = ltb now e && all_before e times

open_window :
    (env : LimitEnv) (times : List ℕ) (n e : ℕ)
    → all_before e times ≡ true
    → allowed_count env times (some (bucket n (some e)))
      ≡ min (length times) (env.rate_limit_user_max - n)
unfolding allowed_count all_before attempt increment_and_bound rate_limit_script pttl judge
open_window env [] n e h = omega arith
open_window env (now ∷ times) n e h = ground (arith, open_window env times (n + 1) e)

-- A fixed window lets exactly the limit through: of the requests of one user and address that come, in
-- any order, before the window that the first of them opens has run out, as many pass as the limit says,
-- or all if there are fewer.
pub window_admits :
    (env : LimitEnv) (first : ℕ) (times : List ℕ)
    → 1 ≤ env.rate_limit_user_max
    → 1 ≤ env.rate_limit_user_window_ms
    → all_before (first + env.rate_limit_user_window_ms) times ≡ true
    → allowed_count env (first ∷ times) none ≡ min (suc (length times)) env.rate_limit_user_max
unfolding allowed_count attempt increment_and_bound rate_limit_script pttl judge
window_admits env first times some_max some_window h =
    ground (arith, open_window env times 1 (first + env.rate_limit_user_window_ms) h)

-- In the last millisecond of a window, where Redis replies that no time is left, the limiter lets every
-- request through, whatever the count of the bucket is and whatever the limit.
pub open_at_expiry :
    (env : LimitEnv) (n e : ℕ)
    → attempt env e (some (bucket n (some e))) ≡ (allowed, some (bucket (n + 1) (some e)))
unfolding attempt increment_and_bound rate_limit_script pttl judge
open_at_expiry env n e = ground arith

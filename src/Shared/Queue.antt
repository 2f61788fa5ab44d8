-- ===== src/Shared/Queue.antt =====
-- The orders queue's contract (packages/shared/src/queue.ts): the job's identity and its payload,
-- which is checked wherever it enters or leaves the queue.
use bookipi_technical_test.Prelude.{
  ℕ, ◌+◌, ◌-◌, ◌^◌, ◌≤◌, ◌≡◌, refl, Bool, true, false, not, ◌&&◌, ◌||◌, Option, none, some, List,
  [], ◌∷◌, ◌++◌, map, arith, leb, ◌==◌, length, if◌then◌else◌, ℤ, pos, negsuc, ltb_ℤ, Outcome, ok,
  throw, type_error, guard, ◌>>=◌, ◌>>◌,
}
use bookipi_technical_test.Text.{Text, codes, text_eq, all_codes}
use bookipi_technical_test.Shared.Pattern.{is_lower, is_upper, is_decimal}
use bookipi_technical_test.Shared.Keys.{assert_sale_id}
use bookipi_technical_test.Shared.UserId.{assert_user_id}
use bookipi_technical_test.Shared.Uuid.{is_uuid}
pub mod Laws

abbrev pub persist_order_job_name : Text
persist_order_job_name = codes "persist-order"

abbrev pub orders_job_attempts : ℕ
orders_job_attempts = 5

-- A value that code receives as `unknown`: text, a whole number, or anything else (a fraction, NaN,
-- a nested object, `undefined`), which passes none of the tests below.
pub data Scalar : Type 0 where
  str : Text → Scalar
  num : ℤ → Scalar
  other : Scalar

pub data PropertyKey : Type 0 where
  name : Text → PropertyKey
  symbol : PropertyKey

-- The own properties of an object, or a value that is null, an array or no object.
pub data JsValue : Type 0 where
  object : List (PropertyKey × Scalar) → JsValue
  not_object : JsValue

pub record OrdersQueueJobPayload : Type 0 where
  pub sale_id : Text
  pub user_id : Text
  pub reservation_id : Text
  pub reserved_at_ms : ℤ
  pub request_id : Text

abbrev pub payload_keys : List Text
payload_keys =
    codes "saleId"
    ∷ codes "userId"
    ∷ codes "reservationId"
    ∷ codes "reservedAtMs"
    ∷ codes "requestId"
    ∷ []

-- `value.key`, which is `undefined` where the property is missing.
unfoldable pub property : Text → List (PropertyKey × Scalar) → Scalar
property k [] = other
property k ((symbol, v) ∷ ps) = property k ps
property k ((name j, v) ∷ ps) = if text_eq j k then v else property k ps

unfoldable pub includes : List Text → Text → Bool
includes [] t = false
includes (k ∷ ks) t = text_eq k t || includes ks t

abbrev is_payload_key : PropertyKey → Bool
is_payload_key symbol = false
is_payload_key (name k) = includes payload_keys k

-- No own key but those of a payload: the negation of the code's `keys.some(…)`.
unfoldable pub only_payload_keys : List (PropertyKey × Scalar) → Bool
unfolding includes
only_payload_keys [] = true
only_payload_keys ((k, v) ∷ ps) = is_payload_key k && only_payload_keys ps

-- `Number.isSafeInteger(n) && n >= 0`
abbrev pub is_safe_time : ℤ → Bool
is_safe_time (pos n) = leb n 9007199254740991
is_safe_time (negsuc n) = false

-- `REQUEST_ID_PATTERN.test(s)`
abbrev is_request_code : ℕ → Bool
is_request_code c = is_upper c || (is_lower c || (is_decimal c || (c == b'_' || c == b'-')))

unfoldable pub request_id_pattern : Text → Bool
request_id_pattern s = leb 1 (length s) && (leb (length s) 128 && all_codes is_request_code s)

abbrev pub sale_id_value : Scalar → Outcome Text
sale_id_value (str s) = assert_sale_id s >> ok s
sale_id_value _ = throw type_error

abbrev pub user_id_value : Scalar → Outcome Text
user_id_value (str s) = assert_user_id s >> ok s
user_id_value _ = throw type_error

abbrev pub text_value : (Text → Bool) → Scalar → Outcome Text
text_value test (str s) = if test s then ok s else throw type_error
text_value test _ = throw type_error

abbrev pub time_value : Scalar → Outcome ℤ
time_value (num n) = if is_safe_time n then ok n else throw type_error
time_value _ = throw type_error

-- The checks on the properties, in the code's order.
unfoldable pub payload_of : List (PropertyKey × Scalar) → Outcome OrdersQueueJobPayload
unfolding property
payload_of ps = do
  s ← sale_id_value (property (codes "saleId") ps)
  u ← user_id_value (property (codes "userId") ps)
  r ← text_value is_uuid (property (codes "reservationId") ps)
  t ← time_value (property (codes "reservedAtMs") ps)
  q ← text_value request_id_pattern (property (codes "requestId") ps)
  ok (record { sale_id = s; user_id = u; reservation_id = r; reserved_at_ms = t; request_id = q })

unfoldable pub assert_payload : JsValue → Outcome OrdersQueueJobPayload
unfolding payload_of only_payload_keys
assert_payload not_object = throw type_error
assert_payload (object ps) =
    if length ps == length payload_keys && only_payload_keys ps
    then payload_of ps
    else throw type_error

-- `buildOrdersJobId`
unfoldable pub build_orders_job_id : Text → Text → Outcome Text
build_orders_job_id s u = do assert_sale_id s; assert_user_id u; ok (s ++ (b'-' ∷ u))

-- The object that a producer hands to the queue for a payload.
unfoldable pub payload_object : OrdersQueueJobPayload → JsValue
payload_object p = object (
    (name (codes "saleId"), str p.sale_id)
    ∷ (name (codes "userId"), str p.user_id)
    ∷ (name (codes "reservationId"), str p.reservation_id)
    ∷ (name (codes "reservedAtMs"), num p.reserved_at_ms)
    ∷ (name (codes "requestId"), str p.request_id)
    ∷ [])

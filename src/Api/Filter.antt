-- ===== src/Api/Filter.antt =====
-- HttpExceptionFilter of apps/api/src/common/http-exception.filter.ts, with messages.ts, dto/api-error.ts,
-- rate-limit-error.ts and zod-validation.pipe.ts beside it. The ISO text of a time only
-- prints it, and the sale's identity is the service's own; what is logged is left out.
use bookipi_technical_test.Prelude.{
  ℕ, Bool, true, false, ◌&&◌, ◌||◌, Option, none, some, List, [], ◌∷◌, map, leb, ltb, ◌==◌, take,
  if◌then◌else◌,
}
use bookipi_technical_test.Text.{Text, codes, text_eq}
use bookipi_technical_test.Shared.Results.{
  PurchaseOutcome, purchase_word, purchase_outcomes, AttemptOutcome, purchase_outcome,
  invalid_user_id, rate_limited, upstream_unavailable,
}
use bookipi_technical_test.Shared.UserId.{is_user_id_code, user_id_max_length}
pub mod Laws

-- `AttemptOutcome | 'NOT_FOUND' | 'INTERNAL'`
pub data ApiErrorCode : Type 0 where
  attempt : AttemptOutcome → ApiErrorCode
  not_found internal : ApiErrorCode

-- `OUTCOME_MESSAGES`
unfoldable pub message_for : ApiErrorCode → Text
message_for (attempt (purchase_outcome PurchaseOutcome.confirmed)) = codes "Purchase confirmed."
message_for (attempt (purchase_outcome PurchaseOutcome.already_purchased)) =
    codes "You have already purchased this item."
message_for (attempt (purchase_outcome PurchaseOutcome.sold_out)) = codes "This item is sold out."
message_for (attempt (purchase_outcome PurchaseOutcome.sale_not_started)) =
    codes "The sale has not started yet."
message_for (attempt (purchase_outcome PurchaseOutcome.sale_ended)) = codes "The sale has ended."
message_for (attempt (purchase_outcome PurchaseOutcome.not_initialized)) =
    codes "The sale is not ready yet. Please try again shortly."
message_for (attempt invalid_user_id) = codes "The provided user ID is invalid."
message_for (attempt rate_limited) =
    codes "Too many requests. Please slow down and try again shortly."
message_for (attempt upstream_unavailable) =
    codes "The service is temporarily unavailable. Please try again shortly."
message_for not_found = codes "Not found."
message_for internal = codes "Internal error"

abbrev pub attempt_word : AttemptOutcome → Text
attempt_word (purchase_outcome o) = purchase_word o
attempt_word invalid_user_id = codes "INVALID_USER_ID"
attempt_word rate_limited = codes "RATE_LIMITED"
attempt_word upstream_unavailable = codes "UPSTREAM_UNAVAILABLE"

-- `ATTEMPT_OUTCOMES`
abbrev pub attempt_outcomes : List AttemptOutcome
attempt_outcomes =
    invalid_user_id ∷ rate_limited ∷ upstream_unavailable ∷ map purchase_outcome purchase_outcomes

unfoldable pub outcome_among : Text → List AttemptOutcome → Option AttemptOutcome
outcome_among word [] = none
outcome_among word (o ∷ os) =
    let rest = outcome_among word os in if text_eq word (attempt_word o) then some o else rest

-- `isAttemptOutcome`, with the outcome that the word is.
abbrev pub attempt_outcome : Text → Option AttemptOutcome
attempt_outcome word = outcome_among word attempt_outcomes

-- The two envelopes, `PurchaseResponse` with its userId and `ApiErrorResponse` with its request.
pub data Envelope : Type 0 where
  purchase_response : (outcome : AttemptOutcome) (user_id message : Text) → Envelope
  api_error : (error : ApiErrorCode) (request_id message : Text) → Envelope

pub record Reply : Type 0 where
  pub status : ℕ
  pub envelope : Envelope
  pub server_time_ms : ℕ

-- `OutcomeExceptionPayload`, less its issues, which are only logged.
pub record OutcomePayload : Type 0 where
  pub outcome : Text
  pub raw_user_id : Option Text
  pub user_id : Option Text

-- `getResponse()`: a text, an object with an outcome, or another object.
pub data HttpResponse : Type 0 where
  text_response : Text → HttpResponse
  outcome_response : OutcomePayload → HttpResponse
  other_response : HttpResponse

-- What `isRateLimitedEnvelope` recognises: either envelope with the outcome RATE_LIMITED.
pub data LimitedBody : Type 0 where
  limited_purchase : (user_id message : Text) → LimitedBody
  limited_error : (request_id message : Text) → LimitedBody

-- What may be thrown: a syntax error; another error or value, with its `code` where that is a text, and
-- with its own message; the envelope of the rate limiter; and an HttpException.
pub data Exception : Type 0 where
  syntax_error : (message : Text) → Exception
  other_error : (code : Option Text) (message : Text) → Exception
  rate_limited_envelope : (status : ℕ) (body : LimitedBody) → Exception
  http_exception : (status : ℕ) (response : HttpResponse) (is_not_found : Bool) → Exception

unfoldable pub is_text_among : Text → List Text → Bool
is_text_among t [] = false
is_text_among t (x ∷ xs) = let rest = is_text_among t xs in text_eq t x || rest

abbrev pub fastify_body_parse_error_codes : List Text
fastify_body_parse_error_codes =
    codes "FST_ERR_CTP_INVALID_MEDIA_TYPE"
    ∷ codes "FST_ERR_CTP_EMPTY_JSON_BODY"
    ∷ codes "FST_ERR_CTP_INVALID_JSON_BODY"
    ∷ codes "FST_ERR_CTP_BODY_TOO_LARGE"
    ∷ []

abbrev pub fastify_body_parse_messages : List Text
fastify_body_parse_messages =
    codes "Body is not valid JSON but content-type is set to 'application/json'"
    ∷ codes "Body cannot be empty when content-type is set to 'application/json'"
    ∷ codes "Request body is too large"
    ∷ codes "Unsupported Media Type"
    ∷ []

-- `isBodyParseFailure`
unfoldable pub is_body_parse_failure : Exception → Bool
is_body_parse_failure (syntax_error message) = true
is_body_parse_failure (other_error (some code) message) =
    is_text_among code fastify_body_parse_error_codes
is_body_parse_failure (other_error none message) = false
is_body_parse_failure (rate_limited_envelope status body) = false
is_body_parse_failure (http_exception status (text_response t) is_not_found) =
    is_text_among t fastify_body_parse_messages
is_body_parse_failure (http_exception status _ is_not_found) = false

-- `requestPath`: the url up to its first `?`.
unfoldable pub request_path : Text → Text
request_path [] = []
request_path (c ∷ url) = let rest = request_path url in if c == b'?' then [] else c ∷ rest

unfoldable pub only_user_id_codes : Text → Text
only_user_id_codes [] = []
only_user_id_codes (c ∷ s) =
    let rest = only_user_id_codes s in if is_user_id_code c then c ∷ rest else rest

-- `sanitizeUserIdEcho`
unfoldable pub sanitize_user_id_echo : Text → Text
sanitize_user_id_echo raw = only_user_id_codes (take user_id_max_length raw)

abbrev pub purchase_route_path : Text
purchase_route_path = codes "/api/purchase"

-- What the filter reads of the request and of the clock.
pub record Request : Type 0 where
  pub url : Text
  pub request_id : Text
  pub server_time_ms : ℕ

-- `sendApiError`
unfoldable pub send_api_error : Request → ℕ → ApiErrorCode → Reply
send_api_error r status error = record {
  status = status;
  envelope = api_error error r.request_id (message_for error);
  server_time_ms = r.server_time_ms;
}

-- `respond`
unfoldable pub respond : Request → ℕ → AttemptOutcome → Text → Reply
respond r status outcome user_id =
    if text_eq (request_path r.url) purchase_route_path
    then record {
      status = status;
      envelope = purchase_response outcome user_id (message_for (attempt outcome));
      server_time_ms = r.server_time_ms;
    }
    else send_api_error r status (attempt outcome)

abbrev pub text_or_empty : Option Text → Text
text_or_empty none = []
text_or_empty (some t) = t

abbrev pub echo_user_id : AttemptOutcome → OutcomePayload → Text
echo_user_id invalid_user_id p = sanitize_user_id_echo (text_or_empty p.raw_user_id)
echo_user_id _ p = text_or_empty p.user_id

-- `safeStatus`
abbrev pub safe_status : ℕ → ℕ
safe_status status = if leb 400 status && ltb status 600 then status else 500

-- The branch of an HttpException without an outcome.
abbrev pub without_outcome : Request → ℕ → Bool → Reply
without_outcome r status is_not_found =
    if is_not_found
    then send_api_error r 404 not_found
    else send_api_error r (safe_status status) internal

abbrev pub with_outcome : Request → ℕ → OutcomePayload → Bool → Option AttemptOutcome → Reply
with_outcome r status p is_not_found (some o) = respond r status o (echo_user_id o p)
with_outcome r status p is_not_found none = without_outcome r status is_not_found

abbrev pub http_reply : Request → ℕ → HttpResponse → Bool → Reply
http_reply r status (outcome_response p) is_not_found =
    with_outcome r status p is_not_found (attempt_outcome p.outcome)
http_reply r status _ is_not_found = without_outcome r status is_not_found

abbrev pub limited_envelope : LimitedBody → Envelope
limited_envelope (limited_purchase user message) = purchase_response rate_limited user message
limited_envelope (limited_error request message) = api_error (attempt rate_limited) request message

abbrev pub dispatch : Request → Exception → Reply
dispatch r (rate_limited_envelope status body) = record {
  status = status;
  envelope = limited_envelope body;
  server_time_ms = r.server_time_ms;
}
dispatch r (http_exception status response is_not_found) = http_reply r status response is_not_found
dispatch r (syntax_error message) = send_api_error r 500 internal
dispatch r (other_error code message) = send_api_error r 500 internal

-- `catch`
unfoldable pub catch_exception : Request → Exception → Reply
catch_exception r e =
    if is_body_parse_failure e then respond r 422 invalid_user_id [] else dispatch r e

-- `buildRateLimitedThrowable`
unfoldable pub build_rate_limited_throwable : Request → Exception
build_rate_limited_throwable r = rate_limited_envelope 429 (
    if text_eq (request_path r.url) purchase_route_path
    then limited_purchase [] (message_for (attempt rate_limited))
    else limited_error r.request_id (message_for (attempt rate_limited)))

-- What `transform` throws where the schema rejects a body, whose userId is given where it is a text.
unfoldable pub rejected_body : Option Text → Exception
rejected_body raw =
    http_exception 422
      (outcome_response (record {
        outcome = codes "INVALID_USER_ID";
        raw_user_id = some (text_or_empty raw);
        user_id = none;
      }))
      false

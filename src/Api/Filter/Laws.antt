-- ===== src/Api/Filter/Laws.antt =====
-- What no reply of the exception filter discloses.
use bookipi_technical_test.Prelude.{
  ℕ, zero, suc, ◌≤◌, ◌<◌, ◌≡◌, refl, ap, Bool, true, false, Option, none, some, [], ◌∷◌, take,
  length, arith, inl, inr, ◌⊎◌, ◌||◌, Bool-cases,
}
use bookipi_technical_test.Text.{Text, codes, all_codes}
use bookipi_technical_test.Shared.Results.{
  AttemptOutcome, purchase_outcome, invalid_user_id, rate_limited, upstream_unavailable,
}
use bookipi_technical_test.Shared.UserId.{is_user_id_code, is_user_id, user_id_pattern}
use bookipi_technical_test.Api.Filter.{
  ApiErrorCode, attempt, message_for, HttpResponse, not_found, internal, Envelope,
  purchase_response, api_error, Reply, OutcomePayload, text_response, outcome_response,
  other_response, Exception, syntax_error, other_error, rate_limited_envelope, http_exception,
  limited_purchase, limited_error, is_body_parse_failure, only_user_id_codes, sanitize_user_id_echo,
  Request, send_api_error, respond, text_or_empty, echo_user_id, without_outcome, with_outcome,
  dispatch, catch_exception, attempt_outcome,
}

-- At most 64 codes, all of which an identifier may have.
abbrev IsEcho : Text → Type 0
IsEcho u = (length u ≤ 64) × (all_codes is_user_id_code u ≡ true)

length-take : (n : ℕ) (s : Text) → length (take n s) ≤ n
length-take zero s = omega arith
length-take (suc n) [] = omega arith
length-take (suc n) (c ∷ s) = omega (arith, length-take n s)

only_lem :
    (s : Text)
    → (length (only_user_id_codes s) ≤ length s)
      × (all_codes is_user_id_code (only_user_id_codes s) ≡ true)
unfolding only_user_id_codes all_codes
only_lem [] = (omega arith, refl)
only_lem (c ∷ s) = ground (arith, only_lem s)

sanitize_user_id_echo-IsEcho : (s : Text) → IsEcho (sanitize_user_id_echo s)
unfolding sanitize_user_id_echo
sanitize_user_id_echo-IsEcho s =
    let (shorter, codes_ok) = only_lem (take 64 s) in
    (omega (arith, shorter, length-take 64 s), codes_ok)

abbrev code_of : Envelope → ApiErrorCode
code_of (purchase_response o user message) = attempt o
code_of (api_error error request message) = error

abbrev message_of : Envelope → Text
message_of (purchase_response o user message) = message
message_of (api_error error request message) = message

-- What the rate limiter threw, which is sent as it is.
abbrev pub is_limited : Exception → Bool
is_limited (rate_limited_envelope status body) = true
is_limited _ = false

-- The code knows what this exception says of the attempt.
abbrev pub is_foreseen : Exception → Bool
is_foreseen (http_exception status (outcome_response p) is_not_found) =
    elim (attempt_outcome p.outcome) [ none ↦ false | some _ ↦ true ]
is_foreseen e = is_limited e || is_body_parse_failure e

-- An error of the status that an unforeseen exception gets: 500, or that of the framework's exception
-- where it is one of an error.
abbrev IsErrorStatus : Exception → ℕ → Type 0
IsErrorStatus (http_exception own response is_not_found) status =
    (400 ≤ status) × (status < 600) × ((status ≡ own) ⊎ (status ≡ 500))
IsErrorStatus _ status = status ≡ 500

-- The reply says no more than INTERNAL or NOT_FOUND, with the request's identity.
abbrev IsMasked : Request → Exception → Reply → Type 0
IsMasked r e reply =
    ((reply.envelope ≡ api_error internal r.request_id (codes "Internal error"))
      × IsErrorStatus e reply.status)
    ⊎ ((reply.envelope ≡ api_error not_found r.request_id (codes "Not found."))
        × (reply.status ≡ 404))

abbrev IsEchoed : Envelope → Type 0
IsEchoed (purchase_response invalid_user_id user message) = IsEcho user
IsEchoed _ = Unit

abbrev pub IsDiscreet : Request → Exception → Reply → Type 0
IsDiscreet r e reply =
    ((is_limited e ≡ true) ⊎ (message_of reply.envelope ≡ message_for (code_of reply.envelope)))
    × IsEchoed reply.envelope
    × ((is_foreseen e ≡ true) ⊎ IsMasked r e reply)

respond_lem :
    (r : Request) (status : ℕ) (o : AttemptOutcome) (u : Text)
    → ((o ≡ invalid_user_id) → IsEcho u)
    → let envelope = (respond r status o u).envelope in
      (message_of envelope ≡ message_for (code_of envelope)) × IsEchoed envelope
unfolding respond send_api_error
respond_lem r status invalid_user_id u h = ground (arith, h refl)
respond_lem r status (purchase_outcome o) u h = ground arith
respond_lem r status rate_limited u h = ground arith
respond_lem r status upstream_unavailable u h = ground arith

without_outcome-IsDiscreet :
    (r : Request) (own : ℕ) (response : HttpResponse) (is_not_found : Bool)
    → IsDiscreet r (http_exception own response is_not_found) (without_outcome r own is_not_found)
unfolding send_api_error message_for
without_outcome-IsDiscreet r own response true = ground arith
without_outcome-IsDiscreet r own response false = ground arith

echo_user_id-IsEcho :
    (o : AttemptOutcome) (p : OutcomePayload) → (o ≡ invalid_user_id) → IsEcho (echo_user_id o p)
echo_user_id-IsEcho invalid_user_id p h = sanitize_user_id_echo-IsEcho (text_or_empty p.raw_user_id)
echo_user_id-IsEcho (purchase_outcome o) p h = absurd (ground (arith, h))
echo_user_id-IsEcho rate_limited p h = absurd (ground (arith, h))
echo_user_id-IsEcho upstream_unavailable p h = absurd (ground (arith, h))

with_outcome-IsDiscreet :
    (r : Request) (own : ℕ) (p : OutcomePayload) (is_not_found : Bool) (o : Option AttemptOutcome)
    → attempt_outcome p.outcome ≡ o
    → IsDiscreet r
        (http_exception own (outcome_response p) is_not_found)
        (with_outcome r own p is_not_found o)
with_outcome-IsDiscreet r own p is_not_found (some o) known =
    let told = respond_lem r own o (echo_user_id o p) (echo_user_id-IsEcho o p) in
    (inr told.0, told.1, inl (rw (is_foreseen, known)))
with_outcome-IsDiscreet r own p is_not_found none known =
    without_outcome-IsDiscreet r own (outcome_response p) is_not_found

dispatch-IsDiscreet :
    (r : Request) (e : Exception) → is_body_parse_failure e ≡ false → IsDiscreet r e (dispatch r e)
unfolding send_api_error message_for is_body_parse_failure
dispatch-IsDiscreet r (syntax_error message) f = absurd (ground (arith, f))
dispatch-IsDiscreet r (other_error code message) f = ground arith
dispatch-IsDiscreet r (rate_limited_envelope status (limited_purchase user message)) f =
    ground arith
dispatch-IsDiscreet r (rate_limited_envelope status (limited_error request message)) f =
    ground arith
dispatch-IsDiscreet r (http_exception own (outcome_response p) is_not_found) f =
    with_outcome-IsDiscreet r own p is_not_found (attempt_outcome p.outcome) refl
dispatch-IsDiscreet r (http_exception own (text_response t) is_not_found) f =
    without_outcome-IsDiscreet r own (text_response t) is_not_found
dispatch-IsDiscreet r (http_exception own other_response is_not_found) f =
    without_outcome-IsDiscreet r own other_response is_not_found

failure-is_foreseen : (e : Exception) → is_body_parse_failure e ≡ true → is_foreseen e ≡ true
unfolding is_body_parse_failure
failure-is_foreseen e f = ground (arith, f)

-- Whatever is thrown at whatever route, the reply discloses no more than it may. Its message is the fixed
-- one of its code, never that of the exception, unless it is what the rate limiter threw. An identifier
-- that was rejected comes back with at most 64 codes, all of which an identifier may have. And an
-- exception that the code did not foresee (no body that cannot be parsed, none of the rate limiter's and
-- no known outcome) comes back as INTERNAL or NOT_FOUND with the request's identity and nothing else: a
-- 404, or a 500, or the framework's own status where that is one of an error.
pub catch_exception-IsDiscreet :
    (r : Request) (e : Exception) → IsDiscreet r e (catch_exception r e)
unfolding catch_exception
catch_exception-IsDiscreet r e = elim (Bool-cases (is_body_parse_failure e)) [
  | inl failure ↦
      let told =
        respond_lem r 422 invalid_user_id [] (λ h. (omega arith, unfold all_codes in refl)) in
      rw failure (inr told.0, told.1, inl (failure-is_foreseen e failure))
  | inr sound ↦ rw sound (dispatch-IsDiscreet r e sound)
]

only_word : (s : Text) → all_codes is_user_id_code s ≡ true → only_user_id_codes s ≡ s
unfolding only_user_id_codes all_codes
only_word [] h = refl
only_word (c ∷ s) h = ground (arith, h, only_word s)

take_all : (n : ℕ) (s : Text) → length s ≤ n → take n s ≡ s
take_all zero [] h = refl
take_all zero (c ∷ s) h = absurd (omega (arith, h))
take_all (suc n) [] h = refl
take_all (suc n) (c ∷ s) h = ap (λ t. c ∷ t) (take_all n s (omega (arith, h)))

is_user_id-word : (s : Text) → is_user_id s ≡ true → all_codes is_user_id_code s ≡ true
unfolding is_user_id user_id_pattern all_codes
is_user_id-word [] h = refl
is_user_id-word (c ∷ s) h = ground (arith, h)

-- A valid identifier is echoed unchanged.
sanitize-is_user_id : (s : Text) → is_user_id s ≡ true → sanitize_user_id_echo s ≡ s
unfolding sanitize_user_id_echo is_user_id
sanitize-is_user_id s h = rw (take_all 64 s (ground (arith, h))) (only_word s (is_user_id-word s h))

-- ===== src/Shared/Results.antt =====
-- The vocabulary of outcomes (packages/shared/src/results.ts), with the words that go over the wire.
use bookipi_technical_test.Prelude.{ℕ, Bool, true, false, List, [], ◌∷◌}
use bookipi_technical_test.Text.{Text, codes}

pub data PurchaseOutcome : Type 0 where
  confirmed already_purchased sold_out sale_not_started sale_ended not_initialized : PurchaseOutcome

pub data AttemptOutcome : Type 0 where
  purchase_outcome : PurchaseOutcome → AttemptOutcome
  invalid_user_id rate_limited upstream_unavailable : AttemptOutcome

abbrev pub purchase_word : PurchaseOutcome → Text
purchase_word confirmed = codes "CONFIRMED"
purchase_word already_purchased = codes "ALREADY_PURCHASED"
purchase_word sold_out = codes "SOLD_OUT"
purchase_word sale_not_started = codes "SALE_NOT_STARTED"
purchase_word sale_ended = codes "SALE_ENDED"
purchase_word not_initialized = codes "NOT_INITIALIZED"

-- `PURCHASE_OUTCOMES`
abbrev pub purchase_outcomes : List PurchaseOutcome
purchase_outcomes =
    confirmed ∷ already_purchased ∷ sold_out ∷ sale_not_started ∷ sale_ended ∷ not_initialized ∷ []

-- `PURCHASE_OUTCOME_HTTP_STATUS`
unfoldable pub http_status : AttemptOutcome → ℕ
http_status (purchase_outcome confirmed) = 201
http_status (purchase_outcome already_purchased) = 409
http_status (purchase_outcome sold_out) = 410
http_status (purchase_outcome sale_not_started) = 403
http_status (purchase_outcome sale_ended) = 403
http_status (purchase_outcome not_initialized) = 503
http_status invalid_user_id = 422
http_status rate_limited = 429
http_status upstream_unavailable = 503

-- `isSuccessOutcome`
unfoldable pub is_success_outcome : AttemptOutcome → Bool
is_success_outcome (purchase_outcome confirmed) = true
is_success_outcome _ = false

-- `OUTCOME_METRIC_FIELD`
unfoldable pub metric_field : AttemptOutcome → Text
metric_field (purchase_outcome confirmed) = codes "confirmed"
metric_field (purchase_outcome already_purchased) = codes "already_purchased"
metric_field (purchase_outcome sold_out) = codes "sold_out"
metric_field (purchase_outcome sale_not_started) = codes "sale_not_active"
metric_field (purchase_outcome sale_ended) = codes "sale_not_active"
metric_field (purchase_outcome not_initialized) = codes "not_initialized"
metric_field invalid_user_id = codes "invalid_user_id"
metric_field rate_limited = codes "rate_limited"
metric_field upstream_unavailable = codes "not_initialized"

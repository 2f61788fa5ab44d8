-- ===== src/Shared/Queue/Laws.antt =====
-- What the check of a payload lets through, and what a job's identity tells apart.
use bookipi_technical_test.Prelude.{
  ◌≡◌, List, ◌↔◌, length, true, [], ◌∷◌, ◌++◌, arith, ap, sym, ◌∙◌, ok,
}
use mathlib.Core.List.{append_assoc}
use bookipi_technical_test.Text.{Text, codes, text_eq}
use bookipi_technical_test.Shared.Keys.{assert_sale_id}
use bookipi_technical_test.Shared.UserId.{assert_user_id}
use bookipi_technical_test.Shared.Uuid.{is_uuid}
use bookipi_technical_test.Shared.Queue.{
  PropertyKey, JsValue, object, not_object, OrdersQueueJobPayload, assert_payload, payload_object,
  is_safe_time, request_id_pattern, build_orders_job_id, Scalar, str, num, property,
  only_payload_keys, payload_of,
}

-- The conditions on each part of a payload.
pub record IsPayload (p : OrdersQueueJobPayload) : Type 0 where
  pub sale_ok : assert_sale_id p.sale_id ≡ ok tt
  pub user_ok : assert_user_id p.user_id ≡ ok tt
  pub reservation_ok : is_uuid p.reservation_id ≡ true
  pub time_ok : is_safe_time p.reserved_at_ms ≡ true
  pub request_ok : request_id_pattern p.request_id ≡ true

-- The payload is what this value holds under the five names of a payload, and the value holds five
-- properties under no other names.
abbrev pub IsReadFrom : OrdersQueueJobPayload → JsValue → Type 0
IsReadFrom p not_object = ⊥
IsReadFrom p (object ps) =
    (property (codes "saleId") ps ≡ str p.sale_id)
    × (property (codes "userId") ps ≡ str p.user_id)
    × (property (codes "reservationId") ps ≡ str p.reservation_id)
    × (property (codes "reservedAtMs") ps ≡ num p.reserved_at_ms)
    × (property (codes "requestId") ps ≡ str p.request_id)
    × (length ps ≡ 5)
    × (only_payload_keys ps ≡ true)

payload_of_lem :
    (ps : List (PropertyKey × Scalar)) (p : OrdersQueueJobPayload)
    → length ps ≡ 5
    → only_payload_keys ps ≡ true
    → payload_of ps ≡ ok p
    → IsReadFrom p (object ps) × IsPayload p
unfolding payload_of
payload_of_lem ps p few only h = ground (arith, h, few, only)

-- The check lets a value through as a payload exactly where the value is an object with the five
-- properties of a payload and no other, the payload has what they hold, and its five parts are valid.
pub assert_payload_sound :
    (v : JsValue) (p : OrdersQueueJobPayload)
    → (assert_payload v ≡ ok p) ↔ (IsReadFrom p v × IsPayload p)
unfolding assert_payload
assert_payload_sound not_object p = ground arith
assert_payload_sound (object ps) p = (
  λ h. payload_of_lem ps p (ground (arith, h)) (ground (arith, h)) (ground (arith, h)),
  λ h. unfold payload_of in ground (arith, h),
)

-- The object that stands for five valid parts is let through as exactly that payload.
pub assert_payload-payload_object :
    (p : OrdersQueueJobPayload) → IsPayload p → assert_payload (payload_object p) ≡ ok p
unfolding assert_payload payload_object text_eq
assert_payload-payload_object p v = ground arith

append_cancel : (s : Text) {x y : Text} → s ++ x ≡ s ++ y → x ≡ y
append_cancel [] e = e
append_cancel (c ∷ s) e = append_cancel s (ap tail e)
  where
    tail : Text → Text
    tail [] = []
    tail (_ ∷ t) = t

job_id_form : (s u : Text) {j : Text} → build_orders_job_id s u ≡ ok j → s ++ (b'-' ∷ u) ≡ j
unfolding build_orders_job_id
job_id_form s u h = ground arith

-- In one sale the job's identity tells the users apart, so that a repeated handoff of one reservation
-- meets the job that is there and no other user's job.
build_orders_job_id_injective :
    (s u u' : Text) {j : Text}
    → build_orders_job_id s u ≡ ok j
    → build_orders_job_id s u' ≡ ok j
    → u ≡ u'
build_orders_job_id_injective s u u' h h' =
    append_cancel (s ++ (b'-' ∷ []))
      (regroup u ∙ (job_id_form s u h ∙ (sym (job_id_form s u' h') ∙ sym (regroup u'))))
  where
    regroup : (x : Text) → (s ++ (b'-' ∷ [])) ++ x ≡ s ++ (b'-' ∷ x)
    regroup x = simp append_assoc

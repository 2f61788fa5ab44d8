-- ===== src/Shared/Tests.antt =====
-- The shared contracts on concrete inputs, and each theorem at one of them.
use bookipi_technical_test.Prelude.{◌≡◌, ◌↔◌, ◌≢◌, refl, some, ok, pos, arith, ◌+ℤ◌, ◌-ℤ◌}
use bookipi_technical_test.Text.{Text, codes, text_eq, all_codes}
use bookipi_technical_test.Shared.SaleState.{
  upcoming, sold_out, ended, derive_sale_state, ms_until_next_transition,
}
use bookipi_technical_test.Shared.SaleState.Laws.{at_time, ms_until_next_transition_exact}
use bookipi_technical_test.Shared.UserId.{
  parse_user_id, assert_user_id, rate_limit_candidate, user_id_layers_agree, trim, drop_space,
  user_id_pattern,
}
use bookipi_technical_test.Shared.Keys.{
  sale_key, sale_key_injective, stock, sale_id_pattern, assert_sale_id,
}
use bookipi_technical_test.Shared.Uuid.{is_uuid, versioned}
use bookipi_technical_test.Shared.Pattern.{matches}
use bookipi_technical_test.Shared.Queue.{
  OrdersQueueJobPayload, assert_payload, payload_object, request_id_pattern,
}
use bookipi_technical_test.Shared.Queue.Laws.{IsPayload, IsReadFrom, assert_payload_sound}

-- A zero-stock sale is upcoming before its start, and sold out once it is open.
zero_stock :
    (derive_sale_state (at_time (pos 5) (pos 10) (pos 20) (pos 0)) ≡ ok upcoming)
    × (derive_sale_state (at_time (pos 10) (pos 10) (pos 20) (pos 0)) ≡ ok sold_out)
    × (derive_sale_state (at_time (pos 20) (pos 10) (pos 20) (pos 7)) ≡ ok ended)
unfolding derive_sale_state
zero_stock = (refl, refl, refl)

ms_until_next_transition_exact_example :
    (derive_sale_state (at_time (pos 5 +ℤ pos 4) (pos 10) (pos 20) (pos 1))
      ≡ derive_sale_state (at_time (pos 5) (pos 10) (pos 20) (pos 1)))
    × (derive_sale_state (at_time (pos 5 +ℤ pos 5) (pos 10) (pos 20) (pos 1))
        ≢ derive_sale_state (at_time (pos 5) (pos 10) (pos 20) (pos 1)))
unfolding ms_until_next_transition ◌-ℤ◌
ms_until_next_transition_exact_example =
    ms_until_next_transition_exact (pos 5) (pos 10) (pos 20) (pos 1) 4 (pos 5) (ground arith)
      (omega arith)

abbrev bob : Text
bob = codes "bob@x.io"

user_id_layers_agree_example :
    (rate_limit_candidate (codes "  bob@x.io ") ≡ some bob)
    × (parse_user_id bob ≡ ok bob)
    × (assert_user_id bob ≡ ok tt)
unfolding parse_user_id trim drop_space user_id_pattern all_codes
user_id_layers_agree_example = user_id_layers_agree (codes "  bob@x.io ") bob refl

abbrev flash_stock : Text
flash_stock = codes "sale:{flash-1}:stock"

sale_key_injective_example : (codes "flash-1" ≡ codes "flash-1") × (stock ≡ stock)
unfolding sale_key sale_id_pattern all_codes
sale_key_injective_example =
    sale_key_injective stock stock (codes "flash-1") (codes "flash-1") {key = flash_stock}
      {key' = flash_stock} refl refl refl

abbrev some_uuid : Text
some_uuid = codes "3f2504e0-4f89-41d3-9a0c-0305e82c3301"

abbrev some_payload : OrdersQueueJobPayload
some_payload = record {
  sale_id = codes "flash-1";
  user_id = bob;
  reservation_id = some_uuid;
  reserved_at_ms = pos 1700000000000;
  request_id = codes "req-1";
}

some_payload-IsPayload : IsPayload some_payload
unfolding assert_sale_id sale_id_pattern assert_user_id trim drop_space user_id_pattern all_codes
    text_eq is_uuid matches versioned request_id_pattern
some_payload-IsPayload = record {
  sale_ok = refl;
  user_ok = refl;
  reservation_ok = refl;
  time_ok = refl;
  request_ok = refl;
}

assert_payload_sound_example :
    (assert_payload (payload_object some_payload) ≡ ok some_payload)
    ↔ (IsReadFrom some_payload (payload_object some_payload) × IsPayload some_payload)
assert_payload_sound_example = assert_payload_sound (payload_object some_payload) some_payload

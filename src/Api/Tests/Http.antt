-- ===== src/Api/Tests/Http.antt =====
-- The readiness of a pod whose Postgres is late, and a rejected identifier that holds markup.
use bookipi_technical_test.Prelude.{
  ◌≡◌, ◌≤◌, refl, List, [], ◌∷◌, length, if◌then◌else◌, true, false, some, pos, ok, throw,
  plain_error,
}
use bookipi_technical_test.Text.{codes, all_codes, text_eq}
use bookipi_technical_test.Shared.Keys.{assert_sale_id, sale_id_pattern}
use bookipi_technical_test.Shared.SaleState.{derive_sale_state}
use bookipi_technical_test.Shared.Results.{invalid_user_id}
use bookipi_technical_test.Redis.Store.Methods.{status, decode_status}
use bookipi_technical_test.Api.Sale.{get_status}
use bookipi_technical_test.Api.Health.{ReadinessInput, get_readiness, get_readiness-get_status}
use bookipi_technical_test.Api.Filter.{
  Request, Exception, other_error, api_error, internal, message_for, is_text_among, send_api_error,
  purchase_response, rejected_body, catch_exception, is_body_parse_failure, outcome_among, respond,
  request_path, sanitize_user_id_echo, only_user_id_codes,
}
use bookipi_technical_test.Api.Tests.{flash, open_db}
use bookipi_technical_test.Api.QueueProbe.{
  Probe, ProbeEvent, depth_called, command_ended, flight_goes_on, close_called, new_probe,
  probe_run, probe_bounded,
}
use bookipi_technical_test.Api.Filter.Laws.{IsDiscreet, catch_exception-IsDiscreet}

-- The sale is sold out, Postgres is late and the queue fails.
abbrev impaired : ReadinessInput
impaired = record {
  redis_in_time = true;
  postgres_in_time = false;
  sale_in_time = true;
  queue_in_time = true;
  ping = ok true;
  query = ok tt;
  clock = record { is_ok = true; offset_ms = pos 3; rtt_ms = pos 1; age_ms = pos 10 };
  redis_time = record { seconds = 2; micros = 0 };
  db = record open_db { stock = some (pos 0) };
  depth = throw plain_error;
  redis_latency = 1;
  postgres_latency = 1000;
}

get_readiness-get_status_example : (get_readiness flash impaired).0 ≡ true
unfolding get_status status assert_sale_id sale_id_pattern all_codes decode_status
    bookipi_technical_test.Redis.Scripts.Seed.status derive_sale_state
get_readiness-get_status_example =
    (get_readiness-get_status flash impaired).1 (refl, refl, refl, refl, refl)

abbrev purchase_request : Request
purchase_request = record {
  url = codes "/api/purchase?retry=1";
  request_id = codes "req-1";
  server_time_ms = 2000;
}

abbrev rejected_markup : Exception
rejected_markup = rejected_body (some (codes "<b>ann</b>"))

catch_exception-IsDiscreet_example :
    IsDiscreet purchase_request rejected_markup (catch_exception purchase_request rejected_markup)
catch_exception-IsDiscreet_example = catch_exception-IsDiscreet purchase_request rejected_markup

-- The markup is stripped.
markup_is_stripped : catch_exception purchase_request rejected_markup ≡ record {
  status = 422;
  envelope =
      purchase_response invalid_user_id (codes "bannb") (codes "The provided user ID is invalid.");
  server_time_ms = 2000;
}
unfolding catch_exception rejected_body is_body_parse_failure outcome_among text_eq respond
    request_path sanitize_user_id_echo only_user_id_codes message_for
markup_is_stripped = refl

-- An error of the database says nothing of itself.
database_error :
    catch_exception purchase_request (other_error (some (codes "42P01")) (codes "no such table"))
    ≡ record {
      status = 500;
      envelope = api_error internal (codes "req-1") (codes "Internal error");
      server_time_ms = 2000;
    }
unfolding catch_exception is_body_parse_failure is_text_among text_eq send_api_error message_for
database_error = refl

-- An observation fails, another one begins, and the probe is closed.
abbrev probe_events : List ProbeEvent
probe_events =
    depth_called
    ∷ command_ended false
    ∷ flight_goes_on
    ∷ flight_goes_on
    ∷ flight_goes_on
    ∷ depth_called
    ∷ close_called
    ∷ []

abbrev closed_probe : Probe
closed_probe = probe_run probe_events new_probe

probe_bounded_example : length closed_probe.connected ≤ (if closed_probe.closing then 0 else 1)
probe_bounded_example = probe_bounded probe_events

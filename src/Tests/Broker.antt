-- ===== src/Tests/Broker.antt =====
-- Runs of the broker's adapter.
use tributo_knova.Prelude.{true, false, some, [], ◌∷◌, ◌≡◌, refl}
use tributo_knova.Python.Value.{end, string, put}
use tributo_knova.Python.Result.{Result, ok}
use tributo_knova.Broker.{
  Encoding, Generic, redis_broker_config, timeout_seconds, prepare_broker_operation,
  parse_broker_request, matches_terminal_event,
}
use tributo_knova.Broker.Timeout.{IsJsonDump, IsPrepared, parse_broker_request-IsPrepared}
use tributo_knova.Broker.Identity.{IsNamed, parse_broker_request-IsNamed}
use tributo_knova.Tests.Decimal.{Decimal, decimals}
use tributo_knova.Tests.Payloads
use tributo_knova.Tests.Pydantic.{library}
use tributo_knova.Tests.Protocol.{loads, parser}

-- Its requests have no field that is None, so its dump is the request.
abbrev encoding : Encoding Decimal
encoding = record { json_dump = λ d. d; dumps = λ d. some "canonical"; sha256 = λ s. "digest" }

IsJsonDump-encoding : IsJsonDump encoding
IsJsonDump-encoding = record {
  drops = λ d k h. h;
  keeps = λ d o k h. (o, h, (λ j n. n), (λ j n i. i));
}

broker : Unit {0}
unfolding parser redis_broker_config timeout_seconds prepare_broker_operation parse_broker_request
    matches_terminal_event put
broker = tt

abbrev parsed : Result (Generic Decimal)
parsed = parse_broker_request (library loads) encoding "training" "job-1" true

abbrev generic_or : Result (Generic Decimal) → Generic Decimal
generic_or (ok g) = g
generic_or _ = record {
  protocol_profile = "";
  protocol_version = "";
  operation_id = "";
  training = false;
  execution_profile = "";
  run_id = "";
  request_digest = "";
  spec = end;
}

returned : parsed ≡ ok (generic_or parsed)
unfolding broker
returned = refl

parse_broker_request-IsPrepared_example : IsPrepared (generic_or parsed)
parse_broker_request-IsPrepared_example =
    parse_broker_request-IsPrepared encoding IsJsonDump-encoding (library loads) "training" "job-1"
      true returned

parse_broker_request-IsNamed_example : IsNamed "job-1" true (generic_or parsed)
parse_broker_request-IsNamed_example =
    parse_broker_request-IsNamed (library loads) encoding "training" "job-1" true returned

renamed :
    redis_broker_config (Payloads.dict (("broker_id", string "tributo-knova") ∷ []))
    ≡ ok (Payloads.dict (("broker_id", string "tributo-redis") ∷ []))
unfolding broker
renamed = refl

-- the terminal event of an execution, which the submission's channel recognizes
matched :
    matches_terminal_event
      (Payloads.dict (
        ("protocol_version", string "2.0")
        ∷ ("event_type", string "COMPLETED")
        ∷ ("job_id", string "job-1")
        ∷ []))
      "job_id"
      "job-1"
    ≡ true
unfolding broker
matched = refl

-- ===== src/Tests/Protocol.antt =====
-- Runs of the parser.
use tributo_knova.Prelude.{String, true, false, ◌≡◌, ◌⊎◌, refl, ◌==◌, if◌then◌else◌}
use tributo_knova.Python.Text.{split_dot, code_points}
use tributo_knova.Python.Value.{end, object, find, get_or}
use tributo_knova.Python.Result.{Result, Exception, ok, err, protocol_failure, recursion_error}
use tributo_knova.Protocol.Schema.{supported_major, trimmed}
use tributo_knova.Protocol.{Request, parse_request, Loaded, json_value, malformed, escaped}
use tributo_knova.Protocol.Admitted.{IsAdmitted, parse_request-IsAdmitted}
use tributo_knova.Protocol.Failure.{IsFailure, Escapes, parse_request-IsFailure}
use tributo_knova.Tests.Decimal.{Decimal, decimals}
use tributo_knova.Tests.Payloads
use tributo_knova.Tests.Pydantic.{filled, library, IsPydantic-library}
use tributo_knova.Tests.Validation.{validation}

-- texts that stand for two requests, one that is nested too deeply, and texts that are no JSON
abbrev pub loads : String → Loaded Decimal
loads raw =
    if raw == "training"
    then json_value (object Payloads.training)
    else if raw == "inference"
    then json_value (object Payloads.inference)
    else if raw == "deep"
    then escaped recursion_error
    else malformed

unfoldable pub parser : Unit {0}
unfolding validation parse_request supported_major trimmed filled split_dot code_points find get_or
parser = tt

abbrev parsed : Result (Request Decimal)
parsed = parse_request (library loads) "training" "job-1" true

abbrev request_or : Result (Request Decimal) → Request Decimal
request_or (ok request) = request
request_or _ = record { training = false; fields = end }

admitted : parsed ≡ ok (request_or parsed)
unfolding parser
admitted = refl

inference_admitted :
    parse_request (library loads) "inference" "run-1" false
    ≡ ok (request_or (parse_request (library loads) "inference" "run-1" false))
unfolding parser
inference_admitted = refl

parse_request-IsAdmitted_example :
    IsAdmitted (library loads) "training" "job-1" true (request_or parsed)
parse_request-IsAdmitted_example =
    parse_request-IsAdmitted (library loads) (IsPydantic-library loads) "training" "job-1" true
      admitted

abbrev mismatch : Exception
mismatch =
    protocol_failure "INVALID_PAYLOAD" "outer operation identity does not match payload identity"

refused : parse_request (library loads) "inference" "run-2" false ≡ err mismatch
unfolding parser
refused = refl

parse_request-IsFailure_example : IsFailure mismatch ⊎ Escapes (library loads) "inference" mismatch
parse_request-IsFailure_example =
    parse_request-IsFailure (library loads) "inference" "run-2" mismatch refused

-- RecursionError leaves the parser
escapes : parse_request (library loads) "deep" "run-1" false ≡ err recursion_error
unfolding parser
escapes = refl

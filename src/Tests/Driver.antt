-- ===== src/Tests/Driver.antt =====
-- Runs of the driver.
use tributo_knova.Prelude.{
  ◌∷◌, String, true, false, none, some, [], Option, ◌≡◌, refl, arith, ◌==◌, if◌then◌else◌,
}
use tributo_knova.Python.Value.{string, Dict, object, field, end}
use tributo_knova.Python.Result.{ok}
use tributo_knova.Reporter.State.{World}
use tributo_knova.Reporter.Script.Laws.{Closed}
use tributo_knova.Reporter.Methods.{publish}
use tributo_knova.Reporter.Restore.{init}
use tributo_knova.Reporter.Calls.{idle, calls, publishes}
use tributo_knova.Driver.Input.{DriverInput, Transport, load_driver_input, validate_request}
use tributo_knova.Driver.Failure.{failure_code, failure_phase, failure_summary}
use tributo_knova.Driver.Main.{
  other, Outcome, done, raised, Runtime, builtin, dispatch, body, terminal_event, run, main,
}
use tributo_knova.Driver.Closing.{IsFaithful, main-Closed}
use tributo_knova.Driver.Executed.{IsExecuted, run-IsExecuted}
use tributo_knova.Tests.Decimal.{Decimal, decimals}
use tributo_knova.Tests.Payloads
use tributo_knova.Tests.Payloads.{dict}
use tributo_knova.Tests.Codec.{host, IsLossless-host}
use tributo_knova.Tests.Pydantic.{library}
use tributo_knova.Tests.Protocol.{loads, parser}
use tributo_knova.Tests.Reporter.{self, now, reporter}

abbrev value : DriverInput Decimal
value = record {
  operation_id = "job-1";
  run_id = "job-1";
  attempt_id = "attempt-1";
  training = true;
  operation_payload = field "knova_request" (object Payloads.training) end;
}

abbrev environ : String → Option String
environ name =
    if name == "TRIBUTO_SUBMISSION_ID"
    then some "submission-1"
    else if name == "TRIBUTO_ATTEMPT_ID"
    then some "attempt-1"
    else if name == "TRIBUTO_RUN_ID"
    then some "job-1"
    else none

abbrev transport : Transport Decimal
transport = record {
  environ = environ;
  read = λ e. ok "encoded";
  decode64 = λ s. some "decoded";
  validate_json = λ s. ok value;
}

-- what `failed` puts into the event
abbrev failed_payload : String → String → String → Dict Decimal
failed_payload code kind message = dict (
    ("error_code", string code)
    ∷ ("error_type", string kind)
    ∷ ("sanitized_message", string message)
    ∷ [])

-- an execution that publishes LOG and comes to an outcome
abbrev runtime : Outcome (Unit {0}) → Runtime Decimal
runtime outcome = record {
  initialize_ray = none;
  has_execution = λ training. true;
  execute = λ request w. (outcome, (publish host now "LOG" end none w).1);
  first = now;
  second = now;
  last = now;
  failed = λ code kind phase message.
      publish host now "FAILED" (failed_payload code kind message) (some phase);
}

IsFaithful-runtime : (outcome : Outcome (Unit {0})) → IsFaithful host (runtime outcome)
IsFaithful-runtime outcome = record {
  fails = λ code kind phase message w. (failed_payload code kind message, refl);
  reports = λ request w. calls idle (publishes now "LOG" end none);
}

driver : Unit {0}
unfolding parser reporter init load_driver_input validate_request failure_code failure_phase
    failure_summary dispatch body terminal_event run main
driver = tt

abbrev failing : Runtime Decimal
failing = runtime (raised (other (builtin "RuntimeError" false)))

loaded : load_driver_input transport ≡ ok (value, "submission-1")
unfolding driver
loaded = refl

exits : (main host (library loads) transport failing true [] (λ v. ok self)).result ≡ some (ok 1)
unfolding driver
exits = refl

main-Closed_example :
    Closed host (main host (library loads) transport failing true [] (λ v. ok self)).stream
main-Closed_example =
    main-Closed host failing (IsFaithful-runtime (raised (other (builtin "RuntimeError" false))))
      IsLossless-host (library loads) transport [] (λ v. ok self) value "submission-1" self loaded
      refl refl refl (omega arith) tt exits

abbrev start : World Decimal
start = record { self = self; stream = [] }

succeeds : (run host (library loads) (runtime (done tt)) value start).0 ≡ ok 0
unfolding driver
succeeds = refl

run-IsExecuted_example : IsExecuted host (library loads) (runtime (done tt)) value
run-IsExecuted_example =
    run-IsExecuted host (library loads) (runtime (done tt)) value start succeeds

-- ===== src/Driver/Main.antt =====
-- src/tributo_knova/execution_driver.py: `_dispatch` and `main`.
use tributo_knova.Prelude.{ℕ, String, Bool, true, false, Option, none, some, ◌==◌, if◌then◌else◌}
use tributo_knova.Python.Value.{Dict, string, field, end}
use tributo_knova.Python.Result.{
  Result, Exception, ok, err, protocol_validation, overflow_error, type_error, value_error,
  conversion_error, control_error, protocol_failure, mapping_failure, training_configuration,
  training_execution, inference_configuration, key_error, response_error, recursion_error,
}
use tributo_knova.Protocol.{Library, Request}
use tributo_knova.Reporter.State as R
use tributo_knova.Reporter.State.{Stream, Reporter, Moment, Host, World, M, pure}
use tributo_knova.Reporter.Methods.{check_control, publish}
use tributo_knova.Reporter.Restore.{Restored, restored, unhashable, foreign, init}
use tributo_knova.Driver.Failure.{Raised, failure_code, failure_phase, failure_summary}
use tributo_knova.Driver.Input.{DriverInput, Transport, load_driver_input, validate_request}

-- The exceptions that `main` tells apart: ExecutionControlError; ExecutionNotImplemented, ImportError
-- and NotImplementedError; _TerminalEventPublicationError; and the others.
pub data Failure : Type 0 where
  control : String → String → Failure
  unavailable publication : Failure
  other : Raised → Failure

-- what a step of the driver comes to
pub data Outcome (A : Type 0) : Type 0 where
  done : A → Outcome A
  raised : Failure → Outcome A

abbrev pub builtin : String → Bool → Raised
builtin name is_value_error = record {
  module_name = "builtins";
  class_name = name;
  message = "";
  code = none;
  phase = none;
  is_value_error = is_value_error;
}

-- the exceptions of the reporter and of the checks
abbrev pub failure_of : Exception → Failure
failure_of (control_error code phase) = control code phase
failure_of (value_error message) = other (builtin "ValueError" true)
failure_of (protocol_validation message) = other (builtin "ProtocolValidationError" true)
failure_of conversion_error = other (builtin "ValueError" true)
failure_of overflow_error = other (builtin "OverflowError" false)
failure_of type_error = other (builtin "TypeError" false)
failure_of (protocol_failure code message) = other (builtin "KnovaProtocolFailure" false)
failure_of (mapping_failure code message) = other (builtin "MappingFailure" false)
failure_of (training_configuration message) = other (record {
  module_name = "tributo_knova.training";
  class_name = "_TrainingConfigurationError";
  message = message;
  code = some "INVALID_PAYLOAD";
  phase = some "QUEUED";
  is_value_error = true;
})
failure_of (training_execution message) = other (record {
  module_name = "tributo_knova.training";
  class_name = "_TrainingExecutionError";
  message = message;
  code = some "TRAINING_FAILED";
  phase = some "TRAINING";
  is_value_error = false;
})
failure_of (inference_configuration code phase message) = other (record {
  module_name = "tributo_knova.inference";
  class_name = "_InferenceConfigurationError";
  message = message;
  code = some code;
  phase = some phase;
  is_value_error = true;
})
failure_of key_error = other (builtin "KeyError" false)
failure_of response_error = other (builtin "ResponseError" false)
failure_of recursion_error = other (builtin "RecursionError" false)

-- Code of other modules and packages: connecting to Ray; whether the execution module of the kind can
-- be imported and has its function; the execution; the clock at each call; and the base class's
-- `failed`, with the code, the class, the phase and the message of a failure.
pub record Runtime (F : Type 0) : Type 0 where
  pub initialize_ray : Option Failure
  pub has_execution : Bool → Bool
  pub execute : Request F → World F → Outcome (Unit {0}) × World F
  pub first : Moment F
  pub second : Moment F
  pub last : Moment F
  pub failed : String → String → String → String → M F (Dict F)

abbrev pub connected : Option Failure → Outcome (Unit {0})
connected none = done tt
connected (some e) = raised e

abbrev pub same_kind : Bool → Bool → Bool
same_kind true true = true
same_kind false false = true
same_kind _ _ = false

-- str(exc) of an ExecutionControlError
abbrev pub control_message : String → String
control_message code =
    if code == "CANCELLED" then "execution cancelled" else "execution deadline exceeded"

abbrev pub D : Type 0 → Type 0 → Type 0
D F A = World F → Outcome A × World F

module _ {F : Type 0} where
  module _ {A B : Type 0} where
    abbrev pub continue : (A → D F B) → Outcome A × World F → Outcome B × World F
    continue f (done a, w) = f a w
    continue f (raised e, w) = (raised e, w)

    infixl 5 ◌>>=◌ ◌>>◌
    abbrev pub ◌>>=◌ : D F A → (A → D F B) → D F B
    ◌>>=◌ m f w = continue f (m w)

    abbrev pub ◌>>◌ : D F A → D F B → D F B
    m >> k = m >>= λ _. k

  abbrev pub attempted : {A : Type 0} → Result A × World F → Outcome A × World F
  attempted (ok a, w) = (done a, w)
  attempted (err e, w) = (raised (failure_of e), w)

  -- `_dispatch` with `_execute_training` and `_execute_inference`. The latter turn ImportError and
  -- NotImplementedError into ExecutionNotImplemented, which `main` treats alike.
  unfoldable pub dispatch : Runtime F → DriverInput F → Request F → D F (Unit {0})
  dispatch runtime value request w =
      if same_kind value.training request.training
      then (if runtime.has_execution value.training
          then runtime.execute request w
          else (raised unavailable, w))
      else (raised (other (builtin "TypeError" false)), w)

  -- the inner `try` of `main`
  unfoldable pub body : Library F → Runtime F → DriverInput F → D F (Unit {0})
  unfolding check_control
  body library runtime value = do
    λ w. attempted (check_control runtime.first none w)
    λ w. (connected runtime.initialize_ray, w)
    request ← λ w. attempted (validate_request library value, w)
    λ w. attempted (check_control runtime.second none w)
    dispatch runtime value request

  abbrev pub exit : ℕ → M F (Dict F) → M F ℕ
  exit status m = R.◌>>=◌ m (λ _. pure status)

  -- the events of the `except` clauses of the inner `try`
  unfoldable pub terminal_event : Host F → Runtime F → Failure → M F (Dict F)
  terminal_event host runtime (control code phase) w =
      (if code == "CANCELLED"
          then publish host runtime.last "CANCELLED"
              (field "message" (string (control_message code)) end) (some phase)
          else runtime.failed code "ExecutionControlError" phase (control_message code))
        w
  terminal_event host runtime unavailable w =
      runtime.failed "EXECUTION_NOT_IMPLEMENTED" "ExecutionNotImplemented" "PREPARING"
        "ExecutionNotImplemented: execution is unavailable; inspect Ray Job logs." w
  terminal_event host runtime publication w =
      runtime.failed "TERMINAL_EVENT_PUBLICATION_FAILED" "TerminalEventPublicationError"
        "PUBLISHING"
        "TerminalEventPublicationError: completion notification failed; inspect Ray Job logs." w
  terminal_event host runtime (other e) w =
      runtime.failed (failure_code e) e.class_name (failure_phase e w.self.current_phase)
        (failure_summary e) w

  abbrev pub supervise : Host F → Runtime F → Outcome (Unit {0}) × World F → Result ℕ × World F
  supervise host runtime (done _, w) = (ok 0, w)
  supervise host runtime (raised e, w) = exit 1 (terminal_event host runtime e) w

  unfoldable pub run : Host F → Library F → Runtime F → DriverInput F → M F ℕ
  unfolding body terminal_event
  run host library runtime value w = supervise host runtime (body library runtime value w)

-- what `main` comes to: the code that it returns or the exception that leaves it, nothing where the model
-- ends on a phase that is not a text; the stream; and whether it closed the connection
pub record Ending : Type 0 where
  pub result : Option (Result ℕ)
  pub stream : Stream
  pub closed : Bool

module _ {F : Type 0} where
  -- the inner `try` with the reporter that was made
  abbrev pub supervised :
      Host F → Library F → Runtime F → DriverInput F → Stream → Restored F → Ending
  supervised host library runtime value stream (restored self) =
      let (result, w) = run host library runtime value (record { self = self; stream = stream }) in
      record { result = some result; stream = w.stream; closed = true }
  supervised host library runtime value stream unhashable = record {
    result = some (err type_error);
    stream = stream;
    closed = true;
  }
  supervised host library runtime value stream foreign = record {
    result = none;
    stream = stream;
    closed = true;
  }

  -- `base` is the reporter with its constructor's arguments, before it reads the stream.
  abbrev pub report :
      Host F → Library F → Runtime F → DriverInput F → Stream → Result (Reporter F) → Ending
  report host library runtime value stream (err e) = record {
    result = some (err e);
    stream = stream;
    closed = true;
  }
  report host library runtime value stream (ok base) =
      supervised host library runtime value stream (init host true stream base)

  abbrev pub connect :
      Host F
      → Library F
      → Runtime F
      → Bool
      → Stream
      → (DriverInput F → Result (Reporter F))
      → Result (DriverInput F × String)
      → Ending
  connect host library runtime client stream base (err e) = record {
    result = some (ok 1);
    stream = stream;
    closed = false;
  }
  connect host library runtime client stream base (ok (value, submission_id)) =
      if client
      then report host library runtime value stream (base value)
      else record { result = some (ok 1); stream = stream; closed = false }

  -- `client` says that `create_redis_client` returned.
  unfoldable pub main :
      Host F
      → Library F
      → Transport F
      → Runtime F
      → Bool
      → Stream
      → (DriverInput F → Result (Reporter F))
      → Ending
  main host library transport runtime client stream base =
      connect host library runtime client stream base (load_driver_input transport)

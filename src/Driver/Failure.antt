-- ===== src/Driver/Failure.antt =====
-- src/tributo_knova/execution_driver.py: `_failure_summary`, `_failure_code` and `_failure_phase`, what
-- the driver reports of an exception.
use Prim.Native.String.{◌++◌}
use tributo_knova.Prelude.{
  String, Bool, false, List, [], ◌∷◌, Option, none, some, ◌==◌, elem, if◌then◌else◌,
}
use tributo_knova.Reporter.Events.{take_text}

-- An exception: its class by module and name, what the driver asks of its attributes, and whether
-- it is a ValueError or a ValidationError. A class is known by its name; it is loaded if one
-- of its instances was raised.
pub record Raised : Type 0 where
  pub module_name : String
  pub class_name : String
  pub message : String
  pub code : Option String
  pub phase : Option String
  pub is_value_error : Bool

abbrev pub training_classes : List String
training_classes = "_TrainingConfigurationError" ∷ "_TrainingExecutionError" ∷ []

abbrev pub inference_classes : List String
inference_classes =
    "_InferenceConfigurationError" ∷ "_InferenceExecutionError" ∷ "_EmptyInferenceInputError" ∷ []

-- the exact provider-owned types whose messages are safe
abbrev pub is_provider_error : Raised → Bool
is_provider_error error =
    if error.module_name == "tributo_knova.training"
    then elem error.class_name training_classes
    else if error.module_name == "tributo_knova.inference"
    then elem error.class_name inference_classes
    else false

-- `_failure_summary`, for an exception that is no ExecutionControlError
unfoldable pub failure_summary : Raised → String
failure_summary error =
    if is_provider_error error
    then take_text 1024 error.message
    else error.class_name ++ ": operation failed; inspect Ray Job logs."

-- `"Configuration" in name`, among the names of the provider's classes
abbrev pub is_configuration : String → Bool
is_configuration name =
    elem name ("_InferenceConfigurationError" ∷ "_TrainingConfigurationError" ∷ [])

-- getattr(error, "code", …)
abbrev pub code_or : Option String → String → String
code_or none default = default
code_or (some code) default = code

unfoldable pub failure_code : Raised → String
failure_code error =
    if is_provider_error error
    then (if error.class_name == "_EmptyInferenceInputError"
        then "EMPTY_INPUT"
        else code_or error.code
            (if is_configuration error.class_name then "INVALID_PAYLOAD" else "EXECUTION_FAILED"))
    else if error.is_value_error
    then "INVALID_PAYLOAD"
    else "EXECUTION_FAILED"

-- The exception's own phase, if it comes from an execution module and has one as a text.
unfoldable pub failure_phase : Raised → String → String
failure_phase error current =
    if elem error.module_name ("tributo_knova.inference" ∷ "tributo_knova.training" ∷ [])
    then code_or error.phase current
    else current

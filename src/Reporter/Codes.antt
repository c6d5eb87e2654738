-- ===== src/Reporter/Codes.antt =====
-- src/tributo_knova/reporter.py: the tables of phases and codes, and `_error_code`.
pub mod Laws
use tributo_knova.Prelude.{
  String, Bool, true, false, ◌&&◌, List, [], ◌∷◌, Option, none, some, ◌==◌, elem, if◌then◌else◌,
}

abbrev pub terminal_events : List String
terminal_events = "COMPLETED" ∷ "FAILED" ∷ "CANCELLED" ∷ []

-- The tables by their `get(phase, default)`.
unfoldable pub training_phases : String → String → String
training_phases phase default =
    if elem phase ("ADMISSION" ∷ "ADMITTED" ∷ [])
    then "QUEUED"
    else if phase == "PREPARING"
    then "LOADING_DATA"
    else if phase == "EXECUTING"
    then "TRAINING"
    else if elem phase ("MATERIALIZING" ∷ "PUBLISHING" ∷ [])
    then "EVALUATING"
    else if elem phase ("COMPLETED" ∷ "FAILED" ∷ "CANCELLED" ∷ [])
    then phase
    else default

unfoldable pub inference_phases : String → String → String
inference_phases phase default =
    if elem phase ("QUEUED" ∷ "ADMISSION" ∷ "ADMITTED" ∷ "PREPARING" ∷ "FAILED" ∷ [])
    then "INIT"
    else if elem phase ("EXECUTING" ∷ "CANCELLED" ∷ [])
    then "PREDICT"
    else if phase == "MATERIALIZING"
    then "WRITE_RESULT"
    else if elem phase ("PUBLISHING" ∷ "COMPLETED" ∷ [])
    then "CLEANUP"
    else default

abbrev pub phases : Bool → String → String → String
phases true = training_phases
phases false = inference_phases

abbrev pub invalid_codes : List String
invalid_codes =
    "INVALID_JSON" ∷ "INVALID_REQUEST" ∷ "INVALID_ENVELOPE" ∷ "INVALID_OPERATION_ID"
    ∷ "IDENTITY_MISMATCH" ∷ "OPERATION_CHANNEL_MISMATCH" ∷ "PAYLOAD_TOO_LARGE"
    ∷ "DRIVER_INPUT_TOO_LARGE" ∷ "UNSUPPORTED_EXECUTION_PROFILE" ∷ []

abbrev pub inference_codes : List String
inference_codes =
    "UNSUPPORTED_PROTOCOL_VERSION" ∷ "INVALID_PAYLOAD" ∷ "MODEL_ARTIFACT_NOT_FOUND"
    ∷ "MODEL_ARTIFACT_CORRUPTED" ∷ "MODEL_LOAD_FAILED" ∷ "MODEL_FORMAT_UNSUPPORTED"
    ∷ "MODEL_SCHEMA_MISMATCH" ∷ "DATA_SOURCE_UNREACHABLE" ∷ "INPUT_QUERY_FAILED"
    ∷ "INPUT_COLUMN_MISSING" ∷ "EMPTY_INPUT" ∷ "PREDICTION_FAILED" ∷ "RESULT_WRITE_FAILED"
    ∷ "EXECUTION_TIMEOUT" ∷ "UNKNOWN" ∷ []

abbrev pub training_codes : List String
training_codes =
    "UNSUPPORTED_PROTOCOL_VERSION" ∷ "INVALID_PAYLOAD" ∷ "DATA_SOURCE_UNREACHABLE"
    ∷ "DATA_QUERY_FAILED" ∷ "EMPTY_DATASET" ∷ "FEATURE_ENGINEERING_FAILED" ∷ "TRAINING_FAILED"
    ∷ "TRAINING_OOM" ∷ "TRAINING_TIMEOUT" ∷ "EVALUATION_FAILED" ∷ "MODEL_EXPORT_FAILED"
    ∷ "ARTIFACT_UPLOAD_FAILED" ∷ "UNKNOWN" ∷ []

abbrev pub allowed_codes : Bool → List String
allowed_codes true = training_codes
allowed_codes false = inference_codes

abbrev pub generic_failures : List String
generic_failures =
    "EXECUTION_FAILED" ∷ "RAY_JOB_FAILED" ∷ "RAY_JOB_STOPPED" ∷ "TERMINAL_EVENT_MISSING" ∷ []

-- the code of a generic failure, by the phase in which it happened
abbrev pub phase_code : Bool → String → String
phase_code true phase =
    if phase == "LOADING_DATA"
    then "DATA_QUERY_FAILED"
    else if phase == "EVALUATING"
    then "EVALUATION_FAILED"
    else if phase == "EXPORTING"
    then "MODEL_EXPORT_FAILED"
    else "TRAINING_FAILED"
phase_code false phase =
    if phase == "LOAD_MODEL"
    then "MODEL_LOAD_FAILED"
    else if phase == "READ_INPUT"
    then "INPUT_QUERY_FAILED"
    else if phase == "WRITE_RESULT"
    then "RESULT_WRITE_FAILED"
    else "PREDICTION_FAILED"

unfoldable pub error_code : Bool → String → String → String
error_code training code phase =
    if elem code invalid_codes
    then "INVALID_PAYLOAD"
    else if code == "EXECUTION_TIMEOUT" && training
    then "TRAINING_TIMEOUT"
    else if elem code (allowed_codes training)
    then code
    else if elem code generic_failures
    then phase_code training phase
    else "UNKNOWN"

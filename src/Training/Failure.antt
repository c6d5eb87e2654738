-- ===== src/Training/Failure.antt =====
-- src/tributo_knova/training.py: `_classify_training_failure`, and the handlers of `execute_training`.
-- An exception is an object: causes refer to it by its identity, here a name, and may form a cycle.
pub mod Chain
pub mod Codes
use tributo_knova.Prelude.{
  ℕ, zero, suc, String, Bool, true, false, ◌&&◌, ◌||◌, List, [], ◌∷◌, Option, none, some, elem,
  length, ◌==◌, if◌then◌else◌,
}
use mathlib.Core.List as L
use Prim.Native.String.{◌++◌}
use tributo_knova.Python.Table.{Table, lookup}

-- the module and the function of a frame of a traceback
pub record Frame : Type 0 where
  pub module_name : String
  pub function : String

-- an instance of Exception: the frames of its traceback, its `__cause__`, and what isinstance tells
pub record Thrown : Type 0 where
  pub frames : List Frame
  pub cause : Option String
  pub is_data_error : Bool
  pub is_connection_error : Bool

-- The exceptions by their identity. A cause that is not here is no instance of Exception.
abbrev pub Heap : Type 0
Heap = List (String × Thrown)

unfoldable pub thrown_at : Heap → String → Option Thrown
thrown_at [] a = none
thrown_at ((b, e) ∷ heap) a = if b == a then some e else thrown_at heap a

abbrev pub led_by : Thrown → Option (List Thrown) → Option (List Thrown)
led_by e none = none
led_by e (some chain) = some (e ∷ chain)

-- one round of the loop, with its rest as a function of the next cause
abbrev pub visit : Option Thrown → (Option String → Option (List Thrown)) → Option (List Thrown)
visit none others = some []
visit (some e) others = led_by e (others e.cause)

-- The loop over the causes, on fuel: the exceptions from the given one on, until there is no cause or
-- one that was seen before.
unfoldable pub causes : ℕ → Heap → List String → Option String → Option (List Thrown)
unfolding thrown_at
causes fuel heap seen none = some []
causes zero heap seen (some a) = none
causes (suc fuel) heap seen (some a) =
    if elem a seen then some [] else visit (thrown_at heap a) (causes fuel heap (a ∷ seen))

-- the phases of the broker, by those of training
abbrev pub phase_of_training : String → String
phase_of_training phase =
    if phase == "PREPARING"
    then "LOADING_DATA"
    else if phase == "EXECUTING"
    then "TRAINING"
    else if phase == "MATERIALIZING"
    then "EVALUATING"
    else if phase == "PUBLISHING"
    then "EVALUATING"
    else phase

abbrev pub any_frame : (Frame → Bool) → List Frame → Bool
any_frame test [] = false
any_frame test (f ∷ fs) = test f || any_frame test fs

-- `any(... for frame, _ in frames)` over the frames of all causes
abbrev pub any_of : (Frame → Bool) → List Thrown → Bool
any_of test [] = false
any_of test (e ∷ es) = any_frame test e.frames || any_of test es

abbrev pub is_export : Frame → Bool
is_export f =
    (f.module_name == "tributo_algorithms_boosting.training" && f.function == "_export_bundle")
    || (f.module_name == "tributo_knova.training"
        && elem f.function ("_artifact_manifest" ∷ "_artifact_storage" ∷ []))

abbrev pub is_ingestion : Frame → Bool
is_ingestion f = elem f.module_name (
    "tributo.data.ingestion" ∷ "ray_clickhouse.datasource" ∷ "ray_clickhouse._discovery"
    ∷ "ray_clickhouse._planning" ∷ [])

abbrev pub any_data_error : List Thrown → Bool
any_data_error [] = false
any_data_error (e ∷ es) = e.is_data_error || any_data_error es

abbrev pub phase_failure : Bool → String → String × String
phase_failure connection phase =
    if elem phase ("LOADING_DATA" ∷ "DATA_SPLITTING" ∷ [])
    then ((if connection then "DATA_SOURCE_UNREACHABLE" else "DATA_QUERY_FAILED"), phase)
    else if phase == "FEATURE_ENGINEERING"
    then ("FEATURE_ENGINEERING_FAILED", phase)
    else if phase == "EVALUATING"
    then ("EVALUATION_FAILED", phase)
    else ("TRAINING_FAILED", phase)

-- the code and the phase, from the chain of causes
unfoldable pub failure_in : List Thrown → Bool → String → Bool → String × String
failure_in chain connection phase publishing =
    if publishing || any_of is_export chain
    then ("MODEL_EXPORT_FAILED", "EVALUATING")
    else if any_data_error chain || any_of is_ingestion chain
    then ("DATA_QUERY_FAILED", "LOADING_DATA")
    else phase_failure connection phase

abbrev pub connection_of : Option Thrown → Bool
connection_of none = false
connection_of (some e) = e.is_connection_error

abbrev pub current : Option String → String
current none = "LOADING_DATA"
current (some phase) = phase

abbrev pub failure_of_chain : Option (List Thrown) → Bool → String → Bool → Option (String × String)
failure_of_chain none connection phase publishing = none
failure_of_chain (some chain) connection phase publishing =
    some (failure_in chain connection phase publishing)

-- `phase` is the reporter's attribute `_current_phase`, if it has one. The result is none where the
-- fuel does not suffice.
unfoldable pub classify : ℕ → Heap → String → Option String → Bool → Option (String × String)
unfolding causes failure_in
classify fuel heap error phase publishing =
    failure_of_chain (causes fuel heap [] (some error)) (connection_of (thrown_at heap error))
      (phase_of_training (current phase)) publishing

-- What is raised while a training runs: a _TrainingExecutionError itself; its subclass
-- _TrainingDataError, which has a code and a phase of its own; a ValueError with one text; or any
-- other exception, with its attribute `code` if it has one.
pub data Fault : Type 0 where
  execution_fault data_fault : Fault
  value_fault : String → Fault
  other_fault : Option String → Fault

-- What leaves `execute_training`: the same exception, by its code, or a _TrainingExecutionError with its
-- code and phase. Without fuel it is stuck. The messages are left out.
pub data Leaving : Type 0 where
  unchanged : String → Leaving
  execution : String → String → Leaving
  stuck : Leaving

abbrev pub control_codes : List String
control_codes = "EXECUTION_TIMEOUT" ∷ "TRAINING_TIMEOUT" ∷ "CANCELLED" ∷ []

abbrev pub leaving_with : Option (String × String) → Leaving
leaving_with none = stuck
leaving_with (some (code, phase)) = execution code phase

-- the keys of `_KNOWN_DATA_FAILURES`, with the code that the handler gives them
abbrev pub known_data_code : String → Option String
known_data_code text =
    if text == "training dataset is empty"
    then some "EMPTY_DATASET"
    else if text == "Couldn't create non-empty splits with the given proportions."
    then some "DATA_QUERY_FAILED"
    else none

abbrev pub known_or : Option String → Option (String × String) → Leaving
known_or none otherwise = leaving_with otherwise
known_or (some code) otherwise = execution code "LOADING_DATA"

-- the handlers around the execution; `otherwise` is the classification of the exception
unfoldable pub leave : Option (String × String) → Fault → Leaving
leave otherwise execution_fault = leaving_with otherwise
leave otherwise data_fault = execution "DATA_QUERY_FAILED" "LOADING_DATA"
leave otherwise (value_fault text) = known_or (known_data_code text) otherwise
leave otherwise (other_fault none) = leaving_with otherwise
leave otherwise (other_fault (some code)) =
    if elem code control_codes then unchanged code else leaving_with otherwise

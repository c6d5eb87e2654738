-- ===== src/Protocol.antt =====
-- src/tributo_knova/protocol.py: `parse_request`, from the text of a request to an admitted request.
pub mod Schema
pub mod Admitted
pub mod Failure
use Prim.Native.Char.{Char}
use tributo_knova.Prelude.{
  String, Bool, true, false, List, [], ◌∷◌, Option, none, some, ◌==◌, elem, if◌then◌else◌,
}
use tributo_knova.Python.Number.{Floats}
use tributo_knova.Python.Value.{Value, Dict, string, object, get, has_key}
use tributo_knova.Python.Result.{
  Result, Exception, ok, err, protocol_validation, protocol_failure, ◌>>=◌, ◌>>◌,
}
use tributo_knova.Protocol.Schema.{Declared, schema, identity_field}
use tributo_knova.Validation.Training.{validate_training_payload}
use tributo_knova.Validation.Inference.{validate_inference_payload}

-- What pydantic comes to: the locations of the errors, or the fields of the model, those that are
-- not declared included, as `model_dump` gives them.
pub data Validated (F : Type 0) : Type 0 where
  refused : List (List String) → Validated F
  valid : Dict F → Validated F

-- What json.loads comes to: a value; JSONDecodeError, for a text that is no JSON; or another
-- exception, such as ValueError for an integer of more digits than Python converts, and
-- RecursionError for a text that is nested too deeply.
pub data Loaded (F : Type 0) : Type 0 where
  json_value : Value F → Loaded F
  malformed : Loaded F
  escaped : Exception → Loaded F

-- Code that is not in the repository: json.loads, the digits of `str.isdigit`, and pydantic.
pub record Library (F : Type 0) : Type 0 where
  pub loads : String → Loaded F
  pub is_digit : Char → Bool
  pub model_validate : List (Declared F) → Dict F → Validated F

-- a request of one of the two classes, with its fields
pub record Request (F : Type 0) : Type 0 where
  pub training : Bool
  pub fields : Dict F

-- ("protocol_version",) is among the locations
abbrev pub has_version_error : List (List String) → Bool
has_version_error [] = false
has_version_error ((name ∷ []) ∷ rest) =
    if name == "protocol_version" then true else has_version_error rest
has_version_error (place ∷ rest) = has_version_error rest

abbrev pub schema_code : List (List String) → String
schema_code places =
    if has_version_error places then "UNSUPPORTED_PROTOCOL_VERSION" else "INVALID_PAYLOAD"

-- `except ProtocolValidationError as exc: raise KnovaProtocolFailure("INVALID_PAYLOAD", str(exc))`
abbrev pub translated : Result (Unit {0}) → Result (Unit {0})
translated (err (protocol_validation message)) = err (protocol_failure "INVALID_PAYLOAD" message)
translated r = r

module _ {F : Type 0} where
  -- only JSONDecodeError is caught
  abbrev pub decoded : Loaded F → Result (Value F)
  decoded (json_value v) = ok v
  decoded malformed = err (protocol_failure "INVALID_PAYLOAD" "payload is not valid JSON")
  decoded (escaped raised) = err raised

  abbrev pub root : Value F → Result (Dict F)
  root (object d) = ok d
  root v = err (protocol_failure "INVALID_PAYLOAD" "payload root must be an object")

  abbrev pub versioned : Dict F → Result (Unit {0})
  versioned d =
      if has_key d "protocol_version"
      then ok tt
      else err (protocol_failure "UNSUPPORTED_PROTOCOL_VERSION" "protocol_version is required")

  abbrev pub modelled : Validated F → Result (Dict F)
  modelled (refused places) =
      err (protocol_failure (schema_code places) "request schema validation failed")
  modelled (valid fields) = ok fields

  abbrev pub is_identity : Value F → String → Bool
  is_identity (string s) outer = s == outer
  is_identity v outer = false

  -- `request.execution_id != outer_operation_id`; the property of a training request is its job id
  abbrev pub identified : Bool → Dict F → String → Result (Unit {0})
  identified training fields outer =
      if is_identity (get fields (identity_field training)) outer
      then ok tt
      else err (
          protocol_failure "INVALID_PAYLOAD"
            "outer operation identity does not match payload identity")

  abbrev pub validator : ⦃fl : Floats F⦄ → Bool → Dict F → Result (Unit {0})
  validator true fields = validate_training_payload fields
  validator false fields = validate_inference_payload fields

  unfoldable pub parse_request :
      ⦃fl : Floats F⦄ → Library F → String → String → Bool → Result (Request F)
  parse_request library raw_payload outer training = do
    value ← decoded (library.loads raw_payload)
    d ← root value
    versioned d
    fields ← modelled (library.model_validate (schema library.is_digit training) d)
    identified training fields outer
    translated (validator training fields)
    ok (record { training = training; fields = fields })

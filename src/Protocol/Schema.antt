-- ===== src/Protocol/Schema.antt =====
-- src/tributo_knova/protocol.py: the fields that `_Request`, `TrainingExecutionRequest` and
-- `InferenceExecutionRequest` declare, with their validators.
use Prim.Native.Char.{Char}
use tributo_knova.Prelude.{
  ℕ, String, Bool, true, false, not, ◌&&◌, List, [], ◌∷◌, ◌++◌, Option, none, some, ◌==◌, leb,
  if◌then◌else◌,
}
use tributo_knova.Python.Text.{strip, split_dot, code_points, every}
use tributo_knova.Python.Value.{Value, null, string, object, end}
use tributo_knova.Python.Result.{Result, ok, err, value_error}

-- The type of a field: `str`, `str` of a bounded length, `dict[str, Any]`, the same or `None`, `Any`.
pub data Kind : Type 0 where
  text mapping optional_mapping anything : Kind
  bounded : ℕ → ℕ → Kind

-- A declared field: its default, if it may be absent, and the validator that runs on a text that has
-- its type.
pub record Declared (F : Type 0) : Type 0 where
  pub name : String
  pub kind : Kind
  pub default : Option (Value F)
  pub validator : String → Result String

-- str.isdigit(), with the digits that Python knows
abbrev pub isdigit : (Char → Bool) → String → Bool
isdigit is_digit s = not (s == "") && every is_digit s

abbrev pub major : String
major = "2"

-- `_supported_major`, once the value is split
abbrev pub supported_parts : (Char → Bool) → String → Option (String × String) → Result String
supported_parts is_digit value none =
    err (value_error "protocol_version must use major.minor format")
supported_parts is_digit value (some (first, second)) =
    if isdigit is_digit first && isdigit is_digit second
    then (if first == major
        then ok value
        else err (value_error "unsupported protocol major version"))
    else err (value_error "protocol_version must use major.minor format")

unfoldable pub supported_major : (Char → Bool) → String → Result String
supported_major is_digit value = supported_parts is_digit value (split_dot value)

-- `_trimmed_job_id` and `_trimmed_execution_id`
unfoldable pub trimmed : String → String → Result String
trimmed rule value = if value == strip value then ok value else err (value_error rule)

abbrev pub identity_field : Bool → String
identity_field true = "job_id"
identity_field false = "execution_id"

abbrev pub whitespace_rule : Bool → String
whitespace_rule true = "job_id must not have surrounding whitespace"
whitespace_rule false = "execution_id must not have surrounding whitespace"

module _ {F : Type 0} where
  abbrev pub declared : String → Kind → Option (Value F) → Declared F
  declared name kind default = record {
    name = name;
    kind = kind;
    default = default;
    validator = λ value. ok value;
  }

  -- Field(min_length=1, max_length=256)
  abbrev pub name_field : String → Declared F
  name_field name = declared name (bounded 1 256) none

  abbrev pub version_field : (Char → Bool) → Declared F
  version_field is_digit = record {
    name = "protocol_version";
    kind = text;
    default = none;
    validator = supported_major is_digit;
  }

  abbrev pub identity : Bool → Declared F
  identity training = record {
    name = identity_field training;
    kind = bounded 1 256;
    default = none;
    validator = trimmed (whitespace_rule training);
  }

  abbrev pub request_fields : (Char → Bool) → List (Declared F)
  request_fields is_digit =
      version_field is_digit
      ∷ name_field "tenant_id"
      ∷ declared "extensions" anything (some (object end))
      ∷ []

  abbrev pub own_fields : Bool → List (Declared F)
  own_fields true =
      name_field "model_id" ∷ name_field "version_id" ∷ declared "algorithm" mapping none ∷ []
  own_fields false =
      name_field "task_id"
      ∷ declared "model" optional_mapping (some null)
      ∷ declared "input" optional_mapping (some null)
      ∷ declared "output" optional_mapping (some null)
      ∷ declared "execution" mapping (some (object end))
      ∷ []

  -- the fields of the request's class, in their order
  abbrev pub schema : (Char → Bool) → Bool → List (Declared F)
  schema is_digit training = request_fields is_digit ++ (identity training ∷ own_fields training)

  -- Which values pydantic's documentation admits for a type: it converts nothing but bytes to `str`,
  -- which JSON does not have.
  abbrev pub conforms : Kind → Value F → Bool
  conforms text (string s) = true
  conforms (bounded low high) (string s) = leb low (code_points s) && leb (code_points s) high
  conforms mapping (object d) = true
  conforms optional_mapping (object d) = true
  conforms optional_mapping null = true
  conforms anything v = true
  conforms kind v = false

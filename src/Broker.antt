-- ===== src/Broker.antt =====
-- src/tributo_knova/broker.py: the adapter between the parser and the broker's runtime.
pub mod Timeout
pub mod Identity
use Prim.Native.String.{◌++◌}
use tributo_knova.Prelude.{
  ℕ, String, Bool, true, false, ◌&&◌, List, [], ◌∷◌, Option, none, some, ◌==◌, elem, if◌then◌else◌,
}
use tributo_knova.Python.Number.{ℤ, pos, int_leb, Floats}
use tributo_knova.Python.Value.{
  Value, Dict, null, integer, float, string, object, end, field, get, get_or, is_none, put,
}
use tributo_knova.Python.Result.{
  Result, ok, err, value_error, conversion_error, overflow_error, mapping_failure, ◌>>=◌, ◌>>◌,
}
use tributo_knova.Protocol.Schema.{identity_field}
use tributo_knova.Protocol.{Library, Request, parse_request}

-- Code that is not in the repository: `model_dump(mode="json", exclude_none=True)`, the canonical
-- `json.dumps` and the hexadecimal SHA-256 of a text.
pub record Encoding (F : Type 0) : Type 0 where
  pub json_dump : Dict F → Dict F
  pub dumps : Dict F → Option String
  pub sha256 : String → String

-- the fields with which `GenericRequest` is made
pub record Generic (F : Type 0) : Type 0 where
  pub protocol_profile : String
  pub protocol_version : String
  pub operation_id : String
  pub training : Bool
  pub execution_profile : String
  pub run_id : String
  pub request_digest : String
  pub spec : Dict F

-- the fields with which `PreparedOperation` is made, without the credential reference, which is None
pub record Prepared (F : Type 0) : Type 0 where
  pub operation_payload : Dict F
  pub timeout_seconds : Option F

abbrev pub section_name : Bool → String
section_name true = "resource_limits"
section_name false = "execution"

abbrev pub limit_name : Bool → String
limit_name true = "max_training_time_seconds"
limit_name false = "max_execution_time_seconds"

abbrev pub canonical : Option String → Result String
canonical none = err conversion_error
canonical (some text) = ok text

module _ {F : Type 0} where
  abbrev pub is_text : String → Value F → Bool
  is_text expected (string s) = s == expected
  is_text expected v = false

  -- `config.get("broker_id", "tributo-knova")` names this provider; the broker's own name replaces it
  unfoldable pub redis_broker_config : Dict F → Result (Dict F)
  redis_broker_config config =
      if is_text "tributo-knova" (get_or config "broker_id" (string "tributo-knova"))
      then ok (put config "broker_id" (string "tributo-redis"))
      else err (value_error "broker_id must be tributo-knova")

  -- `section.get(key) if isinstance(section, dict) else None`
  abbrev pub limit_in : Value F → String → Value F
  limit_in (object section) key = get section key
  limit_in v key = null

  abbrev pub as_float : Option F → Result (Option F)
  as_float none = err overflow_error
  as_float (some x) = ok (some x)

  abbrev pub limited : ⦃fl : Floats F⦄ → String → Value F → Result (Option F)
  limited key null = ok none
  limited ⦃fl⦄ key (integer n) =
      if int_leb n (pos 0)
      then err (mapping_failure "INVALID_PAYLOAD" (key ++ " must be positive"))
      else as_float (fl.of_int n)
  limited ⦃fl⦄ key (float x) =
      if fl.at_most x (fl.literal 0 0)
      then err (mapping_failure "INVALID_PAYLOAD" (key ++ " must be positive"))
      else ok (some x)
  limited key v = err (mapping_failure "INVALID_PAYLOAD" (key ++ " must be positive"))

  unfoldable pub timeout_seconds : ⦃fl : Floats F⦄ → Dict F → Bool → Result (Option F)
  timeout_seconds payload training =
      limited (limit_name training)
        (limit_in (get_or payload (section_name training) (object end)) (limit_name training))

  abbrev pub knova_request : Value F → Result (Dict F)
  knova_request (object payload) = ok payload
  knova_request v =
      err (mapping_failure "INVALID_REQUEST" "validated KnoVa request is missing from broker input")

  unfoldable pub prepare_broker_operation : ⦃fl : Floats F⦄ → Generic F → Result (Prepared F)
  unfolding timeout_seconds
  prepare_broker_operation request = do
    payload ← knova_request (get request.spec "knova_request")
    timeout ← timeout_seconds payload request.training
    ok (record {
      operation_payload = field "knova_request" (object payload) end;
      timeout_seconds = timeout;
    })

  abbrev pub text_of_field : Value F → String
  text_of_field (string s) = s
  text_of_field v = ""

  unfoldable pub parse_broker_request :
      ⦃fl : Floats F⦄ → Library F → Encoding F → String → String → Bool → Result (Generic F)
  parse_broker_request library encoding raw_payload outer training = do
    request ← parse_request library raw_payload outer training
    text ← canonical (encoding.dumps (encoding.json_dump request.fields))
    ok (record {
      protocol_profile = "tributo-generic-v1";
      protocol_version = "1.0";
      operation_id = text_of_field (get request.fields (identity_field request.training));
      training = training;
      execution_profile = "distributed";
      run_id = text_of_field (get request.fields (identity_field request.training));
      request_digest = encoding.sha256 text;
      spec = field "knova_request" (object (encoding.json_dump request.fields)) end;
    })

  -- `identity_field` is the outer field of the submission's channel.
  unfoldable pub matches_terminal_event : Dict F → String → String → Bool
  matches_terminal_event event outer_field operation_id =
      is_text "2.0" (get event "protocol_version")
      && is_none (get event "submission_id")
      && elem outer_field ("job_id" ∷ "execution_id" ∷ [])
      && is_text operation_id (get event outer_field)

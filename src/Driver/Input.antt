-- ===== src/Driver/Input.antt =====
-- src/tributo_knova/execution_driver.py: `_load_driver_input` and `_validate_request`, what the driver
-- checks before it runs anything.
use tributo_knova.Prelude.{String, Bool, true, false, ◌&&◌, Option, none, some, ◌==◌, if◌then◌else◌}
use tributo_knova.Python.Value.{Value, Dict, object, get}
use tributo_knova.Python.Result.{Result, ok, err, value_error, ◌>>=◌, ◌>>◌}
use tributo_knova.Protocol.Schema.{schema, identity_field}
use tributo_knova.Protocol.{Library, refused, valid, Request, is_identity}

-- the fields of the broker's DriverInput that decide what the driver does
pub record DriverInput (F : Type 0) : Type 0 where
  pub operation_id : String
  pub run_id : String
  pub attempt_id : String
  pub training : Bool
  pub operation_payload : Dict F

-- Code that is not in the repository: `read_driver_input`, the URL-safe base64 of a UTF-8 text, and
-- `DriverInput.model_validate_json`. The environment is a function from names.
pub record Transport (F : Type 0) : Type 0 where
  pub environ : String → Option String
  pub read : (String → Option String) → Result String
  pub decode64 : String → Option String
  pub validate_json : String → Result (DriverInput F)

abbrev pub decoded : Option String → Result String
decoded none = err (value_error "driver input is not valid base64 UTF-8")
decoded (some text) = ok text

-- `if not submission_id`
abbrev pub submission : Option String → Result String
submission none = err (value_error "driver submission identity is required")
submission (some id) =
    if id == "" then err (value_error "driver submission identity is required") else ok id

-- `os.environ.get(name) != expected`
abbrev pub is_set_to : Option String → String → Bool
is_set_to none expected = false
is_set_to (some text) expected = text == expected

abbrev pub matched : Bool → String → Result (Unit {0})
matched true message = ok tt
matched false message = err (value_error message)

module _ {F : Type 0} where
  unfoldable pub load_driver_input : Transport F → Result (DriverInput F × String)
  load_driver_input transport = do
    raw ← transport.read transport.environ
    text ← decoded (transport.decode64 raw)
    value ← transport.validate_json text
    submission_id ← submission (transport.environ "TRIBUTO_SUBMISSION_ID")
    matched (is_set_to (transport.environ "TRIBUTO_ATTEMPT_ID") value.attempt_id)
        "driver attempt identity mismatch"
    matched (is_set_to (transport.environ "TRIBUTO_RUN_ID") value.run_id)
        "driver run identity mismatch"
    ok (value, submission_id)

  -- `request_type.model_validate(payload)`, which refuses what is no object
  abbrev pub model_of : Library F → Bool → Value F → Result (Dict F)
  model_of library training (object payload) =
      elim (library.model_validate (schema library.is_digit training) payload) [
        | refused places ↦ err (value_error "KnoVa request schema validation failed")
        | valid fields ↦ ok fields
      ]
  model_of library training v = err (value_error "KnoVa request schema validation failed")

  abbrev pub same_identity : Bool → Dict F → DriverInput F → Bool
  same_identity training fields value =
      is_identity (get fields (identity_field training)) value.operation_id
      && is_identity (get fields (identity_field training)) value.run_id

  unfoldable pub validate_request : Library F → DriverInput F → Result (Request F)
  validate_request library value = do
    fields ← model_of library value.training (get value.operation_payload "knova_request")
    matched (same_identity value.training fields value) "KnoVa driver request identity mismatch"
    ok (record { training = value.training; fields = fields })

-- ===== src/Reporter/Failed.antt =====
-- The error code of a FAILED event, whatever code `publish` was given.
use tributo_knova.Prelude.{String, Bool, true, Option, ◌≡◌, elem}
use mathlib.Core.Path.{subst}
use tributo_knova.Python.Value.{Dict, string, get}
use tributo_knova.Python.Value.Laws.{get-put}
use tributo_knova.Python.Result.{ok, from_ok, ok-injective}
use tributo_knova.Reporter.State.{Reporter, Moment, Host}
use tributo_knova.Reporter.Codes.{allowed_codes, error_code}
use tributo_knova.Reporter.Codes.Laws.{error_code-elem}
use tributo_knova.Reporter.Events.{event_of}
use tributo_knova.Reporter.Methods.{merge, failure_phase, set_error_code, text_value, prepare}

module _ {F : Type 0} (host : Host F) where
  -- The event carries an error code that the protocol allows for the kind of operation.
  abbrev pub CarriesCode : Bool → Dict F → Type 0
  CarriesCode training event =
      (code : String) × (get event "error_code" ≡ string code)
      × (elem code (allowed_codes training) ≡ true)

  set_error_code-CarriesCode :
      (training : Bool) (event : Dict F)
      → CarriesCode training (set_error_code training "FAILED" event)
  set_error_code-CarriesCode training event =
      let code =
        error_code training (text_value (get event "error_code"))
          (text_value (get event "phase")) in
      (
        code,
        get-put event "error_code" "error_code" (string code),
        error_code-elem training (text_value (get event "error_code"))
            (text_value (get event "phase")),
      )

  -- Whatever payload and phase a FAILED event is published with, its error code, as it is
  -- serialized, is one that the protocol allows for the kind of operation.
  pub prepare-CarriesCode :
      (self : Reporter F) (now : Moment F) (payload : Dict F) (phase : Option String)
      {event : Dict F}
      → prepare host self now "FAILED" payload phase ≡ ok event
      → CarriesCode self.training event
  unfolding prepare
  prepare-CarriesCode self now payload phase h =
      from_ok
        (event_of host self now "FAILED" (host.redact (merge self.snapshot payload))
          (failure_phase self "FAILED" phase))
        _ h
        λ made _ e.
          subst (λ (d : Dict F). CarriesCode self.training d) (ok-injective e)
            (set_error_code-CarriesCode self.training made)

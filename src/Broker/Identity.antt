-- ===== src/Broker/Identity.antt =====
-- The identity under which a request runs.
use tributo_knova.Prelude.{String, Bool, true, ◌≡◌, refl, eq_iff, arith}
use mathlib.Core.Path.{subst}
use tributo_knova.Python.Number.{Floats}
use tributo_knova.Python.Value.{Value, Dict, string, get}
use tributo_knova.Python.Result.{ok, from_ok, ok-injective}
use tributo_knova.Protocol.Schema.{schema, identity_field}
use tributo_knova.Protocol.{
  validator, Library, Request, translated, decoded, root, versioned, modelled, is_identity,
  identified, parse_request,
}
use tributo_knova.Broker.{Encoding, Generic, text_of_field, canonical, parse_broker_request}

-- The operation and the run have the identity, and the operation the kind.
pub record IsNamed {F : Type 0} (outer : String) (training : Bool) (g : Generic F) : Type 0 where
  pub operation : g.operation_id ≡ outer
  pub run : g.run_id ≡ outer
  pub same_kind : g.training ≡ training

module _ {F : Type 0} where
  is_identity-text :
      (v : Value F) (outer : String) → is_identity v outer ≡ true → text_of_field v ≡ outer
  is_identity-text (string s) outer h = (eq_iff s outer).0 h
  is_identity-text v outer h = cc

  identified-text :
      (training : Bool) (fields : Dict F) (outer : String)
      → identified training fields outer ≡ ok tt
      → text_of_field (get fields (identity_field training)) ≡ outer
  identified-text training fields outer h =
      is_identity-text (get fields (identity_field training)) outer (ground arith)

  parse_request-text :
      ⦃fl : Floats F⦄ (library : Library F) (raw_payload outer : String) (training : Bool)
      {request : Request F}
      → parse_request library raw_payload outer training ≡ ok request
      → text_of_field (get request.fields (identity_field request.training)) ≡ outer
  unfolding parse_request
  parse_request-text library raw_payload outer training {request} h =
      from_ok (decoded (library.loads raw_payload)) _ h λ value _ h1.
        from_ok (root value) _ h1 λ d _ h2. from_ok (versioned d) _ h2 λ _ _ h3.
          from_ok (modelled (library.model_validate (schema library.is_digit training) d)) _ h3
            λ fields _ h4. from_ok (identified training fields outer) _ h4 λ _ e h5.
              from_ok (translated (validator training fields)) _ h5 λ _ _ h6.
                subst
                  (λ (r : Request F).
                    text_of_field (get r.fields (identity_field r.training)) ≡ outer)
                  (ok-injective h6) (identified-text training fields outer e)

  -- A request that `parse_broker_request` returned has the outer operation's identity as its
  -- operation id and as its run id, and the kind that was expected.
  pub parse_broker_request-IsNamed :
      ⦃fl : Floats F⦄ (library : Library F) (encoding : Encoding F) (raw_payload outer : String)
      (training : Bool) {g : Generic F}
      → parse_broker_request library encoding raw_payload outer training ≡ ok g
      → IsNamed outer training g
  unfolding parse_broker_request
  parse_broker_request-IsNamed library encoding raw_payload outer training {g} h =
      from_ok (parse_request library raw_payload outer training) _ h λ request e1 h1.
        from_ok (canonical (encoding.dumps (encoding.json_dump request.fields))) _ h1 λ text _ h2.
          let named = parse_request-text library raw_payload outer training e1 in
          subst (λ (x : Generic F). IsNamed outer training x) (ok-injective h2)
            (record { operation = named; run = named; same_kind = refl })

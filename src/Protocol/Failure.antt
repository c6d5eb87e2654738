-- ===== src/Protocol/Failure.antt =====
-- How `parse_request` rejects a request.
use tributo_knova.Prelude.{
  ◌⊎◌, String, Bool, true, false, List, [], ◌∷◌, ◌≡◌, refl, elem, arith, Bool-cases, inl, inr,
}
use tributo_knova.Python.Number.{Floats}
use tributo_knova.Python.Value.{Value, Dict, object}
use tributo_knova.Python.Result.{
  Result, Exception, ok, err, protocol_validation, protocol_failure, ◌>>=◌,
}
use tributo_knova.Validation.Safe.{IsProtocolError}
use tributo_knova.Validation.Safe.Inference.{validate_inference-IsProtocolError}
use tributo_knova.Validation.Inference.{validate_inference_payload}
use tributo_knova.Protocol.Schema.{schema}
use tributo_knova.Protocol.{
  Validated, refused, valid, Loaded, json_value, malformed, escaped, Library, Request, validator,
  has_version_error, schema_code, translated, decoded, root, versioned, modelled, identified,
  parse_request,
}

abbrev pub failure_codes : List String
failure_codes = "INVALID_PAYLOAD" ∷ "UNSUPPORTED_PROTOCOL_VERSION" ∷ []

-- KnovaProtocolFailure with a code of the protocol
abbrev pub IsFailure : Exception → Type 0
IsFailure (protocol_failure code message) = elem code failure_codes ≡ true
IsFailure _ = ⊥

-- The step returns, or raises such a failure.
abbrev pub Rejects {ℓ} : {A : Type ℓ} → Result A → Type 0
Rejects (ok a) = Unit
Rejects (err x) = IsFailure x

Rejects->>= :
    {A B : Type 0} (first : Result A) (rest : A → Result B)
    → Rejects first
    → ((a : A) → Rejects (rest a))
    → Rejects (first >>= rest)
Rejects->>= (ok a) rest p k = k a
Rejects->>= (err x) rest p k = p

IsFailure-err : {A : Type 0} (r : Result A) (x : Exception) → Rejects r → r ≡ err x → IsFailure x
IsFailure-err (ok a) x p h = cc
IsFailure-err (err e) x p h = let same : e ≡ x = cc in rw (← same) p

-- json.loads raised the exception
abbrev pub Escapes : {F : Type 0} → Library F → String → Exception → Type 0
Escapes library raw_payload x = library.loads raw_payload ≡ escaped x

Rejects-translated :
    (r : Result (Unit {0}))
    → ((x : Exception) → r ≡ err x → IsProtocolError x)
    → Rejects (translated r)
Rejects-translated (ok a) p = tt
Rejects-translated (err (protocol_validation message)) p = refl
Rejects-translated (err x) p = absurd (p x refl)

schema_code-elem : (places : List (List String)) → elem (schema_code places) failure_codes ≡ true
schema_code-elem places = elim (Bool-cases (has_version_error places)) [
  | inl h ↦ rw h refl
  | inr h ↦ rw h refl
]

module _ {F : Type 0} where
  -- what `parse_request` does with the decoded value
  abbrev pub admission : ⦃fl : Floats F⦄ → Library F → String → Bool → Value F → Result (Request F)
  admission library outer training value = root value >>= λ d. versioned d >>= λ _.
      modelled (library.model_validate (schema library.is_digit training) d) >>= λ fields.
      identified training fields outer >>= λ _. translated (validator training fields) >>= λ _.
      ok (record { training = training; fields = fields })

  Rejects-root : (v : Value F) → Rejects (root v)
  Rejects-root (object d) = tt
  Rejects-root v = refl

  Rejects-versioned : (d : Dict F) → Rejects (versioned d)
  Rejects-versioned d = ground arith

  Rejects-modelled : (v : Validated F) → Rejects (modelled v)
  Rejects-modelled (refused places) = schema_code-elem places
  Rejects-modelled (valid fields) = tt

  Rejects-identified :
      (training : Bool) (fields : Dict F) (outer : String)
      → Rejects (identified training fields outer)
  Rejects-identified training fields outer = ground arith

  -- the steps behind the decoding of the text
  Rejects-admission :
      ⦃fl : Floats F⦄ (library : Library F) (outer : String) (value : Value F)
      → Rejects (admission library outer false value)
  Rejects-admission library outer value = Rejects->>= (root value) _ (Rejects-root value) λ d.
      Rejects->>= (versioned d) _ (Rejects-versioned d) λ _.
        Rejects->>= (modelled (library.model_validate (schema library.is_digit false) d)) _
          (Rejects-modelled _)
          λ fields.
            Rejects->>= (identified false fields outer) _ (Rejects-identified false fields outer)
              λ _.
                Rejects->>= (translated (validate_inference_payload fields)) _
                  (Rejects-translated _ (validate_inference-IsProtocolError fields)) λ _. tt

  Loaded-cases :
      (o : Loaded F) (rest : Value F → Result (Request F)) (x : Exception)
      → ((value : Value F) → Rejects (rest value))
      → (decoded o >>= rest) ≡ err x
      → IsFailure x ⊎ (o ≡ escaped x)
  Loaded-cases (json_value v) rest x k h = inl (IsFailure-err (rest v) x (k v) h)
  Loaded-cases malformed rest x k h = inl (IsFailure-err (decoded malformed >>= rest) x refl h)
  Loaded-cases (escaped e) rest x k h = inr (cc)

  -- Whatever the text of an inference request and its outer identity, and whatever pydantic makes
  -- of it: an exception that `parse_request` raises is KnovaProtocolFailure with the code
  -- INVALID_PAYLOAD or UNSUPPORTED_PROTOCOL_VERSION, or json.loads raised it on the text and it is
  -- not JSONDecodeError.
  pub parse_request-IsFailure :
      ⦃fl : Floats F⦄ (library : Library F) (raw_payload outer : String) (x : Exception)
      → parse_request library raw_payload outer false ≡ err x
      → IsFailure x ⊎ Escapes library raw_payload x
  unfolding parse_request
  parse_request-IsFailure library raw_payload outer x =
      Loaded-cases (library.loads raw_payload) _ x (Rejects-admission library outer)

-- ===== src/Broker/Timeout.antt =====
-- A request that the parser let through can be prepared.
use Prim.Native.String.{◌++◌}
use tributo_knova.Prelude.{
  ℕ, ◌≤◌, String, Bool, true, false, [], ◌∷◌, Option, none, some, ◌≡◌, refl, ap, ◌⊎◌, inl, inr,
  ◌==◌, arith, if◌then◌else◌,
}
use mathlib.Core.Path.{subst}
use tributo_knova.Python.Number.{ℤ, pos, int_leb, Floats}
use tributo_knova.Python.Value.{
  Value, Dict, null, integer, string, object, end, field, find, get, get_or,
}
use tributo_knova.Python.Result.{ok, from_ok, ok-injective, ◌>>=◌}
use tributo_knova.Validation.Fields.{fail, obj, text, int, unless_none}
use tributo_knova.Validation.Fields.Laws.{obj-eq-ok, for_each-eq-ok}
use tributo_knova.Validation.Topology.{topology}
use tributo_knova.Validation.Source.{datasource}
use tributo_knova.Validation.Features.{features}
use tributo_knova.Validation.Tuning.{tuning}
use tributo_knova.Validation.Training.{
  algorithm_section, data_query_section, target_section, sampling_section, split_section,
  resource_section, validate_training_payload,
}
use tributo_knova.Validation.Inference.{model_section, input_section, validate_inference_payload}
use tributo_knova.Protocol.Schema.{schema}
use tributo_knova.Protocol.Admitted.{translated-eq-ok}
use tributo_knova.Protocol.{
  validator, Library, Request, translated, decoded, root, versioned, modelled, identified,
  parse_request,
}
use tributo_knova.Broker.{
  Encoding, Generic, Prepared, section_name, limit_name, limit_in, as_float, timeout_seconds,
  prepare_broker_operation, canonical, parse_broker_request,
}

module _ {F : Type 0} where
  -- no limit, or a whole number of seconds from 1
  abbrev pub IsLimit : Value F → Type 0
  IsLimit v = (v ≡ null) ⊎ ((n : ℕ) × (v ≡ integer (pos n)) × (1 ≤ n))

  checked-IsLimit :
      (v : Value F) (place : String) {b : Unit {0}}
      → unless_none v (int v place 1) ≡ ok b
      → IsLimit v
  unfolding int fail
  checked-IsLimit null place h = inl refl
  checked-IsLimit (integer (pos n)) place h = inr (n, refl, ground arith)
  checked-IsLimit v place h = absurd (ground arith)

  -- The section is absent, or holds such a limit.
  abbrev pub HasLimit : Dict F → String → String → Type 0
  HasLimit d section key =
      (find d section ≡ none)
      ⊎ ((limits : Dict F) × (find d section ≡ some (object limits)) × IsLimit (get limits key))

  found_object :
      (d limits : Dict F) (section : String) (o : Option (Value F))
      → find d section ≡ o
      → get_or d section (object end) ≡ object limits
      → (o ≡ none) ⊎ (o ≡ some (object limits))
  unfolding get_or
  found_object d limits section none e h = inl refl
  found_object d limits section (some v) e h =
      inr (ap (λ (w : Value F). some w) (rw (e, get_or) at h))

  section-HasLimit :
      (d limits : Dict F) (section key : String)
      → get_or d section (object end) ≡ object limits
      → IsLimit (get limits key)
      → HasLimit d section key
  section-HasLimit d limits section key h l =
      elim (found_object d limits section (find d section) refl h) [
        | inl absent ↦ inl absent
        | inr found ↦ inr (limits, found, l)
      ]

  resource_section-HasLimit :
      (payload : Dict F)
      → resource_section payload ≡ ok tt
      → HasLimit payload "resource_limits" "max_training_time_seconds"
  unfolding resource_section
  resource_section-HasLimit payload h =
      from_ok (obj (get_or payload "resource_limits" (object end)) _) _ h λ limits e h1.
        let (_, (_, (checked, _))) = for_each-eq-ok _ _ h1 in
        section-HasLimit payload limits _ _
          (obj-eq-ok (get_or payload "resource_limits" (object end)) _ e)
          (checked-IsLimit (get limits "max_training_time_seconds") _ checked.1)

  validator-HasLimit :
      ⦃fl : Floats F⦄ (training : Bool) (payload : Dict F)
      → validator training payload ≡ ok tt
      → HasLimit payload (section_name training) (limit_name training)
  unfolding validate_training_payload validate_inference_payload
  validator-HasLimit true payload h =
      from_ok (obj (get payload "algorithm") _) _ h λ algorithm _ h1.
        from_ok (algorithm_section algorithm) _ h1 λ category _ h2.
          from_ok (datasource (get payload "datasource") _) _ h2 λ _ _ h3.
            from_ok (topology payload _) _ h3 λ aliases _ h4.
              from_ok (features (get payload "features") aliases _) _ h4 λ columns _ h5.
                from_ok (data_query_section payload aliases) _ h5 λ _ _ h6.
                  from_ok
                    (if category == "CLUSTERING"
                      then ok tt
                      else target_section (get payload "target") category aliases columns)
                    _ h6
                    λ _ _ h7. from_ok (sampling_section payload category) _ h7 λ _ _ h8.
                      from_ok (split_section payload category) _ h8 λ _ _ h9.
                        from_ok
                          (tuning
                            (get_or payload "tuning" (object (field "mode" (string "MANUAL") end)))
                            algorithm)
                          _ h9
                          λ _ _ h10.
                            from_ok (resource_section payload) _ h10
                              λ _ e _. resource_section-HasLimit payload e
  validator-HasLimit false payload h = from_ok (obj (get payload "model") _) _ h λ model _ h1.
      from_ok (model_section model) _ h1 λ _ _ h2.
        from_ok (obj (get payload "input") _) _ h2 λ inputs _ h3.
          from_ok (input_section inputs) _ h3 λ _ _ h4.
            from_ok (obj (get payload "output") _) _ h4 λ output _ h5.
              from_ok (datasource (get output "datasource") _) _ h5 λ _ _ h6.
                from_ok (text (get output "table_name") _) _ h6 λ _ _ h7.
                  from_ok (obj (get_or payload "execution" (object end)) _) _ h7 λ limits e h8.
                    let (_, (checked, _)) =
                      for_each-eq-ok
                        (λ (name : String).
                          unless_none (get limits name)
                            (int (get limits name) ("execution." ++ name) 1))
                        ("batch_size" ∷ "max_execution_time_seconds"
                          ∷ "progress_report_interval_rows" ∷ [])
                        h8 in
                    section-HasLimit payload limits _ _
                      (obj-eq-ok (get_or payload "execution" (object end)) _ e)
                      (checked-IsLimit (get limits "max_execution_time_seconds") _ checked.1)

abbrev pub operation : {F : Type 0} → Dict F → Option F → Prepared F
operation payload timeout = record {
  operation_payload = field "knova_request" (object payload) end;
  timeout_seconds = timeout;
}

-- What pydantic documents of `model_dump` with `exclude_none`: no field is added; an object stays one,
-- in which integers stay and nothing takes the place of what is None or absent.
pub record IsJsonDump {F : Type 0} (encoding : Encoding F) : Type 0 where
  pub drops : (d : Dict F) (k : String) → find d k ≡ none → find (encoding.json_dump d) k ≡ none
  pub keeps :
      (d o : Dict F) (k : String)
      → find d k ≡ some (object o)
      → (dumped : Dict F) × (find (encoding.json_dump d) k ≡ some (object dumped))
        × ((j : String) → get o j ≡ null → get dumped j ≡ null)
        × ((j : String) (n : ℤ) → get o j ≡ integer n → get dumped j ≡ integer n)

module _ {F : Type 0} where
  limit_in-of_found :
      (d : Dict F) (section key : String) (o : Option (Value F))
      → find d section ≡ o
      → limit_in (get_or d section (object end)) key
        ≡ limit_in (elim o [ none ↦ object end | some v ↦ v ]) key
  unfolding get_or
  limit_in-of_found d section key o e = rw (← e) refl

  empty-IsLimit : (key : String) → IsLimit (limit_in {F = F} (object end) key)
  unfolding get get_or find
  empty-IsLimit key = inl refl

  -- the driver's request: the payload, and no limit of time or one of so many seconds; there `float`
  -- raises OverflowError if it has none so large
  abbrev pub IsPrepared : ⦃fl : Floats F⦄ → Generic F → Type 0
  IsPrepared ⦃fl⦄ g =
      (payload : Dict F) × (get g.spec "knova_request" ≡ object payload)
      × ((prepare_broker_operation g ≡ ok (operation payload none))
          ⊎ ((n : ℕ) × (1 ≤ n)
              × (prepare_broker_operation g
                  ≡ (as_float (fl.of_int (pos n)) >>= λ timeout. ok (operation payload timeout)))))

  parse_request-eq-ok :
      ⦃fl : Floats F⦄ (library : Library F) (raw_payload outer : String) (training : Bool)
      {request : Request F}
      → parse_request library raw_payload outer training ≡ ok request
      → validator training request.fields ≡ ok tt
  unfolding parse_request
  parse_request-eq-ok library raw_payload outer training {request} h =
      from_ok (decoded (library.loads raw_payload)) _ h λ value _ h1.
        from_ok (root value) _ h1 λ d _ h2. from_ok (versioned d) _ h2 λ _ _ h3.
          from_ok (modelled (library.model_validate (schema library.is_digit training) d)) _ h3
            λ fields _ h4. from_ok (identified training fields outer) _ h4 λ _ _ h5.
              from_ok (translated (validator training fields)) _ h5 λ _ e h6.
                let made : record { training = training; fields = fields } ≡ request =
                  ok-injective h6 in
                rw (← made) (translated-eq-ok (validator training fields) e)

  prepared :
      ⦃fl : Floats F⦄ (g : Generic F) (payload : Dict F)
      → get g.spec "knova_request" ≡ object payload
      → IsLimit
          (limit_in (get_or payload (section_name g.training) (object end)) (limit_name g.training))
      → IsPrepared g
  unfolding prepare_broker_operation timeout_seconds
  prepared g payload e (inl n) = (payload, e, inl (rw (e, n) refl))
  prepared g payload e (inr (n, i, low)) = (
    payload,
    e,
    inr (
      n,
      low,
      (let positive : int_leb (pos n) (pos 0) ≡ false = ground arith in rw (e, i, positive) refl),
    ),
  )

module _ {F : Type 0} (encoding : Encoding F) (json : IsJsonDump encoding) where
  dumped-IsLimit :
      (d : Dict F) (section key : String)
      → HasLimit d section key
      → IsLimit (limit_in (get_or (encoding.json_dump d) section (object end)) key)
  dumped-IsLimit d section key (inl absent) =
      rw (limit_in-of_found (encoding.json_dump d) section key none (json.drops d section absent))
        (empty-IsLimit key)
  dumped-IsLimit d section key (inr (limits, found, l)) =
      let (dumped, f, nulls, numbers) = json.keeps d limits section found in
      rw (limit_in-of_found (encoding.json_dump d) section key (some (object dumped)) f) (elim l [
        | inl n ↦ inl (nulls key n)
        | inr (n, e, low) ↦ inr (n, numbers key (pos n) e, low)
      ])

  -- A request that `parse_broker_request` returned is prepared, if `exclude_none` does what pydantic
  -- documents: its payload is handed on, without a limit of time or with one of a whole number of
  -- seconds from 1. Nothing is raised but OverflowError, for a number of seconds that no float holds.
  pub parse_broker_request-IsPrepared :
      ⦃fl : Floats F⦄ (library : Library F) (raw_payload outer : String) (training : Bool)
      {g : Generic F}
      → parse_broker_request library encoding raw_payload outer training ≡ ok g
      → IsPrepared g
  unfolding parse_broker_request get get_or find
  parse_broker_request-IsPrepared library raw_payload outer training {g} h =
      from_ok (parse_request library raw_payload outer training) _ h λ request e1 h1.
        from_ok (canonical (encoding.dumps (encoding.json_dump request.fields))) _ h1 λ text _ h2.
          subst (λ (x : Generic F). IsPrepared x) (ok-injective h2)
            (prepared _ (encoding.json_dump request.fields) refl (
              dumped-IsLimit request.fields (section_name training) (limit_name training) (
                validator-HasLimit training request.fields
                  (parse_request-eq-ok library raw_payload outer training e1))))

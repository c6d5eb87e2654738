-- ===== src/Driver/Executed.antt =====
-- What the exit code 0 of the driver means.
use tributo_knova.Prelude.{
  ℕ, String, Bool, true, none, ◌≡◌, refl, ap, eq_iff, arith, Bool-cases, inl, inr,
}
use tributo_knova.Python.Value.{Value, Dict, string, get}
use tributo_knova.Python.Result.{Result, ok, err, from_ok, ok-injective}
use tributo_knova.Protocol.Schema.{identity_field}
use tributo_knova.Protocol.{Library, Request, is_identity}
use tributo_knova.Reporter.State.{pure, next, Host, World, M}
use tributo_knova.Reporter.Methods.{check_control}
use tributo_knova.Driver.Input.{DriverInput, matched, model_of, same_identity, validate_request}
use tributo_knova.Driver.Main.{
  Outcome, done, raised, Runtime, continue, attempted, connected, dispatch, D, body, exit,
  terminal_event, supervise, run, same_kind,
}

matched-eq-ok : (b : Bool) (message : String) → matched b message ≡ ok tt → b ≡ true
matched-eq-ok b message h = ground arith

module _ {F : Type 0} where
  -- the two texts are the same identity
  is_identity-eq : (v : Value F) (outer : String) → is_identity v outer ≡ true → v ≡ string outer
  is_identity-eq (string s) outer h = ap (λ (t : String). string t) ((eq_iff s outer).0 h)
  is_identity-eq v outer h = cc

  -- The request has the identity of the operation and of the run, and the operation's kind.
  pub record IsIdentified (value : DriverInput F) (request : Request F) : Type 0 where
    pub same_kind : request.training ≡ value.training
    pub operation : get request.fields (identity_field value.training) ≡ string value.operation_id
    pub run : get request.fields (identity_field value.training) ≡ string value.run_id

  validate_request-IsIdentified :
      (library : Library F) (value : DriverInput F) {request : Request F}
      → validate_request library value ≡ ok request
      → IsIdentified value request
  unfolding validate_request
  validate_request-IsIdentified library value {request} h =
      from_ok (model_of library value.training (get value.operation_payload "knova_request")) _ h
        λ fields _ h1.
          from_ok (matched (same_identity value.training fields value) _) _ h1 λ _ e h2.
            let made : record { training = value.training; fields = fields } ≡ request =
              ok-injective h2 in
            let both = matched-eq-ok (same_identity value.training fields value) _ e in
            let v = get fields (identity_field value.training) in
            rw (← made) (record {
              same_kind = refl;
              operation = is_identity-eq v value.operation_id (ground arith);
              run = is_identity-eq v value.run_id (ground arith);
            })

  continued :
      {A B C : Type 0} (f : A → D F B) (r : Outcome A × World F) {b : B} {w : World F}
      → continue f r ≡ (done b, w)
      → ((a : A) (v : World F) → r ≡ (done a, v) → f a v ≡ (done b, w) → C)
      → C
  continued f (done a, v) h k = k a v refl h
  continued f (raised e, v) h k = cc

  attempted-done :
      {A : Type 0} (r : Result A) (w : World F) {a : A} {v : World F}
      → attempted (r, w) ≡ (done a, v)
      → r ≡ ok a
  attempted-done (ok a) w h = cc
  attempted-done (err e) w h = cc

module _ {F : Type 0} (host : Host F) (library : Library F) (runtime : Runtime F)
    (value : DriverInput F) where
  -- A request of the operation was run to its end.
  pub record IsExecuted : Type 0 where
    pub request : Request F
    pub validated : validate_request library value ≡ ok request
    pub identified : IsIdentified value request
    pub before : World F
    pub after : World F
    pub ran : runtime.execute request before ≡ (done tt, after)

  exit-eq-ok :
      (status n : ℕ) (m : M F (Dict F)) (w : World F) → (exit status m w).0 ≡ ok n → n ≡ status
  exit-eq-ok status n m w h = go (m w) h
    where
      go :
          (r : Result (Dict F) × World F)
          → (next (λ (_ : Dict F). pure status) r).0 ≡ ok n
          → n ≡ status
      go (ok d, v) e = cc
      go (err x, v) e = cc

  dispatch-done :
      (request : Request F) (before : World F) {w : World F}
      → dispatch runtime value request before ≡ (done tt, w)
      → runtime.execute request before ≡ (done tt, w)
  unfolding dispatch
  dispatch-done request before h = elim (Bool-cases (same_kind value.training request.training)) [
    | inl same ↦ elim (Bool-cases (runtime.has_execution value.training)) [
      | inl there ↦ rw (same, there) at h
      | inr missing ↦ let k = rw (same, missing) at h in cc
    ]
    | inr different ↦ let k = rw different at h in cc
  ]

  supervise-done :
      (r : Outcome (Unit {0}) × World F)
      → (supervise host runtime r).0 ≡ ok 0
      → (w : World F) × (r ≡ (done tt, w))
  supervise-done (done _, w) h = (w, refl)
  supervise-done (raised e, w) h =
      let k = exit-eq-ok 1 0 (terminal_event host runtime e) w h in absurd (omega (arith, k))

  -- If the driver's inner block gives the exit code 0, a request was run to its end that was
  -- validated, that has the identity of the operation and of the run, and that is of the
  -- operation's kind.
  pub run-IsExecuted : (w : World F) → (run host library runtime value w).0 ≡ ok 0 → IsExecuted
  unfolding run body
  run-IsExecuted w h =
      let (end, d) = supervise-done (body library runtime value w) h in
      continued _ (attempted (check_control runtime.first none w)) d λ _ w1 _ d1.
        continued _ (connected runtime.initialize_ray, w1) d1
          λ _ w2 _ d2.
            continued _ (attempted (validate_request library value, w2)) d2 λ request w3 e d3.
              continued _ (attempted (check_control runtime.second none w3)) d3 λ _ w4 _ d4.
                let validated = attempted-done (validate_request library value) w2 e in
                record {
                  request = request;
                  validated = validated;
                  identified = validate_request-IsIdentified library value validated;
                  before = w4;
                  after = end;
                  ran = dispatch-done request w4 d4;
                }

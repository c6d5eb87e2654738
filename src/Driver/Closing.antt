-- ===== src/Driver/Closing.antt =====
-- What the driver leaves on the stream.
use tributo_knova.Prelude.{
  if_either, ◌<◌, String, true, false, Option, none, some, ◌≡◌, refl, ap, ◌∙◌, ◌==◌, elem,
}
use mathlib.Core.Path.{subst}
use tributo_knova.Python.Value.{Dict, string, field, end}
use tributo_knova.Python.Result.{Result, ok, err}
use tributo_knova.Protocol.{Library, Request}
use tributo_knova.Reporter.State.{Stream, Reporter, Host, World, M}
use tributo_knova.Reporter.Codes.{terminal_events}
use tributo_knova.Reporter.Script.Laws.{OnlyNewest, Closed}
use tributo_knova.Reporter.Methods.{check_control, publish}
use tributo_knova.Reporter.Restore.{Restored, restored, unhashable, foreign, init}
use tributo_knova.Reporter.Restore.Steps.{Holds, SameSetup}
use tributo_knova.Reporter.Calls.{Calls, Calls-IsReady}
use tributo_knova.Reporter.Closing.{
  IsLossless, IsReady, next_ok, check_control-IsReady, publish-Closed,
}
use tributo_knova.Reporter.Restart.{Settled, init-Settled, init-SameSetup}
use tributo_knova.Driver.Failure.{failure_code, failure_phase, failure_summary}
use tributo_knova.Driver.Input.{load_driver_input, DriverInput, Transport, validate_request}
use tributo_knova.Driver.Main.{
  main, Failure, control, unavailable, publication, other, Outcome, done, raised, Runtime, continue,
  attempted, connected, dispatch, D, body, control_message, terminal_event, supervise, run,
  supervised, same_kind,
}

some-injective {ℓ} : {A : Type ℓ} {a b : A} → some a ≡ some b → a ≡ b
some-injective h = cc

module _ {F : Type 0} (host : Host F) where
  -- What the driver relies on: `failed` publishes FAILED, and an execution reports by calls of the
  -- reporter's methods, between which other reporters may write.
  pub record IsFaithful (runtime : Runtime F) : Type 0 where
    pub fails :
        (code kind phase message : String) (w : World F)
        → (payload : Dict F) × (runtime.failed code kind phase message w
            ≡ publish host runtime.last "FAILED" payload (some phase) w)
    pub reports : (request : Request F) (w : World F) → Calls host w (runtime.execute request w).1

  module _ {A B : Type 0} where
    continue_rule :
        (f : A → D F B) (r : Outcome A × World F)
        → IsReady host r.1
        → ((a : A) (w : World F) → IsReady host w → IsReady host (f a w).1)
        → IsReady host (continue f r).1
    continue_rule f (done a, w) h k = k a w h
    continue_rule f (raised e, w) h k = h

  attempted-world :
      {A : Type 0} (r : Result A × World F) → IsReady host r.1 → IsReady host (attempted r).1
  attempted-world (ok a, w) h = h
  attempted-world (err e, w) h = h

  module _ (runtime : Runtime F) (faithful : IsFaithful runtime) (lossless : IsLossless host) where
    dispatch-IsReady :
        (value : DriverInput F) (request : Request F) (w : World F)
        → IsReady host w
        → IsReady host (dispatch runtime value request w).1
    unfolding dispatch
    dispatch-IsReady value request w h =
        if_either (λ (p : Outcome (Unit {0}) × World F). IsReady host p.1)
          (same_kind value.training request.training) _ _
          (λ _.
            if_either (λ (p : Outcome (Unit {0}) × World F). IsReady host p.1)
              (runtime.has_execution value.training) _ _
              (λ _. Calls-IsReady host lossless (faithful.reports request w) h) (λ _. h))
          (λ _. h)

    body-IsReady :
        (library : Library F) (value : DriverInput F) (w : World F)
        → IsReady host w
        → IsReady host (body library runtime value w).1
    unfolding body
    body-IsReady library value w h =
        continue_rule _ (attempted (check_control runtime.first none w))
          (attempted-world _ (check_control-IsReady host runtime.first none w h))
          λ _ w1 h1.
            continue_rule _ (connected runtime.initialize_ray, w1) h1
              λ _ w2 h2.
                continue_rule _ (attempted (validate_request library value, w2))
                  (attempted-world (validate_request library value, w2) h2)
                  λ request w3 h3.
                    continue_rule _ (attempted (check_control runtime.second none w3))
                      (attempted-world _ (check_control-IsReady host runtime.second none w3 h3))
                      λ _ w4 h4. dispatch-IsReady value request w4 h4

    published :
        (event_type : String) (payload : Dict F) (phase : Option String) (w : World F)
        {out : Dict F}
        → elem event_type terminal_events ≡ true
        → IsReady host w
        → (publish host runtime.last event_type payload phase w).0 ≡ ok out
        → Closed host (publish host runtime.last event_type payload phase w).1.stream
    published event_type payload phase w =
        publish-Closed host lossless runtime.last event_type payload phase w

    failed-Closed :
        (code kind phase message : String) (w : World F) {out : Dict F}
        → IsReady host w
        → (runtime.failed code kind phase message w).0 ≡ ok out
        → Closed host (runtime.failed code kind phase message w).1.stream
    failed-Closed code kind phase message w h =
        let (payload, e) = faithful.fails code kind phase message w in
        rw e (published "FAILED" payload (some phase) w refl h)

    terminal_event-Closed :
        (e : Failure) (w : World F) {out : Dict F}
        → IsReady host w
        → (terminal_event host runtime e w).0 ≡ ok out
        → Closed host (terminal_event host runtime e w).1.stream
    unfolding terminal_event
    terminal_event-Closed (control code phase) w {out} h =
        if_either (λ (m : M F (Dict F)). (m w).0 ≡ ok out → Closed host (m w).1.stream)
          (code == "CANCELLED") _ _
          (λ _.
            published "CANCELLED" (field "message" (string (control_message code)) end) (some phase)
              w refl h)
          (λ _. failed-Closed code "ExecutionControlError" phase (control_message code) w h)
    terminal_event-Closed unavailable w h = failed-Closed _ _ _ _ w h
    terminal_event-Closed publication w h = failed-Closed _ _ _ _ w h
    terminal_event-Closed (other e) w h =
        failed-Closed (failure_code e) e.class_name (failure_phase e w.self.current_phase)
          (failure_summary e) w h

    supervise-Closed :
        (r : Outcome (Unit {0}) × World F)
        → IsReady host r.1
        → (supervise host runtime r).0 ≡ ok 1
        → Closed host (supervise host runtime r).1.stream
    supervise-Closed (done _, w) h o = cc
    supervise-Closed (raised e, w) h o =
        next_ok (λ v. Closed host v.stream) _ (terminal_event host runtime e w) o
          λ event v same _.
            subst (λ (p : Result (Dict F) × World F). Closed host p.1.stream) same
              (terminal_event-Closed e w h (ap (λ (p : Result (Dict F) × World F). p.0) same))

    run-Closed :
        (library : Library F) (value : DriverInput F) (w : World F)
        → IsReady host w
        → (run host library runtime value w).0 ≡ ok 1
        → Closed host (run host library runtime value w).1.stream
    unfolding run
    run-Closed library value w h =
        supervise-Closed (body library runtime value w) (body-IsReady library value w h)

    -- what the hypotheses on the reporter's arguments come to for a stream that it reads
    supervised-Closed :
        (library : Library F) (value : DriverInput F) (stream : Stream) (self : Reporter F)
        (made : Restored F)
        → Holds (Settled host stream) made
        → Holds (λ r. SameSetup r self) made
        → self.atomic ≡ true
        → (self.outer_identity_field == "payload") ≡ false
        → 0 < self.max_stream_length
        → (supervised host library runtime value stream made).result ≡ some (ok 1)
        → Closed host (supervised host library runtime value stream made).stream
    supervised-Closed library value stream self (restored r) settled same atomic own room e =
        let (same_atomic, same_field, same_length, _, _) = same in
        run-Closed library value (record { self = r; stream = stream })
          (record {
            atomic = same_atomic ∙ atomic;
            own_field = rw same_field own;
            room = rw same_length room;
            settled = settled;
          })
          (some-injective e)
    supervised-Closed library value stream self unhashable settled same atomic own room e = cc
    supervised-Closed library value stream self foreign settled same atomic own room e = cc

    -- If the driver got to the making of its reporter, which writes by the script to a stream with room
    -- where only the newest entry may be terminal, and `main` returns 1, the stream ends with a
    -- terminal event. An exception that leaves `main`, such as one of the write of that event itself,
    -- is not a return. It rests on the base class's `failed` publishing FAILED, on executions reporting by
    -- calls of the reporter's methods, and on JSON decoding giving back what was encoded.
    pub main-Closed :
        (library : Library F) (transport : Transport F) (stream : Stream)
        (base : DriverInput F → Result (Reporter F)) (value : DriverInput F)
        (submission_id : String) (self : Reporter F)
        → load_driver_input transport ≡ ok (value, submission_id)
        → base value ≡ ok self
        → self.atomic ≡ true
        → (self.outer_identity_field == "payload") ≡ false
        → 0 < self.max_stream_length
        → OnlyNewest host stream
        → (main host library transport runtime true stream base).result ≡ some (ok 1)
        → Closed host (main host library transport runtime true stream base).stream
    unfolding main
    main-Closed library transport stream base value submission_id self l b atomic own room
          open_ended =
        rw (l, b)
          (supervised-Closed library value stream self (init host true stream self)
            (init-Settled host true stream self open_ended) (init-SameSetup host true stream self)
            atomic own room)

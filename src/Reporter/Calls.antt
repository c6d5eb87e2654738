-- ===== src/Reporter/Calls.antt =====
-- What calls of a reporter's methods leave of it, between which other reporters may write to the stream.
use tributo_knova.Prelude.{
  if_true, if_either, ℕ, zero, suc, ◌<◌, String, Bool, true, false, not, ◌&&◌, ◌||◌, [], ◌∷◌,
  Option, none, some, ◌≡◌, refl, sym, ◌∙◌, ◌==◌, elem, arith, if◌then◌else◌,
}
use mathlib.Core.Path.{subst}
use tributo_knova.Python.Value.{Value, Dict, string, get, is_empty}
use tributo_knova.Python.Result.{Result, ok, err}
use tributo_knova.Reporter.State.{Entry, Stream, Reporter, Moment, Host, World, pure, next}
use tributo_knova.Reporter.Codes.{terminal_events}
use tributo_knova.Reporter.Script.{
  Reply, added, stale, refused, failed, is_terminal_text, trim, decide, latest, append, atomic_xadd,
}
use tributo_knova.Reporter.Script.Laws.{is_closing, Closed}
use tributo_knova.Reporter.Methods.{
  check_control, configure_timeout, is_terminal_event, remember, settle, entry, write_atomic, write,
  encode, prepare, deliver, publish, metrics,
}
use tributo_knova.Reporter.Once.{next_rule, Step, Reach-Closed, start, next_step}
use tributo_knova.Reporter.Closing.{
  IsLossless, IsReady, payload-entry, encode-eq-ok, check_control-IsReady,
}

module _ {F : Type 0} (host : Host F) where
  terminal_text :
      (v : Value F)
      → is_terminal_text v ≡ true
      → (s : String) × (v ≡ string s) × (elem s terminal_events ≡ true)
  terminal_text (string s) h = (s, refl, h)
  terminal_text v h = cc

  refused-Closed :
      (s : Stream) (event_type : String)
      → decide (latest host s) event_type ≡ refused
      → Closed host s
  unfolding latest
  refused-Closed [] event_type h = cc
  refused-Closed (e ∷ s) event_type h = ground arith

  trim-Closed :
      (n : ℕ) (e : Entry) (s : Stream)
      → 0 < n
      → is_closing host e ≡ true
      → Closed host (trim n (e ∷ s))
  trim-Closed zero e s room h = absurd (omega arith)
  trim-Closed (suc n) e s room h = h

  remember-facts :
      (event : Dict F) (self : Reporter F)
      → ((remember event self).atomic ≡ self.atomic)
        × ((remember event self).outer_identity_field ≡ self.outer_identity_field)
        × ((remember event self).max_stream_length ≡ self.max_stream_length)
        × ((remember event self).terminal ≡ (is_terminal_event event || self.terminal))
  remember-facts event self = (ground arith, ground arith, ground arith, ground arith)

  -- a call of the reporter, or one of another reporter that writes by the script
  pub data Call (w : World F) : World F → Type 0 where
    publishes :
        (now : Moment F) (event_type : String) (payload : Dict F) (phase : Option String)
        → Call w (publish host now event_type payload phase w).1
    measures : (now : Moment F) (payload : Dict F) → Call w (metrics host now payload w).1
    controls :
        (now : Moment F) (phase : Option String) → Call w (check_control {F = F} now phase w).1
    configures :
        (now : Moment F) (limit : Option ℕ)
        → Call w (record w { self = configure_timeout now limit w.self })
    others : {t : Stream} → Step host w.stream t → Call w (record w { stream = t })

  pub data Calls (w : World F) : World F → Type 0 where
    idle : Calls w w
    calls : {v u : World F} → Calls w v → Call v u → Calls w u

  module _ (lossless : IsLossless host) where
    event-is_closing :
        (self : Reporter F) (event : Dict F) (encoded : String)
        → (self.outer_identity_field == "payload") ≡ false
        → is_terminal_event event ≡ true
        → host.dumps event ≡ some encoded
        → is_closing host (entry host self encoded) ≡ true
    event-is_closing self event encoded own ends d =
        let (d', loaded, same) = lossless.round event encoded d in
        let (s, is, t) = terminal_text (get event "event_type") ends in
        rw (payload-entry host lossless self encoded own, loaded, same "event_type" s is, t) refl

    write_atomic-IsReady :
        (event_type : String) (event : Dict F) (encoded : String) (w : World F)
        → IsReady host w
        → w.self.terminal ≡ false
        → host.dumps event ≡ some encoded
        → IsReady host (write_atomic host event_type event encoded w).1
    unfolding write_atomic atomic_xadd
    write_atomic-IsReady event_type event encoded w r f d =
        go (decide (latest host w.stream) event_type) refl
      where
        go :
            (reply : Reply)
            → decide (latest host w.stream) event_type ≡ reply
            → IsReady host
                (settle event reply (record w {
                  stream =
                      append reply w.self.max_stream_length (entry host w.self encoded) w.stream;
                })).1
        go added e =
            let (same_atomic, same_field, same_length, mark) = remember-facts event w.self in
            record {
              atomic = same_atomic ∙ r.atomic;
              own_field = rw same_field r.own_field;
              room = rw same_length r.room;
              settled = λ t.
                  trim-Closed w.self.max_stream_length _ w.stream r.room
                    (event-is_closing w.self event encoded r.own_field (ground arith) d);
            }
        go stale e = r
        go refused e = record {
          atomic = r.atomic;
          own_field = r.own_field;
          room = r.room;
          settled = λ _. refused-Closed w.stream event_type e;
        }
        go failed e = r

    deliver-IsReady :
        (event_type : String) (event : Dict F) (encoded : String) (w : World F)
        → IsReady host w
        → host.dumps event ≡ some encoded
        → IsReady host (deliver host event_type event encoded w).1
    unfolding write
    deliver-IsReady event_type event encoded w r d =
        if_either (λ (p : Result (Dict F) × World F). IsReady host p.1)
          (w.self.terminal || (event_type == "ACCEPTED" && not (is_empty w.self.snapshot))) _ _
          (λ _. r)
          (λ e.
            if_true (λ (p : Result (Dict F) × World F). IsReady host p.1) w.self.atomic _ _ r.atomic
              (write_atomic-IsReady event_type event encoded w r (ground arith) d))

    encoded-IsReady :
        (event_type : String) (event : Dict F) (w : World F)
        → IsReady host w
        → (o : Result String) → encode host w.self event ≡ o
        → IsReady host (next (deliver host event_type event) (o, w)).1
    encoded-IsReady event_type event w r (ok encoded) e =
        deliver-IsReady event_type event encoded w r (encode-eq-ok host lossless w.self event e)
    encoded-IsReady event_type event w r (err x) e = r

    pub publish-IsReady :
        (now : Moment F) (event_type : String) (payload : Dict F) (phase : Option String)
        (w : World F)
        → IsReady host w
        → IsReady host (publish host now event_type payload phase w).1
    unfolding publish
    publish-IsReady now event_type payload phase w r =
        next_rule (IsReady host) (IsReady host) _
          ((if event_type == "COMPLETED" then check_control now none else pure tt) w)
          (checked (event_type == "COMPLETED")) (λ _ h. h)
          λ _ v hv.
            next_rule (IsReady host) (IsReady host) _
              (prepare host v.self now event_type payload phase, v) hv (λ _ h. h)
              λ event v hv. encoded-IsReady event_type event v hv (encode host v.self event) refl
      where
        checked : (b : Bool) → IsReady host ((if b then check_control now none else pure tt) w).1
        checked true = check_control-IsReady host now none w r
        checked false = r

    metrics-IsReady :
        (now : Moment F) (payload : Dict F) (w : World F)
        → IsReady host w
        → IsReady host (metrics host now payload w).1
    unfolding metrics
    metrics-IsReady now payload w r =
        next_rule (IsReady host) (IsReady host) _ (check_control now (some "TRAINING") w)
          (check_control-IsReady host now (some "TRAINING") w r) (λ _ h. h)
          λ _ v hv. publish-IsReady now "METRICS" payload (some "EXECUTING") v hv

    configure_timeout-IsReady :
        (now : Moment F) (limit : Option ℕ) (w : World F)
        → IsReady host w
        → IsReady host (record w { self = configure_timeout now limit w.self })
    unfolding configure_timeout
    configure_timeout-IsReady now none w r = r
    configure_timeout-IsReady now (some limit) w r = record {
      atomic = r.atomic;
      own_field = r.own_field;
      room = r.room;
      settled = r.settled;
    }

    Call-IsReady : {w u : World F} → Call w u → IsReady host w → IsReady host u
    Call-IsReady {w} (publishes now event_type payload phase) r =
        publish-IsReady now event_type payload phase w r
    Call-IsReady {w} (measures now payload) r = metrics-IsReady now payload w r
    Call-IsReady {w} (controls now phase) r = check_control-IsReady host now phase w r
    Call-IsReady {w} (configures now limit) r = configure_timeout-IsReady now limit w r
    Call-IsReady {w} (others step) r = record {
      atomic = r.atomic;
      own_field = r.own_field;
      room = r.room;
      settled = λ t.
          let closed = r.settled t in
          subst (Closed host) (sym (Reach-Closed host (next_step start step) closed)) closed;
    }

    -- Any calls leave a reporter ready.
    pub Calls-IsReady : {w u : World F} → Calls w u → IsReady host w → IsReady host u
    Calls-IsReady idle r = r
    Calls-IsReady (calls before call) r = Call-IsReady call (Calls-IsReady before r)

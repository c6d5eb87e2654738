-- ===== src/Reporter/Methods.antt =====
-- src/tributo_knova/reporter.py: `check_control`, `configure_timeout`, `publish` and `metrics`.
use Prim.Native.Nat.{min}
use tributo_knova.Prelude.{
  ℕ, ◌+◌, String, Bool, true, false, not, ◌&&◌, ◌||◌, List, [], ◌∷◌, Option, none, some, ◌==◌, elem,
  leb, ltb, if◌then◌else◌,
}
use tributo_knova.Python.Value.{Value, Dict, string, end, field, get, is_empty, has_key, put}
use tributo_knova.Python.Result as R
use tributo_knova.Python.Result.{
  Result, ok, err, value_error, conversion_error, control_error, response_error,
}
use tributo_knova.Reporter.State.{Entry, Reporter, Moment, Host, World, M, pure, ◌>>=◌, ◌>>◌}
use tributo_knova.Reporter.Codes.{phases, error_code}
use tributo_knova.Reporter.Script.{
  Reply, added, stale, refused, failed, is_terminal_text, trim, atomic_xadd,
}
use tributo_knova.Reporter.Events.{event_of}

-- the keys of an event that the snapshot keeps
abbrev pub snapshot_keys : List String
snapshot_keys =
    "processed_rows" ∷ "result_rows" ∷ "total_rows" ∷ "percent" ∷ "current_round" ∷ "total_rounds"
    ∷ "progress_percent" ∷ "phase" ∷ []

abbrev pub past_deadline : Option ℕ → ℕ → Bool
past_deadline none now = false
past_deadline (some deadline) now = leb deadline now

abbrev pub timeout_code : Bool → String
timeout_code true = "TRAINING_TIMEOUT"
timeout_code false = "EXECUTION_TIMEOUT"

module _ {F : Type 0} where
  -- `for key in keys: if key in event: snapshot[key] = event[key]`
  abbrev pub keep : List String → Dict F → Dict F → Dict F
  keep [] event snapshot = snapshot
  keep (key ∷ keys) event snapshot =
      keep keys event (if has_key event key then put snapshot key (get event key) else snapshot)

  -- the same with `setdefault`
  abbrev pub keep_missing : List String → Dict F → Dict F → Dict F
  keep_missing [] event snapshot = snapshot
  keep_missing (key ∷ keys) event snapshot = keep_missing keys event (
      if has_key event key && not (has_key snapshot key)
      then put snapshot key (get event key)
      else snapshot)

  -- {**d, **e}
  abbrev pub merge : Dict F → Dict F → Dict F
  merge d end = d
  merge d (field k v e) = merge (put d k v) e

  abbrev pub set_phase : Reporter F → Option String → Reporter F
  set_phase self none = self
  set_phase self (some phase) =
      if phase == "" then self else record self { current_phase = phases self.training phase phase }

  -- the checks of `check_control`, once the phase is set
  abbrev pub control : Reporter F → Moment F → Result (Unit {0})
  control self now =
      if self.terminal
      then ok tt
      else if self.cancel_key && now.cancelled
      then err (control_error "CANCELLED" self.current_phase)
      else if past_deadline self.deadline_at_ms now.now_ms
      then err (control_error (timeout_code self.training) self.current_phase)
      else ok tt

  unfoldable pub check_control : Moment F → Option String → M F (Unit {0})
  check_control now phase w =
      let self = set_phase w.self phase in (control self now, record w { self = self })

  -- The argument is the limit in whole milliseconds, `int(seconds * 1000)`.
  unfoldable pub configure_timeout : Moment F → Option ℕ → Reporter F → Reporter F
  configure_timeout now none self = self
  configure_timeout now (some limit) self =
      let received : ℕ = elim self.received_at_ms [ none ↦ now.started_ms | some t ↦ t ] in
      record self {
        received_at_ms = some received;
        deadline_at_ms = elim self.deadline_at_ms [
          | none ↦ some (received + limit)
          | some deadline ↦ some (min deadline (received + limit))
        ];
      }

  -- A failure or a cancellation that names no phase of its own happened in the current one.
  abbrev pub failure_phase : Reporter F → String → Option String → Option String
  failure_phase self event_type phase =
      if elem event_type ("FAILED" ∷ "CANCELLED" ∷ [])
      then (elim phase [
        | none ↦ some self.current_phase
        | some p ↦
            if elem p ("FAILED" ∷ "CANCELLED" ∷ "EXECUTING" ∷ [])
            then some self.current_phase
            else some p
      ])
      else phase

  -- `event["error_code"] = self._error_code(event["error_code"], event["phase"])`
  abbrev pub text_value : Value F → String
  text_value (string s) = s
  text_value _ = ""

  abbrev pub set_error_code : Bool → String → Dict F → Dict F
  set_error_code training event_type event =
      if event_type == "FAILED"
      then put event "error_code" (
          string (
            error_code training (text_value (get event "error_code"))
              (text_value (get event "phase"))))
      else event

  abbrev pub is_terminal_event : Dict F → Bool
  is_terminal_event event = is_terminal_text (get event "event_type")

  -- what `publish` remembers of an event that was added
  abbrev pub remember : Dict F → Reporter F → Reporter F
  remember event self =
      if is_terminal_event event then record self { terminal = true } else record self {
        current_phase = text_value (get event "phase");
        snapshot = keep snapshot_keys event self.snapshot;
      }

  abbrev pub settle : Dict F → Reply → World F → Result (Dict F) × World F
  settle event added w = (ok event, record w { self = remember event w.self })
  settle event stale w = (ok event, w)
  settle event refused w = (ok event, record w { self = record w.self { terminal = true } })
  settle event failed w = (err response_error, w)

module _ {F : Type 0} (host : Host F) where
  abbrev pub entry : Reporter F → String → Entry
  entry self encoded = (self.outer_identity_field, self.operation_id) ∷ ("payload", encoded) ∷ []

  -- the write by the script
  unfoldable pub write_atomic : String → Dict F → String → M F (Dict F)
  write_atomic event_type event encoded w =
      let (reply, stream) =
        atomic_xadd host w.stream (entry w.self encoded) w.self.max_stream_length event_type in
      settle event reply (record w { stream = stream })

  -- By the script, or by a plain XADD where the client has no `eval`. There MAXLEN is approximate;
  -- the model trims exactly.
  unfoldable pub write : String → Dict F → String → M F (Dict F)
  write event_type event encoded w =
      if w.self.atomic
      then write_atomic event_type event encoded w
      else settle event added
          (record w { stream = trim w.self.max_stream_length (entry w.self encoded ∷ w.stream) })

  abbrev pub encode : Reporter F → Dict F → Result String
  encode self event = elim (host.dumps event) [
    | none ↦ err conversion_error
    | some encoded ↦
        if ltb self.max_event_bytes (host.size encoded)
        then err (value_error "event exceeds configured size limit")
        else ok encoded
  ]

  -- the event that `publish` serializes
  unfoldable pub prepare : Reporter F → Moment F → String → Dict F → Option String → Result (Dict F)
  prepare self now event_type payload phase =
      R.◌>>=◌
        (event_of host self now event_type (host.redact (merge self.snapshot payload))
          (failure_phase self event_type phase))
        (λ event. ok (set_error_code self.training event_type event))

  abbrev pub deliver : String → Dict F → String → M F (Dict F)
  deliver event_type event encoded w =
      if w.self.terminal || (event_type == "ACCEPTED" && not (is_empty w.self.snapshot))
      then (ok event, w)
      else write event_type event encoded w

  unfoldable pub publish : Moment F → String → Dict F → Option String → M F (Dict F)
  unfolding check_control prepare write
  publish now event_type payload phase = do
    (if event_type == "COMPLETED" then check_control now none else pure tt)
    event ← λ w. (prepare w.self now event_type payload phase, w)
    encoded ← λ w. (encode w.self event, w)
    deliver event_type event encoded

  unfoldable pub metrics : Moment F → Dict F → M F (Dict F)
  unfolding check_control publish
  metrics now payload =
      check_control now (some "TRAINING") >> publish now "METRICS" payload (some "EXECUTING")

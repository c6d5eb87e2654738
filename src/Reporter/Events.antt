-- ===== src/Reporter/Events.antt =====
-- src/tributo_knova/reporter.py: `_training_event`, `_inference_event`, `_duration` and `_present`.
pub mod Typed
use tributo_knova.Prelude.{
  ℕ, zero, suc, String, Bool, true, false, ◌||◌, List, [], ◌∷◌, Option, none, some, ◌==◌,
  if◌then◌else◌,
}
use tributo_knova.Python.Number.{pos}
use tributo_knova.Python.Value.{
  Value, Dict, boolean, integer, float, string, array, object, nil, end, field, get, get_or,
  is_none, put,
}
use tributo_knova.Python.Result.{Result, ok, err, conversion_error, ◌>>=◌, ◌>>◌}
use Prim.Native.String as Str
use tributo_knova.Reporter.State.{Reporter, Moment, Host}
use tributo_knova.Reporter.Codes.{phases}

-- s[:n]
abbrev pub take_text : ℕ → String → String
take_text zero s = ""
take_text (suc n) Str.[] = ""
take_text (suc n) (Str.◌∷◌ c s) = Str.◌∷◌ c (take_text n s)

abbrev pub or_empty : Option String → String
or_empty none = ""
or_empty (some s) = s

module _ {F : Type 0} where
  -- `_duration`
  unfoldable pub duration : Reporter F → Moment F → Value F
  duration self now = elim self.received_at_ms [
    | none ↦ float now.since_start
    | some received ↦ float (now.since_received received)
  ]

  -- `_present` for one key
  abbrev pub present : Dict F → String → Dict F → Dict F
  present payload key d = if is_none (get payload key) then d else put d key (get payload key)

abbrev pub converted : {F A : Type 0} → (A → Value F) → Option A → Result (Value F)
converted wrap none = err conversion_error
converted wrap (some a) = ok (wrap a)

module _ {F : Type 0} (host : Host F) where
  -- int(payload.get(key, 0)), float(payload.get(key, 0.0)), str(payload.get(key, default))
  abbrev pub int_at : Dict F → String → Result (Value F)
  int_at payload key = converted integer (host.to_int (get_or payload key (integer (pos 0))))

  abbrev pub float_at : Dict F → String → Result (Value F)
  float_at payload key =
      converted float (host.to_float (get_or payload key (float (host.percent 0))))

  abbrev pub text_or : Dict F → String → String → Value F
  text_or payload key default = string (host.str (get_or payload key (string default)))

  abbrev pub level : Dict F → Value F
  level payload = string (host.lower (host.str (get_or payload "level" (string "INFO"))))

  abbrev pub message : Dict F → Value F
  message payload = string (take_text 4096 (host.str (get_or payload "message" (string ""))))

  -- the phase of an event: the table's, the given one, or the reporter's
  abbrev pub event_phase : Reporter F → Option String → String
  event_phase self phase =
      phases self.training (or_empty phase)
        (if or_empty phase == "" then self.current_phase else or_empty phase)

  abbrev pub identity_key : Bool → String
  identity_key true = "job_id"
  identity_key false = "execution_id"

  abbrev pub base : Reporter F → Moment F → String → Option String → Dict F
  base self now event_type phase = field "protocol_version" (string "2.0") (
      field "event_type" (string event_type) (
        field (identity_key self.training) (string self.operation_id) (
          field "timestamp" (integer (pos now.now_ms))
            (field "phase" (string (event_phase self phase)) end))))

  abbrev pub log_event : Dict F → String → Dict F
  log_event b text =
      put (put (put b "event_type" (string "LOG")) "level" (string "info")) "message" (string text)

  abbrev pub training_metrics : Dict F → Dict F → Result (Dict F)
  training_metrics b payload = do
    current ← int_at payload "current_round"
    total ← int_at payload "total_rounds"
    progress ← float_at payload "progress_percent"
    metrics ← converted array (host.to_list (get_or payload "metrics" (array nil)))
    ok (
        put
          (put (put (put b "current_round" current) "total_rounds" total) "progress_percent"
            progress)
          "metrics" metrics)

  unfoldable pub training_event :
      Reporter F → Moment F → String → Dict F → Option String → Result (Dict F)
  unfolding duration
  training_event self now event_type payload phase =
      let b = base self now event_type phase in
      if event_type == "ACCEPTED"
      then ok (
          put (put (put b "event_type" (string "PHASE")) "phase" (string "QUEUED")) "message"
            (string "Ray job admitted"))
      else if event_type == "PHASE"
      then ok (put b "message" (text_or payload "message" ""))
      else if event_type == "LOG"
      then ok (put (put b "level" (level payload)) "message" (message payload))
      else if event_type == "METRICS"
      then training_metrics b payload
      else if event_type == "COMPLETED"
      then ok (
          present payload "artifact_manifest" (
            present payload "training_result" (
              put
                (put
                  (put (put b "phase" (string "COMPLETED")) "progress_percent" (integer (pos 100)))
                  "duration_seconds" (duration self now))
                "result_summary" (get_or payload "result_summary" (object end)))))
      else if event_type == "CANCELLED"
      then ok (
          put
            (put b "has_best_model"
              (boolean (host.truthy (get_or payload "has_best_model" (boolean false)))))
            "duration_seconds" (duration self now))
      else if event_type == "FAILED"
      then ok (
          put
            (put (put b "error_code" (text_or payload "error_code" "UNKNOWN")) "error_message"
              (text_or payload "sanitized_message" "operation failed"))
            "duration_seconds" (duration self now))
      else ok (log_event b "")

  -- processed, result and total rows, in the order of the source
  unfoldable pub rows : Dict F → Dict F → List String → Result (Dict F)
  rows b payload [] = ok b
  rows b payload (key ∷ keys) = do n ← int_at payload key; rows (put b key n) payload keys

  abbrev pub inference_progress : Dict F → Dict F → Result (Dict F)
  inference_progress b payload = do
    counted ←
        rows (put b "event_type" (string "PROGRESS")) payload
          ("processed_rows" ∷ "total_rows" ∷ "result_rows" ∷ [])
    percent ← float_at payload "percent"
    ok (put counted "percent" percent)

  abbrev pub inference_completed : Reporter F → Moment F → Dict F → Dict F → Result (Dict F)
  inference_completed self now b payload = do
    counted ←
        rows (put b "phase" (string "CLEANUP")) payload
          ("processed_rows" ∷ "result_rows" ∷ "total_rows" ∷ [])
    ok (
        put
          (put (put counted "percent" (float (host.percent 100))) "duration_seconds"
            (duration self now))
          "message" (text_or payload "message" ""))

  abbrev pub inference_cancelled : Reporter F → Moment F → Dict F → Dict F → Result (Dict F)
  inference_cancelled self now b payload = do
    counted ← rows b payload ("processed_rows" ∷ "result_rows" ∷ "total_rows" ∷ [])
    percent ← float_at payload "percent"
    ok (
        put
          (put
            (put (put counted "percent" percent) "stop_reason"
              (text_or payload "stop_reason" "CANCELLED"))
            "message" (text_or payload "message" ""))
          "duration_seconds" (duration self now))

  abbrev pub inference_failed : Reporter F → Moment F → Dict F → Dict F → Result (Dict F)
  inference_failed self now b payload = do
    counted ←
        rows
          (put (put b "error_code" (text_or payload "error_code" "UNKNOWN")) "error_message"
            (text_or payload "sanitized_message" "operation failed"))
          payload ("processed_rows" ∷ "result_rows" ∷ [])
    ok (put counted "duration_seconds" (duration self now))

  abbrev pub inference_started : Dict F → Dict F → Result (Dict F)
  inference_started b payload = do
    counted ← rows b payload ("total_rows" ∷ [])
    ok (put counted "message" (text_or payload "message" "Inference execution started"))

  unfoldable pub inference_event :
      Reporter F → Moment F → String → Dict F → Option String → Result (Dict F)
  unfolding duration
  inference_event self now event_type payload phase =
      let b = base self now event_type phase in
      if event_type == "ACCEPTED"
      then ok (log_event b "Ray job admitted")
      else if event_type == "STARTED"
      then inference_started b payload
      else if event_type == "LOG"
      then ok (put (put b "level" (level payload)) "message" (message payload))
      else if event_type == "PHASE" || event_type == "PROGRESS"
      then inference_progress b payload
      else if event_type == "COMPLETED"
      then inference_completed self now b payload
      else if event_type == "CANCELLED"
      then inference_cancelled self now b payload
      else if event_type == "FAILED"
      then inference_failed self now b payload
      else ok (log_event b "")

  unfoldable pub event_of :
      Reporter F → Moment F → String → Dict F → Option String → Result (Dict F)
  event_of self now event_type payload phase =
      if self.training
      then training_event self now event_type payload phase
      else inference_event self now event_type payload phase

-- ===== src/Tests/Reporter.antt =====
-- Runs of the reporter on a stream.
use tributo_knova.Prelude.{inl, ◌∷◌, some, true, false, [], none, ◌≡◌, refl, elem, arith}
use tributo_knova.Python.Text.{split_slash}
use tributo_knova.Python.Value.{array, nil, field, Dict, end, get, put, has_key}
use tributo_knova.Python.Result.{Result, ok}
use tributo_knova.Reporter.State.{Entry, Reporter, Moment, World}
use tributo_knova.Reporter.Codes.{training_phases, allowed_codes, error_code}
use tributo_knova.Reporter.Codes.Laws.{error_code-elem}
use tributo_knova.Reporter.Script.{field_of, latest, atomic_xadd}
use tributo_knova.Reporter.Script.Laws.{OnlyNewest, Closed}
use tributo_knova.Reporter.Events.{duration, training_event, inference_event, event_of, rows}
use tributo_knova.Reporter.Methods.{
  entry, configure_timeout, check_control, write_atomic, write, prepare, publish, metrics,
}
use tributo_knova.Reporter.Restore.{restore_event, unhashable, init}
use tributo_knova.Reporter.Once.{Reach, publishes, start, next_step, Reach-OnlyNewest, Reach-Closed}
use tributo_knova.Reporter.Closing.{IsReady, publish-Closed}
use tributo_knova.Reporter.Restart.{IsOwnEnd, AllReads, IsBuiltTerminal, init-terminal}
use tributo_knova.Reporter.Deadline.{Stops, configure_timeout-Stops}
use tributo_knova.Reporter.Failed.{CarriesCode, prepare-CarriesCode}
use tributo_knova.Tests.Decimal.{Decimal, millionths}
use tributo_knova.Tests.Codec.{
  written, texts_in, as_dict, decoded, dumps, loads, host, IsLossless-host,
}

abbrev pub self : Reporter Decimal
self = record {
  training = true;
  operation_id = "job-1";
  outer_identity_field = "job_id";
  max_event_bytes = 1000;
  max_stream_length = 100;
  atomic = true;
  cancel_key = true;
  received_at_ms = none;
  deadline_at_ms = none;
  terminal = false;
  snapshot = end;
  current_phase = "TRAINING";
}

abbrev pub now : Moment Decimal
now = record {
  now_ms = 5000;
  started_ms = 1000;
  cancelled = false;
  since_received = λ t. millionths 4;
  since_start = millionths 4;
}

abbrev before : World Decimal
before = record { self = self; stream = [] }

-- what a run of the reporter computes with
unfoldable pub reporter : Unit {0}
unfolding get put has_key split_slash decoded dumps loads error_code field_of latest atomic_xadd
    training_phases duration training_event inference_event event_of rows check_control write_atomic
    write prepare publish metrics
reporter = tt

error_code-elem_example : elem (error_code true "TIMEOUT" "EXPORTING") (allowed_codes true) ≡ true
error_code-elem_example = error_code-elem true "TIMEOUT" "EXPORTING"

abbrev failure : Result (Dict Decimal) × World Decimal
failure = publish host now "FAILED" end none before

abbrev event_or : Result (Dict Decimal) → Dict Decimal
event_or (ok event) = event
event_or _ = end

returned : failure.0 ≡ ok (event_or failure.0)
unfolding reporter
returned = refl

ready : IsReady host before
ready = record { atomic = refl; own_field = refl; room = omega arith; settled = λ h. cc }

publish-Closed_example : Closed host failure.1.stream
publish-Closed_example =
    publish-Closed host IsLossless-host now "FAILED" end none before refl ready returned

-- the failure, and then a log message of another reporter
abbrev later : World Decimal
later = record { self = self; stream = failure.1.stream }

both : Reach host [] (publish host now "LOG" end none later).1.stream
both =
    next_step (next_step start (publishes before now "FAILED" end none refl refl refl))
      (publishes later now "LOG" end none refl refl refl)

logs : Reach host failure.1.stream (publish host now "LOG" end none later).1.stream
logs = next_step start (publishes later now "LOG" end none refl refl refl)

Reach-OnlyNewest_example : OnlyNewest host (publish host now "LOG" end none later).1.stream
Reach-OnlyNewest_example = Reach-OnlyNewest host both tt

closed : Closed host failure.1.stream
unfolding reporter
closed = refl

Reach-Closed_example : (publish host now "LOG" end none later).1.stream ≡ failure.1.stream
Reach-Closed_example = Reach-Closed host logs closed

-- a minute after the driver was given half a minute
abbrev much_later : Moment Decimal
much_later = record {
  now_ms = 61000;
  started_ms = 1000;
  cancelled = false;
  since_received = λ t. millionths 60;
  since_start = millionths 60;
}

configure_timeout-Stops_example :
    Stops true
      (check_control much_later none
        (record { self = configure_timeout now (some 30000) self; stream = [] })).0
configure_timeout-Stops_example =
    configure_timeout-Stops self now much_later 30000 none [] refl (inl refl)

-- a stream that holds the failure, for a reporter that is built later
abbrev end_entry : Entry
end_entry = entry host self (written (texts_in (event_or failure.0)))

own_end : IsOwnEnd host self end_entry
unfolding reporter
own_end = record {
  raw = written (texts_in (event_or failure.0));
  event = as_dict (texts_in (event_or failure.0));
  has_payload = refl;
  decodes = refl;
  own = refl;
  ends = refl;
}

readable : AllReads host (end_entry ∷ [])
unfolding reporter
readable = (record { hashable = refl; phase_text = λ h. (_, refl) }, tt)

init-terminal_example : IsBuiltTerminal host (init host true (end_entry ∷ []) self)
init-terminal_example = init-terminal host [] self end_entry (omega arith) own_end readable

-- an event with an array as its type, for which `in` raises
raises : restore_event host self (field "event_type" (array nil) end) ≡ unhashable
unfolding reporter
raises = refl

prepared_failure : prepare host self now "FAILED" end none ≡ ok (event_or failure.0)
unfolding reporter
prepared_failure = refl

prepare-CarriesCode_example : CarriesCode host true (event_or failure.0)
prepare-CarriesCode_example = prepare-CarriesCode host self now end none prepared_failure

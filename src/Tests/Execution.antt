-- ===== src/Tests/Execution.antt =====
-- The storage of a training, and its failures.
use tributo_knova.Prelude.{◌↔◌, String, some, false, [], ◌∷◌, ◌≡◌, refl}
use tributo_knova.Python.Text.{strip, starts_slash, ends_slash, split_slash, strip_slash, contains}
use tributo_knova.Python.Path.{normpath}
use tributo_knova.Python.Value.{float, Value, Dict, string, find, get, get_or, truthy}
use tributo_knova.Python.Result.{ok}
use tributo_knova.Training.Checks.{mapping, text}
use tributo_knova.Training.Failure.{
  Heap, thrown_at, causes, failure_in, classify, execution_fault, execution, leave,
}
use tributo_knova.Training.Failure.Chain.{Ends, causes-total}
use tributo_knova.Training.Failure.Codes.{IsLeaving, leave-classify}
use tributo_knova.Training.Storage.{
  relative_prefix, absolute_shared_path, storage_config, safe_properties,
}
use tributo_knova.Training.Storage.Paths.{IsStored, storage_config-IsStored}
use tributo_knova.Training.Storage.Credentials.{IsOpen, find-safe_properties}
use tributo_knova.Training.Manifest.{
  File, Progress, metadata_of, field_names, all_texts, signature_names, files_of, add_artifacts,
  model_artifacts,
}
use tributo_knova.Training.Manifest.Complete.{IsComplete, model_artifacts-IsComplete}
use tributo_knova.Training.Results.{
  Results, text_leb, sample_rows, insert_metric, metrics_of, evaluation_metrics, result_summary,
}
use tributo_knova.Training.Results.Summary.{IsSummary, result_summary-IsSummary}
use tributo_knova.Tests.Decimal.{infinite, Decimal, decimals}
use tributo_knova.Tests.Payloads.{arr_of, dict, obj_of, num}
use tributo_knova.Tests.Training.{as_is}

-- two exceptions that have each other as their cause
abbrev heap : Heap
heap =
    (
      "first",
      record {
        frames = [];
        cause = some "second";
        is_data_error = false;
        is_connection_error = false;
      },
    )
    ∷ (
      "second",
      record {
        frames = record { module_name = "tributo.data.ingestion"; function = "read" } ∷ [];
        cause = some "first";
        is_data_error = false;
        is_connection_error = false;
      },
    )
    ∷ []

causes-total_example : Ends (causes 3 heap [] (some "first"))
causes-total_example = causes-total heap refl (some "first")

failures : Unit {0}
unfolding thrown_at causes failure_in classify leave
failures = tt

query_failed :
    leave (classify 3 heap "first" (some "EXECUTING") false) execution_fault
    ≡ execution "DATA_QUERY_FAILED" "LOADING_DATA"
unfolding failures
query_failed = refl

leave-classify_example :
    IsLeaving "EXECUTING" (leave (classify 3 heap "first" (some "EXECUTING") false) execution_fault)
leave-classify_example = leave-classify heap "first" (some "EXECUTING") false execution_fault refl

abbrev stored : Dict Decimal
stored = dict (
    (
      "storage_context",
      obj_of (
          ("type", string "nas")
          ∷ ("bucket", string "/data//shared/")
          ∷ ("prefix", string "tenant/m1/")
          ∷ []),
    )
    ∷ [])

storing : Unit {0}
unfolding find get get_or truthy strip mapping text starts_slash ends_slash split_slash strip_slash
    contains normpath relative_prefix absolute_shared_path storage_config safe_properties
storing = tt

stores : storage_config as_is stored ≡ ok ("/data/shared", "/data/shared/tenant/m1")
unfolding storing
stores = refl

storage_config-IsStored_example : IsStored stored "/data/shared" "/data/shared/tenant/m1"
storage_config-IsStored_example = storage_config-IsStored as_is stored stores

abbrev root : Value Decimal
root = string "//"

-- two slashes stay two slashes, so that the root passes for a path below it
rooted : absolute_shared_path root "path" ≡ ok "//"
unfolding storing
rooted = refl

abbrev properties : Dict Decimal
properties = dict (("region", string "eu") ∷ ("access_key", string "k") ∷ ("retries", num 3) ∷ [])

find-safe_properties_example :
    (find (safe_properties as_is properties) "access_key" ≡ some (string "k"))
    ↔ IsOpen as_is properties "access_key" (string "k")
find-safe_properties_example = find-safe_properties as_is properties "access_key" (string "k") refl

-- the one that is passed on
regional : safe_properties as_is properties ≡ dict (("region", string "eu") ∷ [])
unfolding storing
regional = refl

abbrev raw_file : String → Value Decimal
raw_file path =
    obj_of (("relative_path", string path) ∷ ("sha256", string "ab") ∷ ("size_bytes", num 10) ∷ [])

abbrev raw_artifact : String → String → Value Decimal
raw_artifact format path = obj_of (
    ("format", string format)
    ∷ ("name", string "model")
    ∷ ("files", arr_of (raw_file path ∷ []))
    ∷ [])

abbrev bundle : Dict Decimal
bundle = dict (
    ("bundle_id", string "b1")
    ∷ ("canonical_uri", string "/data/shared/tenant/m1/b1")
    ∷ (
      "artifacts",
      arr_of (
          raw_artifact "onnx" "model.onnx"
          ∷ raw_artifact "log" "training.log"
          ∷ raw_artifact "ubj" "model.ubj"
          ∷ []),
    )
    ∷ [])

abbrev file : String → Dict Decimal → File Decimal
file path metadata = record { path = path; size = 10; hash = "sha256:ab"; metadata = metadata }

abbrev artifacts : Progress Decimal
artifacts = record {
  alternatives =
      record {
        format = "onnx";
        files = file "artifacts/model/model.onnx" (metadata_of "onnx" [] []) ∷ [];
      }
      ∷ record {
        format = "xgboost";
        files = file "artifacts/model/model.ubj" (metadata_of "xgboost" [] []) ∷ [];
      }
      ∷ [];
  total_size = 20;
  seen_formats = "xgboost" ∷ "onnx" ∷ [];
}

describes : model_artifacts bundle "b1" ≡ ok artifacts
unfolding storing field_names all_texts signature_names files_of add_artifacts model_artifacts
describes = refl

model_artifacts-IsComplete_example : IsComplete artifacts
model_artifacts-IsComplete_example = model_artifacts-IsComplete bundle "b1" describes

abbrev request : Dict Decimal
request = dict (("evaluation", obj_of (("primary_metric", string "auc") ∷ [])) ∷ [])

abbrev measured : Value Decimal
measured = obj_of (
    (
      "sample_rows",
      obj_of (("total", num 10) ∷ ("train", num 7) ∷ ("validation", num 1) ∷ ("test", num 2) ∷ []),
    )
    ∷ (
      "evaluation",
      obj_of (
          ("logloss", float (decimals.literal 3 1))
          ∷ ("auc", float (decimals.literal 9 1))
          ∷ ("rmse", float infinite)
          ∷ []),
    )
    ∷ [])

abbrev summary : Results Decimal
summary = record {
  rows = record { total = 10; train = 7; validation = 1; test = 2 };
  metrics = ("auc", decimals.literal 9 1) ∷ ("logloss", decimals.literal 3 1) ∷ [];
  primary = some ("auc", decimals.literal 9 1);
}

summarizes : result_summary as_is request measured ≡ ok summary
unfolding find get get_or text_leb sample_rows insert_metric metrics_of evaluation_metrics
    result_summary
summarizes = refl

result_summary-IsSummary_example : IsSummary as_is request summary
result_summary-IsSummary_example = result_summary-IsSummary as_is request measured summarizes

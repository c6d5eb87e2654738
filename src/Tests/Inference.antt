-- ===== src/Tests/Inference.antt =====
-- Tables, paths and labels of a batch inference.
use tributo_knova.Prelude.{true, String, [], ◌∷◌, ◌≡◌, refl, some}
use tributo_knova.Python.Text.{
  code_points, strip, starts_slash, split_slash, rstrip_slash, contains, split_dots,
}
use tributo_knova.Python.Value.{
  boolean, Value, float, Dict, string, object, find, get, get_or, truthy,
}
use tributo_knova.Python.Result.{ok}
use tributo_knova.Inference.Checks.{
  text, is_identifier, stripped, identifier, qualified_table, native_table_name, mapping,
}
use tributo_knova.Inference.Tables.{native_table_name-qualified_table}
use tributo_knova.Inference.Storage.{join_uri}
use tributo_knova.Inference.Storage.Below.{IsBelow, join_uri-IsBelow}
use tributo_knova.Inference.Labels.{
  positive_label_index, reversed, binary_labels, decision_threshold,
}
use tributo_knova.Inference.Labels.Threshold.{IsApplied, decision_threshold-IsApplied}
use tributo_knova.Inference.Artifacts.{
  behind, checked_file, checked_files, checked_alternatives, checked_entries, validate_artifacts,
}
use tributo_knova.Inference.Artifacts.Unique.{IsUsable, validate_artifacts-IsUsable}
use tributo_knova.Tests.Decimal.{Decimal, decimals}
use tributo_knova.Tests.Payloads.{arr_of, num, dict, obj_of, label_dict}
use tributo_knova.Tests.Training.{as_is}

inference : Unit {0}
unfolding strip starts_slash split_slash rstrip_slash contains split_dots find get get_or truthy
    is_identifier stripped identifier qualified_table native_table_name mapping join_uri
    positive_label_index reversed binary_labels decision_threshold
inference = tt

qualifies : qualified_table " main" "events_2 " ≡ ok "main.events_2"
unfolding inference
qualifies = refl

native_table_name-qualified_table_example :
    native_table_name "main.events_2" (strip " main") ≡ ok (strip "events_2 ")
native_table_name-qualified_table_example =
    native_table_name-qualified_table " main" "events_2 " qualifies

joins : join_uri "s3://models/m1/" "artifacts/model.onnx" ≡ ok "s3://models/m1/artifacts/model.onnx"
unfolding inference
joins = refl

join_uri-IsBelow_example :
    IsBelow "s3://models/m1/" "artifacts/model.onnx" "s3://models/m1/artifacts/model.onnx"
join_uri-IsBelow_example = join_uri-IsBelow "s3://models/m1/" "artifacts/model.onnx" joins

abbrev payload : Dict Decimal
payload = dict (
    ("extensions", obj_of (("decision_threshold", float (decimals.literal 4 1)) ∷ []))
    ∷ (
      "model",
      obj_of (
          ("task_type", string "BINARY_CLASSIFICATION")
          ∷ ("label_mapping", object label_dict)
          ∷ ("positive_label_value", string "yes")
          ∷ []),
    )
    ∷ [])

applies : decision_threshold as_is payload ≡ ok (some (decimals.literal 4 1))
unfolding inference
applies = refl

decision_threshold-IsApplied_example : IsApplied as_is payload (decimals.literal 4 1)
decision_threshold-IsApplied_example = decision_threshold-IsApplied as_is payload applies

abbrev digest : String
digest = "sha256:0123456789abcdef0123456789abcdef0123456789abcdef0123456789ABCDEF"

abbrev file : String → Value Decimal
file path = obj_of (("path", string path) ∷ ("size", num 10) ∷ ("hash", string digest) ∷ [])

abbrev alternative : String → String → Value Decimal
alternative format path =
    obj_of (("format", string format) ∷ ("files", arr_of (file path ∷ [])) ∷ [])

abbrev weights : Value Decimal
weights = obj_of (
    ("required_for_inference", boolean true)
    ∷ (
      "alternatives",
      arr_of (
          alternative "onnx" "artifacts/model.onnx"
          ∷ alternative "xgboost" "artifacts/model.ubj"
          ∷ []),
    )
    ∷ [])

abbrev model : Dict Decimal
model = dict (("model_artifacts", obj_of (("model_weights", weights) ∷ [])) ∷ [])

validates : validate_artifacts model ≡ ok tt
unfolding inference behind code_points text checked_file checked_files checked_alternatives
    checked_entries validate_artifacts
validates = refl

validate_artifacts-IsUsable_example : IsUsable model
validate_artifacts-IsUsable_example = validate_artifacts-IsUsable model validates

-- ===== src/Validation/Inference.antt =====
-- src/tributo_knova/validation.py: `validate_inference_payload`.
use Prim.Native.String.{◌++◌}
use tributo_knova.Prelude.{not, [], ◌∷◌}
use tributo_knova.Python.Value.{Dict, object, end, get, get_or, is_empty}
use tributo_knova.Python.Result.{Result, for_each, ◌>>=◌, ◌>>◌}
use tributo_knova.Validation.Fields.{require, obj, text, enum, int, texts, unless_none}
use tributo_knova.Validation.Source.{datasource, query}
use tributo_knova.Validation.Topology.{topology}
use tributo_knova.Validation.Features.{column, features, label_mapping}
use tributo_knova.Validation.Training.{task_types, categories}

module _ {F : Type 0} where
  unfoldable pub model_section : Dict F → Result (Unit {0})
  model_section model = do
    texts model ("model_id" ∷ "version_id" ∷ "algorithm_key" ∷ []) "model."
    category ← enum (get model "algorithm_category") categories "model.algorithm_category"
    enum (get model "task_type") (task_types category) "model.task_type/category"
    label_mapping (get model "label_mapping") "model.label_mapping"
    obj (get model "storage") "model.storage"
    artifacts ← obj (get model "model_artifacts") "model.model_artifacts"
    require (not (is_empty artifacts)) "model.model_artifacts" "must be non-empty"

  unfoldable pub input_section : Dict F → Result (Unit {0})
  input_section inputs = do
    datasource (get inputs "datasource") "input.datasource"
    aliases ← topology inputs "input."
    features (get inputs "features") aliases "input.features"
    column (get inputs "entity_key") aliases "input.entity_key"
    query (get inputs "query") "input.query"
    unless_none (get inputs "expected_total_rows")
        (int (get inputs "expected_total_rows") "input.expected_total_rows" 0)

  unfoldable pub validate_inference_payload : Dict F → Result (Unit {0})
  validate_inference_payload payload = do
    model ← obj (get payload "model") "model"
    model_section model
    inputs ← obj (get payload "input") "input"
    input_section inputs
    output ← obj (get payload "output") "output"
    datasource (get output "datasource") "output.datasource"
    text (get output "table_name") "output.table_name"
    execution ← obj (get_or payload "execution" (object end)) "execution"
    for_each
        (λ name.
          unless_none (get execution name) (int (get execution name) ("execution." ++ name) 1))
        ("batch_size" ∷ "max_execution_time_seconds" ∷ "progress_report_interval_rows" ∷ [])

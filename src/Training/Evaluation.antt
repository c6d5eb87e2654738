-- ===== src/Training/Evaluation.antt =====
-- src/tributo_knova/training.py: `_evaluation_config`.
pub mod Metrics
use Prim.Native.String.{◌++◌}
use tributo_knova.Prelude.{
  ℕ, String, Bool, true, false, not, ◌&&◌, List, [], ◌∷◌, Option, none, some, elem, ◌==◌,
  if◌then◌else◌,
}
use mathlib.Core.List as L
use tributo_knova.Python.Text.{starts_with, strip, is_blank}
use tributo_knova.Python.Table.{lookup}
use tributo_knova.Python.Value.{
  Value, Dict, null, string, array, boolean, object, elements, nil, end, get, get_or,
}
use tributo_knova.Python.Result.{Result, ok, err, ◌>>=◌, ◌>>◌}
use tributo_knova.Training.Checks.{Casing, invalid, ensure, mapping, boolean_of}

-- the loss and the metrics of an objective: a name of the request with a name of XGBoost
abbrev pub loss_of : String → String
loss_of objective =
    if starts_with objective "multi:"
    then "mlogloss"
    else if starts_with objective "binary:"
    then "logloss"
    else "rmse"

abbrev pub supported_of : String → List (String × String)
supported_of objective =
    if starts_with objective "multi:"
    then ("auc", "auc") ∷ ("accuracy", "merror") ∷ ("loss", "mlogloss") ∷ []
    else if starts_with objective "binary:"
    then ("auc", "auc") ∷ ("accuracy", "error") ∷ ("loss", "logloss") ∷ []
    else ("rmse", "rmse") ∷ ("mae", "mae") ∷ ("mape", "mape") ∷ ("loss", "rmse") ∷ []

-- `if metric is not None and metric not in process_metrics: process_metrics.append(metric)`
abbrev pub add_metric : Option String → List String → List String
add_metric none metrics = metrics
add_metric (some metric) metrics =
    if elem metric metrics then metrics else L.◌++◌ metrics (metric ∷ [])

abbrev pub artifact_names : List (String × Bool)
artifact_names =
    ("roc_curve", false)
    ∷ ("threshold_analysis", false)
    ∷ ("feature_importance", true)
    ∷ ("correlation_matrix", false)
    ∷ []

module _ {F : Type 0} where
  abbrev pub metric_list : Value F → String → Result (List (Value F))
  metric_list (array vs) name = ok (elements vs)
  metric_list _ name = invalid ("evaluation." ++ name ++ " must be an array")

  -- one requested metric
  abbrev pub requested :
      Casing → List (String × String) → Value F → List String → Result (List String)
  requested casing supported null metrics = ok metrics
  requested casing supported (string s) metrics =
      if is_blank s
      then invalid "evaluation metric names must be non-empty strings"
      else ok (add_metric (lookup supported (casing.lower (strip s))) metrics)
  requested casing supported v metrics = invalid "evaluation metric names must be non-empty strings"

  unfoldable pub collect :
      Casing → List (String × String) → List (Value F) → List String → Result (List String)
  unfolding lookup
  collect casing supported [] metrics = ok metrics
  collect casing supported (raw ∷ rest) metrics = do
    next ← requested casing supported raw metrics
    collect casing supported rest next

  unfoldable pub artifacts_of : Dict F → List (String × Bool) → Result (List (String × Bool))
  artifacts_of raw [] = ok []
  artifacts_of raw ((name, default) ∷ rest) = do
    value ←
        boolean_of (get_or raw name (boolean default))
          ("evaluation.artifacts." ++ name ++ " must be a boolean")
    others ← artifacts_of raw rest
    ok ((name, value) ∷ others)

  unfoldable pub evaluation_config :
      Casing → Dict F → String → Result (List String × List (String × Bool))
  unfolding collect artifacts_of
  evaluation_config casing payload objective = do
    evaluation ← mapping (get_or payload "evaluation" (object end)) "evaluation"
    additional ←
        metric_list (get_or evaluation "additional_metrics" (array nil)) "additional_metrics"
    realtime ← metric_list (get_or evaluation "realtime_metrics" (array nil)) "realtime_metrics"
    metrics ←
        collect casing (supported_of (casing.lower objective))
          (get evaluation "primary_metric" ∷ L.◌++◌ additional realtime)
          (loss_of (casing.lower objective) ∷ [])
    raw ← mapping (get_or evaluation "artifacts" (object end)) "evaluation.artifacts"
    artifacts ← artifacts_of raw artifact_names
    ok (metrics, artifacts)

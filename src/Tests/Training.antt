-- ===== src/Tests/Training.antt =====
-- The options of one training.
use tributo_knova.Prelude.{some, String, true, false, [], ◌∷◌, ◌≡◌, refl, ◌^◌}
use tributo_knova.Python.Number.{pos}
use tributo_knova.Python.Text.{strip, starts_with}
use tributo_knova.Python.Table.{Table, lookup, assign}
use tributo_knova.Python.Value.{
  null, Value, Dict, string, object, find, get, get_or, put, end, truthy,
}
use tributo_knova.Python.Result.{ok, err, overflow_error}
use tributo_knova.Training.Checks.{Casing, mapping, text, positive_int, boolean_of, ratio}
use tributo_knova.Training.Runtime.{nested, runtime_config}
use tributo_knova.Training.Runtime.Bounds.{Bounded, runtime_config-Bounded}
use tributo_knova.Training.Split.{Split, no_cross_validation, data_split_config}
use tributo_knova.Training.Split.Bounds.{IsSplit, data_split_config-IsSplit}
use tributo_knova.Training.Evaluation.{
  loss_of, supported_of, collect, artifacts_of, evaluation_config,
}
use tributo_knova.Training.Evaluation.Metrics.{IsMetrics, Wanted, evaluation_config-IsMetrics}
use tributo_knova.Training.Columns.{item, names_of, add_column, add_columns, column_mapping}
use tributo_knova.Training.Columns.Renaming.{IsRenaming, column_mapping-IsRenaming}
use tributo_knova.Training.Objective.{objective}
use tributo_knova.Training.Algorithm.{
  Config, free_parameters, model_section, positive_label, algorithm_config,
}
use tributo_knova.Training.Algorithm.Bounds.{IsConfig, algorithm_config-IsConfig}
use tributo_knova.Tests.Decimal.{Decimal, decimals}
use tributo_knova.Tests.Payloads.{dict, obj_of, arr_of, num, labels}

-- names that are in the wanted case already
abbrev pub as_is : Casing
as_is = record { lower = λ s. s; upper = λ s. s }

abbrev column : String → String → Value Decimal
column source result = obj_of (
    ("origin", obj_of (("table_alias", string "a") ∷ ("column_name", string source) ∷ []))
    ∷ ("result_column", string result)
    ∷ [])

abbrev limits : Dict Decimal
limits = dict (("max_epochs", num 50) ∷ ("early_stopping_patience", num 5) ∷ [])

abbrev payload : Dict Decimal
payload = dict (
    ("features", arr_of (column "age" "x" ∷ column "income" "y" ∷ []))
    ∷ (
      "target",
      obj_of (
          ("task_type", string "BINARY_CLASSIFICATION")
          ∷ (
            "origin",
            obj_of (("table_alias", string "a") ∷ ("column_name", string "churned") ∷ []),
          )
          ∷ ("result_column", string "z")
          ∷ ("label_mapping", labels)
          ∷ ("positive_label_value", string "yes")
          ∷ []),
    )
    ∷ ("data_query", obj_of (("entity_key", column "client" "id") ∷ []))
    ∷ (
      "algorithm",
      obj_of (
          ("algorithm_key", string "xgboost")
          ∷ ("hyper_params", obj_of (("n_estimators", num 200) ∷ ("max_depth", num 6) ∷ []))
          ∷ []),
    )
    ∷ ("resource_limits", object limits)
    ∷ ("evaluation", obj_of (("primary_metric", string "auc") ∷ []))
    ∷ [])

-- too many processors for a float
abbrev greedy : Dict Decimal
greedy = dict (
    (
      "extensions",
      obj_of (
          (
            "tributo",
            obj_of (
                (
                  "training_runtime",
                  obj_of (("ray", obj_of (("cpus_per_worker", num (10 ^ 308)) ∷ [])) ∷ []),
                )
                ∷ []),
          )
          ∷ []),
    )
    ∷ [])

options : Unit {0}
unfolding find get get_or put truthy strip starts_with lookup assign mapping text positive_int
    boolean_of ratio nested runtime_config no_cross_validation data_split_config collect
    artifacts_of evaluation_config item names_of add_column add_columns column_mapping objective
    free_parameters model_section positive_label algorithm_config
options = tt

runtime_config-Bounded_example : Bounded (runtime_config greedy)
runtime_config-Bounded_example = runtime_config-Bounded greedy

-- an integer hint that is too large for a float
overflows : runtime_config greedy ≡ err overflow_error
unfolding options
overflows = refl

abbrev halves : Split Decimal
halves = record {
  train_ratio = decimals.literal 7 1;
  validation_ratio = decimals.literal 15 2;
  test_ratio = decimals.literal 15 2;
  seed = 42;
  split_strategy = "RANDOM";
  stratify = false;
}

splits : data_split_config as_is payload ≡ ok halves
unfolding options
splits = refl

data_split_config-IsSplit_example : IsSplit halves
data_split_config-IsSplit_example = data_split_config-IsSplit as_is payload splits

evaluates :
    evaluation_config as_is payload "binary:logistic"
    ≡ ok (
      "logloss" ∷ "auc" ∷ [],
      ("roc_curve", false)
          ∷ ("threshold_analysis", false)
          ∷ ("feature_importance", true)
          ∷ ("correlation_matrix", false)
          ∷ [],
    )
unfolding options
evaluates = refl

evaluation_config-IsMetrics_example :
    IsMetrics (supported_of "binary:logistic") (loss_of "binary:logistic") ("logloss" ∷ "auc" ∷ [])
    × ((evaluation : Dict Decimal) × (get_or payload "evaluation" (object end) ≡ object evaluation)
        × Wanted as_is
            (supported_of "binary:logistic")
            (loss_of "binary:logistic")
            ("logloss" ∷ "auc" ∷ [])
            (get evaluation "primary_metric"))
evaluation_config-IsMetrics_example =
    evaluation_config-IsMetrics as_is payload "binary:logistic" evaluates

abbrev renaming : Table
renaming = ("age", "x") ∷ ("income", "y") ∷ ("churned", "z") ∷ ("client", "id") ∷ []

renames : column_mapping payload ≡ ok renaming
unfolding options
renames = refl

column_mapping-IsRenaming_example : IsRenaming payload renaming
column_mapping-IsRenaming_example = column_mapping-IsRenaming payload renames

abbrev config : Config Decimal
config = record {
  label_column = "z";
  model = dict (
      ("max_depth", num 6)
      ∷ ("objective", string "binary:logistic")
      ∷ ("eval_metric", arr_of (string "logloss" ∷ string "auc" ∷ []))
      ∷ []);
  num_rounds = pos 50;
  split = halves;
  time_limit = null;
  positive_label = some (num 1);
  early_stopping_rounds = some (pos 5);
  storage_path = "/results";
  bundle_uri = "s3://models/m1";
}

configures : algorithm_config as_is payload "z" "/results" "s3://models/m1" ≡ ok config
unfolding options
configures = refl

algorithm_config-IsConfig_example :
    (limits : Dict Decimal) × (get_or payload "resource_limits" (object end) ≡ object limits)
    × IsConfig limits config
algorithm_config-IsConfig_example =
    algorithm_config-IsConfig as_is payload "z" "/results" "s3://models/m1" configures

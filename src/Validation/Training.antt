-- ===== src/Validation/Training.antt =====
-- src/tributo_knova/validation.py: `_CATEGORIES` and `validate_training_payload`, section by
-- section.
pub mod Prefix
pub mod Accepted
pub mod Unknown
use Prim.Native.String.{◌++◌}
use tributo_knova.Prelude.{
  String, Bool, true, false, not, ◌&&◌, ◌||◌, List, [], ◌∷◌, Option, none, some, ◌==◌, elem, all,
  any, if◌then◌else◌,
}
use tributo_knova.Python.Number.{Floats, pos, int_leb}
use tributo_knova.Python.Text.{starts_slash, ends_slash, drop_last, split_slash, show_int}
use tributo_knova.Python.Value.{
  Value, Dict, null, boolean, integer, float, string, object, end, field, get, get_or, is_none,
  is_empty, has_key, truthy, values,
}
use tributo_knova.Python.Result.{Result, ok, for_each, ◌>>=◌, ◌>>◌}
use tributo_knova.Validation.Fields.{require, obj, text, enum, int, number, texts, unless_none}
use tributo_knova.Validation.Source.{datasource, query}
use tributo_knova.Validation.Topology.{topology}
use tributo_knova.Validation.Features.{column, features, label_mapping}
use tributo_knova.Validation.Tuning.{tuning}

-- `_CATEGORIES`: the tasks of a category; its keys
unfoldable pub task_types : String → List String
task_types category =
    if category == "CLASSIFICATION"
    then "BINARY_CLASSIFICATION" ∷ "MULTICLASS_CLASSIFICATION" ∷ []
    else if category == "REGRESSION"
    then "REGRESSION" ∷ []
    else if category == "TIMESERIES"
    then "TIMESERIES_FORECAST" ∷ []
    else if category == "CLUSTERING"
    then "CLUSTERING" ∷ []
    else []

abbrev pub categories : List String
categories = "CLASSIFICATION" ∷ "REGRESSION" ∷ "TIMESERIES" ∷ "CLUSTERING" ∷ []

unfoldable pub expected_family : String → Option String
expected_family key =
    if elem key ("xgboost" ∷ "random_forest" ∷ "logistic_regression" ∷ [])
    then some "CLASSIFICATION"
    else if elem key ("xgboost_reg" ∷ "random_forest_reg" ∷ [])
    then some "REGRESSION"
    else if key == "kmeans"
    then some "CLUSTERING"
    else none

abbrev pub family_fits : Option String → String → Bool
family_fits none category = true
family_fits (some family) category = category == family

-- The prefix is relative, ends in a slash, and no part of it is empty or a dot segment.
unfoldable pub safe_prefix : String → Bool
safe_prefix prefix = not (
    starts_slash prefix
    || not (ends_slash prefix)
    || any (λ part. elem part ("." ∷ ".." ∷ "" ∷ [])) (split_slash (drop_last prefix)))

abbrev pub oversample_methods : List String
oversample_methods = "SMOTE" ∷ "RANDOM_OVERSAMPLE" ∷ "ADASYN" ∷ "BORDERLINE_SMOTE" ∷ []

abbrev pub balance_strategies : List String
balance_strategies = "NONE" ∷ "UNDERSAMPLE" ∷ "CUSTOM_AMOUNT" ∷ "OVERSAMPLE_SMOTE" ∷ []

module _ {F : Type 0} where
  -- the algorithm's category
  unfoldable pub algorithm_section : Dict F → Result String
  algorithm_section algorithm = do
    category ← enum (get algorithm "category") categories "algorithm.category"
    key ← text (get algorithm "algorithm_key") "algorithm.algorithm_key"
    require (family_fits (expected_family key) category) "algorithm.category"
        "does not match algorithm_key"
    obj (get algorithm "hyper_params") "algorithm.hyper_params"
    ok category

  abbrev pub pivot : Dict F → Result (Unit {0})
  pivot q = do
    for_each (λ name. query (get q name) ("data_query." ++ name))
        ("entity_sampling_query" ∷ "feature_query" ∷ "target_query" ∷ [])
    settings ← obj (get q "timeseries_pivot") "data_query.timeseries_pivot"
    require (not (is_empty settings)) "data_query.timeseries_pivot" "must be non-empty"

  unfoldable pub data_query_section : ⦃fl : Floats F⦄ → Dict F → List String → Result (Unit {0})
  data_query_section payload aliases = do
    q ← obj (get payload "data_query") "data_query"
    mode ← enum (get q "mode") ("DIRECT_QUERY" ∷ "TIMESERIES_PIVOT" ∷ []) "data_query.mode"
    (if mode == "DIRECT_QUERY" then query (get q "query") "data_query.query" else pivot q)
    if not (is_none (get q "entity_key"))
          || truthy (get payload "relations")
          || mode == "TIMESERIES_PIVOT"
        then column (get q "entity_key") aliases "data_query.entity_key" >> ok tt
        else ok tt

  -- None, or `str(positive)` is a key of the mapping
  abbrev pub identifies_label : Value F → Dict F → Bool
  identifies_label null mapping = true
  identifies_label (string s) mapping = has_key mapping s
  identifies_label (integer n) mapping = has_key mapping (show_int n)
  identifies_label _ mapping = false

  unfoldable pub target_section : Value F → String → List String → List String → Result (Unit {0})
  target_section value category aliases columns = do
    target ← obj value "target"
    enum (get target "task_type") (task_types category) "target.task_type/category"
    name ← column (object target) aliases "target"
    require (not (elem name columns)) "target.result_column" "must not also be a feature"
    text (get target "display_name") "target.display_name"
    mapping ← label_mapping (get target "label_mapping") "target.label_mapping"
    require (is_empty mapping || identifies_label (get target "positive_label_value") mapping)
        "target.positive_label_value" "must identify a label_mapping key"

  abbrev pub class_amounts : Value F → Result (Unit {0})
  class_amounts v = do
    amounts ← obj v "data_sampling.class_balance.class_amounts"
    require (not (is_empty amounts)) "data_sampling.class_balance.class_amounts" "must be non-empty"
    for_each (λ count. int count "data_sampling.class_balance.class_amounts value" 1)
        (values amounts)

  -- `class_balance`, where it is not None
  unfoldable pub class_balance : Value F → String → Result (Unit {0})
  class_balance value category = do
    require (category == "CLASSIFICATION") "data_sampling.class_balance"
        "must be null for non-classification tasks"
    balance ← obj value "data_sampling.class_balance"
    strategy ←
        enum (get balance "strategy") balance_strategies "data_sampling.class_balance.strategy"
    (if not (is_none (get balance "class_amounts")) || strategy == "CUSTOM_AMOUNT"
        then class_amounts (get balance "class_amounts")
        else ok tt)
    if strategy == "OVERSAMPLE_SMOTE"
        then (do
          oversample ←
              obj (get balance "oversample_config") "data_sampling.class_balance.oversample_config"
          enum (get oversample "method") oversample_methods "oversample_config.method"
          ok tt)
        else require (is_none (get balance "oversample_config"))
            "data_sampling.class_balance.oversample_config" "must be null"

  abbrev pub sample_ratio : Value F → Result (Unit {0})
  sample_ratio null = ok tt
  sample_ratio v = do
    ratio ← int v "data_sampling.sample_ratio" 1
    require (int_leb ratio (pos 99)) "data_sampling.sample_ratio" "must be within [1, 99]"

  unfoldable pub sampling_section : Dict F → String → Result (Unit {0})
  sampling_section payload category = do
    sampling ← obj (get_or payload "data_sampling" (object end)) "data_sampling"
    sample_ratio (get sampling "sample_ratio")
    unless_none (get sampling "sample_limit")
        (int (get sampling "sample_limit") "data_sampling.sample_limit" 1)
    unless_none (get sampling "class_balance")
        (class_balance (get sampling "class_balance") category)

  -- a boolean, and false unless the split is random and the task a classification
  abbrev pub stratify_fits : Value F → String → String → Bool
  stratify_fits (boolean b) strategy category =
      not (b && (strategy == "TIME_ORDERED" || not (category == "CLASSIFICATION")))
  stratify_fits _ strategy category = false

  unfoldable pub resource_section : Dict F → Result (Unit {0})
  resource_section payload = do
    resources ← obj (get_or payload "resource_limits" (object end)) "resource_limits"
    for_each
        (λ name.
          unless_none (get resources name)
            (int (get resources name) ("resource_limits." ++ name) 1))
        ("max_epochs" ∷ "early_stopping_patience" ∷ "max_training_time_seconds" ∷ [])

  -- the prefix, once it is safe
  unfoldable pub storage_section : Dict F → Result String
  storage_section payload = do
    storage ← obj (get payload "storage_context") "storage_context"
    texts storage ("type" ∷ "bucket" ∷ []) "storage_context."
    prefix ← text (get storage "prefix") "storage_context.prefix"
    require (safe_prefix prefix) "storage_context.prefix"
        "must be a relative directory ending in / without traversal"
    ok prefix

module _ {F : Type 0} ⦃fl : Floats F⦄ where
  abbrev pub is_ratio : F → Bool
  is_ratio r = fl.at_most (fl.literal 0 0) r && fl.at_most r (fl.literal 1 0)

  abbrev pub ratios_fit : List F → Bool
  ratios_fit ratios = all is_ratio ratios && fl.is_close (fl.sum ratios) (fl.literal 1 0)

  unfoldable pub split_section : Dict F → String → Result (Unit {0})
  split_section payload category = do
    split ← obj (get_or payload "data_split" (object end)) "data_split"
    train ← number (get_or split "train_ratio" (float (fl.literal 7 1))) "data_split.train_ratio"
    validation ←
        number (get_or split "validation_ratio" (float (fl.literal 15 2)))
          "data_split.validation_ratio"
    test ← number (get_or split "test_ratio" (float (fl.literal 15 2))) "data_split.test_ratio"
    require (ratios_fit (train ∷ validation ∷ test ∷ [])) "data_split"
        "ratios must be within [0, 1] and sum to 1"
    strategy ←
        enum (get_or split "strategy" (string "RANDOM")) ("RANDOM" ∷ "TIME_ORDERED" ∷ [])
          "data_split.strategy"
    require (stratify_fits (get_or split "stratify" (boolean false)) strategy category)
        "data_split.stratify" "must be false for TIME_ORDERED and non-classification tasks"

  unfoldable pub validate_training_payload : Dict F → Result (Unit {0})
  validate_training_payload payload = do
    algorithm ← obj (get payload "algorithm") "algorithm"
    category ← algorithm_section algorithm
    datasource (get payload "datasource") "datasource"
    aliases ← topology payload ""
    columns ← features (get payload "features") aliases "features"
    data_query_section payload aliases
    (if category == "CLUSTERING"
        then ok tt
        else target_section (get payload "target") category aliases columns)
    sampling_section payload category
    split_section payload category
    tuning (get_or payload "tuning" (object (field "mode" (string "MANUAL") end))) algorithm
    resource_section payload
    storage_section payload
    ok tt

-- ===== src/Training/Algorithm.antt =====
-- src/tributo_knova/training.py: `_algorithm_config`, the options of an XGBoost training.
pub mod Model
pub mod Bounds
use tributo_knova.Prelude.{
  ℕ, String, Bool, true, false, not, ◌&&◌, ◌||◌, List, [], ◌∷◌, Option, none, some, elem, ◌==◌,
  if◌then◌else◌,
}
use tributo_knova.Python.Number.{ℤ, pos, int_leb, int_eqb, Floats}
use tributo_knova.Python.Text.{show_int}
use tributo_knova.Python.Value.{
  Value, Items, Dict, null, integer, float, string, array, object, nil, cons, end, field, get,
  get_or, put, is_empty, truthy,
}
use tributo_knova.Python.Result.{Result, ok, err, type_error, ◌>>=◌, ◌>>◌}
use tributo_knova.Training.Checks.{Casing, invalid, ensure, mapping, text, positive_int}
use tributo_knova.Training.Split.{Split, data_split_config}
use tributo_knova.Training.Evaluation.{evaluation_config}
use tributo_knova.Training.Objective.{objective}

-- `_CONTROL_HYPER_PARAMETERS`
abbrev pub control_parameters : List String
control_parameters =
    "early_stopping_rounds" ∷ "eval_metric" ∷ "n_estimators" ∷ "num_rounds" ∷ "objective"
    ∷ "num_class" ∷ []

-- The sections of the configuration that `_algorithm_config` returns, with the number of rounds. A
-- time limit is null, and a positive label or a patience is none, where the section has no such key.
pub record Config (F : Type 0) : Type 0 where
  pub label_column : String
  pub model : Dict F
  pub num_rounds : ℤ
  pub split : Split F
  pub time_limit : Value F
  pub positive_label : Option (Value F)
  pub early_stopping_rounds : Option ℤ
  pub storage_path : String
  pub bundle_uri : String

-- min(a, b)
abbrev pub lesser : ℤ → ℤ → ℤ
lesser a b = if int_leb b a then b else a

module _ {F : Type 0} where
  -- {key: value for key, value in hyper_parameters.items() if key not in control}
  unfoldable pub free_parameters : Dict F → Dict F
  free_parameters end = end
  free_parameters (field key value rest) =
      let others = free_parameters rest in
      if elem key control_parameters then others else field key value others

  abbrev pub texts_of : List String → Items F
  texts_of [] = nil
  texts_of (s ∷ ss) = cons (string s) (texts_of ss)

  abbrev pub with_classes : Option ℤ → Dict F → Dict F
  with_classes none model = model
  with_classes (some n) model = put model "num_class" (integer n)

  unfoldable pub model_section : Dict F → String → Option ℤ → List String → Dict F
  unfolding free_parameters
  model_section hyper_parameters name num_class metrics =
      put
        (with_classes num_class (put (free_parameters hyper_parameters) "objective" (string name)))
        "eval_metric" (array (texts_of metrics))

  module _ ⦃fl : Floats F⦄ where
    -- target.get("label_mapping") or {}
    abbrev pub labels_of : Value F → Result (Dict F)
    labels_of (object d) = ok d
    labels_of v = if truthy v then err type_error else ok end

    abbrev pub code_of_text : String → Value F
    code_of_text text =
        if text == "0" then integer (pos 0) else if text == "1" then integer (pos 1) else null

    abbrev pub code_in : Dict F → String → Value F
    code_in labels text = if is_empty labels then code_of_text text else get labels text

    abbrev pub positive_code : Value F → Value F → Result (Value F)
    positive_code null label_mapping = ok (integer (pos 1))
    positive_code (string s) label_mapping =
        labels_of label_mapping >>= λ labels. ok (code_in labels s)
    positive_code (integer n) label_mapping =
        labels_of label_mapping >>= λ labels. ok (code_in labels (show_int n))
    positive_code v label_mapping = ok null

    -- not isinstance(code, bool) and code in (0, 1)
    abbrev pub is_binary_code : Value F → Bool
    is_binary_code (integer n) = int_eqb n (pos 0) || int_eqb n (pos 1)
    is_binary_code (float x) =
        fl.is_nought x || (fl.at_most x (fl.literal 1 0) && fl.at_most (fl.literal 1 0) x)
    is_binary_code v = false

    abbrev pub text_or_empty : Value F → String
    text_or_empty (string s) = s
    text_or_empty v = ""

    -- the positive label, for a binary classification
    unfoldable pub positive_label : Casing → Dict F → Result (Option (Value F))
    positive_label casing target =
        if casing.upper (text_or_empty (get target "task_type")) == "BINARY_CLASSIFICATION"
        then (positive_code (get target "positive_label_value") (get target "label_mapping")
            >>= λ code.
                ensure (is_binary_code code)
                  "target.positive_label_value must identify a binary class"
                >> ok (some code))
        else ok none

    abbrev pub patience : Value F → Split F → Result (Option ℤ)
    patience null split = ok none
    patience v split = do
      rounds ← positive_int v "resource_limits.early_stopping_patience"
      ensure (not (fl.at_most split.validation_ratio (fl.literal 0 0)))
          "early stopping requires a non-empty validation split"
      ok (some rounds)

    unfoldable pub algorithm_config : Casing → Dict F → String → String → String → Result (Config F)
    algorithm_config casing payload label_name ray_storage_path bundle_uri = do
      algorithm ← mapping (get payload "algorithm") "algorithm"
      key ← text (get algorithm "algorithm_key") "algorithm.algorithm_key"
      ensure (elem (casing.lower key) ("xgboost" ∷ "xgboost_reg" ∷ []))
          "only algorithm_key=xgboost is supported"
      hyper_parameters ←
          mapping (get_or algorithm "hyper_params" (object end)) "algorithm.hyper_params"
      target ← mapping (get payload "target") "target"
      chosen ← objective casing target hyper_parameters
      requested ←
          positive_int
            (get_or hyper_parameters "n_estimators"
              (get_or hyper_parameters "num_rounds" (integer (pos 100))))
            "algorithm.hyper_params.n_estimators"
      limits ← mapping (get_or payload "resource_limits" (object end)) "resource_limits"
      max_epochs ←
          positive_int (get_or limits "max_epochs" (integer (pos 1000)))
            "resource_limits.max_epochs"
      evaluation ← evaluation_config casing payload chosen.0
      split ← data_split_config casing payload
      label ← positive_label casing target
      early ←
          patience
            (get_or limits "early_stopping_patience" (get hyper_parameters "early_stopping_rounds"))
            split
      ok (record {
        label_column = label_name;
        model = model_section hyper_parameters chosen.0 chosen.1 evaluation.0;
        num_rounds = lesser requested max_epochs;
        split = split;
        time_limit = get limits "max_training_time_seconds";
        positive_label = label;
        early_stopping_rounds = early;
        storage_path = ray_storage_path;
        bundle_uri = bundle_uri;
      })

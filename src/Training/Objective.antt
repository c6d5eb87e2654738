-- ===== src/Training/Objective.antt =====
-- src/tributo_knova/training.py: `_objective`.
use tributo_knova.Prelude.{String, List, Option, none, some, length, ◌==◌, if◌then◌else◌}
use tributo_knova.Python.Number.{ℤ, pos, int_leb, Floats}
use tributo_knova.Python.Text.{starts_with}
use tributo_knova.Python.Value.{Value, Dict, null, integer, string, values, get, truthy}
use tributo_knova.Python.Result.{Result, ok, err, type_error, ◌>>=◌, ◌>>◌}
use tributo_knova.Validation.Features.{integers, int_set}
use tributo_knova.Training.Checks.{Casing, invalid, ensure, mapping, text, positive_int}

module _ {F : Type 0} where
  -- `not isinstance(objective, str) or not objective.startswith(prefix)`
  abbrev pub with_prefix : Value F → String → String → Result String
  with_prefix (string s) prefix message = if starts_with s prefix then ok s else invalid message
  with_prefix v prefix message = invalid message

  -- `configured or default`
  abbrev pub configured_or : ⦃fl : Floats F⦄ → Value F → String → Value F
  configured_or v default = if truthy v then v else string default

  -- len(set(label_mapping.values())). The request was validated, so that the values are integers.
  abbrev pub count_of : Option (List ℤ) → Result (Value F)
  count_of none = err type_error
  count_of (some codes) = ok (integer (pos (length (int_set codes))))

  abbrev pub class_count : Value F → Dict F → Result (Value F)
  class_count null target = do
    labels ← mapping (get target "label_mapping") "target.label_mapping"
    count_of (integers (values labels))
  class_count v target = ok v

  abbrev pub binary_objective : ⦃fl : Floats F⦄ → Value F → Result (String × Option ℤ)
  binary_objective configured = do
    objective ←
        with_prefix (configured_or configured "binary:logistic") "binary:"
          "binary classification requires a binary XGBoost objective"
    ok (objective, none)

  abbrev pub multiclass_objective :
      ⦃fl : Floats F⦄ → Value F → Dict F → Dict F → Result (String × Option ℤ)
  multiclass_objective configured target hyper_parameters = do
    objective ←
        with_prefix (configured_or configured "multi:softprob") "multi:"
          "multiclass classification requires a multi XGBoost objective"
    raw ← class_count (get hyper_parameters "num_class") target
    num_class ← positive_int raw "algorithm.hyper_params.num_class"
    ensure (int_leb (pos 2) num_class) "multiclass classification requires at least two classes"
    ok (objective, some num_class)

  abbrev pub regression_objective : ⦃fl : Floats F⦄ → Value F → Result (String × Option ℤ)
  regression_objective configured = do
    objective ←
        with_prefix (configured_or configured "reg:squarederror") "reg:"
          "regression requires a regression XGBoost objective"
    ok (objective, none)

  abbrev pub objective_for : ⦃fl : Floats F⦄ → String → Dict F → Dict F → Result (String × Option ℤ)
  objective_for task_type target hyper_parameters =
      let configured = get hyper_parameters "objective" in
      if task_type == "BINARY_CLASSIFICATION"
      then binary_objective configured
      else if task_type == "MULTICLASS_CLASSIFICATION"
      then multiclass_objective configured target hyper_parameters
      else if task_type == "REGRESSION"
      then regression_objective configured
      else invalid "target.task_type is not supported by XGBoost training"

  unfoldable pub objective : ⦃fl : Floats F⦄ → Casing → Dict F → Dict F → Result (String × Option ℤ)
  objective casing target hyper_parameters = do
    task_type ← text (get target "task_type") "target.task_type"
    objective_for (casing.upper task_type) target hyper_parameters

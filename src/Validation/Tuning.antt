-- ===== src/Validation/Tuning.antt =====
-- src/tributo_knova/validation.py: `_XGB_SEARCH` and `_tuning`, the hyper-parameter search.
pub mod Catalog
use Prim.Native.String.{◌++◌}
use tributo_knova.Prelude.{
  ℕ, String, Bool, true, false, not, ◌&&◌, ◌||◌, List, [], ◌∷◌, Option, none, some, ◌==◌, elem,
  if◌then◌else◌,
}
use tributo_knova.Python.Number.{Floats}
use tributo_knova.Python.Value.{
  Value, Dict, null, string, array, object, end, field, get, get_or, is_none, is_empty, has_key,
  truthy, items,
}
use tributo_knova.Python.Result.{Result, ok, err, type_error, for_each, ◌>>=◌, ◌>>◌}
use tributo_knova.Validation.Fields.{fail, require, obj, enum, int, number, non_empty, unless_none}

-- An entry of the catalog: the kind of a parameter and its range.
pub record Bounds (F : Type 0) : Type 0 where
  pub kind : String
  pub lowest : F
  pub highest : F

abbrev pub schedulers : List String
schedulers = "NONE" ∷ "MEDIAN" ∷ "ASHA" ∷ "HYPERBAND" ∷ "PBT" ∷ []

module _ {F : Type 0} ⦃fl : Floats F⦄ where
  abbrev pub entry : String → ℕ → ℕ → ℕ → ℕ → Bounds F
  entry kind low low_scale high high_scale = record {
    kind = kind;
    lowest = fl.literal low low_scale;
    highest = fl.literal high high_scale;
  }

  unfoldable pub xgb_search : String → Option (Bounds F)
  xgb_search name =
      if name == "n_estimators"
      then some (entry "INT" 10 0 1000 0)
      else if name == "max_depth"
      then some (entry "INT" 1 0 15 0)
      else if name == "learning_rate"
      then some (entry "FLOAT" 1 3 1 0)
      else if name == "subsample"
      then some (entry "FLOAT" 1 1 1 0)
      else if name == "colsample_bytree"
      then some (entry "FLOAT" 1 1 1 0)
      else if name == "min_child_weight"
      then some (entry "INT" 0 0 10 0)
      else if name == "gamma"
      then some (entry "FLOAT" 0 0 5 0)
      else if name == "reg_alpha"
      then some (entry "FLOAT" 0 0 10 0)
      else if name == "reg_lambda"
      then some (entry "FLOAT" 0 0 10 0)
      else none

  -- algorithm.get("algorithm_key") in {"xgboost", "xgboost_reg"}
  abbrev pub is_xgboost : Value F → Bool
  is_xgboost (string key) = elem key ("xgboost" ∷ "xgboost_reg" ∷ [])
  is_xgboost _ = false

  abbrev pub listed : Option (Bounds F) → Result (Option (Bounds F))
  listed (some b) = ok (some b)
  listed none =
      fail "tuning.auto_config.search_space" "contains a parameter outside the algorithm catalog"

  -- no catalog for the algorithm, or the parameter's entry
  abbrev pub catalog : Bool → String → Result (Option (Bounds F))
  catalog false name = ok none
  catalog true name = listed (xgb_search name)

  abbrev pub kind_fits : Option (Bounds F) → String → Bool
  kind_fits none kind = true
  kind_fits (some b) kind = kind == b.kind

  -- not (low < bounds[1] or high > bounds[2])
  abbrev pub range_fits : Option (Bounds F) → F → F → Bool
  range_fits none low high = true
  range_fits (some b) low high = not (fl.below low b.lowest || fl.below b.highest high)

  abbrev pub zero : F
  zero = fl.literal 0 0

  -- `if domain.get("step") is not None and _number(domain["step"]) <= 0: _fail`
  abbrev pub positive_step : Value F → Result (Unit {0})
  positive_step null = ok tt
  positive_step v = do
    step ← number v "search_space domain.step"
    require (not (fl.at_most step zero)) "search_space domain.step" "must be positive"

  -- the branch of a domain whose kind is INT or FLOAT
  unfoldable pub numeric_domain : String → String → Option (Bounds F) → Dict F → Result (Unit {0})
  numeric_domain sampler kind bounds domain = do
    low ← number (get domain "min") "search_space domain.min"
    high ← number (get domain "max") "search_space domain.max"
    require (not (fl.below high low) && range_fits bounds low high) "search_space domain"
        "range must fit the algorithm catalog"
    require (not (kind == "INT") || (fl.is_integer low && fl.is_integer high)) "search_space domain"
        "INT bounds must be integers"
    positive_step (get domain "step")
    require (not (sampler == "GRID" && is_none (get domain "step"))) "search_space domain.step"
        "is required for GRID"
    enum (get_or domain "scale" (string "LINEAR")) ("LINEAR" ∷ "LOG" ∷ [])
        "search_space domain.scale"
    ok tt

  -- one item of `search_space`
  unfoldable pub search_domain : Bool → String → String × Value F → Result (Unit {0})
  search_domain xgboost sampler (name, raw) = do
    domain ← obj raw "tuning.auto_config.search_space domain"
    kind ←
        enum (get domain "type") ("INT" ∷ "FLOAT" ∷ "ENUM" ∷ "BOOL" ∷ []) "search_space domain.type"
    bounds ← catalog xgboost name
    require (kind_fits bounds kind) "search_space domain.type" "must match the algorithm catalog"
    if kind == "INT" || kind == "FLOAT"
        then numeric_domain sampler kind bounds domain
        else (non_empty (get domain "choices") "search_space domain.choices" "must be non-empty"
            >> ok tt)

  -- A value that is no text is outside the set; an unhashable one makes `in` raise TypeError.
  abbrev pub resource : Value F → Dict F → Result (Unit {0})
  resource (string s) space =
      require (elem s ("n_estimators" ∷ "data_fraction" ∷ []) && not (has_key space s))
        "tuning.auto_config.scheduler.resource_param" "must be an independent fidelity dimension"
  resource (array vs) space = err type_error
  resource (object d) space = err type_error
  resource _ space =
      fail "tuning.auto_config.scheduler.resource_param" "must be an independent fidelity dimension"

  -- the bounds of the ASHA and HYPERBAND schedulers
  unfoldable pub fidelity : Dict F → Dict F → Result (Unit {0})
  fidelity scheduler space = do
    resource (get scheduler "resource_param") space
    low ← number (get scheduler "min_resource") "scheduler.min_resource"
    high ← number (get scheduler "max_resource") "scheduler.max_resource"
    require (not (fl.at_most low zero || fl.below high low)) "tuning.auto_config.scheduler"
        "resource bounds must be positive and ordered"

  -- `auto.get("scheduler") or {"type": "NONE"}`, and what follows it
  unfoldable pub schedule : Bool → Dict F → Dict F → Result (Unit {0})
  schedule xgboost auto space = do
    scheduler ←
        obj
          (if truthy (get auto "scheduler")
            then get auto "scheduler"
            else object (field "type" (string "NONE") end))
          "tuning.auto_config.scheduler"
    kind ← enum (get scheduler "type") schedulers "tuning.auto_config.scheduler.type"
    (if kind == "ASHA" || kind == "HYPERBAND" then fidelity scheduler space else ok tt)
    require (not (kind == "PBT" && xgboost)) "tuning.auto_config.scheduler"
        "PBT requires resumable training capability"

  -- the budget and the search space of AUTO mode
  unfoldable pub auto_config : Bool → Value F → Result (Unit {0})
  auto_config xgboost value = do
    auto ← obj value "tuning.auto_config"
    sampler ← obj (get auto "sampler") "tuning.auto_config.sampler"
    sampler_type ←
        enum (get sampler "type") ("GRID" ∷ "RANDOM" ∷ "BAYESIAN" ∷ "CMAES" ∷ [])
          "tuning.auto_config.sampler.type"
    budget ← obj (get auto "budget") "tuning.auto_config.budget"
    int (get budget "max_trials") "tuning.auto_config.budget.max_trials" 1
    for_each
        (λ name.
          unless_none (get budget name)
            (int (get budget name) ("tuning.auto_config.budget." ++ name) 1))
        ("patience" ∷ "parallelism" ∷ [])
    space ← obj (get auto "search_space") "tuning.auto_config.search_space"
    require (not (is_empty space)) "tuning.auto_config.search_space" "must be non-empty"
    for_each (search_domain xgboost sampler_type) (items space)
    schedule xgboost auto space

  unfoldable pub tuning : Value F → Dict F → Result (Unit {0})
  tuning value algorithm = do
    d ← obj value "tuning"
    mode ← enum (get d "mode") ("MANUAL" ∷ "AUTO" ∷ []) "tuning.mode"
    if mode == "MANUAL"
        then require (is_none (get d "auto_config")) "tuning.auto_config"
            "must be null in MANUAL mode"
        else auto_config (is_xgboost (get algorithm "algorithm_key")) (get d "auto_config")

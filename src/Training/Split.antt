-- ===== src/Training/Split.antt =====
-- src/tributo_knova/training.py: `_data_split_config`.
pub mod Bounds
use tributo_knova.Prelude.{
  ℕ, ◌-◌, ◌%◌, ◌^◌, String, Bool, true, false, not, ◌&&◌, List, [], ◌∷◌, elem, ◌==◌, if◌then◌else◌,
}
use tributo_knova.Python.Number.{ℤ, pos, negsuc, Floats}
use tributo_knova.Python.Value.{
  Value, Dict, null, integer, float, string, boolean, object, field, end, get_or,
}
use tributo_knova.Python.Result.{Result, ok, err, ◌>>=◌, ◌>>◌}
use tributo_knova.Training.Checks.{Casing, invalid, ensure, mapping, text, boolean_of, ratio}

-- n % 2**32 in Python, where the result is not negative
abbrev pub wrapped : ℤ → ℕ
wrapped (pos n) = n % 2 ^ 32
wrapped (negsuc n) = 2 ^ 32 - 1 - n % 2 ^ 32

pub record Split (F : Type 0) : Type 0 where
  pub train_ratio : F
  pub validation_ratio : F
  pub test_ratio : F
  pub seed : ℕ
  pub split_strategy : String
  pub stratify : Bool

module _ {F : Type 0} where
  -- `if random_seed is None: random_seed = 42`, and then an integer
  abbrev pub seed_of : Value F → Result ℤ
  seed_of null = ok (pos 42)
  seed_of (integer n) = ok n
  seed_of _ = invalid "data_split.random_seed must be an integer"

  unfoldable pub no_cross_validation : Dict F → Result (Unit {0})
  no_cross_validation split = do
    settings ←
        mapping (get_or split "cross_validation" (object (field "enabled" (boolean false) end)))
          "data_split.cross_validation"
    enabled ←
        boolean_of (get_or settings "enabled" (boolean false))
          "data_split.cross_validation.enabled must be a boolean"
    ensure (not enabled) "data_split.cross_validation.enabled=true is not supported"

  unfoldable pub data_split_config : ⦃fl : Floats F⦄ → Casing → Dict F → Result (Split F)
  data_split_config ⦃fl⦄ casing payload = do
    split ← mapping (get_or payload "data_split" (object end)) "data_split"
    train ← ratio (get_or split "train_ratio" (float (fl.literal 7 1))) "data_split.train_ratio"
    validation ←
        ratio (get_or split "validation_ratio" (float (fl.literal 15 2)))
          "data_split.validation_ratio"
    test ← ratio (get_or split "test_ratio" (float (fl.literal 15 2))) "data_split.test_ratio"
    ensure (fl.is_close (fl.plus (fl.plus train validation) test) (fl.literal 1 0))
        "data_split ratios must sum to 1"
    ensure (not (fl.at_most train (fl.literal 0 0))) "data_split.train_ratio must be positive"
    raw_strategy ← text (get_or split "strategy" (string "RANDOM")) "data_split.strategy"
    let strategy = casing.upper raw_strategy
    ensure (elem strategy ("RANDOM" ∷ "TIME_ORDERED" ∷ []))
        "data_split.strategy must be RANDOM or TIME_ORDERED"
    stratify ←
        boolean_of (get_or split "stratify" (boolean false)) "data_split.stratify must be a boolean"
    ensure (not (strategy == "TIME_ORDERED" && stratify))
        "data_split TIME_ORDERED and stratify=true are mutually exclusive"
    ensure (not stratify) "data_split.stratify=true is not supported by this runtime"
    seed ← seed_of (get_or split "random_seed" (integer (pos 42)))
    no_cross_validation split
    ok (record {
      train_ratio = train;
      validation_ratio = validation;
      test_ratio = test;
      seed = wrapped seed;
      split_strategy = strategy;
      stratify = stratify;
    })

-- ===== src/Training/Results.antt =====
-- src/tributo_knova/training.py: `_internal_metrics`, `_sample_rows`, `_evaluation_metrics` and the summary
-- in `_completed_payload`.
pub mod Summary
use Prim.Native.Char.{Char, code}
use Prim.Native.String.{[], ◌∷◌}
use mathlib.Core.List as L
use tributo_knova.Prelude.{
  ℕ, ◌+◌, String, Bool, true, false, ◌&&◌, ◌||◌, List, [], ◌∷◌, Option, none, some, ltb, eqb, ◌==◌,
  if◌then◌else◌,
}
use tributo_knova.Python.Number.{ℤ, pos, negsuc, Floats}
use tributo_knova.Python.Value.{
  Value, Dict, integer, float, string, object, field, end, get, get_or,
}
use tributo_knova.Python.Result.{Result, ok, err, ◌>>=◌, ◌>>◌}
use tributo_knova.Training.Checks.{Casing, converted}
use tributo_knova.Training.Manifest.{failed, require_that}

-- the numbers of rows of a training, as they were split
pub record Rows : Type 0 where
  pub total : ℕ
  pub train : ℕ
  pub validation : ℕ
  pub test : ℕ

-- s <= t, by code points
unfoldable pub text_leb : String → String → Bool
text_leb [] t = true
text_leb (c ∷ s) [] = false
text_leb (c ∷ s) (d ∷ t) =
    let rest = text_leb s t in ltb (code c) (code d) || (eqb (code c) (code d) && rest)

-- a metric by its name
abbrev pub Metric : Type 0 → Type 0
Metric F = String × F

-- what the payload of the COMPLETED event says of the rows, the metrics and the primary metric
pub record Results (F : Type 0) : Type 0 where
  pub rows : Rows
  pub metrics : List (Metric F)
  pub primary : Option (Metric F)

module _ {F : Type 0} where
  -- `_internal_metrics`, of the attribute of the result
  abbrev pub internal_metrics : Value F → Result (Dict F)
  internal_metrics (object d) = ok d
  internal_metrics v = failed "training metrics are invalid"

  abbrev pub raw_rows : Value F → Result (Dict F)
  raw_rows (object d) = ok d
  raw_rows v = failed "training split row counts are missing"

  abbrev pub row_count : Value F → Result ℕ
  row_count (integer (pos n)) = ok n
  row_count v = failed "training split row counts are invalid"

  unfoldable pub sample_rows : Dict F → Result Rows
  sample_rows metrics = do
    raw ← raw_rows (get metrics "sample_rows")
    total ← row_count (get raw "total")
    train ← row_count (get raw "train")
    validation ← row_count (get raw "validation")
    test ← row_count (get raw "test")
    require_that (eqb (train + validation + test) total)
        "training split row counts are inconsistent"
    ok (record { total = total; train = train; validation = validation; test = test })

  -- insertion into a sorted list, behind the metrics of the same name
  unfoldable pub insert_metric : Metric F → List (Metric F) → List (Metric F)
  insert_metric m [] = m ∷ []
  insert_metric m (n ∷ ns) =
      let rest = insert_metric m ns in if text_leb n.0 m.0 then n ∷ rest else m ∷ n ∷ ns

  -- sorted(metrics, key=name)
  abbrev pub sorted_onto : List (Metric F) → List (Metric F) → List (Metric F)
  sorted_onto [] done = done
  sorted_onto (m ∷ ms) done = sorted_onto ms (insert_metric m done)

  -- the first metric of the name
  abbrev pub next_metric : List (Metric F) → String → Option (Metric F)
  next_metric [] name = none
  next_metric (m ∷ ms) name = if m.0 == name then some m else next_metric ms name

  abbrev pub primary_name : Casing → Value F → Option String
  primary_name casing (string s) = some (casing.lower s)
  primary_name casing v = none

  abbrev pub requested_name : Casing → Value F → Option String
  requested_name casing (object evaluation) = primary_name casing (get evaluation "primary_metric")
  requested_name casing v = none

  abbrev pub primary_metric : List (Metric F) → Option String → Option (Metric F)
  primary_metric metrics none = none
  primary_metric metrics (some name) = next_metric metrics name

  module _ ⦃fl : Floats F⦄ where
    -- a number of the evaluation, if it is finite
    abbrev pub finite_metric : String → Option F → Result (List (Metric F))
    finite_metric name o = converted o >>= λ x. ok (if fl.is_finite x then (name, x) ∷ [] else [])

    abbrev pub metric_of : Casing → String → Value F → Result (List (Metric F))
    metric_of casing name (integer n) = finite_metric (casing.lower name) (fl.of_int n)
    metric_of casing name (float x) = finite_metric (casing.lower name) (some x)
    metric_of casing name v = ok []

    unfoldable pub metrics_of : Casing → Dict F → Result (List (Metric F))
    metrics_of casing end = ok []
    metrics_of casing (field name value rest) = do
      here ← metric_of casing name value
      others ← metrics_of casing rest
      ok (L.◌++◌ here others)

    abbrev pub raw_metrics : Casing → Value F → Result (List (Metric F))
    raw_metrics casing (object d) = metrics_of casing d
    raw_metrics casing v = ok []

    unfoldable pub evaluation_metrics : Casing → Dict F → Result (List (Metric F))
    unfolding metrics_of insert_metric
    evaluation_metrics casing metrics = do
      raw ← raw_metrics casing (get_or metrics "evaluation" (object end))
      ok (sorted_onto raw [])

    unfoldable pub result_summary : Casing → Dict F → Value F → Result (Results F)
    unfolding sample_rows evaluation_metrics
    result_summary casing payload result = do
      metrics ← internal_metrics result
      rows ← sample_rows metrics
      evaluated ← evaluation_metrics casing metrics
      ok (record {
        rows = rows;
        metrics = evaluated;
        primary = primary_metric evaluated (requested_name casing (get payload "evaluation"));
      })

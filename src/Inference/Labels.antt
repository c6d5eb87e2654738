-- ===== src/Inference/Labels.antt =====
-- src/tributo_knova/inference.py: `_positive_label_index`, `_binary_labels`, `_decision_threshold` and
-- `_explanation_options`.
pub mod Threshold
use tributo_knova.Prelude.{
  ◌+◌, zero, suc, ℕ, String, Bool, true, false, not, ◌&&◌, ◌||◌, List, [], ◌∷◌, Option, none, some,
  elem, length, eqb, ◌==◌, if◌then◌else◌,
}
use mathlib.Core.List as L
use tributo_knova.Python.Number.{ℤ, pos, negsuc, int_eqb, Floats}
use tributo_knova.Python.Text.{show_int}
use tributo_knova.Python.Value.{
  Value, Dict, null, boolean, integer, float, string, object, field, end, keys, values, find, get,
  get_or, is_empty, truthy,
}
use tributo_knova.Python.Result.{Result, ok, err, overflow_error, ◌>>=◌, ◌>>◌}
use tributo_knova.Validation.Features.{elem_int, subset_int, integers}
use tributo_knova.Training.Checks.{Casing, converted, in_unit}
use tributo_knova.Inference.Checks.{invalid, ensure, mapping}

abbrev pub binary_codes : List ℤ
binary_codes = pos 0 ∷ pos 1 ∷ []

-- `set(values) == {0, 1}`, where all of them are integers
abbrev pub are_binary : Option (List ℤ) → Bool
are_binary none = false
are_binary (some codes) = subset_int codes binary_codes && subset_int binary_codes codes

-- 1 - n
abbrev pub one_minus : ℤ → ℤ
one_minus (pos zero) = pos 1
one_minus (pos (suc zero)) = pos 0
one_minus (pos (suc (suc n))) = negsuc n
one_minus (negsuc n) = pos (n + 2)

-- the dict from codes to labels
abbrev pub label_at : List (ℤ × String) → ℤ → Option String
label_at [] n = none
label_at ((m, s) ∷ reverse) n = if int_eqb m n then some s else label_at reverse n

-- next(index for index in reverse if index != positive), with its label
abbrev pub other_label : List (ℤ × String) → ℤ → Option String
other_label [] positive = none
other_label ((n, s) ∷ rest) positive =
    if int_eqb n positive then other_label rest positive else some s

abbrev pub label_or : Option String → String → Result String
label_or none message = invalid message
label_or (some s) message = ok s

module _ {F : Type 0} where
  abbrev pub code_at : Option (Value F) → Result ℤ
  code_at (some (integer n)) = ok n
  code_at o = invalid "model.positive_label_value must belong to model.label_mapping"

  -- with a label mapping
  abbrev pub mapped_index : Value F → Dict F → Result ℤ
  mapped_index null labels = ok (pos 1)
  mapped_index (string s) labels = code_at (find labels s)
  mapped_index v labels = invalid "model.positive_label_value must belong to model.label_mapping"

  -- without one
  abbrev pub plain_index : Value F → Result ℤ
  plain_index null = ok (pos 1)
  plain_index (string s) =
      if s == "0"
      then ok (pos 0)
      else if s == "1"
      then ok (pos 1)
      else invalid "model.positive_label_value must be 0 or 1 without label_mapping"
  plain_index (integer n) =
      if elem_int n binary_codes
      then ok n
      else invalid "model.positive_label_value must be 0 or 1 without label_mapping"
  plain_index v = invalid "model.positive_label_value must be 0 or 1 without label_mapping"

  module _ ⦃fl : Floats F⦄ where
    -- `model.get("label_mapping") or {}`
    abbrev pub labels_of : Dict F → Result (Dict F)
    labels_of model =
        mapping
          (if truthy (get model "label_mapping") then get model "label_mapping" else object end)
          "model.label_mapping"

    abbrev pub index_in : Dict F → Value F → Result ℤ
    index_in labels positive =
        if is_empty labels
        then plain_index positive
        else (ensure (eqb (length (keys labels)) 2 && are_binary (integers (values labels)))
              "binary model.label_mapping must uniquely encode classes 0 and 1"
            >> mapped_index positive labels)

    unfoldable pub positive_label_index : Dict F → Result ℤ
    positive_label_index model = do
      labels ← labels_of model
      index_in labels (get model "positive_label_value")

    unfoldable pub reversed : Dict F → List (ℤ × String) → Result (List (ℤ × String))
    reversed end reverse = ok reverse
    reversed (field original (integer encoded) rest) reverse = elim (label_at reverse encoded) [
      | none ↦ reversed rest (L.◌++◌ reverse ((encoded, original) ∷ []))
      | some s ↦ invalid "model.label_mapping class indexes must be unique"
    ]
    reversed (field original v rest) reverse =
        invalid "model.label_mapping values must be integer class indexes"

    unfoldable pub binary_labels : Dict F → Result (ℤ × String × String)
    unfolding positive_label_index reversed
    binary_labels model = do
      labels ← labels_of model
      if is_empty labels
          then (positive_label_index model >>= λ positive.
              ok (positive, show_int positive, show_int (one_minus positive)))
          else (do
            ensure (eqb (length (keys labels)) 2)
                "binary decision_threshold requires exactly two label mappings"
            reverse ← reversed labels []
            positive ← positive_label_index model
            this ←
                label_or (label_at reverse positive)
                  "model positive_label_value is not present in label_mapping"
            other ←
                label_or (other_label reverse positive)
                  "binary decision_threshold requires a negative label"
            ok (positive, this, other))

    abbrev pub extensions_of : Value F → Dict F
    extensions_of (object d) = d
    extensions_of v = end

    -- the text that `str(v or "")` is, for a value that is a text or missing
    abbrev pub text_or_empty : Value F → String
    text_or_empty (string s) = s
    text_or_empty v = ""

    -- a number that is finite and from 0 to 1, or none
    abbrev pub number_in_unit : Value F → Result (Option F)
    number_in_unit (integer n) =
        converted (fl.of_int n) >>= λ x. ok (if in_unit x then some x else none)
    number_in_unit (float x) = ok (if in_unit x then some x else none)
    number_in_unit v = ok none

    abbrev pub with_labels : Dict F → Option F → Result (Option F)
    with_labels model none = ok none
    with_labels model (some threshold) = binary_labels model >> ok (some threshold)

    abbrev pub threshold_of : Casing → Dict F → Value F → Result (Option F)
    threshold_of casing payload null = ok none
    threshold_of casing payload raw = do
      model ← mapping (get payload "model") "model"
      if casing.upper (text_or_empty (get model "task_type")) == "BINARY_CLASSIFICATION"
          then (number_in_unit raw >>= with_labels model)
          else ok none

    unfoldable pub decision_threshold : Casing → Dict F → Result (Option F)
    unfolding binary_labels
    decision_threshold casing payload =
        threshold_of casing payload
          (get (extensions_of (get_or payload "extensions" (object end))) "decision_threshold")

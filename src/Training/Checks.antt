-- ===== src/Training/Checks.antt =====
-- src/tributo_knova/training.py: `_invalid`, `_mapping`, `_text`, `_positive_int` and `_ratio`.
pub mod Laws
use Prim.Native.String.{◌++◌}
use tributo_knova.Prelude.{
  ℕ, String, Bool, true, false, not, ◌&&◌, ◌||◌, Option, none, some, ◌==◌, if◌then◌else◌,
}
use tributo_knova.Python.Number.{ℤ, pos, int_leb, Floats}
use tributo_knova.Python.Text.{strip, is_blank}
use tributo_knova.Python.Value.{Value, Dict, integer, float, string, boolean, object}
use tributo_knova.Python.Result.{
  Result, ok, err, overflow_error, training_configuration, ◌>>=◌, ◌>>◌,
}

-- str.lower and str.upper
pub record Casing : Type 0 where
  pub lower : String → String
  pub upper : String → String

unfoldable pub invalid {ℓ} : {A : Type ℓ} → String → Result A
invalid message = err (training_configuration message)

-- `if not test: _invalid(message)`
abbrev pub ensure : Bool → String → Result (Unit {0})
ensure true message = ok tt
ensure false message = invalid message

module _ {F : Type 0} where
  unfoldable pub mapping : Value F → String → Result (Dict F)
  mapping (object d) place = ok d
  mapping _ place = invalid (place ++ " must be an object")

  -- the text without the whitespace around it
  unfoldable pub text : Value F → String → Result String
  text (string s) place =
      if is_blank s then invalid (place ++ " must be a non-empty string") else ok (strip s)
  text _ place = invalid (place ++ " must be a non-empty string")

  unfoldable pub positive_int : Value F → String → Result ℤ
  positive_int (integer n) place =
      if int_leb (pos 1) n then ok n else invalid (place ++ " must be a positive integer")
  positive_int _ place = invalid (place ++ " must be a positive integer")

  unfoldable pub boolean_of : Value F → String → Result Bool
  boolean_of (boolean b) message = ok b
  boolean_of _ message = invalid message

  -- float(value), once the value is a number
  abbrev pub converted : Option F → Result F
  converted none = err overflow_error
  converted (some x) = ok x

  module _ ⦃fl : Floats F⦄ where
    abbrev pub in_unit : F → Bool
    in_unit x = fl.is_finite x && fl.at_most (fl.literal 0 0) x && fl.at_most x (fl.literal 1 0)

    abbrev pub unit_ratio : F → String → Result F
    unit_ratio x place =
        if in_unit x then ok x else invalid (place ++ " must be a finite number within [0, 1]")

    unfoldable pub ratio : Value F → String → Result F
    ratio (integer n) place = converted (fl.of_int n) >>= λ x. unit_ratio x place
    ratio (float x) place = unit_ratio x place
    ratio _ place = invalid (place ++ " must be a finite number within [0, 1]")

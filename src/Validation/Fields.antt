-- ===== src/Validation/Fields.antt =====
-- src/tributo_knova/validation.py: `_fail`, `_obj`, `_text`, `_enum`, `_int` and `_number`.
pub mod Laws
use Prim.Native.String.{◌++◌}
use tributo_knova.Prelude.{ℕ, String, Bool, true, false, List, ◌∷◌, none, some, elem, if◌then◌else◌}
use tributo_knova.Python.Number.{ℤ, pos, int_leb, Floats}
use tributo_knova.Python.Text.{is_blank, show_int}
use tributo_knova.Python.Value.{
  Value, Dict, null, integer, float, string, array, object, cons, elements, get,
}
use tributo_knova.Python.Result.{Result, ok, err, protocol_validation, overflow_error, for_each}

unfoldable pub fail {ℓ} : {A : Type ℓ} → String → String → Result A
fail place rule = err (protocol_validation (place ++ " " ++ rule))

-- `if not test: _fail(place, rule)`
abbrev pub require : Bool → String → String → Result (Unit {0})
require true place rule = ok tt
require false place rule = fail place rule

module _ {F : Type 0} where
  unfoldable pub obj : Value F → String → Result (Dict F)
  obj (object d) place = ok d
  obj _ place = fail place "must be an object"

  unfoldable pub text : Value F → String → Result String
  text (string s) place = if is_blank s then fail place "must be a non-empty string" else ok s
  text _ place = fail place "must be a non-empty string"

  unfoldable pub enum : Value F → List String → String → Result String
  enum (string s) choices place =
      if elem s choices then ok s else fail place "has an unsupported value"
  enum _ choices place = fail place "has an unsupported value"

  -- `bool` is excluded although Python's `bool` is an `int`
  unfoldable pub int : Value F → String → ℕ → Result ℤ
  int (integer n) place minimum =
      if int_leb (pos minimum) n
      then ok n
      else fail place ("must be an integer >= " ++ show_int (pos minimum))
  int _ place minimum = fail place ("must be an integer >= " ++ show_int (pos minimum))

  abbrev pub finite : ⦃fl : Floats F⦄ → F → String → Result F
  finite ⦃fl⦄ x place = if fl.is_finite x then ok x else fail place "must be a finite number"

  -- An integer beyond the floats makes `math.isfinite` raise OverflowError.
  unfoldable pub number : ⦃fl : Floats F⦄ → Value F → String → Result F
  number ⦃fl⦄ (integer n) place = elim (fl.of_int n) [
    | none ↦ err overflow_error
    | some x ↦ finite x place
  ]
  number (float x) place = finite x place
  number _ place = fail place "must be a finite number"

  -- `isinstance(v, list) and v`, else `_fail(place, rule)`
  unfoldable pub non_empty : Value F → String → String → Result (List (Value F))
  non_empty (array (cons v vs)) place rule = ok (v ∷ elements vs)
  non_empty _ place rule = fail place rule

  -- `for name in names: _text(d.get(name), place + name)`
  unfoldable pub texts : Dict F → List String → String → Result (Unit {0})
  unfolding for_each
  texts d names place = for_each (λ name. text (get d name) (place ++ name)) names

  -- `if v is not None: check(v)`
  abbrev pub unless_none {ℓ} : {A : Type ℓ} → Value F → Result A → Result (Unit {0})
  unless_none null r = ok tt
  unless_none _ (ok a) = ok tt
  unless_none _ (err e) = err e

  abbrev pub is_text : Value F → Bool
  is_text (string s) = true
  is_text _ = false

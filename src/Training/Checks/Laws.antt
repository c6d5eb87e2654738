-- ===== src/Training/Checks/Laws.antt =====
-- What the checks of the training return.
use tributo_knova.Prelude.{String, Bool, true, false, ◌≡◌, inl, inr, refl, arith, Bool-cases}
use tributo_knova.Python.Number.{ℤ, pos, int_leb, Floats}
use tributo_knova.Python.Text.{strip, is_blank}
use tributo_knova.Python.Value.{Value, Dict, integer, float, string, object}
use tributo_knova.Python.Result.{ok-injective, ok, from_ok}
use tributo_knova.Training.Checks.{
  invalid, ensure, mapping, text, positive_int, converted, in_unit, unit_ratio, ratio,
}

pub ensure-eq-ok : (b : Bool) (message : String) → ensure b message ≡ ok tt → b ≡ true
unfolding invalid
ensure-eq-ok b message h = ground arith

module _ {F : Type 0} where
  pub mapping-eq-ok :
      (v : Value F) (place : String) {d : Dict F} → mapping v place ≡ ok d → v ≡ object d
  unfolding mapping invalid
  mapping-eq-ok v place h = ground arith

  pub text-eq-ok :
      (v : Value F) (place : String) {t : String}
      → text v place ≡ ok t
      → (s : String) × (v ≡ string s) × (is_blank s ≡ false) × (t ≡ strip s)
  unfolding text invalid
  text-eq-ok (string s) place h = elim (Bool-cases (is_blank s)) [
    | inl blank ↦ let k = rw blank at h in cc
    | inr other ↦ let k = rw other at h in (s, refl, other, cc)
  ]
  text-eq-ok v place h = cc

  pub positive_int-eq-ok :
      (v : Value F) (place : String) {n : ℤ}
      → positive_int v place ≡ ok n
      → (v ≡ integer n) × (int_leb (pos 1) n ≡ true)
  unfolding positive_int invalid
  positive_int-eq-ok v place h = ground arith

  module _ ⦃fl : Floats F⦄ where
    unit_ratio-eq-ok :
        (x : F) (place : String) {y : F} → unit_ratio x place ≡ ok y → in_unit y ≡ true
    unfolding invalid
    unit_ratio-eq-ok x place h = elim (Bool-cases (in_unit x)) [
      | inl good ↦ let k = rw good at h in let e = ok-injective k in rw (← e) good
      | inr bad ↦ let k = rw bad at h in cc
    ]

    pub ratio-eq-ok :
        (v : Value F) (place : String) {x : F} → ratio v place ≡ ok x → in_unit x ≡ true
    unfolding ratio invalid
    ratio-eq-ok (integer n) place h =
        from_ok (converted (fl.of_int n)) _ h λ y _ h1. unit_ratio-eq-ok y place h1
    ratio-eq-ok (float y) place h = unit_ratio-eq-ok y place h
    ratio-eq-ok v place h = cc

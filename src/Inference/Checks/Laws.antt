-- ===== src/Inference/Checks/Laws.antt =====
-- What the checks of an inference return.
use tributo_knova.Prelude.{String, Bool, true, ◌≡◌, sym, arith, Bool-cases, inl, inr}
use tributo_knova.Python.Text.{strip, is_blank}
use tributo_knova.Python.Value.{Value, Dict, string, object}
use tributo_knova.Python.Result.{ok, ok-injective}
use tributo_knova.Inference.Checks.{invalid, ensure, stripped, mapping, text}

pub ensure-eq-ok : (b : Bool) (message : String) → ensure b message ≡ ok tt → b ≡ true
unfolding invalid
ensure-eq-ok b message h = ground arith

pub stripped-eq-ok : (s place : String) {r : String} → stripped s place ≡ ok r → r ≡ strip s
unfolding stripped invalid
stripped-eq-ok s place e = elim (Bool-cases (is_blank s)) [
  | inl blank ↦ let k = rw blank at e in cc
  | inr other ↦ let k = rw other at e in sym (ok-injective k)
]

module _ {F : Type 0} where
  pub mapping-eq-ok :
      (v : Value F) (place : String) {d : Dict F} → mapping v place ≡ ok d → v ≡ object d
  unfolding mapping invalid
  mapping-eq-ok v place h = ground arith

  -- the text of a value without the whitespace around it
  abbrev pub text_path : Value F → String
  text_path (string s) = strip s
  text_path v = ""

  pub text-eq-ok :
      (v : Value F) (place : String) {r : String} → text v place ≡ ok r → r ≡ text_path v
  unfolding text invalid
  text-eq-ok (string s) place h = stripped-eq-ok s place h
  text-eq-ok v place h = cc

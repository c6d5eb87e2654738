-- ===== src/Validation/Fields/Laws.antt =====
-- Inversion of the field checks: what a value is that a check accepts.
use tributo_knova.Prelude.{ℕ, String, Bool, true, List, [], ◌∷◌, ◌≡◌, elem, arith, length, ◌<◌, All}
use tributo_knova.Python.Number.{ℤ, pos, int_leb}
use tributo_knova.Python.Value.{Value, Dict, integer, string, object, array_of}
use tributo_knova.Python.Result.{Result, ok, for_each, from_ok}
use tributo_knova.Validation.Fields.{fail, require, obj, text, enum, int, non_empty}

pub require-eq-ok : (b : Bool) (place rule : String) → require b place rule ≡ ok tt → b ≡ true
unfolding fail
require-eq-ok b place rule h = ground arith

module _ {F : Type 0} where
  pub obj-eq-ok : (v : Value F) (place : String) {d : Dict F} → obj v place ≡ ok d → v ≡ object d
  unfolding obj fail
  obj-eq-ok v place h = ground arith

  pub text-eq-ok : (v : Value F) (place : String) {s : String} → text v place ≡ ok s → v ≡ string s
  unfolding text fail
  text-eq-ok v place h = ground arith

  pub enum-eq-ok :
      (v : Value F) (choices : List String) (place : String) {s : String}
      → enum v choices place ≡ ok s
      → (v ≡ string s) × (elem s choices ≡ true)
  unfolding enum fail
  enum-eq-ok v choices place h = ground arith

  pub int-eq-ok :
      (v : Value F) (place : String) (minimum : ℕ) {n : ℤ}
      → int v place minimum ≡ ok n
      → (v ≡ integer n) × (int_leb (pos minimum) n ≡ true)
  unfolding int fail
  int-eq-ok v place minimum h = ground arith

  pub non_empty-eq-ok :
      (v : Value F) (place rule : String) {xs : List (Value F)}
      → non_empty v place rule ≡ ok xs
      → (xs ≡ array_of v) × (0 < length xs)
  unfolding non_empty fail
  non_empty-eq-ok v place rule h = ground arith

-- A check that ran over all names passed at each.
pub for_each-eq-ok {ℓ κ} :
    {A : Type ℓ} {B : Type κ} (f : A → Result B) (xs : List A)
    → for_each f xs ≡ ok tt
    → All (λ x. (b : B) × (f x ≡ ok b)) xs
unfolding for_each
for_each-eq-ok f [] h = tt
for_each-eq-ok f (x ∷ xs) h =
    from_ok (f x) (λ _. for_each f xs) h
      λ b passed others. ((b, passed), for_each-eq-ok f xs others)

-- ===== src/Validation/Safe.antt =====
-- Which checks raise ProtocolValidationError and nothing else.
pub mod Sections
pub mod Inference
use Prim.Native.String.{◌++◌}
use tributo_knova.Prelude.{
  ℕ, String, Bool, true, false, not, ◌&&◌, ◌||◌, List, [], ◌∷◌, Option, none, some, ◌≡◌, refl, elem,
  subset, all, arith,
}
use tributo_knova.Python.Number.{ℤ, pos, int_leb}
use tributo_knova.Python.Value.{
  Value, Dict, null, object, end, get, get_or, values, array, nil, elements, cons,
}
use tributo_knova.Python.Result.{
  Result, Exception, ok, err, protocol_validation, overflow_error, type_error, for_each, ◌>>=◌,
  ◌>>◌,
}
use tributo_knova.Validation.Fields.{
  fail, require, obj, text, enum, int, non_empty, texts, unless_none, is_text,
}
use tributo_knova.Validation.Source.{source_types, datasource, query}
use tributo_knova.Validation.Topology.{
  next_primary, expansion, single_primary, scan_tables, expands, condition, join_relations,
  relation_list, topology,
}
use tributo_knova.Validation.Features.{
  feature_roles, column, scan_features, features, consecutive, integers, label_codes, label_mapping,
}

abbrev pub IsProtocolError : Exception → Type 0
IsProtocolError (protocol_validation message) = Unit
IsProtocolError _ = ⊥

-- The check returns, or raises ProtocolValidationError.
pub record IsSafe {ℓ} {A : Type ℓ} (r : Result A) : Type ℓ where
  pub only : (x : Exception) → r ≡ err x → IsProtocolError x

module _ {ℓ} {A : Type ℓ} where
  pub IsSafe-ok : (a : A) → IsSafe (ok a)
  IsSafe-ok a = record { only = λ x h. cc }

  pub IsSafe-fail : (place rule : String) → IsSafe (fail {A = A} place rule)
  unfolding fail
  IsSafe-fail place rule = record { only = λ x h. ground arith }

pub IsSafe->>= {ℓ} :
    {A B : Type ℓ} (m : Result A) (f : A → Result B)
    → IsSafe m
    → ((a : A) → IsSafe (f a))
    → IsSafe (m >>= f)
IsSafe->>= (ok a) f s k = k a
IsSafe->>= (err e) f s k = record { only = λ x h. s.only x (cc) }

pub IsSafe-for_each :
    {A B : Type 0} (f : A → Result B) (xs : List A)
    → ((x : A) → IsSafe (f x))
    → IsSafe (for_each f xs)
unfolding for_each
IsSafe-for_each f [] k = IsSafe-ok tt
IsSafe-for_each f (x ∷ xs) k = IsSafe->>= (f x) _ (k x) (λ _. IsSafe-for_each f xs k)

pub IsSafe-require : (b : Bool) (place rule : String) → IsSafe (require b place rule)
IsSafe-require true place rule = IsSafe-ok tt
IsSafe-require false place rule = IsSafe-fail place rule

module _ {F : Type 0} where
  pub IsSafe-obj : (v : Value F) (place : String) → IsSafe (obj v place)
  unfolding obj fail
  IsSafe-obj v place = record { only = λ x h. ground arith }

  pub IsSafe-text : (v : Value F) (place : String) → IsSafe (text v place)
  unfolding text fail
  IsSafe-text v place = record { only = λ x h. ground arith }

  pub IsSafe-enum :
      (v : Value F) (choices : List String) (place : String) → IsSafe (enum v choices place)
  unfolding enum fail
  IsSafe-enum v choices place = record { only = λ x h. ground arith }

  pub IsSafe-int : (v : Value F) (place : String) (minimum : ℕ) → IsSafe (int v place minimum)
  unfolding int fail
  IsSafe-int v place minimum = record { only = λ x h. ground arith }

  pub IsSafe-non_empty : (v : Value F) (place rule : String) → IsSafe (non_empty v place rule)
  unfolding non_empty fail
  IsSafe-non_empty v place rule = record { only = λ x h. ground arith }

  pub IsSafe-texts :
      (d : Dict F) (names : List String) (place : String) → IsSafe (texts d names place)
  unfolding texts
  IsSafe-texts d names place = IsSafe-for_each _ names λ name. IsSafe-text (get d name) _

  pub IsSafe-unless_none :
      {A : Type 0} (v : Value F) (r : Result A) → IsSafe r → IsSafe (unless_none v r)
  IsSafe-unless_none null r s = IsSafe-ok tt
  IsSafe-unless_none v (ok a) s = IsSafe-ok tt
  IsSafe-unless_none v (err e) s = record { only = λ x h. s.only x (cc) }

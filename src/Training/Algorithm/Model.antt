-- ===== src/Training/Algorithm/Model.antt =====
-- Which parameters of a request are in the section of the model that `_algorithm_config` makes.

use tributo_knova.Prelude.{
  String, true, false, List, Option, none, some, ◌≡◌, refl, inl, inr, elem, ◌==◌, eq_iff,
  Bool-cases,
}
use tributo_knova.Python.Number.{ℤ}
use tributo_knova.Python.Value.{
  Dict, null, integer, string, array, end, field, find, get, get_or, put,
}
use tributo_knova.Python.Value.Laws.{get-put, get_of_find}
use tributo_knova.Training.Algorithm.{
  control_parameters, free_parameters, texts_of, with_classes, model_section,
}

module _ {F : Type 0} where
  find-free_parameters :
      (d : Dict F) (k : String)
      → elem k control_parameters ≡ true
      → find (free_parameters d) k ≡ none
  unfolding free_parameters find
  find-free_parameters end k h = refl
  find-free_parameters (field j v d) k h = elim (Bool-cases (elem j control_parameters)) [
    | inl out ↦ rw out (find-free_parameters d k h)
    | inr kept ↦ rw kept (elim (Bool-cases (j == k)) [
      | inl same ↦ (let e = rw ((eq_iff j k).0 same) at kept in cc)
      | inr other ↦ rw other (find-free_parameters d k h)
    ])
  ]

  get-free_parameters :
      (d : Dict F) (k : String)
      → elem k control_parameters ≡ true
      → get (free_parameters d) k ≡ null
  unfolding find get get_or
  get-free_parameters d k h = get_of_find (free_parameters d) end k (find-free_parameters d k h)

  get-with_classes :
      (o : Option ℤ) (d : Dict F) (k : String)
      → "num_class" == k ≡ false
      → get (with_classes o d) k ≡ get d k
  get-with_classes none d k h = refl
  get-with_classes (some n) d k h = rw (get-put d "num_class" k (integer n), h) refl

  -- A control parameter of the request that is not written again is not in the model's section.
  pub model_section-get :
      (hyper_parameters : Dict F) (name : String) (num_class : Option ℤ) (metrics : List String)
      (k : String)
      → elem k control_parameters ≡ true
      → "objective" == k ≡ false
      → "num_class" == k ≡ false
      → "eval_metric" == k ≡ false
      → get (model_section hyper_parameters name num_class metrics) k ≡ null
  unfolding model_section
  model_section-get hyper_parameters name num_class metrics k h o n e =
      let plain = put (free_parameters hyper_parameters) "objective" (string name) in
      rw
        (
          get-put (with_classes num_class plain) "eval_metric" k (array (texts_of metrics)),
          e,
          get-with_classes num_class plain k n,
          get-put (free_parameters hyper_parameters) "objective" k (string name),
          o,
        )
        (get-free_parameters hyper_parameters k h)

-- ===== src/Training/Algorithm/Bounds.antt =====
-- The options that `_algorithm_config` gives.
use mathlib.Core.Path.{subst}
use tributo_knova.Prelude.{
  ℕ, ◌≤◌, String, true, false, not, [], ◌∷◌, Option, none, some, ◌≡◌, refl, sym, ap, ◌∙◌, ◌⊎◌, inl,
  inr, elem, ◌==◌, arith, Bool-cases,
}
use tributo_knova.Python.Number.{ℤ, pos, negsuc, int_leb, Floats}
use tributo_knova.Python.Value.{Value, Dict, null, integer, object, end, get, get_or}
use tributo_knova.Python.Result.{ok, from_ok, ok-injective}
use tributo_knova.Training.Checks.{Casing, ensure, mapping, text, positive_int}
use tributo_knova.Training.Checks.Laws.{ensure-eq-ok, mapping-eq-ok, positive_int-eq-ok}
use tributo_knova.Training.Split.{Split, data_split_config}
use tributo_knova.Training.Split.Bounds.{IsSplit, data_split_config-IsSplit}
use tributo_knova.Training.Evaluation.{evaluation_config}
use tributo_knova.Training.Objective.{objective}
use tributo_knova.Training.Algorithm.Model.{model_section-get}
use tributo_knova.Training.Algorithm.{
  Config, lesser, positive_code, is_binary_code, text_or_empty, positive_label, patience,
  algorithm_config,
}

-- the smaller of two positive integers
lesser-bounds :
    (a b : ℤ)
    → int_leb (pos 1) a ≡ true
    → int_leb (pos 1) b ≡ true
    → (n m : ℕ) × (lesser a b ≡ pos n) × (b ≡ pos m) × (1 ≤ n) × (n ≤ m)
lesser-bounds (pos a) (pos b) p q = elim (Bool-cases (int_leb (pos b) (pos a))) [
  | inl le ↦ (b, b, rw le refl, refl, ground arith, omega arith)
  | inr lt ↦ (a, b, rw lt refl, refl, ground arith, ground arith)
]
lesser-bounds (pos a) (negsuc b) p q = cc
lesser-bounds (negsuc a) b p q = cc

module _ {F : Type 0} ⦃fl : Floats F⦄ where
  -- The training of a configuration is bounded: it has at least one round and at most max_epochs, a
  -- split that can be trained on, rows to validate on where it can stop early, and a binary class
  -- where it has a positive label. The rounds and the patience are out of the parameters of XGBoost.
  pub record IsConfig (limits : Dict F) (c : Config F) : Type 0 where
    pub rounds : ℕ
    pub most : ℕ
    pub has_rounds : c.num_rounds ≡ pos rounds
    pub has_most : get_or limits "max_epochs" (integer (pos 1000)) ≡ integer (pos most)
    pub some_round : 1 ≤ rounds
    pub within : rounds ≤ most
    pub can_split : IsSplit c.split
    pub can_stop :
        (c.early_stopping_rounds ≡ none)
        ⊎ (fl.at_most c.split.validation_ratio (fl.literal 0 0) ≡ false)
    pub binary :
        (c.positive_label ≡ none)
        ⊎ ((v : Value F) × (c.positive_label ≡ some v) × (is_binary_code v ≡ true))
    pub apart :
        (get c.model "n_estimators" ≡ null)
        × (get c.model "num_rounds" ≡ null)
        × (get c.model "early_stopping_rounds" ≡ null)

  patience-stops :
      (v : Value F) (split : Split F) {o : Option ℤ}
      → patience v split ≡ ok o
      → (o ≡ none) ⊎ (fl.at_most split.validation_ratio (fl.literal 0 0) ≡ false)
  patience-stops null split h = inl (sym (ok-injective h))
  patience-stops v split h =
      from_ok (positive_int v "resource_limits.early_stopping_patience") _ h λ rounds _ h1.
        from_ok (ensure (not (fl.at_most split.validation_ratio (fl.literal 0 0))) _) _ h1 λ _ e _.
          let some_rows =
            ensure-eq-ok (not (fl.at_most split.validation_ratio (fl.literal 0 0))) _ e in
          inr (ground arith)

  positive_label-IsBinary :
      (casing : Casing) (target : Dict F) {o : Option (Value F)}
      → positive_label casing target ≡ ok o
      → (o ≡ none) ⊎ ((v : Value F) × (o ≡ some v) × (is_binary_code v ≡ true))
  unfolding positive_label
  positive_label-IsBinary casing target h =
      elim (Bool-cases
        (casing.upper (text_or_empty (get target "task_type")) == "BINARY_CLASSIFICATION")) [
          | inl binary ↦
              from_ok
                (positive_code (get target "positive_label_value") (get target "label_mapping")) _
                (rw binary at h)
                λ code _ h1. from_ok (ensure (is_binary_code code) _) _ h1 λ _ e h2.
                  inr (code, sym (ok-injective h2), ensure-eq-ok (is_binary_code code) _ e)
          | inr other ↦ let k = rw other at h in inl (sym (ok-injective k))
        ]

  -- A configuration that `_algorithm_config` returns has at least one round and at most
  -- resource_limits.max_epochs; its split has ratios that add up to 1 and a share to train on; it stops
  -- early only with a share to validate on; a positive label is the code 0 or 1; and the numbers of
  -- rounds and the patience of the request are not among the parameters of the model.
  pub algorithm_config-IsConfig :
      (casing : Casing) (payload : Dict F) (label_name storage bundle : String) {c : Config F}
      → algorithm_config casing payload label_name storage bundle ≡ ok c
      → (limits : Dict F) × (get_or payload "resource_limits" (object end) ≡ object limits)
        × IsConfig limits c
  unfolding algorithm_config
  algorithm_config-IsConfig casing payload label_name storage bundle h =
      from_ok (mapping (get payload "algorithm") "algorithm") _ h λ algorithm _ h1.
        from_ok (text (get algorithm "algorithm_key") "algorithm.algorithm_key") _ h1 λ key _ h2.
          from_ok (ensure (elem (casing.lower key) ("xgboost" ∷ "xgboost_reg" ∷ [])) _) _ h2
            λ _ _ h3.
              from_ok (mapping (get_or algorithm "hyper_params" (object end)) _) _ h3 λ hyper _ h4.
                from_ok (mapping (get payload "target") "target") _ h4 λ target _ h5.
                  from_ok (objective casing target hyper) _ h5 λ chosen _ h6.
                    from_ok
                      (positive_int
                        (get_or hyper "n_estimators"
                          (get_or hyper "num_rounds" (integer (pos 100))))
                        _)
                      _ h6
                      λ requested e7 h7.
                        from_ok (mapping (get_or payload "resource_limits" (object end)) _) _ h7
                          λ limits e8 h8.
                            from_ok
                              (positive_int (get_or limits "max_epochs" (integer (pos 1000))) _) _
                              h8
                              λ most e9 h9.
                                from_ok (evaluation_config casing payload chosen.0) _ h9
                                  λ evaluation _ h10.
                                    from_ok (data_split_config casing payload) _ h10
                                      λ split e11 h11.
                                        from_ok (positive_label casing target) _ h11
                                          λ label e12 h12.
                                            from_ok
                                              (patience
                                                (get_or limits "early_stopping_patience"
                                                  (get hyper "early_stopping_rounds"))
                                                split)
                                              _ h12
                                              λ early e13 h13.
                                                let asked =
                                                  positive_int-eq-ok
                                                    (get_or hyper "n_estimators" (
                                                      get_or hyper "num_rounds"
                                                        (integer (pos 100))))
                                                    _ e7 in
                                                let cap =
                                                  positive_int-eq-ok
                                                    (get_or limits "max_epochs"
                                                      (integer (pos 1000)))
                                                    _ e9 in
                                                let (n, m, rounds_are, most_are, one, below) =
                                                  lesser-bounds requested most asked.1 cap.1 in
                                                let absent =
                                                  model_section-get hyper chosen.0 chosen.1
                                                    evaluation.0 in
                                                (
                                                  limits,
                                                  mapping-eq-ok
                                                      (get_or payload "resource_limits"
                                                        (object end))
                                                      _ e8,
                                                  subst (IsConfig limits) (ok-injective h13)
                                                      (record {
                                                        rounds = n;
                                                        most = m;
                                                        has_rounds = rounds_are;
                                                        has_most = cap.0 ∙ ap integer most_are;
                                                        some_round = one;
                                                        within = below;
                                                        can_split =
                                                            data_split_config-IsSplit casing payload
                                                            e11;
                                                        can_stop =
                                                            patience-stops
                                                            (get_or limits "early_stopping_patience"
                                                            (get hyper "early_stopping_rounds"))
                                                            split e13;
                                                        binary =
                                                            positive_label-IsBinary casing target
                                                            e12;
                                                        apart = (
                                                          absent "n_estimators" refl refl refl refl,
                                                          absent "num_rounds" refl refl refl refl,
                                                          absent "early_stopping_rounds" refl refl
                                                            refl refl,
                                                        );
                                                      }),
                                                )

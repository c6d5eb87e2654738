-- ===== src/Validation/Training/Accepted.antt =====
-- What `validate_training_payload` has established of a request that it accepts.
use tributo_knova.Prelude.{
  String, true, false, not, ◌||◌, List, [], ◌≡◌, ◌⊎◌, inl, inr, ◌==◌, eq_iff, elem, arith,
  Bool-cases, if◌then◌else◌,
}
use tributo_knova.Python.Number.{Floats}
use tributo_knova.Python.Value.{
  Value, Dict, string, object, field, end, get, get_or, array_of, is_empty,
}
use tributo_knova.Python.Result.{Result, ok, from_ok}
use tributo_knova.Validation.Fields.{require, obj, text, enum}
use tributo_knova.Validation.Fields.Laws.{require-eq-ok, obj-eq-ok, enum-eq-ok, text-eq-ok}
use tributo_knova.Validation.Source.{datasource}
use tributo_knova.Validation.Source.Laws.{IsDatasource, IsDatasource-datasource}
use tributo_knova.Validation.Topology.{topology}
use tributo_knova.Validation.Topology.Graph.{IsTree}
use tributo_knova.Validation.Topology.Tree.{topology-IsTree}
use tributo_knova.Validation.Features.{column, features, label_mapping}
use tributo_knova.Validation.Features.Columns.{
  IsColumn, IsFeatures, column-IsColumn, features-IsFeatures,
}
use tributo_knova.Validation.Features.Labels.{IsLabelMapping, label_mapping_iff}
use tributo_knova.Validation.Tuning.{tuning}
use tributo_knova.Validation.Training.{
  task_types, categories, family_fits, expected_family, identifies_label, algorithm_section,
  data_query_section, target_section, sampling_section, split_section, resource_section,
  storage_section, validate_training_payload,
}
use tributo_knova.Validation.Training.Prefix.{IsStorage, storage_section-IsStorage}

target_cases :
    (category : String) (r : Result (Unit {0}))
    → (if category == "CLUSTERING" then ok tt else r) ≡ ok tt
    → (category ≡ "CLUSTERING") ⊎ (r ≡ ok tt)
target_cases category r h = elim (Bool-cases (category == "CLUSTERING")) [
  | inl same ↦ inl ((eq_iff category "CLUSTERING").0 same)
  | inr other ↦ inr (rw other at h)
]

module _ {F : Type 0} where
  -- The target is a column of a declared table, its task is one of the category, it is no feature, and
  -- its label mapping enumerates the labels.
  pub record IsTarget (v : Value F) (category : String) (aliases columns : List String)
      : Type 0 where
    pub d : Dict F
    pub name : String
    pub task : String
    pub mapping : Dict F
    pub is_object : v ≡ object d
    pub has_task : get d "task_type" ≡ string task
    pub task_fits : elem task (task_types category) ≡ true
    pub is_column : IsColumn aliases (object d) name
    pub no_feature : elem name columns ≡ false
    pub labels : IsLabelMapping (get d "label_mapping") mapping
    pub positive :
        (is_empty mapping || identifies_label (get d "positive_label_value") mapping) ≡ true

  target_section-IsTarget :
      (v : Value F) (category : String) (aliases columns : List String)
      → target_section v category aliases columns ≡ ok tt
      → IsTarget v category aliases columns
  unfolding target_section
  target_section-IsTarget v category aliases columns h = from_ok (obj v _) _ h λ d e1 h1.
      from_ok (enum (get d "task_type") _ _) _ h1 λ task e2 h2.
        from_ok (column (object d) aliases _) _ h2 λ name e3 h3.
          from_ok (require (not (elem name columns)) _ _) _ h3 λ _ e4 h4.
            from_ok (text (get d "display_name") _) _ h4 λ _ _ h5.
              from_ok (label_mapping (get d "label_mapping") _) _ h5 λ mapping e6 h6.
                let fresh = require-eq-ok (not (elem name columns)) _ _ e4 in
                record {
                  d = d;
                  name = name;
                  task = task;
                  mapping = mapping;
                  is_object = obj-eq-ok v _ e1;
                  has_task = (enum-eq-ok (get d "task_type") _ _ e2).0;
                  task_fits = (enum-eq-ok (get d "task_type") _ _ e2).1;
                  is_column = column-IsColumn (object d) aliases _ e3;
                  no_feature = ground arith;
                  labels = (label_mapping_iff (get d "label_mapping") _ mapping).0 e6;
                  positive = require-eq-ok _ _ _ h6;
                }

  algorithm_section-facts :
      (algorithm : Dict F) {category : String}
      → algorithm_section algorithm ≡ ok category
      → (get algorithm "category" ≡ string category)
        × (elem category categories ≡ true)
        × ((key : String) × (get algorithm "algorithm_key" ≡ string key)
            × (family_fits (expected_family key) category ≡ true))
  unfolding algorithm_section
  algorithm_section-facts algorithm {category} h =
      from_ok (enum (get algorithm "category") categories _) _ h λ c e1 h1.
        from_ok (text (get algorithm "algorithm_key") _) _ h1 λ key e2 h2.
          from_ok (require (family_fits (expected_family key) c) _ _) _ h2 λ _ e3 h3.
            from_ok (obj (get algorithm "hyper_params") _) _ h3 λ _ _ h4.
              let e : c ≡ category = cc in
              rw (← e) (
                (enum-eq-ok (get algorithm "category") categories _ e1).0,
                (enum-eq-ok (get algorithm "category") categories _ e1).1,
                (
                  key,
                  text-eq-ok (get algorithm "algorithm_key") _ e2,
                  require-eq-ok (family_fits (expected_family key) c) _ _ e3,
                ),
              )

module _ {F : Type 0} ⦃fl : Floats F⦄ where
  -- An accepted training request.
  pub record IsAccepted (payload : Dict F) : Type 0 where
    pub algorithm : Dict F
    pub category : String
    pub key : String
    pub aliases : List String
    pub ids : List String
    pub columns : List String
    pub prefix : String
    pub has_algorithm : get payload "algorithm" ≡ object algorithm
    pub has_category : get algorithm "category" ≡ string category
    pub has_key : get algorithm "algorithm_key" ≡ string key
    pub known : elem category categories ≡ true
    pub family : family_fits (expected_family key) category ≡ true
    pub source : IsDatasource (get payload "datasource")
    pub tree : IsTree payload aliases
    pub inputs : IsFeatures aliases (array_of (get payload "features")) [] [] ids columns
    pub target :
        (category ≡ "CLUSTERING") ⊎ IsTarget (get payload "target") category aliases columns
    pub storage : IsStorage payload prefix

  -- If a training request is accepted, its algorithm's category is known and fits its key, its
  -- data source is well formed, its relations are a tree over its tables, its features are
  -- unique columns of these tables, its target (but for clustering) is a further column of them, with
  -- a task of the category and an enumeration of the labels, and its storage prefix is a
  -- relative directory.
  pub validate_training-IsAccepted :
      (payload : Dict F) → validate_training_payload payload ≡ ok tt → IsAccepted payload
  unfolding validate_training_payload
  validate_training-IsAccepted payload h =
      from_ok (obj (get payload "algorithm") _) _ h λ algorithm e1 h1.
        from_ok (algorithm_section algorithm) _ h1 λ category e2 h2.
          from_ok (datasource (get payload "datasource") _) _ h2 λ _ e3 h3.
            from_ok (topology payload _) _ h3 λ aliases e4 h4.
              from_ok (features (get payload "features") aliases _) _ h4 λ columns e5 h5.
                from_ok (data_query_section payload aliases) _ h5 λ _ _ h6.
                  from_ok
                    (if category == "CLUSTERING"
                      then ok tt
                      else target_section (get payload "target") category aliases columns)
                    _ h6
                    λ _ e7 h7. from_ok (sampling_section payload category) _ h7 λ _ _ h8.
                      from_ok (split_section payload category) _ h8 λ _ _ h9.
                        from_ok
                          (tuning
                            (get_or payload "tuning" (object (field "mode" (string "MANUAL") end)))
                            algorithm)
                          _ h9
                          λ _ _ h10. from_ok (resource_section payload) _ h10 λ _ _ h11.
                            from_ok (storage_section payload) _ h11 λ prefix e12 _.
                              let (named, known, (key, has_key, family)) =
                                algorithm_section-facts algorithm e2 in
                              let (ids, inputs) =
                                features-IsFeatures (get payload "features") aliases _ e5 in
                              record {
                                algorithm = algorithm;
                                category = category;
                                key = key;
                                aliases = aliases;
                                ids = ids;
                                columns = columns;
                                prefix = prefix;
                                has_algorithm = obj-eq-ok (get payload "algorithm") _ e1;
                                has_category = named;
                                has_key = has_key;
                                known = known;
                                family = family;
                                source = IsDatasource-datasource (get payload "datasource") _ e3;
                                tree = topology-IsTree payload _ e4;
                                inputs = inputs;
                                target = elim (target_cases category _ e7) [
                                  | inl same ↦ inl same
                                  | inr e ↦ inr (
                                      target_section-IsTarget (get payload "target") category
                                        aliases columns e)
                                ];
                                storage = storage_section-IsStorage payload e12;
                              }

-- ===== src/Validation/Training/Unknown.antt =====
-- Fields that the protocol does not name have no effect on the validation of a training request.
use tributo_knova.Prelude.{String, false, List, [], ◌∷◌, ◌≡◌, refl, elem}
use tributo_knova.Python.Number.{Floats}
use tributo_knova.Python.Value.{Value, Dict, put}
use tributo_knova.Python.Value.Laws.{Agree, put-Agree, get_of_find, get_or_of_find}
use tributo_knova.Validation.Topology.{topology}
use tributo_knova.Validation.Training.{
  data_query_section, sampling_section, split_section, resource_section, storage_section,
  validate_training_payload,
}

-- the fields that `validate_training_payload` reads
abbrev pub training_fields : List String
training_fields =
    "algorithm" ∷ "datasource" ∷ "tables" ∷ "relations" ∷ "features" ∷ "data_query" ∷ "target"
    ∷ "data_sampling" ∷ "data_split" ∷ "tuning" ∷ "resource_limits" ∷ "storage_context" ∷ []

module _ {F : Type 0} (d e : Dict F) where
  topology-Agree :
      (place : String) → Agree training_fields d e → topology d place ≡ topology e place
  unfolding topology
  topology-Agree place (_, (_, (tables, (relations, _)))) =
      rw (get_of_find d e _ tables, get_or_of_find d e _ _ relations) refl

  sampling-Agree :
      (category : String)
      → Agree training_fields d e
      → sampling_section d category ≡ sampling_section e category
  unfolding sampling_section
  sampling-Agree category (_, (_, (_, (_, (_, (_, (_, (sampling, _)))))))) =
      rw (get_or_of_find d e _ _ sampling) refl

  resource-Agree : Agree training_fields d e → resource_section d ≡ resource_section e
  unfolding resource_section
  resource-Agree (_, (_, (_, (_, (_, (_, (_, (_, (_, (_, (resources, _))))))))))) =
      rw (get_or_of_find d e _ _ resources) refl

  storage-Agree : Agree training_fields d e → storage_section d ≡ storage_section e
  unfolding storage_section
  storage-Agree (_, (_, (_, (_, (_, (_, (_, (_, (_, (_, (_, (storage, _)))))))))))) =
      rw (get_of_find d e _ storage) refl

module _ {F : Type 0} ⦃fl : Floats F⦄ (d e : Dict F) where
  data_query-Agree :
      (aliases : List String)
      → Agree training_fields d e
      → data_query_section d aliases ≡ data_query_section e aliases
  unfolding data_query_section
  data_query-Agree aliases (_, (_, (_, (relations, (_, (query, _)))))) =
      rw (get_of_find d e _ relations, get_of_find d e _ query) refl

  split-Agree :
      (category : String)
      → Agree training_fields d e
      → split_section d category ≡ split_section e category
  unfolding split_section
  split-Agree category (_, (_, (_, (_, (_, (_, (_, (_, (split, _))))))))) =
      rw (get_or_of_find d e _ _ split) refl

  validate_training-Agree :
      Agree training_fields d e → validate_training_payload d ≡ validate_training_payload e
  unfolding validate_training_payload
  validate_training-Agree a =
      let (algorithm, (source, (_, (_, (features, (_, (target, (_, (_, (tuning, _)))))))))) = a in
      simp (
        get_of_find d e _ algorithm,
        get_of_find d e _ source,
        get_of_find d e _ features,
        get_of_find d e _ target,
        get_or_of_find d e _ _ tuning,
        topology-Agree d e "" a,
        λ (c : String). sampling-Agree d e c a,
        λ (c : String). split-Agree c a,
        λ (xs : List String). data_query-Agree xs a,
        resource-Agree d e a,
        storage-Agree d e a,
      )

-- Writing any field that the protocol does not name, an extension for instance, leaves the verdict of
-- the training validation, the diagnostic included, as it is.
pub validate_training-put_unknown :
    {F : Type 0} ⦃fl : Floats F⦄ (d : Dict F) (k : String) (v : Value F)
    → elem k training_fields ≡ false
    → validate_training_payload (put d k v) ≡ validate_training_payload d
validate_training-put_unknown d k v h =
    validate_training-Agree (put d k v) d (put-Agree training_fields d k v h)

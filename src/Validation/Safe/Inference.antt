-- ===== src/Validation/Safe/Inference.antt =====
-- Inference requests: whatever the payload, validation returns or raises ProtocolValidationError.

use tributo_knova.Prelude.{◌≡◌}
use tributo_knova.Python.Value.{Dict, object, end, get, get_or}
use tributo_knova.Python.Result.{Exception, err}
use tributo_knova.Validation.Fields.{obj, text, enum, texts}
use tributo_knova.Validation.Source.{datasource, query}
use tributo_knova.Validation.Topology.{topology}
use tributo_knova.Validation.Features.{column, features, label_mapping}
use tributo_knova.Validation.Inference.{model_section, input_section, validate_inference_payload}
use tributo_knova.Validation.Safe.{
  IsProtocolError, IsSafe, IsSafe->>=, IsSafe-for_each, IsSafe-require, IsSafe-obj, IsSafe-text,
  IsSafe-enum, IsSafe-int, IsSafe-texts, IsSafe-unless_none,
}
use tributo_knova.Validation.Safe.Sections.{
  IsSafe-datasource, IsSafe-query, IsSafe-column, IsSafe-features, IsSafe-label_mapping,
  IsSafe-topology,
}

module _ {F : Type 0} where
  IsSafe-model_section : (d : Dict F) → IsSafe (model_section d)
  unfolding model_section
  IsSafe-model_section d = IsSafe->>= (texts d _ _) _ (IsSafe-texts d _ _) λ _.
      IsSafe->>= (enum (get d "algorithm_category") _ _) _
        (IsSafe-enum (get d "algorithm_category") _ _)
        λ category.
          IsSafe->>= (enum (get d "task_type") _ _) _ (IsSafe-enum (get d "task_type") _ _) λ _.
            IsSafe->>= (label_mapping (get d "label_mapping") _) _
              (IsSafe-label_mapping (get d "label_mapping") _)
              λ _. IsSafe->>= (obj (get d "storage") _) _ (IsSafe-obj (get d "storage") _) λ _.
                IsSafe->>= (obj (get d "model_artifacts") _) _
                  (IsSafe-obj (get d "model_artifacts") _) λ artifacts. IsSafe-require _ _ _

  IsSafe-input_section : (d : Dict F) → IsSafe (input_section d)
  unfolding input_section
  IsSafe-input_section d =
      IsSafe->>= (datasource (get d "datasource") _) _ (IsSafe-datasource (get d "datasource") _)
        λ _. IsSafe->>= (topology d _) _ (IsSafe-topology d _) λ aliases.
          IsSafe->>= (features (get d "features") aliases _) _
            (IsSafe-features (get d "features") aliases _)
            λ _.
              IsSafe->>= (column (get d "entity_key") aliases _) _
                (IsSafe-column (get d "entity_key") aliases _)
                λ _.
                  IsSafe->>= (query (get d "query") _) _ (IsSafe-query (get d "query") _)
                    λ _. IsSafe-unless_none (get d "expected_total_rows") _ (IsSafe-int _ _ 0)

  IsSafe-validate_inference : (payload : Dict F) → IsSafe (validate_inference_payload payload)
  unfolding validate_inference_payload
  IsSafe-validate_inference payload =
      IsSafe->>= (obj (get payload "model") _) _ (IsSafe-obj (get payload "model") _) λ model.
        IsSafe->>= (model_section model) _ (IsSafe-model_section model) λ _.
          IsSafe->>= (obj (get payload "input") _) _ (IsSafe-obj (get payload "input") _) λ inputs.
            IsSafe->>= (input_section inputs) _ (IsSafe-input_section inputs) λ _.
              IsSafe->>= (obj (get payload "output") _) _ (IsSafe-obj (get payload "output") _)
                λ output.
                  IsSafe->>= (datasource (get output "datasource") _) _
                    (IsSafe-datasource (get output "datasource") _)
                    λ _.
                      IsSafe->>= (text (get output "table_name") _) _
                        (IsSafe-text (get output "table_name") _)
                        λ _.
                          IsSafe->>= (obj (get_or payload "execution" (object end)) _) _
                            (IsSafe-obj (get_or payload "execution" (object end)) _)
                            λ execution. IsSafe-for_each _ _ λ name.
                              IsSafe-unless_none (get execution name) _
                                (IsSafe-int (get execution name) _ 1)

  -- Whatever the payload, what the validation of an inference request raises is a
  -- ProtocolValidationError: no other exception gets out.
  pub validate_inference-IsProtocolError :
      (payload : Dict F) (x : Exception)
      → validate_inference_payload payload ≡ err x
      → IsProtocolError x
  validate_inference-IsProtocolError payload = (IsSafe-validate_inference payload).only

-- ===== src/Tests/Validation.antt =====
-- The validation of requests.
use tributo_knova.Prelude.{String, true, List, [], ◌∷◌, ◌≡◌, refl, ◌↔◌}
use tributo_knova.Python.Text.{strip, starts_slash, ends_slash, drop_last, split_slash, show_int}
use tributo_knova.Python.Value.{end, get, array_of, has_key, put, truthy}
use tributo_knova.Python.Result.{ok, err, type_error, protocol_validation, for_each}
use tributo_knova.Validation.Fields.{fail, obj, text, enum, int, number, non_empty, texts}
use tributo_knova.Validation.Source.{datasource, query}
use tributo_knova.Validation.Source.Laws.{IsDatasource, IsDatasource-datasource}
use tributo_knova.Validation.Topology.{scan_tables, join_relations, topology}
use tributo_knova.Validation.Topology.Graph.{IsTree}
use tributo_knova.Validation.Topology.Tree.{topology-IsTree}
use tributo_knova.Validation.Features.{consecutive, column, scan_features, features, label_mapping}
use tributo_knova.Validation.Features.Columns.{IsFeatures, features-IsFeatures}
use tributo_knova.Validation.Features.Labels.{IsLabelMapping, label_mapping_iff}
use tributo_knova.Validation.Tuning.{
  xgb_search, numeric_domain, search_domain, fidelity, schedule, auto_config, tuning,
}
use tributo_knova.Validation.Tuning.Catalog.{TunesInCatalog, tuning-AllInCatalog}
use tributo_knova.Validation.Training.{
  task_types, expected_family, safe_prefix, algorithm_section, data_query_section, target_section,
  class_balance, sampling_section, split_section, resource_section, storage_section,
  validate_training_payload,
}
use tributo_knova.Validation.Training.Prefix.{IsStorage, storage_section-IsStorage}
use tributo_knova.Validation.Training.Accepted.{IsAccepted, validate_training-IsAccepted}
use tributo_knova.Validation.Training.Unknown.{validate_training-put_unknown}
use tributo_knova.Validation.Inference.{model_section, input_section, validate_inference_payload}
use tributo_knova.Validation.Safe.{IsProtocolError}
use tributo_knova.Validation.Safe.Inference.{validate_inference-IsProtocolError}
use tributo_knova.Tests.Decimal.{Decimal, decimals}
use tributo_knova.Tests.Payloads

-- what a run of the validation computes with
unfoldable pub validation : Unit {0}
unfolding strip starts_slash ends_slash drop_last split_slash show_int get has_key truthy for_each
    fail obj text enum int number non_empty texts datasource query scan_tables join_relations
    topology consecutive column scan_features features label_mapping xgb_search numeric_domain
    search_domain fidelity schedule auto_config tuning task_types expected_family safe_prefix
    algorithm_section data_query_section target_section class_balance sampling_section split_section
    resource_section storage_section validate_training_payload model_section input_section
    validate_inference_payload
validation = tt

training_accepted : validate_training_payload Payloads.training ≡ ok tt
unfolding validation
training_accepted = refl

inference_accepted : validate_inference_payload Payloads.inference ≡ ok tt
unfolding validation
inference_accepted = refl

tree_accepted : topology Payloads.training "tables" ≡ ok ("b" ∷ "a" ∷ [])
unfolding validation
tree_accepted = refl

features_accepted : features Payloads.features ("b" ∷ "a" ∷ []) "features" ≡ ok ("y" ∷ "x" ∷ [])
unfolding validation
features_accepted = refl

source_accepted : datasource Payloads.source "datasource" ≡ ok tt
unfolding validation
source_accepted = refl

tuning_accepted : tuning Payloads.auto_tuning Payloads.algorithm ≡ ok tt
unfolding validation
tuning_accepted = refl

storage_accepted : storage_section Payloads.training ≡ ok "tenant/m1/"
unfolding validation
storage_accepted = refl

IsDatasource-datasource_example : IsDatasource Payloads.source
IsDatasource-datasource_example =
    IsDatasource-datasource Payloads.source "datasource" source_accepted

topology-IsTree_example : IsTree Payloads.training ("b" ∷ "a" ∷ [])
topology-IsTree_example = topology-IsTree Payloads.training "tables" tree_accepted

features-IsFeatures_example :
    (ids : List String) × IsFeatures
      ("b" ∷ "a" ∷ [])
      (array_of Payloads.features)
      []
      []
      ids
      ("y" ∷ "x" ∷ [])
features-IsFeatures_example =
    features-IsFeatures Payloads.features ("b" ∷ "a" ∷ []) "features" features_accepted

label_mapping_iff_example :
    (label_mapping Payloads.labels "target" ≡ ok (Payloads.label_dict))
    ↔ IsLabelMapping Payloads.labels Payloads.label_dict
label_mapping_iff_example = label_mapping_iff Payloads.labels "target" Payloads.label_dict

tuning-AllInCatalog_example : TunesInCatalog Payloads.auto_tuning
unfolding get
tuning-AllInCatalog_example =
    tuning-AllInCatalog Payloads.auto_tuning Payloads.algorithm refl tuning_accepted

-- an array as the scheduler's resource_param
unhashable_resource : schedule true Payloads.unhashable end ≡ err type_error
unfolding validation
unhashable_resource = refl

storage_section-IsStorage_example : IsStorage Payloads.training "tenant/m1/"
storage_section-IsStorage_example = storage_section-IsStorage Payloads.training storage_accepted

validate_training-IsAccepted_example : IsAccepted Payloads.training
validate_training-IsAccepted_example =
    validate_training-IsAccepted Payloads.training training_accepted

validate_training-put_unknown_example :
    validate_training_payload (put Payloads.training "extension" (Payloads.num 1))
    ≡ validate_training_payload Payloads.training
validate_training-put_unknown_example =
    validate_training-put_unknown Payloads.training "extension" (Payloads.num 1) refl

-- a request without a model
model_refused :
    validate_inference_payload {F = Decimal} end
    ≡ err (protocol_validation "model must be an object")
unfolding validation
model_refused = refl

validate_inference-IsProtocolError_example :
    IsProtocolError (protocol_validation "model must be an object")
validate_inference-IsProtocolError_example =
    validate_inference-IsProtocolError end (protocol_validation "model must be an object")
      model_refused

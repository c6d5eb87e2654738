-- ===== src/Training/Manifest.antt =====
-- src/tributo_knova/training.py: `_artifact_manifest`, from the artifacts of the bundle to their
-- description, and `_signature_names`.
pub mod Complete
use Prim.Native.String.{◌++◌}
use mathlib.Core.List as L
use tributo_knova.Prelude.{
  ℕ, ◌+◌, String, Bool, true, false, not, ◌&&◌, ◌||◌, List, [], ◌∷◌, Option, none, some, elem, ◌==◌,
  if◌then◌else◌,
}
use tributo_knova.Python.Number.{ℤ, pos, negsuc}
use tributo_knova.Python.Path.{join_path}
use tributo_knova.Python.Value.{
  nil, cons, Value, Dict, Items, string, integer, array, object, boolean, field, end, elements, get,
  get_or,
}
use tributo_knova.Python.Result.{Result, ok, err, training_execution, type_error, ◌>>=◌, ◌>>◌}
use tributo_knova.Training.Checks.{text}
use tributo_knova.Training.Algorithm.{texts_of}

-- one file of an artifact: its path, its size, its hash and the metadata of the format
pub record File (F : Type 0) : Type 0 where
  pub path : String
  pub size : ℕ
  pub hash : String
  pub metadata : Dict F

pub record Alternative (F : Type 0) : Type 0 where
  pub format : String
  pub files : List (File F)

abbrev pub failed {ℓ} : {A : Type ℓ} → String → Result A
failed message = err (training_execution message)

abbrev pub require_that : Bool → String → Result (Unit {0})
require_that true message = ok tt
require_that false message = failed message

-- the format in the protocol's words, or none for an artifact of another format
abbrev pub protocol_format : String → Option String
protocol_format format =
    if format == "ubj" then some "xgboost" else if format == "onnx" then some "onnx" else none

abbrev pub or_none : Option (List String) → List String
or_none none = []
or_none (some names) = names

abbrev pub fields_or : Option (List String) → List String → List String
fields_or (some (name ∷ names)) others = name ∷ names
fields_or _ others = others

-- what the loop keeps: the alternatives so far, their size, and the formats seen
pub record Progress (F : Type 0) : Type 0 where
  pub alternatives : List (Alternative F)
  pub total_size : ℕ
  pub seen_formats : List String

module _ {F : Type 0} where
  -- `[item.get("name") for item in fields if isinstance(item, Mapping)]`, where each is a text that is
  -- not empty
  abbrev pub named : Value F → Option String
  named (string s) = if s == "" then none else some s
  named v = none

  unfoldable pub field_names : List (Value F) → Option (List String)
  field_names [] = some []
  field_names (object item ∷ rest) = elim (named (get item "name")) [
    | none ↦ none
    | some name ↦ elim (field_names rest) [ none ↦ none | some names ↦ some (name ∷ names) ]
  ]
  field_names (v ∷ rest) = field_names rest

  unfoldable pub all_texts : List (Value F) → Option (List String)
  all_texts [] = some []
  all_texts (string s ∷ rest) = elim (all_texts rest) [
    | none ↦ none
    | some names ↦ some (s ∷ names)
  ]
  all_texts (v ∷ rest) = none

  abbrev pub names_at : Value F → List String
  names_at (array vs) = or_none (all_texts (elements vs))
  names_at v = []

  abbrev pub signature_of : Value F → List String → List String
  signature_of (array fields) others = fields_or (field_names (elements fields)) others
  signature_of v others = others

  -- `fields` is the key with "_names" replaced by "_fields".
  unfoldable pub signature_names : Value F → String → String → List String
  signature_names (object signature) fields names =
      signature_of (get_or signature fields (array nil))
        (names_at (get_or signature names (array nil)))
  signature_names v fields names = []

  abbrev pub size_of : Value F → Result ℕ
  size_of (integer (pos n)) = ok n
  size_of v = failed "published Bundle artifact size is invalid"

  abbrev pub metadata_of : String → List String → List String → Dict F
  metadata_of format input_names output_names =
      if format == "onnx"
      then field "input_names" (array (texts_of input_names))
          (field "output_names" (array (texts_of output_names)) end)
      else field "supports_tree_shap" (boolean true) end

  abbrev pub file_of : String → Dict F → Value F → Result (File F)
  file_of artifact_name metadata (object raw_file) = do
    relative_path ← text (get raw_file "relative_path") "Bundle artifact relative_path"
    sha256 ← text (get raw_file "sha256") "Bundle artifact sha256"
    size ← size_of (get raw_file "size_bytes")
    ok (record {
      path = join_path (join_path "artifacts" artifact_name) relative_path;
      size = size;
      hash = "sha256:" ++ sha256;
      metadata = metadata;
    })
  file_of artifact_name metadata v = failed "published Bundle artifact file is invalid"

  unfoldable pub files_of : String → Dict F → List (Value F) → Result (List (File F))
  files_of artifact_name metadata [] = ok []
  files_of artifact_name metadata (raw_file ∷ rest) = do
    file ← file_of artifact_name metadata raw_file
    files ← files_of artifact_name metadata rest
    ok (file ∷ files)

  abbrev pub raw_files : Value F → Result (List (Value F))
  raw_files (array (cons v vs)) = ok (v ∷ elements vs)
  raw_files v = failed "published Bundle artifact files are invalid"

  abbrev pub sum_sizes : List (File F) → ℕ
  sum_sizes [] = 0
  sum_sizes (file ∷ files) = file.size + sum_sizes files

  -- an artifact of one of the two formats
  abbrev pub with_artifact :
      List String → List String → Dict F → String → Progress F → Result (Progress F)
  with_artifact input_names output_names raw_artifact format p = do
    require_that (not (elem format p.seen_formats))
        "published Bundle has duplicate model artifact formats"
    name ← text (get raw_artifact "name") "Bundle artifact name"
    raws ← raw_files (get raw_artifact "files")
    files ← files_of name (metadata_of format input_names output_names) raws
    ok (record {
      alternatives = L.◌++◌ p.alternatives (record { format = format; files = files } ∷ []);
      total_size = p.total_size + sum_sizes files;
      seen_formats = format ∷ p.seen_formats;
    })

  -- The test `in` hashes the format, which fails for an array and an object.
  abbrev pub format_of : Value F → Result (Option String)
  format_of (string s) = ok (protocol_format s)
  format_of (array vs) = err type_error
  format_of (object d) = err type_error
  format_of v = ok none

  abbrev pub unless_skipped :
      List String → List String → Dict F → Option String → Progress F → Result (Progress F)
  unless_skipped input_names output_names raw_artifact none p = ok p
  unless_skipped input_names output_names raw_artifact (some format) p =
      with_artifact input_names output_names raw_artifact format p

  abbrev pub add_artifact : List String → List String → Value F → Progress F → Result (Progress F)
  add_artifact input_names output_names (object raw_artifact) p =
      format_of (get raw_artifact "format") >>= λ format.
      unless_skipped input_names output_names raw_artifact format p
  add_artifact input_names output_names v p = ok p

  unfoldable pub add_artifacts :
      List String → List String → List (Value F) → Progress F → Result (Progress F)
  add_artifacts input_names output_names [] p = ok p
  add_artifacts input_names output_names (raw ∷ rest) p = do
    next ← add_artifact input_names output_names raw p
    add_artifacts input_names output_names rest next

  abbrev pub artifact_list : Value F → Result (List (Value F))
  artifact_list (array vs) = ok (elements vs)
  artifact_list v = failed "published Bundle artifacts are invalid"

  -- From the loaded bundle on: the alternatives and their total size. The rest of the manifest is copied
  -- from the request and the bundle.
  unfoldable pub model_artifacts : Dict F → String → Result (Progress F)
  unfolding add_artifacts signature_names
  model_artifacts bundle bundle_id = do
    loaded_bundle_id ← text (get bundle "bundle_id") "Bundle bundle_id"
    require_that (loaded_bundle_id == bundle_id) "published Bundle identity validation failed"
    canonical_uri ← text (get bundle "canonical_uri") "Bundle canonical_uri"
    artifacts ← artifact_list (get bundle "artifacts")
    done ←
        add_artifacts (signature_names (get bundle "input_signature") "input_fields" "input_names")
          (signature_names (get bundle "output_signature") "output_fields" "output_names") artifacts
          (record { alternatives = []; total_size = 0; seen_formats = [] })
    require_that (elem "onnx" done.seen_formats && elem "xgboost" done.seen_formats)
        "published Bundle must contain ONNX and XGBoost artifacts"
    ok done

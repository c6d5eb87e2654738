-- ===== src/Inference/Artifacts.antt =====
-- src/tributo_knova/inference.py: `_validate_artifacts`, its three loops as recursions that pass on the
-- paths seen so far.
pub mod Unique
use Prim.Native.Char.{Char, code}
use Prim.Native.String.{[], ◌∷◌, ◌++◌}
use tributo_knova.Prelude.{
  ℕ, String, Bool, true, false, not, ◌&&◌, ◌||◌, List, [], ◌∷◌, Option, none, some, elem, subset,
  leb, eqb, ◌==◌, if◌then◌else◌,
}
use tributo_knova.Python.Number.{ℤ, pos, negsuc}
use tributo_knova.Python.Text.{every, code_points}
use tributo_knova.Python.Value.{
  Value, Dict, boolean, integer, string, array, object, field, end, cons, elements, keys, get,
  is_empty,
}
use tributo_knova.Python.Result.{Result, ok, err, inference_configuration, ◌>>=◌, ◌>>◌}
use tributo_knova.Inference.Checks.{invalid, ensure, mapping, text}
use tributo_knova.Inference.Storage.{join_uri}

abbrev pub artifact_parts : List String
artifact_parts = "pipeline" ∷ "model_weights" ∷ "preprocessor" ∷ []

abbrev pub artifact_formats : List String
artifact_formats =
    "onnx" ∷ "sklearn" ∷ "spark_pipeline_model" ∷ "pytorch" ∷ "tensorflow" ∷ "tensorrt" ∷ "xgboost"
    ∷ "lightgbm" ∷ "ray_checkpoint" ∷ "ray_preprocessor" ∷ []

abbrev pub is_hex : Char → Bool
is_hex c =
    (leb b'0' (code c) && leb (code c) b'9')
    || (leb b'a' (code c) && leb (code c) b'f')
    || (leb b'A' (code c) && leb (code c) b'F')

-- what stands behind a prefix
unfoldable pub behind : String → String → Option String
behind [] s = some s
behind (c ∷ prefix) [] = none
behind (c ∷ prefix) (d ∷ s) =
    let rest = behind prefix s in if eqb (code c) (code d) then rest else none

-- sixty-four hexadecimal digits
abbrev pub is_digest : Option String → Bool
is_digest none = false
is_digest (some digits) = eqb (code_points digits) 64 && every is_hex digits

abbrev pub applicable : Bool → Result (Unit {0})
applicable true = ok tt
applicable false = err (
    inference_configuration "MODEL_FORMAT_UNSUPPORTED" "LOAD_MODEL"
      "This runtime cannot apply the required pipeline or preprocessor")

module _ {F : Type 0} where
  abbrev pub is_hash : Value F → Bool
  is_hash (string s) = is_digest (behind "sha256:" s)
  is_hash v = false

  abbrev pub is_size : Value F → Bool
  is_size (integer (pos n)) = true
  is_size v = false

  abbrev pub non_empty_array : Value F → String → Result (List (Value F))
  non_empty_array (array (cons v vs)) message = ok (v ∷ elements vs)
  non_empty_array v message = invalid message

  unfoldable pub checked_file : Value F → List String → Result (List String)
  checked_file raw paths = do
    file ← mapping raw "artifact file"
    path ← text (get file "path") "artifact path"
    join_uri "root" path
    ensure (not (elem path paths)) "artifact paths must be globally unique"
    ensure (is_size (get file "size")) "artifact size must be a non-negative integer"
    ensure (is_hash (get file "hash"))
        "artifact hash must use sha256 with 64 hexadecimal characters"
    ok (path ∷ paths)

  unfoldable pub checked_files : List (Value F) → List String → Result (List String)
  checked_files [] paths = ok paths
  checked_files (raw ∷ rest) paths = do next ← checked_file raw paths; checked_files rest next

  abbrev pub new_format : Value F → List String → Result String
  new_format (string s) seen =
      if elem s artifact_formats && not (elem s seen)
      then ok s
      else invalid "artifact formats must be supported protocol names and unique per part"
  new_format v seen =
      invalid "artifact formats must be supported protocol names and unique per part"

  unfoldable pub checked_alternatives :
      List (Value F) → List String → List String → Result (List String)
  unfolding checked_files
  checked_alternatives [] seen paths = ok paths
  checked_alternatives (raw ∷ rest) seen paths = do
    alternative ← mapping raw "artifact alternative"
    format ← new_format (get alternative "format") seen
    files ← non_empty_array (get alternative "files") "artifact files must be a non-empty array"
    next ← checked_files files paths
    checked_alternatives rest (format ∷ seen) next

  abbrev pub required_of : Value F → Result Bool
  required_of (boolean b) = ok b
  required_of v = invalid "artifact required_for_inference must be boolean"

  -- whether some part that cannot be applied is required, and the paths
  unfoldable pub checked_entries : Dict F → Bool → List String → Result (Bool × List String)
  unfolding checked_alternatives
  checked_entries end unsupported paths = ok (unsupported, paths)
  checked_entries (field name raw rest) unsupported paths = do
    entry ← mapping raw "artifact entry"
    required ← required_of (get entry "required_for_inference")
    alternatives ←
        non_empty_array (get entry "alternatives") "artifact alternatives must be a non-empty array"
    next ← checked_alternatives alternatives [] paths
    checked_entries rest (unsupported || (not (name == "model_weights") && required)) next

  unfoldable pub validate_artifacts : Dict F → Result (Unit {0})
  unfolding checked_entries
  validate_artifacts model = do
    artifacts ← mapping (get model "model_artifacts") "model.model_artifacts"
    ensure (not (is_empty artifacts) && subset (keys artifacts) artifact_parts)
        "model_artifacts contains an unknown or missing artifact part"
    (unsupported, paths) ← checked_entries artifacts false []
    applicable (not unsupported && elem "model_weights" (keys artifacts))

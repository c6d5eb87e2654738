-- ===== src/Inference/Storage.antt =====
-- src/tributo_knova/inference.py: `_storage_root` and `_join_uri`.
pub mod Below
use Prim.Native.String.{◌++◌}
use tributo_knova.Prelude.{
  ℕ, String, Bool, true, false, not, ◌&&◌, ◌||◌, List, [], ◌∷◌, elem, any, ◌==◌, if◌then◌else◌,
}
use tributo_knova.Python.Text.{
  starts_slash, ends_slash, split_slash, rstrip_slash, strip_slash, contains,
}
use tributo_knova.Python.Path.{join_path, normpath}
use tributo_knova.Python.Value.{Value, Dict, string, get}
use tributo_knova.Python.Result.{Result, ok, err, ◌>>=◌, ◌>>◌}
use tributo_knova.Training.Checks.{Casing}
use tributo_knova.Inference.Checks.{invalid, ensure, stripped, text}

-- `_SHARED_STORAGE_TYPES`
abbrev pub model_storage_types : List String
model_storage_types = "nfs" ∷ "nas" ∷ "shared_fs" ∷ []

abbrev pub is_relative_directory : String → Bool
is_relative_directory s =
    ends_slash s && not (starts_slash s) && not (contains s ":") && not (contains s "\\")

abbrev pub bucket_uri : String → String → String
bucket_uri bucket prefix =
    "s3://" ++ (strip_slash bucket ++ (if prefix == "" then "" else "/" ++ prefix))

abbrev pub root_on : String → String → String → Result String
root_on storage_type bucket prefix =
    if elem storage_type model_storage_types
    then (ensure (starts_slash bucket) "shared model storage bucket must be an absolute path"
        >> ok (join_path (normpath bucket) prefix))
    else if storage_type == "s3"
    then (ensure (not (contains bucket "://" || contains (strip_slash bucket) "/"))
          "model.storage.bucket must be an S3 bucket name"
        >> ok (bucket_uri bucket prefix))
    else invalid "model.storage.type must be nfs, nas, shared_fs, or s3"

module _ {F : Type 0} where
  abbrev pub raw_prefix : Value F → Result String
  raw_prefix (string s) =
      if is_relative_directory s
      then ok s
      else invalid "model.storage.prefix must be relative and end with /"
  raw_prefix v = invalid "model.storage.prefix must be relative and end with /"

  unfoldable pub storage_root : Casing → Dict F → Result String
  storage_root casing storage = do
    storage_type ← text (get storage "type") "model.storage.type"
    bucket ← text (get storage "bucket") "model.storage.bucket"
    prefix ← raw_prefix (get storage "prefix")
    ensure (not (elem ".." (split_slash (rstrip_slash prefix))))
        "model.storage.prefix must be a safe relative path"
    root_on (casing.lower storage_type) bucket (rstrip_slash prefix)

-- not absolute, without a scheme or a drive, and every part a name
abbrev pub is_safe_path : String → Bool
is_safe_path path = not (
    starts_slash path
    || contains path ":"
    || contains path "\\"
    || any (λ part. elem part ("" ∷ "." ∷ ".." ∷ [])) (split_slash path))

unfoldable pub join_uri : String → String → Result String
join_uri root path = do
  relative ← stripped path "model artifact path"
  ensure (is_safe_path relative) "model artifact path must stay below model storage"
  ok (rstrip_slash root ++ ("/" ++ relative))

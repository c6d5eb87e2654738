-- ===== src/Training/Storage.antt =====
-- src/tributo_knova/training.py: `_relative_prefix`, `_absolute_shared_path`, `_storage_config` and
-- `_safe_storage_properties`.
pub mod Paths
pub mod Credentials
use Prim.Native.String.{◌++◌}
use tributo_knova.Prelude.{
  ℕ, String, Bool, true, false, not, ◌&&◌, ◌||◌, List, [], ◌∷◌, Option, none, some, elem, any, ◌==◌,
  if◌then◌else◌,
}
use tributo_knova.Python.Number.{Floats}
use tributo_knova.Python.Text.{starts_slash, split_slash, strip_slash, contains}
use tributo_knova.Python.Path.{join_path, normpath}
use tributo_knova.Python.Value.{Value, Dict, string, object, field, end, get, get_or, truthy}
use tributo_knova.Python.Result.{Result, ok, err, ◌>>=◌, ◌>>◌}
use tributo_knova.Training.Checks.{Casing, invalid, ensure, mapping, text}

-- `_SHARED_STORAGE_TYPES`
abbrev pub shared_types : List String
shared_types = "nfs" ∷ "nas" ∷ "shared_fs" ∷ []

-- `_SENSITIVE_PROPERTY_TOKENS`
abbrev pub sensitive_tokens : List String
sensitive_tokens = "access" ∷ "credential" ∷ "key" ∷ "password" ∷ "secret" ∷ "token" ∷ []

abbrev pub s3_uri : String → String → String
s3_uri bucket prefix = "s3://" ++ (strip_slash bucket ++ ("/" ++ prefix))

-- the name of a credential, or of a path of Ray
abbrev pub is_withheld : Casing → String → Bool
is_withheld casing raw_name =
    casing.lower raw_name == "ray_storage_path"
    || any (contains (casing.lower raw_name)) sensitive_tokens

module _ {F : Type 0} where
  unfoldable pub relative_prefix : Value F → Result String
  relative_prefix value = do
    raw ← text value "storage_context.prefix"
    ensure (not (strip_slash raw == "" || elem ".." (split_slash (strip_slash raw))))
        "storage_context.prefix must be a safe relative path"
    ok (strip_slash raw)

  unfoldable pub absolute_shared_path : Value F → String → Result String
  absolute_shared_path value place = do
    raw ← text value place
    ensure (starts_slash raw && not (normpath raw == "/") && not (elem ".." (split_slash raw)))
        (place ++ " must be an absolute shared path below root")
    ok (normpath raw)

  -- `_absolute_shared_path(configured, ...) if configured else default`
  abbrev pub ray_path : ⦃fl : Floats F⦄ → Value F → String → Result String
  ray_path configured default =
      if truthy configured
      then absolute_shared_path configured "storage_context.properties.ray_storage_path"
      else ok default

  abbrev pub shared_storage : ⦃fl : Floats F⦄ → Dict F → String → String → Result (String × String)
  shared_storage properties bucket prefix = do
    root ← absolute_shared_path (string bucket) "storage_context.bucket"
    ray_storage_path ← ray_path (get properties "ray_storage_path") root
    ok (ray_storage_path, join_path root prefix)

  abbrev pub s3_storage : ⦃fl : Floats F⦄ → Dict F → String → String → Result (String × String)
  s3_storage properties bucket prefix = do
    ensure (not (contains bucket "://" || contains (strip_slash bucket) "/"))
        "storage_context.bucket must be an S3 bucket name"
    ray_storage_path ←
        ray_path (get properties "ray_storage_path") (s3_uri bucket prefix ++ "/_ray-checkpoints")
    ok (ray_storage_path, s3_uri bucket prefix)

  abbrev pub storage_of :
      ⦃fl : Floats F⦄ → String → Dict F → String → String → Result (String × String)
  storage_of storage_type properties bucket prefix =
      if elem storage_type shared_types
      then shared_storage properties bucket prefix
      else if storage_type == "s3"
      then s3_storage properties bucket prefix
      else invalid "storage_context.type must be nfs, nas, shared_fs, or s3"

  -- the storage path of Ray and the URI of the bundle
  unfoldable pub storage_config : ⦃fl : Floats F⦄ → Casing → Dict F → Result (String × String)
  storage_config casing payload = do
    storage ← mapping (get payload "storage_context") "storage_context"
    storage_type ← text (get storage "type") "storage_context.type"
    bucket ← text (get storage "bucket") "storage_context.bucket"
    prefix ← relative_prefix (get storage "prefix")
    properties ← mapping (get_or storage "properties" (object end)) "storage_context.properties"
    storage_of (casing.lower storage_type) properties bucket prefix

  abbrev pub kept : Casing → String → Value F → Dict F → Dict F
  kept casing raw_name (string s) rest =
      if is_withheld casing raw_name then rest else field raw_name (string s) rest
  kept casing raw_name _ rest = rest

  unfoldable pub safe_properties : Casing → Dict F → Dict F
  safe_properties casing end = end
  safe_properties casing (field raw_name raw_value rest) =
      kept casing raw_name raw_value (safe_properties casing rest)

  unfoldable pub safe_storage_properties : Casing → Value F → Result (Dict F)
  unfolding safe_properties
  safe_storage_properties casing value = do
    properties ← mapping value "storage_context.properties"
    ok (safe_properties casing properties)

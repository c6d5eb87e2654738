-- ===== src/Training/Storage/Paths.antt =====
-- Where `_storage_config` puts the results of a training.
use Prim.Native.String.{[], ◌∷◌, ◌++◌}
use mathlib.Core.Path.{subst}
use tributo_knova.Prelude.{
  String, true, false, not, ◌&&◌, ◌||◌, [], ◌∷◌, elem, ◌==◌, ◌≡◌, refl, sym, ap, ◌∙◌, ◌⊎◌, inl, inr,
  arith, eqb, Bool-cases,
}
use tributo_knova.Python.Number.{Floats}
use Prim.Native.Char.{code}
use tributo_knova.Python.Text.{
  strip, starts_slash, split_slash, strip_slash, lstrip_slash, rstrip_slash, contains,
}
use tributo_knova.Python.Path.{join_path, normpath}
use tributo_knova.Python.Value.{Value, Dict, string, object, end, get, get_or, truthy}
use tributo_knova.Python.Result.{ok, from_ok, ok-injective}
use tributo_knova.Training.Checks.{Casing, invalid, ensure, mapping, text}
use tributo_knova.Training.Checks.Laws.{mapping-eq-ok, text-eq-ok, ensure-eq-ok}
use tributo_knova.Training.Storage.{
  shared_types, relative_prefix, absolute_shared_path, ray_path, shared_storage, s3_uri, s3_storage,
  storage_of, storage_config,
}

starts_slash-lstrip : (s : String) → starts_slash (lstrip_slash s) ≡ false
unfolding starts_slash lstrip_slash
starts_slash-lstrip [] = refl
starts_slash-lstrip (c ∷ s) = elim (Bool-cases (eqb (code c) b'/')) [
  | inl slash ↦ rw slash (starts_slash-lstrip s)
  | inr other ↦ rw other other
]

starts_slash-rstrip : (s : String) → starts_slash s ≡ false → starts_slash (rstrip_slash s) ≡ false
unfolding starts_slash rstrip_slash
starts_slash-rstrip [] h = refl
starts_slash-rstrip (c ∷ s) h = elim (Bool-cases (rstrip_slash s == "" && eqb (code c) b'/')) [
  | inl last ↦ rw last refl
  | inr more ↦ rw more h
]

starts_slash-strip : (s : String) → starts_slash (strip_slash s) ≡ false
unfolding strip_slash
starts_slash-strip s = starts_slash-rstrip (lstrip_slash s) (starts_slash-lstrip s)

-- not empty, not absolute, and without a way up
pub record IsRelative (prefix : String) : Type 0 where
  pub some_text : prefix == "" ≡ false
  pub no_root : starts_slash prefix ≡ false
  pub no_way_up : elem ".." (split_slash prefix) ≡ false

-- the normal form of an absolute path without a way up, which is not the root
pub record IsShared (path : String) : Type 0 where
  pub raw : String
  pub normal : path ≡ normpath raw
  pub absolute : starts_slash raw ≡ true
  pub below_root : path == "/" ≡ false
  pub no_way_up : elem ".." (split_slash raw) ≡ false

module _ {F : Type 0} where
  relative_prefix-IsRelative :
      (v : Value F) {prefix : String} → relative_prefix v ≡ ok prefix → IsRelative prefix
  unfolding relative_prefix
  relative_prefix-IsRelative v h = from_ok (text v "storage_context.prefix") _ h λ raw _ h1.
      let stripped = strip_slash raw in
      from_ok (ensure (not (stripped == "" || elem ".." (split_slash stripped))) _) _ h1 λ _ e2 h2.
        let safe = ensure-eq-ok (not (stripped == "" || elem ".." (split_slash stripped))) _ e2 in
        subst IsRelative (ok-injective h2) (record {
          some_text = ground arith;
          no_root = starts_slash-strip raw;
          no_way_up = ground arith;
        })

  absolute_shared_path-IsShared :
      (v : Value F) (place : String) {path : String}
      → absolute_shared_path v place ≡ ok path
      → IsShared path
  unfolding absolute_shared_path
  absolute_shared_path-IsShared v place h = from_ok (text v place) _ h λ raw _ h1.
      let test =
        starts_slash raw && not (normpath raw == "/") && not (elem ".." (split_slash raw)) in
      from_ok (ensure test _) _ h1 λ _ e2 h2.
        let safe = ensure-eq-ok test _ e2 in
        subst IsShared (ok-injective h2) (record {
          raw = raw;
          normal = refl;
          absolute = ground arith;
          below_root = ground arith;
          no_way_up = ground arith;
        })

  module _ ⦃fl : Floats F⦄ where
    ray_path-IsShared :
        (v : Value F) (default : String) {path : String}
        → ray_path v default ≡ ok path
        → (path ≡ default) ⊎ IsShared path
    ray_path-IsShared v default h = elim (Bool-cases (truthy v)) [
      | inl configured ↦ inr (absolute_shared_path-IsShared v _ (rw configured at h))
      | inr plain ↦ let k = rw plain at h in inl (sym (ok-injective k))
    ]

-- the text that a value is, without the whitespace around it
abbrev pub IsText : {F : Type 0} → Value F → String → Type 0
IsText v t = (s : String) × (v ≡ string s) × (t ≡ strip s)

module _ {F : Type 0} where
  relative_prefix-strip :
      (v : Value F) {prefix : String}
      → relative_prefix v ≡ ok prefix
      → (t : String) × IsText v t × (prefix ≡ strip_slash t)
  unfolding relative_prefix
  relative_prefix-strip v h = from_ok (text v "storage_context.prefix") _ h λ raw e1 h1.
      from_ok (ensure (not (strip_slash raw == "" || elem ".." (split_slash (strip_slash raw)))) _)
        _ h1
        λ _ _ h2.
          let (s, same, _, stripped) = text-eq-ok v _ e1 in
          (raw, (s, same, stripped), sym (ok-injective h2))

  absolute_shared_path-normal :
      (v : Value F) (place : String) {path : String}
      → absolute_shared_path v place ≡ ok path
      → (t : String) × IsText v t × (path ≡ normpath t)
  unfolding absolute_shared_path
  absolute_shared_path-normal v place h = from_ok (text v place) _ h λ raw e1 h1.
      from_ok
        (ensure (starts_slash raw && not (normpath raw == "/") && not (elem ".." (split_slash raw)))
          _)
        _ h1
        λ _ _ h2.
          let (s, same, _, stripped) = text-eq-ok v _ e1 in
          (raw, (s, same, stripped), sym (ok-injective h2))

-- The bundle and Ray's files, for a bucket and a prefix: below the bucket, as an absolute path in its
-- normal form, on shared storage; or in the bucket on S3, whose name is one part of a path.
-- Ray's files are at an absolute path, or at that bucket, or below the bundle on S3.
abbrev pub IsPlaced : String → String → String → String → Type 0
IsPlaced bucket prefix ray bundle =
    (IsShared (normpath (strip bucket))
      × (bundle ≡ join_path (normpath (strip bucket)) prefix)
      × ((ray ≡ normpath (strip bucket)) ⊎ IsShared ray))
    ⊎ ((contains (strip_slash bucket) "/" ≡ false)
        × (bundle ≡ s3_uri bucket prefix)
        × ((ray ≡ s3_uri bucket prefix ++ "/_ray-checkpoints") ⊎ IsShared ray))

module _ {F : Type 0} ⦃fl : Floats F⦄ where
  shared_storage-IsPlaced :
      (properties : Dict F) (bucket prefix : String) {out : String × String}
      → shared_storage properties bucket prefix ≡ ok out
      → IsPlaced bucket prefix out.0 out.1
  shared_storage-IsPlaced properties bucket prefix {out} h =
      from_ok (absolute_shared_path (string bucket) _) _ h λ root e1 h1.
        from_ok (ray_path (get properties "ray_storage_path") root) _ h1 λ ray e2 h2.
          let (t, (s, same, stripped), normal) = absolute_shared_path-normal (string bucket) _ e1 in
          let text_is : bucket ≡ s = cc in
          let at : root ≡ normpath (strip bucket) =
            normal ∙ ap normpath (stripped ∙ ap strip (sym text_is)) in
          subst (λ (o : String × String). IsPlaced bucket prefix o.0 o.1) (ok-injective h2)
            (inl (
              subst IsShared at (absolute_shared_path-IsShared (string bucket) _ e1),
              ap (λ (r : String). join_path r prefix) at,
              subst (λ (r : String). (ray ≡ r) ⊎ IsShared ray) at
                  (ray_path-IsShared (get properties "ray_storage_path") root e2),
            ))

  s3_storage-IsPlaced :
      (properties : Dict F) (bucket prefix : String) {out : String × String}
      → s3_storage properties bucket prefix ≡ ok out
      → IsPlaced bucket prefix out.0 out.1
  s3_storage-IsPlaced properties bucket prefix {out} h =
      let test = not (contains bucket "://" || contains (strip_slash bucket) "/") in
      from_ok (ensure test _) _ h λ _ e1 h1.
        let name = ensure-eq-ok test _ e1 in
        from_ok (ray_path (get properties "ray_storage_path") _) _ h1 λ ray e2 h2.
          subst (λ (o : String × String). IsPlaced bucket prefix o.0 o.1) (ok-injective h2)
            (inr (
              ground arith,
              refl,
              ray_path-IsShared (get properties "ray_storage_path")
                  (s3_uri bucket prefix ++ "/_ray-checkpoints") e2,
            ))

  storage_of-IsPlaced :
      (storage_type : String) (properties : Dict F) (bucket prefix : String) {out : String × String}
      → storage_of storage_type properties bucket prefix ≡ ok out
      → IsPlaced bucket prefix out.0 out.1
  unfolding invalid
  storage_of-IsPlaced storage_type properties bucket prefix h =
      elim (Bool-cases (elem storage_type shared_types)) [
        | inl shared ↦ shared_storage-IsPlaced properties bucket prefix (rw shared at h)
        | inr other ↦ elim (Bool-cases (storage_type == "s3")) [
          | inl s3 ↦ s3_storage-IsPlaced properties bucket prefix (rw (other, s3) at h)
          | inr unknown ↦ let k = rw (other, unknown) at h in cc
        ]
      ]

  -- The storage that the request names, and the places of the bundle and of Ray's files.
  pub record IsStored (payload : Dict F) (ray bundle : String) : Type 0 where
    pub storage : Dict F
    pub has_storage : get payload "storage_context" ≡ object storage
    pub bucket : String
    pub has_bucket : IsText (get storage "bucket") bucket
    pub raw_prefix : String
    pub has_prefix : IsText (get storage "prefix") raw_prefix
    pub relative : IsRelative (strip_slash raw_prefix)
    pub placed : IsPlaced bucket (strip_slash raw_prefix) ray bundle

  -- The bundle that `_storage_config` returns is in the bucket of the request's storage context, under
  -- the prefix of the request without the slashes around it, which is relative and has no way up: below
  -- the bucket as an absolute path, or in a bucket of S3. Ray's files are at an absolute path, at
  -- the bucket of the shared storage, or below the bundle on S3.
  pub storage_config-IsStored :
      (casing : Casing) (payload : Dict F) {out : String × String}
      → storage_config casing payload ≡ ok out
      → IsStored payload out.0 out.1
  unfolding storage_config
  storage_config-IsStored casing payload {out} h =
      from_ok (mapping (get payload "storage_context") _) _ h λ storage e1 h1.
        from_ok (text (get storage "type") _) _ h1 λ storage_type _ h2.
          from_ok (text (get storage "bucket") _) _ h2 λ bucket e3 h3.
            from_ok (relative_prefix (get storage "prefix")) _ h3 λ prefix e4 h4.
              from_ok (mapping (get_or storage "properties" (object end)) _) _ h4 λ properties _ h5.
                let (s, named, _, stripped) = text-eq-ok (get storage "bucket") _ e3 in
                let (raw, has_raw, same) = relative_prefix-strip (get storage "prefix") e4 in
                record {
                  storage = storage;
                  has_storage = mapping-eq-ok (get payload "storage_context") _ e1;
                  bucket = bucket;
                  has_bucket = (s, named, stripped);
                  raw_prefix = raw;
                  has_prefix = has_raw;
                  relative =
                      subst IsRelative same (relative_prefix-IsRelative (get storage "prefix") e4);
                  placed =
                      subst (λ (p : String). IsPlaced bucket p out.0 out.1) same
                        (storage_of-IsPlaced (casing.lower storage_type) properties bucket prefix
                          h5);
                }

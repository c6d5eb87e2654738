-- ===== src/Training/Manifest/Complete.antt =====
-- What a manifest holds.
use mathlib.Core.Path.{subst}
use mathlib.Core.List as L
use tributo_knova.Prelude.{
  ℕ, ◌+◌, String, Bool, true, not, ◌&&◌, List, [], ◌∷◌, Option, none, some, elem, distinct, All,
  ◌==◌, ◌≡◌, refl, sym, ap, arith, elem-append, distinct-append, All-append, if_either,
}
use tributo_knova.Python.Value.{Value, Dict, string, array, object, cons, elements, get}
use tributo_knova.Python.Result.{ok, from_ok, ok-injective}
use tributo_knova.Training.Checks.{text}
use tributo_knova.Training.Manifest.{
  File, Alternative, Progress, require_that, signature_names, metadata_of, file_of, files_of,
  raw_files, sum_sizes, with_artifact, format_of, unless_skipped, add_artifact, add_artifacts,
  artifact_list, model_artifacts,
}

pub require_that-eq-ok : (b : Bool) (message : String) → require_that b message ≡ ok tt → b ≡ true
require_that-eq-ok b message h = ground arith

module _ {F : Type 0} where
  abbrev pub formats : List (Alternative F) → List String
  formats [] = []
  formats (a ∷ as_) = a.format ∷ formats as_

  abbrev pub total_of : List (Alternative F) → ℕ
  total_of [] = 0
  total_of (a ∷ as_) = sum_sizes a.files + total_of as_

  formats-append :
      (xs : List (Alternative F)) (a : Alternative F)
      → formats (L.◌++◌ xs (a ∷ [])) ≡ L.◌++◌ (formats xs) (a.format ∷ [])
  formats-append [] a = refl
  formats-append (x ∷ xs) a = ap (λ (r : List String). x.format ∷ r) (formats-append xs a)

  total-append :
      (xs : List (Alternative F)) (a : Alternative F)
      → total_of (L.◌++◌ xs (a ∷ [])) ≡ total_of xs + sum_sizes a.files
  total-append [] a = omega arith
  total-append (x ∷ xs) a = omega (arith, total-append xs a)

  -- an artifact of one of the formats, with a file at least
  abbrev pub IsAlternative : Alternative F → Type 0
  IsAlternative a =
      (elem a.format ("onnx" ∷ "xgboost" ∷ []) ≡ true)
      × ((file : File F) × (files : List (File F)) × (a.files ≡ file ∷ files))

  -- what the loop keeps true
  record IsTallied (p : Progress F) : Type 0 where
    pub total : p.total_size ≡ total_of p.alternatives
    pub unique : distinct (formats p.alternatives) ≡ true
    pub seen : (x : String) → elem x p.seen_formats ≡ elem x (formats p.alternatives)
    pub good : All IsAlternative p.alternatives

  files_of-cons :
      (name : String) (metadata : Dict F) (v : Value F) (vs : List (Value F))
      {files : List (File F)}
      → files_of name metadata (v ∷ vs) ≡ ok files
      → (file : File F) × (rest : List (File F)) × (files ≡ file ∷ rest)
  unfolding files_of
  files_of-cons name metadata v vs h = from_ok (file_of name metadata v) _ h λ file _ h1.
      from_ok (files_of name metadata vs) _ h1 λ rest _ h2. (file, rest, sym (ok-injective h2))

  files-cons :
      (name : String) (metadata : Dict F) (v : Value F) {raws : List (Value F)}
      {files : List (File F)}
      → raw_files v ≡ ok raws
      → files_of name metadata raws ≡ ok files
      → (file : File F) × (rest : List (File F)) × (files ≡ file ∷ rest)
  files-cons name metadata (array (cons v vs)) r h =
      files_of-cons name metadata v (elements vs) (rw (← ok-injective r) at h)
  files-cons name metadata v r h = cc

  protocol_format-elem :
      (v : Value F) (format : String)
      → format_of v ≡ ok (some format)
      → elem format ("onnx" ∷ "xgboost" ∷ []) ≡ true
  protocol_format-elem (string s) format h =
      if_either
        (λ (o : Option String). o ≡ some format → elem format ("onnx" ∷ "xgboost" ∷ []) ≡ true)
        (s == "ubj") _ _ (λ _ e. rw (← some-injective e) refl)
        (λ _.
          if_either
            (λ (o : Option String). o ≡ some format → elem format ("onnx" ∷ "xgboost" ∷ []) ≡ true)
            (s == "onnx") _ _ (λ _ e. rw (← some-injective e) refl) (λ _ e. cc))
        (ok-injective h)
    where
      some-injective : {x y : String} → some x ≡ some y → x ≡ y
      some-injective e = cc
  protocol_format-elem v format h = cc

  with_artifact-IsTallied :
      (inputs outputs : List String) (raw : Dict F) (format : String) (p : Progress F)
      {q : Progress F}
      → elem format ("onnx" ∷ "xgboost" ∷ []) ≡ true
      → with_artifact inputs outputs raw format p ≡ ok q
      → IsTallied p
      → IsTallied q
  with_artifact-IsTallied inputs outputs raw format p known h t =
      from_ok (require_that (not (elem format p.seen_formats)) _) _ h λ _ e1 h1.
        from_ok (text (get raw "name") _) _ h1 λ name _ h2.
          from_ok (raw_files (get raw "files")) _ h2 λ raws e3 h3.
            from_ok (files_of name (metadata_of format inputs outputs) raws) _ h3 λ files e4 h4.
              let new = require_that-eq-ok (not (elem format p.seen_formats)) _ e1 in
              let a : Alternative F = record { format = format; files = files } in
              subst IsTallied (ok-injective h4) (record {
                total = rw (total-append p.alternatives a, t.total) refl;
                unique = rw (formats-append p.alternatives a) (
                    distinct-append (formats p.alternatives) format t.unique
                      (rw (← t.seen format) (ground arith)));
                seen = λ x.
                    rw
                      (
                        formats-append p.alternatives a,
                        elem-append x (formats p.alternatives) (format ∷ []),
                        ← t.seen x,
                      )
                      (ground arith);
                good =
                    All-append IsAlternative p.alternatives a t.good
                      (known, files-cons name _ (get raw "files") e3 e4);
              })

  add_artifact-IsTallied :
      (inputs outputs : List String) (raw : Value F) (p : Progress F) {q : Progress F}
      → add_artifact inputs outputs raw p ≡ ok q
      → IsTallied p
      → IsTallied q
  add_artifact-IsTallied inputs outputs (object raw) p h t =
      from_ok (format_of (get raw "format")) _ h λ o e1 h1. go o e1 h1
    where
      go :
          (o : Option String)
          → format_of (get raw "format") ≡ ok o
          → {q : Progress F} → unless_skipped inputs outputs raw o p ≡ ok q
          → IsTallied q
      go none e h = subst IsTallied (ok-injective h) t
      go (some format) e h =
          with_artifact-IsTallied inputs outputs raw format p
            (protocol_format-elem (get raw "format") format e) h t
  add_artifact-IsTallied inputs outputs v p h t = subst IsTallied (ok-injective h) t

  add_artifacts-IsTallied :
      (inputs outputs : List String) (raws : List (Value F)) (p : Progress F) {q : Progress F}
      → add_artifacts inputs outputs raws p ≡ ok q
      → IsTallied p
      → IsTallied q
  unfolding add_artifacts
  add_artifacts-IsTallied inputs outputs [] p h t = subst IsTallied (ok-injective h) t
  add_artifacts-IsTallied inputs outputs (raw ∷ rest) p h t =
      from_ok (add_artifact inputs outputs raw p) _ h λ next e1 h1.
        add_artifacts-IsTallied inputs outputs rest next h1
          (add_artifact-IsTallied inputs outputs raw p e1 t)

  -- The manifest has one artifact of each format, each with a file at least, and its total size is the
  -- sum of the sizes of their files.
  pub record IsComplete (p : Progress F) : Type 0 where
    pub total : p.total_size ≡ total_of p.alternatives
    pub unique : distinct (formats p.alternatives) ≡ true
    pub has_onnx : elem "onnx" (formats p.alternatives) ≡ true
    pub has_xgboost : elem "xgboost" (formats p.alternatives) ≡ true
    pub good : All IsAlternative p.alternatives

  -- The artifacts of a manifest are one of the format onnx and one of the format xgboost, each with a
  -- file at least; and the total size is the sum of the sizes of their files.
  pub model_artifacts-IsComplete :
      (bundle : Dict F) (bundle_id : String) {p : Progress F}
      → model_artifacts bundle bundle_id ≡ ok p
      → IsComplete p
  unfolding model_artifacts
  model_artifacts-IsComplete bundle bundle_id h =
      from_ok (text (get bundle "bundle_id") _) _ h λ loaded _ h1.
        from_ok (require_that (loaded == bundle_id) _) _ h1 λ _ _ h2.
          from_ok (text (get bundle "canonical_uri") _) _ h2 λ uri _ h3.
            from_ok (artifact_list (get bundle "artifacts")) _ h3 λ artifacts _ h4.
              let inputs =
                signature_names (get bundle "input_signature") "input_fields" "input_names" in
              let outputs =
                signature_names (get bundle "output_signature") "output_fields" "output_names" in
              let first : Progress F = record {
                alternatives = [];
                total_size = 0;
                seen_formats = [];
              } in
              from_ok (add_artifacts inputs outputs artifacts first) _ h4 λ done e5 h5.
                from_ok
                  (require_that (elem "onnx" done.seen_formats && elem "xgboost" done.seen_formats)
                    _)
                  _ h5
                  λ _ e6 h6.
                    let both =
                      require_that-eq-ok
                        (elem "onnx" done.seen_formats && elem "xgboost" done.seen_formats) _ e6 in
                    let t =
                      add_artifacts-IsTallied inputs outputs artifacts first e5
                        (record { total = refl; unique = refl; seen = λ x. refl; good = tt }) in
                    subst IsComplete (ok-injective h6) (record {
                      total = t.total;
                      unique = t.unique;
                      has_onnx = rw (← t.seen "onnx") (ground arith);
                      has_xgboost = rw (← t.seen "xgboost") (ground arith);
                      good = t.good;
                    })

-- ===== src/Inference/Artifacts/Unique.antt =====
-- The paths of the files of a model whose artifacts are accepted.

use mathlib.Core.Path.{subst}
use mathlib.Core.List as L
use tributo_knova.Prelude.{
  String, Bool, true, false, not, ◌&&◌, ◌||◌, List, [], ◌∷◌, All, elem, distinct, subset, ◌==◌, ◌≡◌,
  refl, sym, ap, ◌∙◌, arith,
}
use tributo_knova.Python.Value.{
  Value, Dict, null, cons, array, object, field, end, elements, keys, get, is_empty,
}
use tributo_knova.Python.Result.{ok, from_ok, ok-injective}
use tributo_knova.Inference.Checks.{invalid, ensure, mapping, text}
use tributo_knova.Inference.Checks.Laws.{ensure-eq-ok, mapping-eq-ok, text_path, text-eq-ok}
use tributo_knova.Inference.Storage.{join_uri}
use tributo_knova.Inference.Storage.Below.{IsBelow, join_uri-IsBelow}
use tributo_knova.Inference.Artifacts.{
  artifact_parts, is_size, is_hash, non_empty_array, checked_file, checked_files, new_format,
  checked_alternatives, required_of, checked_entries, applicable, validate_artifacts,
}

module _ {F : Type 0} where
  -- the path that a file names, and those of the files of an alternative, an entry and a model
  abbrev pub path_of : Value F → String
  path_of (object d) = text_path (get d "path")
  path_of v = ""

  abbrev pub listed : Value F → List (Value F)
  listed (array vs) = elements vs
  listed v = []

  abbrev pub at : Value F → String → Value F
  at (object d) key = get d key
  at v key = null

  abbrev pub file_paths : List (Value F) → List String
  file_paths [] = []
  file_paths (v ∷ vs) = path_of v ∷ file_paths vs

  abbrev pub alternative_paths : List (Value F) → List String
  alternative_paths [] = []
  alternative_paths (v ∷ vs) = L.◌++◌ (file_paths (listed (at v "files"))) (alternative_paths vs)

  abbrev pub model_paths : Dict F → List String
  model_paths end = []
  model_paths (field name v rest) =
      L.◌++◌ (alternative_paths (listed (at v "alternatives"))) (model_paths rest)

-- the paths in front of others, the last one first
abbrev pub onto : List String → List String → List String
onto [] done = done
onto (p ∷ ps) done = onto ps (p ∷ done)

onto-append : (ps qs done : List String) → onto (L.◌++◌ ps qs) done ≡ onto qs (onto ps done)
onto-append [] qs done = refl
onto-append (p ∷ ps) qs done = onto-append ps qs (p ∷ done)

-- a path that stays below the storage
abbrev pub IsSafePath : String → Type 0
IsSafePath path = (uri : String) × IsBelow "root" path uri

-- what a loop over files with these paths does to the paths seen
record Grows (ps before after : List String) : Type 0 where
  pub same : after ≡ onto ps before
  pub unique : distinct before ≡ true → distinct after ≡ true
  pub safe : All IsSafePath before → All IsSafePath after

Grows-none : (paths : List String) {after : List String} → paths ≡ after → Grows [] paths after
Grows-none paths e =
    subst (Grows [] paths) e (record { same = refl; unique = λ u. u; safe = λ s. s })

Grows-both : (ps qs a b c : List String) → Grows ps a b → Grows qs b c → Grows (L.◌++◌ ps qs) a c
Grows-both ps qs a b c g h = record {
  same = h.same ∙ ap (onto qs) g.same ∙ sym (onto-append ps qs a);
  unique = λ u. h.unique (g.unique u);
  safe = λ s. h.safe (g.safe s);
}

applicable-true : (b : Bool) → applicable b ≡ ok tt → b ≡ true
applicable-true true h = refl
applicable-true false h = cc

module _ {F : Type 0} where
  checked_file-Grows :
      (v : Value F) (paths : List String) {after : List String}
      → checked_file v paths ≡ ok after
      → Grows (path_of v ∷ []) paths after
  unfolding checked_file
  checked_file-Grows v paths h = from_ok (mapping v "artifact file") _ h λ d e1 h1.
      from_ok (text (get d "path") "artifact path") _ h1 λ path e2 h2.
        from_ok (join_uri "root" path) _ h2 λ uri e3 h3.
          from_ok (ensure (not (elem path paths)) _) _ h3 λ _ e4 h4.
            from_ok (ensure (is_size (get d "size")) _) _ h4 λ _ _ h5.
              from_ok (ensure (is_hash (get d "hash")) _) _ h5 λ _ _ h6.
                let new = ensure-eq-ok (not (elem path paths)) _ e4 in
                subst (Grows (path_of v ∷ []) paths) (ok-injective h6) (record {
                  same =
                      ap (λ (p : String). p ∷ paths)
                        (text-eq-ok (get d "path") _ e2
                          ∙ sym (ap (λ (x : Value F). path_of x) (mapping-eq-ok v _ e1)));
                  unique = λ u. ground arith;
                  safe = λ s. ((uri, join_uri-IsBelow "root" path e3), s);
                })

  checked_files-Grows :
      (vs : List (Value F)) (paths : List String) {after : List String}
      → checked_files vs paths ≡ ok after
      → Grows (file_paths vs) paths after
  unfolding checked_files
  checked_files-Grows [] paths h = Grows-none paths (ok-injective h)
  checked_files-Grows (v ∷ vs) paths {after} h = from_ok (checked_file v paths) _ h λ next e1 h1.
      Grows-both (path_of v ∷ []) (file_paths vs) paths next after (checked_file-Grows v paths e1)
        (checked_files-Grows vs next h1)

  non_empty_array-listed :
      (v : Value F) (message : String) {vs : List (Value F)}
      → non_empty_array v message ≡ ok vs
      → vs ≡ listed v
  unfolding invalid
  non_empty_array-listed (array (cons v vs)) message h = sym (ok-injective h)
  non_empty_array-listed v message h = cc

  -- the elements of an array at a key of an object
  listed-at :
      (v : Value F) (place key message : String) {d : Dict F} {vs : List (Value F)}
      → mapping v place ≡ ok d
      → non_empty_array (get d key) message ≡ ok vs
      → vs ≡ listed (at v key)
  listed-at v place key message {d} e f =
      non_empty_array-listed (get d key) message f
      ∙ sym (ap (λ (x : Value F). listed (at x key)) (mapping-eq-ok v place e))

  checked_alternatives-Grows :
      (vs : List (Value F)) (seen paths : List String) {after : List String}
      → checked_alternatives vs seen paths ≡ ok after
      → Grows (alternative_paths vs) paths after
  unfolding checked_alternatives
  checked_alternatives-Grows [] seen paths h = Grows-none paths (ok-injective h)
  checked_alternatives-Grows (v ∷ vs) seen paths {after} h =
      from_ok (mapping v "artifact alternative") _ h λ d e1 h1.
        from_ok (new_format (get d "format") seen) _ h1 λ format _ h2.
          from_ok (non_empty_array (get d "files") _) _ h2 λ files e3 h3.
            from_ok (checked_files files paths) _ h3 λ next e4 h4.
              let here =
                subst (λ fs. Grows (file_paths fs) paths next) (listed-at v _ "files" _ e1 e3)
                  (checked_files-Grows files paths e4) in
              Grows-both (file_paths (listed (at v "files"))) (alternative_paths vs) paths next
                after here (checked_alternatives-Grows vs (format ∷ seen) next h4)

  checked_entries-Grows :
      (d : Dict F) (unsupported : Bool) (paths : List String) {out : Bool × List String}
      → checked_entries d unsupported paths ≡ ok out
      → Grows (model_paths d) paths out.1
  unfolding checked_entries
  checked_entries-Grows end unsupported paths h =
      Grows-none paths (ap (λ (o : Bool × List String). o.1) (ok-injective h))
  checked_entries-Grows (field name v rest) unsupported paths {out} h =
      from_ok (mapping v "artifact entry") _ h λ entry e1 h1.
        from_ok (required_of (get entry "required_for_inference")) _ h1 λ required _ h2.
          from_ok (non_empty_array (get entry "alternatives") _) _ h2 λ alternatives e3 h3.
            from_ok (checked_alternatives alternatives [] paths) _ h3 λ next e4 h4.
              let here =
                subst (λ as_. Grows (alternative_paths as_) paths next)
                  (listed-at v _ "alternatives" _ e1 e3)
                  (checked_alternatives-Grows alternatives [] paths e4) in
              Grows-both (alternative_paths (listed (at v "alternatives"))) (model_paths rest) paths
                next out.1 here
                (checked_entries-Grows rest
                  (unsupported || (not (name == "model_weights") && required)) next h4)

  -- the artifacts of the model, whose files have different and safe paths
  pub record IsUsable (model : Dict F) : Type 0 where
    pub artifacts : Dict F
    pub has_artifacts : get model "model_artifacts" ≡ object artifacts
    pub known : subset (keys artifacts) artifact_parts ≡ true
    pub weights : elem "model_weights" (keys artifacts) ≡ true
    pub unique : distinct (onto (model_paths artifacts) []) ≡ true
    pub safe : All IsSafePath (onto (model_paths artifacts) [])

  -- The artifacts of a model that are accepted are of the known parts and have the model's weights; the
  -- paths of all files, over all parts and formats, are distinct, and each stays below the storage.
  pub validate_artifacts-IsUsable :
      (model : Dict F) → validate_artifacts model ≡ ok tt → IsUsable model
  unfolding validate_artifacts
  validate_artifacts-IsUsable model h =
      from_ok (mapping (get model "model_artifacts") _) _ h λ artifacts e1 h1.
        let test = not (is_empty artifacts) && subset (keys artifacts) artifact_parts in
        from_ok (ensure test _) _ h1 λ _ e2 h2.
          let parts = ensure-eq-ok test _ e2 in
          from_ok (checked_entries artifacts false []) _ h2 λ out e3 h3.
            let grows = checked_entries-Grows artifacts false [] e3 in
            let fit = applicable-true (not out.0 && elem "model_weights" (keys artifacts)) h3 in
            record {
              artifacts = artifacts;
              has_artifacts = mapping-eq-ok (get model "model_artifacts") _ e1;
              known = ground arith;
              weights = ground arith;
              unique = rw (← grows.same) (grows.unique refl);
              safe = subst (All IsSafePath) grows.same (grows.safe tt);
            }

-- ===== src/Protocol/Admitted.antt =====
-- What a request satisfies that `parse_request` returns.
use Prim.Native.Char.{code}
use Prim.Native.String.{◌++◌, [], ◌∷◌}
use package.text.Mathlib.TextEquality.{Char-path}
use package.text.Mathlib.TextLemmas.{nil-append, cons-append}
use tributo_knova.Prelude.{
  ◌≤◌, String, Bool, true, Option, none, some, ◌≡◌, refl, sym, ap, ◌∙◌, ◌⊎◌, inl, inr, ◌==◌, eq_iff,
  All, arith, eqb, eqb_iff, Bool-cases, Option-cases,
}
use tributo_knova.Python.Number.{Floats}
use tributo_knova.Python.Text.{strip, split_dot, code_points}
use tributo_knova.Python.Value.{Value, Dict, string, object, find, get}
use tributo_knova.Python.Value.Laws.{get_of_some}
use tributo_knova.Python.Result.{Result, ok, from_ok, ok-injective, ◌>>=◌}
use tributo_knova.Protocol.Schema.{
  text, bounded, Declared, isdigit, supported_parts, supported_major, trimmed, whitespace_rule,
  identity_field, identity, version_field, schema, conforms,
}
use tributo_knova.Protocol.{
  Validated, valid, Loaded, json_value, Library, Request, translated, decoded, root, versioned,
  modelled, is_identity, identified, validator, parse_request,
}

module _ {F : Type 0} where
  -- the value of a field after its validator
  abbrev pub after_validator : (String → Result String) → Value F → Result (Value F)
  after_validator validator (string s) = validator s >>= λ t. ok (string t)
  after_validator validator v = ok v

  -- the field was given, with a value of its type that its validator accepts
  pub record IsGiven (d fields : Dict F) (f : Declared F) : Type 0 where
    pub raw : Value F
    pub value : Value F
    pub was_given : find d f.name ≡ some raw
    pub fits : conforms f.kind raw ≡ true
    pub passes : after_validator f.validator raw ≡ ok value
    pub stands : find fields f.name ≡ some value

  -- or it was not, and has its default
  pub record IsDefault (d fields : Dict F) (f : Declared F) : Type 0 where
    pub value : Value F
    pub was_absent : find d f.name ≡ none
    pub has_default : f.default ≡ some value
    pub stands : find fields f.name ≡ some value

  abbrev pub IsFilled : Dict F → Dict F → Declared F → Type 0
  IsFilled d fields f = IsGiven d fields f ⊎ IsDefault d fields f

-- What pydantic documents of a model that it accepts: each declared field was given with a value of
-- its type that its validator accepts, or has its default.
pub record IsPydantic {F : Type 0} (library : Library F) : Type 0 where
  pub fills :
      (training : Bool) (d fields : Dict F)
      → library.model_validate (schema library.is_digit training) d ≡ valid fields
      → All (IsFilled d fields) (schema library.is_digit training)

-- the parts of a text around its first dot
some-injective {ℓ} : {A : Type ℓ} {a b : A} → some a ≡ some b → a ≡ b
some-injective h = cc

dot-append : (s : String) → "." ++ s ≡ "." ∷ s
dot-append s = cons-append "." "" s ∙ ap (λ (t : String). "." ∷ t) (nil-append s)

append-split_dot :
    (s : String) (parts : String × String)
    → split_dot s ≡ some parts
    → s ≡ parts.0 ++ ("." ++ parts.1)
unfolding split_dot
append-split_dot [] parts h = cc
append-split_dot (c ∷ s) parts h = elim (Bool-cases (eqb (code c) b'.')) [
  | inl dot ↦
      let e : ("", s) ≡ parts = some-injective (rw dot at h) in
      rw (← e, nil-append, dot-append, Char-path c "." ((eqb_iff (code c) b'.').0 dot)) refl
  | inr other ↦ elim (Option-cases (split_dot s)) [
    | inl n ↦ absurd (ground arith)
    | inr found ↦
        let e : (c ∷ found.0.0, found.0.1) ≡ parts = some-injective (rw (other, found.1) at h) in
        rw (← e, cons-append, ← append-split_dot s found.0 found.1) refl
  ]
]

pub translated-eq-ok : (r : Result (Unit {0})) → translated r ≡ ok tt → r ≡ ok tt
translated-eq-ok r h = ground arith

module _ {F : Type 0} (library : Library F) where
  -- An admitted request is a JSON object. Its identity is the outer one, without whitespace around it
  -- and of 1 to 256 code points; its version is 2 with a minor version of digits; and its fields
  -- pass the validation of its kind.
  pub record IsAdmitted ⦃fl : Floats F⦄ (raw_payload outer : String) (training : Bool)
      (request : Request F) : Type 0 where
    pub d : Dict F
    pub is_object : library.loads raw_payload ≡ json_value (object d)
    pub same_kind : request.training ≡ training
    pub same_identity : get d (identity_field training) ≡ string outer
    pub no_whitespace : strip outer ≡ outer
    pub shortest : 1 ≤ code_points outer
    pub longest : code_points outer ≤ 256
    pub minor : String
    pub has_version : get d "protocol_version" ≡ string ("2" ++ ("." ++ minor))
    pub minor_digits : isdigit library.is_digit minor ≡ true
    pub validated : validator training request.fields ≡ ok tt

  -- what the identity field comes to
  pub record IsIdentity (d : Dict F) (training : Bool) (outer : String) : Type 0 where
    pub same : find d (identity_field training) ≡ some (string outer)
    pub no_whitespace : strip outer ≡ outer
    pub shortest : 1 ≤ code_points outer
    pub longest : code_points outer ≤ 256

  identity_text :
      (raw value : Value F) (rule outer : String)
      → conforms (bounded 1 256) raw ≡ true
      → after_validator (trimmed rule) raw ≡ ok value
      → is_identity value outer ≡ true
      → (raw ≡ string outer)
        × (strip outer ≡ outer)
        × (1 ≤ code_points outer)
        × (code_points outer ≤ 256)
  unfolding trimmed
  identity_text (string s) value rule outer c a i = elim (Bool-cases (s == strip s)) [
    | inl same ↦
        let e : string s ≡ value = cc in
        let o : s ≡ outer = (eq_iff s outer).0 (rw (← e) at i) in
        rw (← o) (refl, sym ((eq_iff s (strip s)).0 same), ground arith, ground arith)
    | inr other ↦ absurd (ground arith)
  ]
  identity_text raw value rule outer c a i = cc

  identity-IsIdentity :
      (d fields : Dict F) (training : Bool) (outer : String)
      → IsFilled d fields (identity training)
      → identified training fields outer ≡ ok tt
      → IsIdentity d training outer
  identity-IsIdentity d fields training outer (inl g) h =
      let i : is_identity (get fields (identity_field training)) outer ≡ true = ground arith in
      let (e, t, low, high) =
        identity_text g.raw g.value (whitespace_rule training) outer g.fits g.passes
          (rw (get_of_some fields (identity_field training) g.value g.stands) at i) in
      record { same = rw (← e) g.was_given; no_whitespace = t; shortest = low; longest = high }
  identity-IsIdentity d fields training outer (inr g) h =
      let e : none ≡ some g.value = g.has_default in cc

  pub record IsVersion (d : Dict F) : Type 0 where
    pub minor : String
    pub same : find d "protocol_version" ≡ some (string ("2" ++ ("." ++ minor)))
    pub digits : isdigit library.is_digit minor ≡ true

  supported_parts-eq-ok :
      (s : String) (parts : String × String) {t : String}
      → supported_parts library.is_digit s (some parts) ≡ ok t
      → (parts.0 ≡ "2") × (isdigit library.is_digit parts.1 ≡ true)
  supported_parts-eq-ok s (first, second) h = ((eq_iff first "2").0 (ground arith), ground arith)

  supported_major-eq-ok :
      (s : String) (o : Option (String × String)) {t : String}
      → split_dot s ≡ o
      → supported_parts library.is_digit s o ≡ ok t
      → (minor : String) × (s ≡ "2" ++ ("." ++ minor)) × (isdigit library.is_digit minor ≡ true)
  supported_major-eq-ok s none e h = cc
  supported_major-eq-ok s (some parts) e h =
      let (two, digits) = supported_parts-eq-ok s parts h in
      (parts.1, rw (← two) (append-split_dot s parts e), digits)

  version_text :
      (raw value : Value F)
      → conforms text raw ≡ true
      → after_validator (supported_major library.is_digit) raw ≡ ok value
      → (minor : String) × (raw ≡ string ("2" ++ ("." ++ minor)))
        × (isdigit library.is_digit minor ≡ true)
  unfolding supported_major
  version_text (string s) value c a = from_ok (supported_major library.is_digit s) _ a λ t e _.
      let (minor, same, digits) = supported_major-eq-ok s (split_dot s) refl e in
      (minor, ap (λ (x : String). string x) same, digits)
  version_text raw value c a = cc

  major-IsVersion :
      (d fields : Dict F) → IsFilled d fields (version_field library.is_digit) → IsVersion d
  major-IsVersion d fields (inl g) =
      let (minor, e, digits) = version_text g.raw g.value g.fits g.passes in
      record { minor = minor; same = rw (← e) g.was_given; digits = digits }
  major-IsVersion d fields (inr g) = let e : none ≡ some g.value = g.has_default in cc

  decoded-eq-ok : (o : Loaded F) {v : Value F} → decoded o ≡ ok v → o ≡ json_value v
  decoded-eq-ok o h = ground arith

  root-eq-ok : (v : Value F) {d : Dict F} → root v ≡ ok d → v ≡ object d
  root-eq-ok v h = ground arith

  modelled-eq-ok : (v : Validated F) {fields : Dict F} → modelled v ≡ ok fields → v ≡ valid fields
  modelled-eq-ok v h = ground arith

  -- A request that `parse_request` returns is a JSON object whose identity is the outer one, without
  -- whitespace around it and of 1 to 256 code points; its version is 2 with a minor version of
  -- digits; and its fields pass the validation of its kind. It rests on what pydantic documents.
  pub parse_request-IsAdmitted :
      ⦃fl : Floats F⦄ (pydantic : IsPydantic library) (raw_payload outer : String) (training : Bool)
      {request : Request F}
      → parse_request library raw_payload outer training ≡ ok request
      → IsAdmitted raw_payload outer training request
  unfolding parse_request
  parse_request-IsAdmitted pydantic raw_payload outer training {request} h =
      from_ok (decoded (library.loads raw_payload)) _ h λ value e1 h1.
        from_ok (root value) _ h1 λ d e2 h2. from_ok (versioned d) _ h2 λ _ _ h3.
          from_ok (modelled (library.model_validate (schema library.is_digit training) d)) _ h3
            λ fields e4 h4. from_ok (identified training fields outer) _ h4 λ _ e5 h5.
              from_ok (translated (validator training fields)) _ h5 λ _ e6 h6.
                let (version, (_, (_, (same, _)))) =
                  pydantic.fills training d fields (modelled-eq-ok _ e4) in
                let v = major-IsVersion d fields version in
                let i = identity-IsIdentity d fields training outer same e5 in
                let made : record { training = training; fields = fields } ≡ request =
                  ok-injective h6 in
                rw (← made) (record {
                  d = d;
                  is_object =
                      decoded-eq-ok (library.loads raw_payload) e1
                      ∙ ap (λ (w : Value F). json_value w) (root-eq-ok value e2);
                  same_kind = refl;
                  same_identity = get_of_some d (identity_field training) (string outer) i.same;
                  no_whitespace = i.no_whitespace;
                  shortest = i.shortest;
                  longest = i.longest;
                  minor = v.minor;
                  has_version = get_of_some d "protocol_version" _ v.same;
                  minor_digits = v.digits;
                  validated = translated-eq-ok (validator training fields) e6;
                })

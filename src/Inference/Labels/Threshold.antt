-- ===== src/Inference/Labels/Threshold.antt =====
-- The labels and the threshold of a binary model.

use mathlib.Core.Path.{sym, subst}
use tributo_knova.Prelude.{
  String, true, ◌&&◌, List, [], ◌∷◌, Option, none, some, length, eqb, ◌==◌, ◌≡◌, refl, ap, ◌∙◌,
  arith, Bool-cases, Option-cases, inl, inr, if◌then◌else◌,
}
use tributo_knova.Python.Number.{ℤ, Floats}
use tributo_knova.Python.Value.{
  Value, Dict, null, integer, float, string, object, field, end, keys, values, find, get, get_or,
  is_empty,
}
use tributo_knova.Python.Result.{Result, ok, from_ok, ok-injective}
use tributo_knova.Validation.Features.{elem_int, integers}
use tributo_knova.Validation.Features.Labels.{int_eqb_iff, elem-subset_int}
use tributo_knova.Training.Checks.{Casing, converted, in_unit}
use tributo_knova.Inference.Checks.{invalid, ensure, mapping}
use tributo_knova.Inference.Checks.Laws.{ensure-eq-ok, mapping-eq-ok}
use tributo_knova.Inference.Labels.{
  binary_codes, are_binary, label_at, other_label, label_or, code_at, mapped_index, plain_index,
  labels_of, positive_label_index, reversed, binary_labels, extensions_of, text_or_empty,
  number_in_unit, with_labels, threshold_of, decision_threshold,
}

abbrev pub IsBinaryCode : ℤ → Type 0
IsBinaryCode n = elem_int n binary_codes ≡ true

module _ {F : Type 0} where
  elem_int-find :
      (d : Dict F) (s : String) (n : ℤ) (codes : List ℤ)
      → find d s ≡ some (integer n)
      → integers (values d) ≡ some codes
      → elem_int n codes ≡ true
  unfolding find
  elem_int-find end s n codes f i = cc
  elem_int-find (field k (integer m) d) s n codes f i = elim (Option-cases (integers (values d))) [
    | inl e ↦ let k = rw e at i in cc
    | inr (ns, e) ↦
        let whole : m ∷ ns ≡ codes = some-injective (rw e at i) in
        rw (← whole) (elim (Bool-cases (k == s)) [
          | inl same ↦
              let g : some (integer m) ≡ some (integer n) = rw same at f in
              let mn : m ≡ n = cc in ground (arith, int_eqb_iff n m)
          | inr other ↦ let there = elem_int-find d s n ns (rw other at f) e in ground arith
        ])
  ]
    where
      some-injective : {xs ys : List ℤ} → some xs ≡ some ys → xs ≡ ys
      some-injective e = cc
  elem_int-find (field k v d) s n codes f i = cc

  code_at-IsBinaryCode :
      (labels : Dict F) (s : String) {n : ℤ}
      → are_binary (integers (values labels)) ≡ true
      → code_at (find labels s) ≡ ok n
      → IsBinaryCode n
  unfolding invalid
  code_at-IsBinaryCode labels s {n} b h = go (find labels s) refl h
    where
      go : (o : Option (Value F)) → find labels s ≡ o → code_at o ≡ ok n → IsBinaryCode n
      go (some (integer m)) e h = elim (Option-cases (integers (values labels))) [
        | inl none_of ↦ let k = rw none_of at b in cc
        | inr (codes, are) ↦
            let within = rw are at b in
            rw (← ok-injective h) (
              elem-subset_int m codes binary_codes (ground arith)
                (elem_int-find labels s m codes e are))
      ]
      go o e h = cc

  mapped_index-IsBinaryCode :
      (positive : Value F) (labels : Dict F) {n : ℤ}
      → are_binary (integers (values labels)) ≡ true
      → mapped_index positive labels ≡ ok n
      → IsBinaryCode n
  unfolding invalid
  mapped_index-IsBinaryCode null labels b h = rw (← ok-injective h) refl
  mapped_index-IsBinaryCode (string s) labels b h = code_at-IsBinaryCode labels s b h
  mapped_index-IsBinaryCode v labels b h = cc

  plain_index-IsBinaryCode :
      (positive : Value F) {n : ℤ} → plain_index positive ≡ ok n → IsBinaryCode n
  unfolding invalid
  plain_index-IsBinaryCode null h = rw (← ok-injective h) refl
  plain_index-IsBinaryCode (string s) h = elim (Bool-cases (s == "0")) [
    | inl nought ↦ let k = rw nought at h in rw (← ok-injective k) refl
    | inr other ↦ elim (Bool-cases (s == "1")) [
      | inl one ↦ let k = rw (other, one) at h in rw (← ok-injective k) refl
      | inr neither ↦ let k = rw (other, neither) at h in cc
    ]
  ]
  plain_index-IsBinaryCode (integer m) h = elim (Bool-cases (elem_int m binary_codes)) [
    | inl code ↦ let k = rw code at h in rw (← ok-injective k) code
    | inr other ↦ let k = rw other at h in cc
  ]
  plain_index-IsBinaryCode v h = cc

  module _ ⦃fl : Floats F⦄ where
    positive_label_index-IsBinaryCode :
        (model : Dict F) {n : ℤ} → positive_label_index model ≡ ok n → IsBinaryCode n
    unfolding positive_label_index
    positive_label_index-IsBinaryCode model h = from_ok (labels_of model) _ h λ labels _ h1.
        elim (Bool-cases (is_empty labels)) [
          | inl plain ↦ plain_index-IsBinaryCode (get model "positive_label_value") (rw plain at h1)
          | inr mapped ↦
              let test = eqb (length (keys labels)) 2 && are_binary (integers (values labels)) in
              from_ok (ensure test _) _ (rw mapped at h1) λ _ e2 h2.
                let both = ensure-eq-ok test _ e2 in
                mapped_index-IsBinaryCode (get model "positive_label_value") labels (ground arith)
                  h2
        ]

    binary_labels-IsBinaryCode :
        (model : Dict F) {out : ℤ × String × String}
        → binary_labels model ≡ ok out
        → IsBinaryCode out.0
    unfolding binary_labels
    binary_labels-IsBinaryCode model h = from_ok (labels_of model) _ h λ labels _ h1.
        elim (Bool-cases (is_empty labels)) [
          | inl plain ↦
              from_ok (positive_label_index model) _ (rw plain at h1) λ positive e2 h2.
                rw (← ok-injective h2) (positive_label_index-IsBinaryCode model e2)
          | inr mapped ↦
              from_ok (ensure (eqb (length (keys labels)) 2) _) _ (rw mapped at h1) λ _ _ h2.
                from_ok (reversed labels []) _ h2 λ reverse _ h3.
                  from_ok (positive_label_index model) _ h3 λ positive e4 h4.
                    from_ok (label_or (label_at reverse positive) _) _ h4 λ this _ h5.
                      from_ok (label_or (other_label reverse positive) _) _ h5 λ other _ h6.
                        rw (← ok-injective h6) (positive_label_index-IsBinaryCode model e4)
        ]

    -- the number that a value is, as a float
    abbrev pub IsNumber : Value F → F → Type 0
    IsNumber (integer n) x = fl.of_int n ≡ some x
    IsNumber (float y) x = y ≡ x
    IsNumber v x = ⊥

    unit-eq-ok :
        (y : F) {x : F}
        → ◌≡◌ {A = Result (Option F)} (ok (if in_unit y then some y else none)) (ok (some x))
        → (in_unit x ≡ true) × (y ≡ x)
    unit-eq-ok y h = elim (Bool-cases (in_unit y)) [
      | inl within ↦
          let k = rw within at h in
          let same = some-injective (ok-injective k) in (rw (← same) within, same)
      | inr outside ↦ let k = rw outside at h in cc
    ]
      where
        some-injective : {a b : F} → some a ≡ some b → a ≡ b
        some-injective e = cc

    converted-eq-ok : (o : Option F) {y : F} → converted o ≡ ok y → o ≡ some y
    converted-eq-ok none h = cc
    converted-eq-ok (some z) h = ap (λ (a : F). some a) (ok-injective h)

    number_in_unit-eq-ok :
        (v : Value F) {x : F} → number_in_unit v ≡ ok (some x) → (in_unit x ≡ true) × IsNumber v x
    number_in_unit-eq-ok (integer n) h = from_ok (converted (fl.of_int n)) _ h λ y e h1.
        let (within, same) = unit-eq-ok y h1 in
        (within, converted-eq-ok (fl.of_int n) e ∙ ap (λ (a : F). some a) same)
    number_in_unit-eq-ok (float y) h = unit-eq-ok y h
    number_in_unit-eq-ok v h = cc

    with_labels-eq-ok :
        (model : Dict F) (o : Option F) {t : F}
        → with_labels model o ≡ ok (some t)
        → (o ≡ some t) × ((labels : ℤ × String × String) × (binary_labels model ≡ ok labels))
    with_labels-eq-ok model none h = cc
    with_labels-eq-ok model (some x) h =
        from_ok (binary_labels model) _ h λ labels e h1. (ok-injective h1, (labels, e))

    -- the threshold that the extensions ask for, and a binary model with its labels
    pub record IsApplied (casing : Casing) (payload : Dict F) (threshold : F) : Type 0 where
      pub asked :
          IsNumber
            (get (extensions_of (get_or payload "extensions" (object end))) "decision_threshold")
            threshold
      pub within : in_unit threshold ≡ true
      pub model : Dict F
      pub has_model : get payload "model" ≡ object model
      pub is_binary :
          casing.upper (text_or_empty (get model "task_type")) == "BINARY_CLASSIFICATION" ≡ true
      pub labels : ℤ × String × String
      pub has_labels : binary_labels model ≡ ok labels
      pub binary : IsBinaryCode labels.0

    threshold_of-IsApplied :
        (casing : Casing) (payload : Dict F) (raw : Value F) {threshold : F}
        → get (extensions_of (get_or payload "extensions" (object end))) "decision_threshold" ≡ raw
        → threshold_of casing payload raw ≡ ok (some threshold)
        → IsApplied casing payload threshold
    threshold_of-IsApplied casing payload null r h = cc
    threshold_of-IsApplied casing payload raw {threshold} r h =
        from_ok (mapping (get payload "model") "model") _ h λ model e1 h1.
          elim (Bool-cases
            (casing.upper (text_or_empty (get model "task_type")) == "BINARY_CLASSIFICATION")) [
              | inl binary ↦
                  from_ok (number_in_unit raw) (with_labels model) (rw binary at h1) λ o e2 h2.
                    let (same, (labels, e3)) = with_labels-eq-ok model o h2 in
                    let number = number_in_unit-eq-ok raw (e2 ∙ ap (λ (x : Option F). ok x) same) in
                    record {
                      asked = subst (λ (v : Value F). IsNumber v threshold) (sym r) number.1;
                      within = number.0;
                      model = model;
                      has_model = mapping-eq-ok (get payload "model") _ e1;
                      is_binary = binary;
                      labels = labels;
                      has_labels = e3;
                      binary = binary_labels-IsBinaryCode model e3;
                    }
              | inr other ↦ let k = rw other at h1 in cc
            ]

    -- A decision threshold that is applied is the number that the extensions ask for, finite and from 0
    -- to 1; and the model of the request is a binary classification with a positive and a negative
    -- label, the positive one with the class 0 or 1.
    pub decision_threshold-IsApplied :
        (casing : Casing) (payload : Dict F) {threshold : F}
        → decision_threshold casing payload ≡ ok (some threshold)
        → IsApplied casing payload threshold
    unfolding decision_threshold
    decision_threshold-IsApplied casing payload h =
        threshold_of-IsApplied casing payload
          (get (extensions_of (get_or payload "extensions" (object end))) "decision_threshold") refl
          h

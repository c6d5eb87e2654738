-- ===== src/Training/Storage/Credentials.antt =====
-- Which properties of the storage `_safe_storage_properties` passes on.
use Prim.Native.Char.{code}
use Prim.Native.String.{[], ◌∷◌, ◌++◌}
use package.text.Mathlib.TextEquality.{Char-path}
use package.text.Mathlib.TextLemmas.{
  nil-append, cons-append, nil≢cons, append-eq-nil_iff, head-eq_of_cons-eq, tail-eq_of_cons-eq,
}
use tributo_knova.Python.Text.{starts_with, contains}
use tributo_knova.Prelude.{
  [], ◌∷◌, sym, ◌↔◌, eqb_iff, any, List, ◌⊎◌, String, true, false, Option, none, some, elem,
  distinct, ◌==◌, eq_iff, ◌≡◌, refl, ap, ◌∙◌, inl, inr, arith, Bool-cases, if◌then◌else◌,
}
use tributo_knova.Python.Value.{Value, Dict, string, field, end, find, keys}
use tributo_knova.Training.Checks.{Casing}
use tributo_knova.Training.Storage.{sensitive_tokens, is_withheld, kept, safe_properties}

-- The word occurs in the text.
abbrev pub IsIn : String → String → Type 0
IsIn s word = (before : String) × (after : String) × (s ≡ before ++ (word ++ after))

abbrev pub OneIn : String → List String → Type 0
OneIn s [] = ⊥
OneIn s (word ∷ words) = IsIn s word ⊎ OneIn s words

abbrev pub words_of_credentials : List String
words_of_credentials = "access" ∷ "credential" ∷ "key" ∷ "password" ∷ "secret" ∷ "token" ∷ []

-- A name of Ray's path, or with a word of credentials in it, in lower case.
abbrev pub IsSensitive : Casing → String → Type 0
IsSensitive casing name =
    (casing.lower name ≡ "ray_storage_path") ⊎ OneIn (casing.lower name) words_of_credentials

starts_with_iff :
    (s word : String) → (starts_with s word ≡ true) ↔ ((after : String) × (s ≡ word ++ after))
unfolding starts_with
starts_with_iff s word = (there s word, back s word)
  where
    there : (s word : String) → starts_with s word ≡ true → (after : String) × (s ≡ word ++ after)
    there s [] h = (s, sym (nil-append s))
    there [] (c ∷ word) h = cc
    there (d ∷ s) (c ∷ word) h =
        let (after, e) = there s word (ground arith) in
        let same : d ≡ c = Char-path d c ((eqb_iff (code d) (code c)).0 (ground arith)) in
        (after, rw (cons-append, ← e, same) refl)

    back : (s word : String) → (after : String) × (s ≡ word ++ after) → starts_with s word ≡ true
    back s [] h = refl
    back [] (c ∷ word) (after, e) = absurd (nil≢cons (e ∙ cons-append c word after))
    back (d ∷ s) (c ∷ word) (after, e) =
        let k = e ∙ cons-append c word after in
        let rest = back s word (after, tail-eq_of_cons-eq k) in
        rw (head-eq_of_cons-eq k, (eqb_iff (code c) (code c)).1 refl, rest) refl

contains_iff : (s word : String) → (contains s word ≡ true) ↔ IsIn s word
unfolding contains
contains_iff s word = (there s, back s)
  where
    there : (s : String) → contains s word ≡ true → IsIn s word
    there [] h = ("", "", rw (nil-append, (eq_iff word "").0 h) refl)
    there (c ∷ s) h = elim (Bool-cases (starts_with (c ∷ s) word)) [
      | inl now ↦
          let (after, e) = (starts_with_iff (c ∷ s) word).0 now in
          ("", after, e ∙ sym (nil-append (word ++ after)))
      | inr later ↦
          let (before, after, e) = there s (ground arith) in
          (c ∷ before, after, rw (cons-append, ← e) refl)
    ]

    back : (s : String) → IsIn s word → contains s word ≡ true
    back [] ([], after, e) =
        let k = append-eq-nil_iff.0 (sym (e ∙ nil-append (word ++ after))) in rw k.0 refl
    back [] (c ∷ before, after, e) = absurd (nil≢cons (e ∙ cons-append c before (word ++ after)))
    back (c ∷ s) ([], after, e) =
        let k = (starts_with_iff (c ∷ s) word).1 (after, e ∙ nil-append (word ++ after)) in
        rw k refl
    back (c ∷ s) (d ∷ before, after, e) =
        let k =
          back s (before, after, tail-eq_of_cons-eq (e ∙ cons-append d before (word ++ after))) in
        ground arith

any_iff : (s : String) (words : List String) → (any (contains s) words ≡ true) ↔ OneIn s words
any_iff s [] = (λ h. cc, λ h. absurd h)
any_iff s (word ∷ words) = (
  λ h. elim (Bool-cases (contains s word)) [
    | inl here ↦ inl ((contains_iff s word).0 here)
    | inr there ↦ inr ((any_iff s words).0 (ground arith))
  ],
  λ h. elim h [
    | inl here ↦ let k = (contains_iff s word).1 here in ground arith
    | inr there ↦ let k = (any_iff s words).1 there in ground arith
  ],
)

withheld_iff :
    (casing : Casing) (name : String) → (is_withheld casing name ≡ true) ↔ IsSensitive casing name
withheld_iff casing name = (
  λ h. elim (Bool-cases (casing.lower name == "ray_storage_path")) [
    | inl path ↦ inl ((eq_iff (casing.lower name) "ray_storage_path").0 path)
    | inr other ↦ inr ((any_iff (casing.lower name) sensitive_tokens).0 (ground arith))
  ],
  λ h. elim h [
    | inl path ↦ rw path refl
    | inr word ↦ let k = (any_iff (casing.lower name) sensitive_tokens).1 word in ground arith
  ],
)

module _ {F : Type 0} (casing : Casing) where
  -- the text at a key that is not withheld
  abbrev pub shown : String → Option (Value F) → Option (Value F)
  shown k (some (string s)) = if is_withheld casing k then none else some (string s)
  shown k _ = none

  find-absent : (d : Dict F) (k : String) → elem k (keys d) ≡ false → find d k ≡ none
  unfolding find
  find-absent end k h = refl
  find-absent (field j v d) k h = ground (arith, find-absent d k, eq_iff j k, eq_iff k j)

  skipped :
      (d : Dict F) (j k : String) → find d j ≡ none → find d k ≡ (if j == k then none else find d k)
  skipped d j k n = elim (Bool-cases (j == k)) [
    | inl same ↦ let e = rw ((eq_iff j k).0 same) at n in rw same e
    | inr other ↦ rw other refl
  ]

  find-kept :
      (j k : String) (v : Value F) (d : Dict F)
      → find d j ≡ none
      → find (kept casing j v d) k ≡ (if j == k then shown j (some v) else find d k)
  unfolding find
  find-kept j k (string s) d n = elim (Bool-cases (is_withheld casing j)) [
    | inl out ↦ rw out (skipped d j k n)
    | inr inside ↦ rw inside refl
  ]
  find-kept j k v d n = skipped d j k n

  find-shown :
      (d : Dict F) (k : String)
      → distinct (keys d) ≡ true
      → find (safe_properties casing d) k ≡ shown k (find d k)
  unfolding safe_properties find
  find-shown end k u = refl
  find-shown (field j v d) k u =
      let absent = find-absent d j (ground arith) in
      let before : find (safe_properties casing d) j ≡ none =
        find-shown d j (ground arith) ∙ ap (shown j) absent in
      find-kept j k v (safe_properties casing d) before ∙ elim (Bool-cases (j == k)) [
        | inl same ↦ rw same (ap (λ (x : String). shown x (some v)) ((eq_iff j k).0 same))
        | inr other ↦ rw other (find-shown d k (ground arith))
      ]

  -- The request has the text at a name that is not sensitive.
  abbrev pub IsOpen : Dict F → String → Value F → Type 0
  IsOpen d k v = ((s : String) × (v ≡ string s)) × (find d k ≡ some v) × ¬ IsSensitive casing k

  shown_iff :
      (k : String) (o : Option (Value F)) (v : Value F)
      → (shown k o ≡ some v)
        ↔ (((s : String) × (v ≡ string s)) × (o ≡ some v) × ¬ IsSensitive casing k)
  shown_iff k o v = (there o, back)
    where
      there :
          (o : Option (Value F))
          → shown k o ≡ some v
          → ((s : String) × (v ≡ string s)) × (o ≡ some v) × ¬ IsSensitive casing k
      there (some (string s)) h =
          let plain : is_withheld casing k ≡ false = ground arith in
          let e : some (string s) ≡ some v = rw plain at h in
          let same : v ≡ string s = cc in
          ((s, same), e, λ bad. let k = (withheld_iff casing k).1 bad in absurd (cc))
      there o h = cc

      back :
          ((s : String) × (v ≡ string s)) × (o ≡ some v) × ¬ IsSensitive casing k
          → shown k o ≡ some v
      back ((s, e), f, open_name) = elim (Bool-cases (is_withheld casing k)) [
        | inl hidden ↦ absurd (open_name ((withheld_iff casing k).0 hidden))
        | inr plain ↦ rw (f, e, plain) refl
      ]

  -- Of a dict with distinct keys, the properties that are passed on are exactly those whose value is a
  -- text and whose name, in lower case, neither is ray_storage_path nor has one of the words access,
  -- credential, key, password, secret and token in it.
  pub find-safe_properties :
      (d : Dict F) (k : String) (v : Value F)
      → distinct (keys d) ≡ true
      → (find (safe_properties casing d) k ≡ some v) ↔ IsOpen d k v
  find-safe_properties d k v u = rw (find-shown d k u) (shown_iff k (find d k) v)

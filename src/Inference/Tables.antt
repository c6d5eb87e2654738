-- ===== src/Inference/Tables.antt =====
-- The name of a table, written and read back.
use Prim.Native.Char.{Char, code}
use Prim.Native.String.{[], ◌∷◌, ◌++◌}
use package.text.Mathlib.TextLemmas.{nil-append, cons-append}
use tributo_knova.Prelude.{
  String, true, false, ◌&&◌, List, [], ◌∷◌, ◌==◌, eq_iff, eq_refl, eqb, ◌≡◌, refl, sym, ap, ◌∙◌,
  arith, Bool-cases, inl, inr,
}
use tributo_knova.Python.Text.{is_space, rstrip, strip, is_blank, every, split_dots}
use tributo_knova.Python.Result.{ok, from_ok, ok-injective}
use tributo_knova.Inference.Checks.Laws.{ensure-eq-ok, stripped-eq-ok}
use tributo_knova.Inference.Checks.{
  ensure, is_word, is_identifier, stripped, identifier, qualified_table, native_table_name,
}

every-word : (s : String) → is_identifier s ≡ true → every is_word s ≡ true
unfolding is_identifier
every-word [] h = cc
every-word (c ∷ s) h = ground arith

dot-append : (s : String) → "." ++ s ≡ "." ∷ s
dot-append s = cons-append "." "" s ∙ ap (λ (t : String). "." ∷ t) (nil-append s)

-- a text of such characters is one part
split_dots-word : (s : String) → every is_word s ≡ true → split_dots s ≡ s ∷ []
unfolding split_dots
split_dots-word [] h = refl
split_dots-word (c ∷ s) h =
    let other : eqb (code c) b'.' ≡ false = ground arith in
    rw (other, split_dots-word s (ground arith)) refl

split_dots-append :
    (s t : String) → every is_word s ≡ true → split_dots (s ++ ("." ++ t)) ≡ s ∷ split_dots t
unfolding split_dots
split_dots-append [] t h = rw (nil-append, dot-append) refl
split_dots-append (c ∷ s) t h =
    let other : eqb (code c) b'.' ≡ false = ground arith in
    rw (cons-append c s ("." ++ t), other, split_dots-append s t (ground arith)) refl

space-word : (c : Char) → is_word c ≡ true → is_space (code c) ≡ false
unfolding strip
space-word c h = ground arith

rstrip-word : (s : String) → every is_word s ≡ true → rstrip s ≡ s
unfolding strip
rstrip-word [] h = refl
rstrip-word (c ∷ s) h =
    let other = space-word c (ground arith) in
    rw (rstrip-word s (ground arith), other, and_false) refl
  where
    and_false : (s == "" && false) ≡ false
    and_false = ground arith

strip-identifier : (s : String) → is_identifier s ≡ true → strip s ≡ s
unfolding strip is_identifier
strip-identifier [] h = cc
strip-identifier (c ∷ s) h =
    let other = space-word c (ground arith) in rw other (rstrip-word (c ∷ s) (ground arith))

identifier-eq-ok :
    (s place : String) {r : String}
    → identifier s place ≡ ok r
    → (r ≡ strip s) × (is_identifier r ≡ true)
unfolding identifier
identifier-eq-ok s place h = from_ok (stripped s place) _ h λ r e1 h1.
    from_ok (ensure (is_identifier r) _) _ h1 λ _ e2 h2.
      let same = ok-injective h2 in
      (sym same ∙ stripped-eq-ok s place e1, rw (← same) (ensure-eq-ok (is_identifier r) _ e2))

-- An identifier is not empty.
identifier-some : (s : String) → is_identifier s ≡ true → s == "" ≡ false
unfolding is_identifier
identifier-some s h = elim (Bool-cases (s == "")) [
  | inl empty ↦ let k = rw ((eq_iff s "").0 empty) at h in cc
  | inr other ↦ other
]

-- An identifier is read as itself.
identifier-again : (s place : String) → is_identifier s ≡ true → identifier s place ≡ ok s
unfolding identifier stripped
identifier-again s place h =
    let same = strip-identifier s h in
    let some_text : is_blank s ≡ false = rw same (identifier-some s h) in
    rw (some_text, same, h) refl

-- A qualified name of a table that is written from a database and a table, each stripped of
-- whitespace, is read back as the table, for that database.
pub native_table_name-qualified_table :
    (database table : String) {q : String}
    → qualified_table database table ≡ ok q
    → native_table_name q (strip database) ≡ ok (strip table)
unfolding qualified_table native_table_name
native_table_name-qualified_table database table h =
    from_ok (identifier database "ClickHouse database") _ h λ d e1 h1.
      from_ok (identifier table "ClickHouse table") _ h1 λ t e2 h2.
        let (dn, dw) = identifier-eq-ok database "ClickHouse database" e1 in
        let (tn, tw) = identifier-eq-ok table "ClickHouse table" e2 in
        let parts : split_dots (d ++ ("." ++ t)) ≡ d ∷ t ∷ [] =
          split_dots-append d t (every-word d dw)
          ∙ ap (λ (r : List String). d ∷ r) (split_dots-word t (every-word t tw)) in
        rw (← ok-injective h2, parts, ← dn, ← tn, eq_refl)
          (identifier-again t "input table name" tw)

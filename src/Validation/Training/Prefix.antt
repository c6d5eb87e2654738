-- ===== src/Validation/Training/Prefix.antt =====
-- The storage prefixes that `validate_training_payload` accepts.
use Prim.Native.Char.{Char, code}
use Prim.Native.String.{◌++◌, [], ◌∷◌}
use package.text.Mathlib.TextEquality.{Char-path}
use package.text.Mathlib.TextLemmas.{nil-append, cons-append}
use tributo_knova.Prelude.{
  String, true, false, List, [], ◌∷◌, ◌≡◌, ◌≢◌, refl, sym, ◌∙◌, ap, ◌==◌, eq_iff, elem, any, All,
  eqb, eqb_iff, arith, Bool-cases, inl, inr,
}
use tributo_knova.Python.Text.{starts_slash, ends_slash, drop_last, prepend, split_slash}
use tributo_knova.Python.Value.{Dict, object, string, get}
use tributo_knova.Python.Result.{ok, from_ok}
use tributo_knova.Validation.Fields.{require, obj, text, texts}
use tributo_knova.Validation.Fields.Laws.{require-eq-ok, obj-eq-ok, text-eq-ok}
use tributo_knova.Validation.Training.{safe_prefix, storage_section}

-- the text has no slash
abbrev pub NoSlash : String → Type 0
NoSlash [] = Unit
NoSlash (c ∷ s) = (code c ≢ b'/') × NoSlash s

-- a name of one directory, which is not a way up or to the same place
abbrev pub IsPlain : String → Type 0
IsPlain part = (part ≢ "") × (part ≢ ".") × (part ≢ "..") × NoSlash part

-- the parts, each with a slash behind it
abbrev pub directory : List String → String
directory [] = ""
directory (p ∷ ps) = p ++ ("/" ++ directory ps)

pub split_slash-NoSlash : (s : String) → All NoSlash (split_slash s)
unfolding split_slash
split_slash-NoSlash [] = (tt, tt)
split_slash-NoSlash (c ∷ s) = elim (Bool-cases (eqb (code c) b'/')) [
  | inl slash ↦ rw slash (tt, split_slash-NoSlash s)
  | inr other ↦ rw other (
      prepend-NoSlash c (split_slash s) (ground (arith, eqb_iff (code c) b'/'))
        (split_slash-NoSlash s))
]
  where
    prepend-NoSlash :
        (c : Char) (ps : List String) → code c ≢ b'/' → All NoSlash ps → All NoSlash (prepend c ps)
    prepend-NoSlash c [] n h = ((n, tt), tt)
    prepend-NoSlash c (p ∷ ps) n h = ((n, h.0), h.1)

slash_char : (c : Char) → eqb (code c) b'/' ≡ true → ◌≡◌ {A = Char} c "/"
slash_char c h = Char-path c "/" ((eqb_iff (code c) b'/').0 h)

-- a slash before a text
slash-append : (s : String) → "/" ++ s ≡ "/" ∷ s
slash-append s = cons-append "/" "" s ∙ ap (λ (t : String). "/" ∷ t) (nil-append s)

directory-prepend :
    (c : Char) (p : String) (ps parts : List String)
    → parts ≡ p ∷ ps
    → directory (prepend c parts) ≡ c ∷ directory parts
directory-prepend c p ps parts e = rw e (cons-append c p _)

split_slash-cons : (s : String) → (p : String) × (ps : List String) × (split_slash s ≡ p ∷ ps)
unfolding split_slash
split_slash-cons [] = ("", [], refl)
split_slash-cons (c ∷ s) = elim (Bool-cases (eqb (code c) b'/')) [
  | inl slash ↦ ("", split_slash s, rw slash refl)
  | inr other ↦ let (p, ps, e) = split_slash-cons s in (c ∷ p, ps, rw other (rw e refl))
]

pub directory-split_slash : (s : String) → directory (split_slash s) ≡ s ++ "/"
unfolding split_slash
directory-split_slash [] = refl
directory-split_slash (c ∷ s) = elim (Bool-cases (eqb (code c) b'/')) [
  | inl slash ↦
      rw (slash, nil-append, slash-append, directory-split_slash s, slash_char c slash, cons-append)
        refl
  | inr other ↦
      let (p, ps, e) = split_slash-cons s in
      rw (other, directory-prepend c p ps _ e, directory-split_slash s, cons-append) refl
]

drop_last-ends_slash : (s : String) → ends_slash s ≡ true → drop_last s ++ "/" ≡ s
unfolding drop_last ends_slash
drop_last-ends_slash [] h = cc
drop_last-ends_slash (c ∷ s) h = elim (Bool-cases (s == "")) [
  | inl last ↦ rw (last, (eq_iff s "").0 last, slash_char c (rw last at h)) refl
  | inr more ↦ rw (more, cons-append, drop_last-ends_slash s (rw more at h)) refl
]

pub IsPlain-parts :
    (parts : List String)
    → any (λ part. elem part ("." ∷ ".." ∷ "" ∷ [])) parts ≡ false
    → All NoSlash parts
    → All IsPlain parts
IsPlain-parts [] h n = tt
IsPlain-parts (p ∷ ps) h (n, ns) =
    (ground (arith, eq_iff p "", eq_iff p ".", eq_iff p ".."), IsPlain-parts ps (ground arith) ns)

-- A prefix that passes the test is a directory: parts with a slash behind each, every one of them
-- plain. It neither starts with a slash nor leads up.
pub record IsDirectory (prefix : String) : Type 0 where
  pub parts : List String
  pub is_directory : prefix ≡ directory parts
  pub all_plain : All IsPlain parts
  pub relative : starts_slash prefix ≡ false

safe_prefix-IsDirectory : (prefix : String) → safe_prefix prefix ≡ true → IsDirectory prefix
unfolding safe_prefix
safe_prefix-IsDirectory prefix h = record {
  parts = split_slash (drop_last prefix);
  is_directory =
      sym (directory-split_slash (drop_last prefix) ∙ drop_last-ends_slash prefix (ground arith));
  all_plain =
      IsPlain-parts (split_slash (drop_last prefix)) (ground arith)
        (split_slash-NoSlash (drop_last prefix));
  relative = ground arith;
}

-- The prefix that a request names, and that it is a directory.
pub record IsStorage {F : Type 0} (payload : Dict F) (prefix : String) : Type 0 where
  pub storage : Dict F
  pub has_storage : get payload "storage_context" ≡ object storage
  pub has_prefix : get storage "prefix" ≡ string prefix
  pub directory_like : IsDirectory prefix

-- If the storage section is accepted, the prefix of the request's storage context is a relative
-- directory: its parts, each followed by a slash, are not empty, hold no slash and are not dot
-- segments.
pub storage_section-IsStorage :
    {F : Type 0} (payload : Dict F) {prefix : String}
    → storage_section payload ≡ ok prefix
    → IsStorage payload prefix
unfolding storage_section
storage_section-IsStorage payload {prefix} h =
    from_ok (obj (get payload "storage_context") _) _ h λ storage e1 h1.
      from_ok (texts storage _ _) _ h1 λ _ _ h2.
        from_ok (text (get storage "prefix") _) _ h2 λ found e3 h3.
          from_ok (require (safe_prefix found) _ _) _ h3 λ _ e4 h4.
            let e : found ≡ prefix = cc in
            rw (← e) (record {
              storage = storage;
              has_storage = obj-eq-ok (get payload "storage_context") _ e1;
              has_prefix = text-eq-ok (get storage "prefix") _ e3;
              directory_like =
                  safe_prefix-IsDirectory found (require-eq-ok (safe_prefix found) _ _ e4);
            })

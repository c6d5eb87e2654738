-- ===== src/Validation/Features.antt =====
-- src/tributo_knova/validation.py: `_column`, `_features` and `_label_mapping`.
pub mod Columns
pub mod Labels
use Prim.Native.String.{◌++◌}
use tributo_knova.Prelude.{
  ℕ, zero, suc, String, Bool, false, not, ◌&&◌, ◌||◌, List, [], ◌∷◌, Option, none, some, elem,
  length, all, eqb, if◌then◌else◌,
}
use tributo_knova.Python.Number.{ℤ, pos, int_eqb}
use tributo_knova.Python.Value.{Value, Dict, null, integer, end, get, values}
use tributo_knova.Python.Result.{Result, ok, ◌>>=◌, ◌>>◌}
use tributo_knova.Validation.Fields.{fail, require, obj, text, enum, non_empty, texts, unless_none}

-- `x in xs`, for integers, and `set(xs)`
abbrev pub elem_int : ℤ → List ℤ → Bool
elem_int n [] = false
elem_int n (m ∷ ms) = int_eqb n m || elem_int n ms

abbrev pub int_set : List ℤ → List ℤ
int_set [] = []
int_set (n ∷ ns) = let rest = int_set ns in if elem_int n rest then rest else n ∷ rest

abbrev pub subset_int : List ℤ → List ℤ → Bool
subset_int ms ns = all (λ m. elem_int m ns) ms

-- the members of `range(n)`
abbrev pub range : ℕ → List ℤ
range zero = []
range (suc n) = pos n ∷ range n

-- `len(set(codes)) == len(codes) and set(codes) == set(range(len(codes)))`
unfoldable pub consecutive : List ℤ → Bool
consecutive codes =
    eqb (length (int_set codes)) (length codes)
    && (subset_int codes (range (length codes)) && subset_int (range (length codes)) codes)

abbrev pub feature_roles : List String
feature_roles = "REGULAR" ∷ "TEMPORAL_KEY" ∷ "KNOWN_FUTURE" ∷ []

abbrev pub label_codes : Option (List ℤ) → String → Result (List ℤ)
label_codes (some codes) place = ok codes
label_codes none place = fail place "values must be non-boolean integers"

module _ {F : Type 0} where
  unfoldable pub column : Value F → List String → String → Result String
  column value aliases place = do
    d ← obj value place
    origin ← obj (get d "origin") (place ++ ".origin")
    alias ← text (get origin "table_alias") (place ++ ".origin.table_alias")
    require (elem alias aliases) (place ++ ".origin.table_alias") "must reference tables"
    texts origin ("column_name" ∷ "column_type" ∷ []) (place ++ ".origin.")
    text (get d "result_column") (place ++ ".result_column")

  -- the loop over the features, with the sets `ids` and `columns`
  unfoldable pub scan_features :
      String
      → List String
      → List (Value F)
      → List String
      → List String
      → Result (List String × List String)
  scan_features place aliases [] ids columns = ok (ids, columns)
  scan_features place aliases (raw ∷ rest) ids columns = do
    feature ← obj raw (place ++ "[]")
    feature_id ← text (get feature "feature_id") (place ++ "[].feature_id")
    name ← column raw aliases (place ++ "[]")
    require (not (elem feature_id ids || elem name columns)) place
        "feature_id and result_column must each be unique"
    text (get feature "display_name") (place ++ "[].display_name")
    enum (get feature "feature_role") feature_roles (place ++ "[].feature_role")
    unless_none (get feature "treatment") (obj (get feature "treatment") (place ++ "[].treatment"))
    scan_features place aliases rest (feature_id ∷ ids) (name ∷ columns)

  unfoldable pub features : Value F → List String → String → Result (List String)
  features value aliases place = do
    raws ← non_empty value place "must be a non-empty array"
    (ids, columns) ← scan_features place aliases raws [] []
    ok columns

  -- all values as integers, or none if one is of another type, `bool` included
  abbrev pub integers : List (Value F) → Option (List ℤ)
  integers [] = some []
  integers (integer n ∷ vs) = elim (integers vs) [ none ↦ none | some ns ↦ some (n ∷ ns) ]
  integers (_ ∷ vs) = none

  unfoldable pub label_mapping : Value F → String → Result (Dict F)
  label_mapping null place = ok end
  label_mapping value place = do
    mapping ← obj value place
    codes ← label_codes (integers (values mapping)) place
    require (consecutive codes) place
        "must uniquely encode labels with consecutive integers from zero"
    ok mapping

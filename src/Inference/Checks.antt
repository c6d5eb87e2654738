-- ===== src/Inference/Checks.antt =====
-- src/tributo_knova/inference.py: `_invalid`, `_mapping`, `_text`, `_identifier` and the names of tables.
pub mod Laws
use Prim.Native.Char.{Char, code}
use Prim.Native.String.{[], ◌∷◌, ◌++◌}
use tributo_knova.Prelude.{
  String, Bool, true, false, ◌&&◌, ◌||◌, List, [], ◌∷◌, ◌==◌, leb, eqb, if◌then◌else◌,
}
use tributo_knova.Python.Text.{strip, is_blank, every, split_dots}
use tributo_knova.Python.Value.{Value, Dict, string, object}
use tributo_knova.Python.Result.{Result, ok, err, inference_configuration, ◌>>=◌, ◌>>◌}

-- `_invalid` with the code and the phase that it has by default
unfoldable pub invalid {ℓ} : {A : Type ℓ} → String → Result A
invalid message = err (inference_configuration "INVALID_PAYLOAD" "LOAD_MODEL" message)

-- `if not test: _invalid(message)`
abbrev pub ensure : Bool → String → Result (Unit {0})
ensure true message = ok tt
ensure false message = invalid message

-- a letter or an underscore; and one of those or a digit
abbrev pub is_initial : Char → Bool
is_initial c =
    (leb b'A' (code c) && leb (code c) b'Z')
    || (leb b'a' (code c) && leb (code c) b'z')
    || eqb (code c) b'_'

abbrev pub is_word : Char → Bool
is_word c = is_initial c || (leb b'0' (code c) && leb (code c) b'9')

-- _IDENTIFIER.fullmatch(name) is not None
unfoldable pub is_identifier : String → Bool
is_identifier [] = false
is_identifier (c ∷ s) = is_initial c && every is_word s

-- `_text` on a text
unfoldable pub stripped : String → String → Result String
stripped s place =
    if is_blank s then invalid (place ++ " must be a non-empty string") else ok (strip s)

unfoldable pub identifier : String → String → Result String
unfolding stripped
identifier s place = do
  result ← stripped s place
  ensure (is_identifier result) (place ++ " must be a SQL identifier")
  ok result

unfoldable pub qualified_table : String → String → Result String
qualified_table database table = do
  database_name ← identifier database "ClickHouse database"
  table_name ← identifier table "ClickHouse table"
  ok (database_name ++ ("." ++ table_name))

-- the table of a name that has one dot, if the database is the given one
abbrev pub table_in : String → List String → Result String
table_in database (first ∷ table ∷ []) =
    if first == database
    then identifier table "input table name"
    else invalid "input table must use the same database as its datasource"
table_in database parts = invalid "input table must use the same database as its datasource"

unfoldable pub native_table_name : String → String → Result String
native_table_name value database = table_in database (split_dots value)

module _ {F : Type 0} where
  unfoldable pub mapping : Value F → String → Result (Dict F)
  mapping (object d) place = ok d
  mapping _ place = invalid (place ++ " must be an object")

  unfoldable pub text : Value F → String → Result String
  text (string s) place = stripped s place
  text _ place = invalid (place ++ " must be a non-empty string")

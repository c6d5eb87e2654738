-- ===== src/Training/Columns.antt =====
-- src/tributo_knova/training.py: `_column_mapping` and `_columns`, from the columns of the source to those
-- of the result. Subscripts raise KeyError where a key is missing. The request was validated, so
-- that the names are texts; for anything else the model raises TypeError.
pub mod Renaming
use tributo_knova.Prelude.{
  String, Bool, true, false, not, ◌&&◌, ◌||◌, List, [], ◌∷◌, Option, none, some, elem, ◌==◌,
  if◌then◌else◌,
}
use mathlib.Core.List as L
use tributo_knova.Python.Table.{Table, lookup, assign, table_values}
use tributo_knova.Python.Value.{
  Value, Dict, null, string, array, object, elements, find, get, is_none,
}
use tributo_knova.Python.Result.{Result, ok, err, type_error, key_error, ◌>>=◌, ◌>>◌}
use tributo_knova.Training.Checks.{invalid, ensure}

module _ {F : Type 0} where
  abbrev pub found : Option (Value F) → Result (Value F)
  found none = err key_error
  found (some v) = ok v

  -- v[key], where v is an object
  unfoldable pub item : Value F → String → Result (Value F)
  item (object d) key = found (find d key)
  item v key = err type_error

  abbrev pub name_of : Value F → Result String
  name_of (string s) = ok s
  name_of v = err type_error

  abbrev pub list_of : Value F → Result (List (Value F))
  list_of (array vs) = ok (elements vs)
  list_of v = err type_error

  -- column["origin"]["column_name"], column["result_column"]
  unfoldable pub names_of : Value F → Result (String × String)
  unfolding item
  names_of column = do
    origin ← item column "origin"
    source ← item origin "column_name" >>= name_of
    result ← item column "result_column" >>= name_of
    ok (source, result)

-- no key yet, or with that value; and the key with that value
abbrev pub is_free_or : Option String → String → Bool
is_free_or none result = true
is_free_or (some r) result = r == result

abbrev pub is_already : Option String → String → Bool
is_already none result = false
is_already (some r) result = r == result

unfoldable pub add_column : Table → String × String → Result Table
add_column t (source, result) = do
  ensure (is_free_or (lookup t source) result)
      "multiple result aliases for one source column are unsupported"
  ensure (not (elem result (table_values t)) || is_already (lookup t source) result)
      "result_column must identify one source column"
  ok (assign t source result)

module _ {F : Type 0} where
  unfoldable pub add_columns : List (Value F) → Table → Result Table
  unfolding names_of add_column
  add_columns [] t = ok t
  add_columns (column ∷ rest) t = do
    names ← names_of column
    next ← add_column t names
    add_columns rest next

  abbrev pub with_entity : Value F → List (Value F) → List (Value F)
  with_entity null columns = columns
  with_entity entity columns = L.◌++◌ columns (entity ∷ [])

  abbrev pub entity_of : Value F → Result (Value F)
  entity_of (object d) = ok (get d "entity_key")
  entity_of v = err type_error

  unfoldable pub column_mapping : Dict F → Result Table
  unfolding add_columns
  column_mapping payload = do
    features ← found (find payload "features") >>= list_of
    target ← found (find payload "target")
    entity ← found (find payload "data_query") >>= entity_of
    add_columns (with_entity entity (L.◌++◌ features (target ∷ []))) []

  unfoldable pub result_columns : List (Value F) → Result (List String)
  unfolding item
  result_columns [] = ok []
  result_columns (feature ∷ rest) = do
    name ← item feature "result_column" >>= name_of
    names ← result_columns rest
    ok (name ∷ names)

  -- `_columns`: the names of the features, and of the label
  unfoldable pub columns : Dict F → Result (List String × String)
  unfolding result_columns
  columns payload = do
    features ← found (find payload "features") >>= list_of
    names ← result_columns features
    target ← found (find payload "target")
    label ← item target "result_column" >>= name_of
    ok (names, label)

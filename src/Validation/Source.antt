-- ===== src/Validation/Source.antt =====
-- src/tributo_knova/validation.py: `_datasource` and `_query`.
pub mod Laws
use Prim.Native.String.{◌++◌}
use tributo_knova.Prelude.{String, List, [], ◌∷◌, all}
use tributo_knova.Python.Number.{pos, int_leb}
use tributo_knova.Python.Value.{Value, object, end, get, get_or, values}
use tributo_knova.Python.Result.{Result, for_each, ◌>>=◌, ◌>>◌}
use tributo_knova.Validation.Fields.{require, obj, text, enum, int, texts, unless_none, is_text}

abbrev pub source_types : List String
source_types = "CLICKHOUSE" ∷ "DORIS" ∷ "HIVE" ∷ "JDBC" ∷ []

module _ {F : Type 0} where
  unfoldable pub datasource : Value F → String → Result (Unit {0})
  datasource value place = do
    d ← obj value place
    enum (get d "type") source_types (place ++ ".type")
    texts d ("host" ∷ "database_name" ∷ []) (place ++ ".")
    port ← int (get d "port") (place ++ ".port") 1
    require (int_leb port (pos 65535)) (place ++ ".port") "must be <= 65535"
    unless_none (get d "properties") (obj (get d "properties") (place ++ ".properties"))
    for_each
        (λ name.
          unless_none (get d name)
            (require (is_text (get d name)) (place ++ "." ++ name) "must be a string"))
        ("username" ∷ "password" ∷ "credential_ref" ∷ "connection_string" ∷ [])

  unfoldable pub query : Value F → String → Result (Unit {0})
  query value place = do
    d ← obj value place
    text (get d "sql") (place ++ ".sql")
    params ← obj (get_or d "params" (object end)) (place ++ ".params")
    require (all is_text (values params)) (place ++ ".params") "values must be strings"

-- ===== src/Tests/Payloads.antt =====
-- A training and an inference request.
use tributo_knova.Prelude.{ℕ, String, List, [], ◌∷◌}
use tributo_knova.Python.Number.{pos}
use tributo_knova.Python.Value.{
  Value, Items, Dict, string, integer, array, object, nil, cons, end, field,
}
use tributo_knova.Tests.Decimal.{Decimal}

abbrev pub dict : List (String × Value Decimal) → Dict Decimal
dict [] = end
dict ((k, v) ∷ rest) = field k v (dict rest)

abbrev pub list_of : List (Value Decimal) → Items Decimal
list_of [] = nil
list_of (v ∷ vs) = cons v (list_of vs)

abbrev pub obj_of : List (String × Value Decimal) → Value Decimal
obj_of fields = object (dict fields)

abbrev pub arr_of : List (Value Decimal) → Value Decimal
arr_of vs = array (list_of vs)

abbrev pub num : ℕ → Value Decimal
num n = integer (pos n)

abbrev pub source : Value Decimal
source = obj_of (
    ("type", string "CLICKHOUSE")
    ∷ ("host", string "db")
    ∷ ("database_name", string "main")
    ∷ ("port", num 9000)
    ∷ [])

abbrev pub table : String → String → Value Decimal
table alias role = obj_of (
    ("table_alias", string alias)
    ∷ ("database_name", string "main")
    ∷ ("table_name", string "t")
    ∷ ("role", string role)
    ∷ [])

abbrev pub tables : Value Decimal
tables = arr_of (table "a" "PRIMARY" ∷ table "b" "JOINED" ∷ [])

abbrev pub relations : Value Decimal
relations = arr_of (
    obj_of (
      ("left_alias", string "a")
      ∷ ("right_alias", string "b")
      ∷ ("join_type", string "LEFT")
      ∷ (
        "on",
        arr_of (obj_of (("left_column", string "id") ∷ ("right_column", string "id") ∷ []) ∷ []),
      )
      ∷ [])
    ∷ [])

abbrev pub origin : String → Value Decimal
origin alias = obj_of (
    ("table_alias", string alias)
    ∷ ("column_name", string "c")
    ∷ ("column_type", string "Int")
    ∷ [])

abbrev pub feature : String → String → String → Value Decimal
feature id alias name = obj_of (
    ("feature_id", string id)
    ∷ ("origin", origin alias)
    ∷ ("result_column", string name)
    ∷ ("display_name", string "D")
    ∷ ("feature_role", string "REGULAR")
    ∷ [])

abbrev pub features : Value Decimal
features = arr_of (feature "f1" "a" "x" ∷ feature "f2" "b" "y" ∷ [])

abbrev pub entity : Value Decimal
entity = obj_of (("origin", origin "a") ∷ ("result_column", string "id") ∷ [])

abbrev pub label_dict : Dict Decimal
label_dict = dict (("no", num 0) ∷ ("yes", num 1) ∷ [])

abbrev pub labels : Value Decimal
labels = object label_dict

abbrev pub target : Value Decimal
target = obj_of (
    ("task_type", string "BINARY_CLASSIFICATION")
    ∷ ("origin", origin "b")
    ∷ ("result_column", string "z")
    ∷ ("display_name", string "T")
    ∷ ("label_mapping", labels)
    ∷ [])

abbrev pub domain : Value Decimal
domain = obj_of (("type", string "INT") ∷ ("min", num 2) ∷ ("max", num 8) ∷ [])

abbrev pub algorithm : Dict Decimal
algorithm = dict (
    ("category", string "CLASSIFICATION")
    ∷ ("algorithm_key", string "xgboost")
    ∷ ("hyper_params", obj_of [])
    ∷ [])

abbrev pub auto_tuning : Value Decimal
auto_tuning = obj_of (
    ("mode", string "AUTO")
    ∷ (
      "auto_config",
      obj_of (
          ("sampler", obj_of (("type", string "RANDOM") ∷ []))
          ∷ ("budget", obj_of (("max_trials", num 5) ∷ []))
          ∷ ("search_space", obj_of (("max_depth", domain) ∷ []))
          ∷ []),
    )
    ∷ [])

abbrev pub sql : Value Decimal
sql = obj_of (("sql", string "select 1") ∷ [])

abbrev pub storage : Value Decimal
storage =
    obj_of
      (("type", string "S3") ∷ ("bucket", string "models") ∷ ("prefix", string "tenant/m1/") ∷ [])

abbrev pub training : Dict Decimal
training = dict (
    ("protocol_version", string "2.0")
    ∷ ("tenant_id", string "t")
    ∷ ("job_id", string "job-1")
    ∷ ("model_id", string "m1")
    ∷ ("version_id", string "v1")
    ∷ ("algorithm", object algorithm)
    ∷ ("datasource", source)
    ∷ ("tables", tables)
    ∷ ("relations", relations)
    ∷ ("features", features)
    ∷ (
      "data_query",
      obj_of (("mode", string "DIRECT_QUERY") ∷ ("query", sql) ∷ ("entity_key", entity) ∷ []),
    )
    ∷ ("target", target)
    ∷ ("tuning", auto_tuning)
    ∷ ("storage_context", storage)
    ∷ [])

abbrev pub inference : Dict Decimal
inference = dict (
    ("protocol_version", string "2.0")
    ∷ ("tenant_id", string "t")
    ∷ ("execution_id", string "run-1")
    ∷ ("task_id", string "task-1")
    ∷ (
      "model",
      obj_of (
          ("model_id", string "m1")
          ∷ ("version_id", string "v1")
          ∷ ("algorithm_key", string "xgboost")
          ∷ ("algorithm_category", string "CLASSIFICATION")
          ∷ ("task_type", string "BINARY_CLASSIFICATION")
          ∷ ("storage", storage)
          ∷ ("model_artifacts", obj_of (("onnx", string "model.onnx") ∷ []))
          ∷ []),
    )
    ∷ (
      "input",
      obj_of (
          ("datasource", source)
          ∷ ("tables", tables)
          ∷ ("relations", relations)
          ∷ ("features", features)
          ∷ ("entity_key", entity)
          ∷ ("query", sql)
          ∷ []),
    )
    ∷ ("output", obj_of (("datasource", source) ∷ ("table_name", string "scores") ∷ []))
    ∷ [])

-- a scheduler whose resource is no name
abbrev pub asha : Dict Decimal
asha = dict (("type", string "ASHA") ∷ ("resource_param", array nil) ∷ [])

abbrev pub unhashable : Dict Decimal
unhashable = dict (("scheduler", object asha) ∷ [])

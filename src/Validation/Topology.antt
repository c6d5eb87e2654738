-- ===== src/Validation/Topology.antt =====
-- src/tributo_knova/validation.py: `_topology`, the join graph of the declared tables.
pub mod Graph
mod Scan
mod Joins
pub mod Tree
use Prim.Native.String.{◌++◌}
use tributo_knova.Prelude.{
  String, not, ◌&&◌, List, [], ◌∷◌, Option, none, some, ◌==◌, elem, subset, length, ltb,
  if◌then◌else◌,
}
use tributo_knova.Python.Value.{Value, Dict, string, array, nil, cons, elements, get, get_or}
use tributo_knova.Python.Result.{Result, ok, for_each, ◌>>=◌, ◌>>◌}
use tributo_knova.Validation.Fields.{fail, require, obj, text, enum, non_empty, texts}

-- `PRIMARY` may be declared once; `primary` is the alias found so far.
abbrev pub next_primary : String → Option String → String → String → Result (Option String)
next_primary role primary alias place =
    if role == "PRIMARY"
    then (elim primary [
      | none ↦ ok (some alias)
      | some p ↦ fail (place ++ "tables") "must have exactly one PRIMARY"
    ])
    else ok primary

abbrev pub expansion : Option String → String → Result String
expansion (some right) place = ok right
expansion none place =
    fail (place ++ "relations") "must expand once from PRIMARY using declared aliases"

abbrev pub single_primary : Option String → String → Result String
single_primary (some p) place = ok p
single_primary none place = fail (place ++ "tables") "must have exactly one PRIMARY"

module _ {F : Type 0} where
  -- the loop over `tables`; a set is a list, its latest member first
  unfoldable pub scan_tables :
      String → List (Value F) → List String → Option String → Result (List String × Option String)
  scan_tables place [] aliases primary = ok (aliases, primary)
  scan_tables place (raw ∷ rest) aliases primary = do
    table ← obj raw (place ++ "tables[]")
    alias ← text (get table "table_alias") (place ++ "tables[].table_alias")
    require (not (elem alias aliases)) (place ++ "tables[].table_alias") "must be unique"
    texts table ("database_name" ∷ "table_name" ∷ []) (place ++ "tables[].")
    role ← enum (get table "role") ("PRIMARY" ∷ "JOINED" ∷ []) (place ++ "tables[].role")
    primary' ← next_primary role primary alias place
    scan_tables place rest (alias ∷ aliases) primary'

  -- both ends are texts, the left one is connected, the right one is declared and is not
  abbrev pub expands : Value F → Value F → List String → List String → Option String
  expands (string left) (string right) aliases connected =
      if elem left connected && elem right aliases && not (elem right connected)
      then some right
      else none
  expands _ _ aliases connected = none

  abbrev pub condition : String → Value F → Result (Unit {0})
  condition place raw = do
    c ← obj raw (place ++ "relations[].on[]")
    texts c ("left_column" ∷ "right_column" ∷ []) (place ++ "relations[].on[].")

  -- the loop over `relations`
  unfoldable pub join_relations :
      String → List String → List (Value F) → List String → Result (List String)
  join_relations place aliases [] connected = ok connected
  join_relations place aliases (raw ∷ rest) connected = do
    relation ← obj raw (place ++ "relations[]")
    right ←
        expansion
          (expands (get relation "left_alias") (get relation "right_alias") aliases connected) place
    enum (get relation "join_type") ("INNER" ∷ "LEFT" ∷ []) (place ++ "relations[].join_type")
    conditions ← non_empty (get relation "on") (place ++ "relations[].on") "must be non-empty"
    for_each (condition place) conditions
    join_relations place aliases rest (right ∷ connected)

  -- `not isinstance(relations, list) or (len(aliases) > 1 and not relations)` fails
  abbrev pub relation_list : Value F → List String → String → Result (List (Value F))
  relation_list (array nil) aliases place =
      if ltb 1 (length aliases)
      then fail (place ++ "relations") "must connect the declared tables"
      else ok []
  relation_list (array (cons v vs)) aliases place = ok (v ∷ elements vs)
  relation_list _ aliases place = fail (place ++ "relations") "must connect the declared tables"

  unfoldable pub topology : Dict F → String → Result (List String)
  topology value place = do
    tables ← non_empty (get value "tables") (place ++ "tables") "must be a non-empty array"
    (aliases, found) ← scan_tables place tables [] none
    primary ← single_primary found place
    relations ← relation_list (get_or value "relations" (array nil)) aliases place
    connected ← join_relations place aliases relations (primary ∷ [])
    require (subset connected aliases && subset aliases connected) (place ++ "relations")
        "must connect all tables to PRIMARY"
    ok aliases

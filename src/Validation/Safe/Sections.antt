-- ===== src/Validation/Safe/Sections.antt =====
-- The sections that both kinds of request share raise ProtocolValidationError and nothing else.

use tributo_knova.Prelude.{
  String, not, ◌&&◌, ◌||◌, List, [], ◌∷◌, Option, none, some, elem, subset, all, arith,
}
use tributo_knova.Python.Number.{ℤ, pos, int_leb}
use tributo_knova.Python.Value.{Value, Dict, null, object, end, get, get_or, values, array, nil}
use tributo_knova.Python.Result.{for_each}
use tributo_knova.Validation.Fields.{
  fail, require, obj, text, enum, int, non_empty, texts, unless_none, is_text,
}
use tributo_knova.Validation.Source.{datasource, query}
use tributo_knova.Validation.Topology.{
  next_primary, expansion, single_primary, scan_tables, expands, condition, join_relations,
  relation_list, topology,
}
use tributo_knova.Validation.Features.{
  column, scan_features, features, consecutive, integers, label_codes, label_mapping,
}
use tributo_knova.Validation.Safe.{
  IsSafe, IsSafe-ok, IsSafe-fail, IsSafe->>=, IsSafe-for_each, IsSafe-require, IsSafe-obj,
  IsSafe-text, IsSafe-enum, IsSafe-int, IsSafe-non_empty, IsSafe-texts, IsSafe-unless_none,
}

IsSafe-next_primary :
    (role : String) (primary : Option String) (alias place : String)
    → IsSafe (next_primary role primary alias place)
unfolding fail
IsSafe-next_primary role none alias place = record { only = λ x h. ground arith }
IsSafe-next_primary role (some p) alias place = record { only = λ x h. ground arith }

IsSafe-expansion : (o : Option String) (place : String) → IsSafe (expansion o place)
IsSafe-expansion (some right) place = IsSafe-ok right
IsSafe-expansion none place = IsSafe-fail _ _

IsSafe-single_primary : (o : Option String) (place : String) → IsSafe (single_primary o place)
IsSafe-single_primary (some p) place = IsSafe-ok p
IsSafe-single_primary none place = IsSafe-fail _ _

IsSafe-label_codes : (o : Option (List ℤ)) (place : String) → IsSafe (label_codes o place)
IsSafe-label_codes (some codes) place = IsSafe-ok codes
IsSafe-label_codes none place = IsSafe-fail place _

module _ {F : Type 0} where
  pub IsSafe-datasource : (v : Value F) (place : String) → IsSafe (datasource v place)
  unfolding datasource
  IsSafe-datasource v place = IsSafe->>= (obj v _) _ (IsSafe-obj v _) λ d.
      IsSafe->>= (enum (get d "type") _ _) _ (IsSafe-enum (get d "type") _ _) λ _.
        IsSafe->>= (texts d _ _) _ (IsSafe-texts d _ _) λ _.
          IsSafe->>= (int (get d "port") _ 1) _ (IsSafe-int (get d "port") _ 1) λ port.
            IsSafe->>= (require (int_leb port (pos 65535)) _ _) _ (IsSafe-require _ _ _) λ _.
              IsSafe->>= (unless_none (get d "properties") _) _
                (IsSafe-unless_none (get d "properties") _ (IsSafe-obj (get d "properties") _))
                λ _.
                  IsSafe-for_each _ _
                    λ name. IsSafe-unless_none (get d name) _ (IsSafe-require _ _ _)

  pub IsSafe-query : (v : Value F) (place : String) → IsSafe (query v place)
  unfolding query
  IsSafe-query v place = IsSafe->>= (obj v _) _ (IsSafe-obj v _) λ d.
      IsSafe->>= (text (get d "sql") _) _ (IsSafe-text (get d "sql") _) λ _.
        IsSafe->>= (obj (get_or d "params" (object end)) _) _
          (IsSafe-obj (get_or d "params" (object end)) _)
          λ params. IsSafe-require (all is_text (values params)) _ _

  pub IsSafe-column :
      (v : Value F) (aliases : List String) (place : String) → IsSafe (column v aliases place)
  unfolding column
  IsSafe-column v aliases place = IsSafe->>= (obj v _) _ (IsSafe-obj v _) λ d.
      IsSafe->>= (obj (get d "origin") _) _ (IsSafe-obj (get d "origin") _) λ origin.
        IsSafe->>= (text (get origin "table_alias") _) _ (IsSafe-text (get origin "table_alias") _)
          λ alias. IsSafe->>= (require (elem alias aliases) _ _) _ (IsSafe-require _ _ _) λ _.
            IsSafe->>= (texts origin _ _) _ (IsSafe-texts origin _ _)
              λ _. IsSafe-text (get d "result_column") _

  IsSafe-scan_features :
      (place : String) (aliases : List String) (vs : List (Value F)) (ids columns : List String)
      → IsSafe (scan_features place aliases vs ids columns)
  unfolding scan_features
  IsSafe-scan_features place aliases [] ids columns = IsSafe-ok _
  IsSafe-scan_features place aliases (raw ∷ rest) ids columns =
      IsSafe->>= (obj raw _) _ (IsSafe-obj raw _) λ d.
        IsSafe->>= (text (get d "feature_id") _) _ (IsSafe-text (get d "feature_id") _) λ id.
          IsSafe->>= (column raw aliases _) _ (IsSafe-column raw aliases _) λ name.
            IsSafe->>= (require (not (elem id ids || elem name columns)) place _) _
              (IsSafe-require _ _ _)
              λ _.
                IsSafe->>= (text (get d "display_name") _) _ (IsSafe-text (get d "display_name") _)
                  λ _.
                    IsSafe->>= (enum (get d "feature_role") _ _) _
                      (IsSafe-enum (get d "feature_role") _ _)
                      λ _.
                        IsSafe->>= (unless_none (get d "treatment") _) _
                          (IsSafe-unless_none (get d "treatment") _
                            (IsSafe-obj (get d "treatment") _))
                          λ _. IsSafe-scan_features place aliases rest (id ∷ ids) (name ∷ columns)

  pub IsSafe-features :
      (v : Value F) (aliases : List String) (place : String) → IsSafe (features v aliases place)
  unfolding features
  IsSafe-features v aliases place =
      IsSafe->>= (non_empty v place _) _ (IsSafe-non_empty v place _) λ raws.
        IsSafe->>= (scan_features place aliases raws [] []) _
          (IsSafe-scan_features place aliases raws [] []) λ out. IsSafe-ok out.1

  pub IsSafe-label_mapping : (v : Value F) (place : String) → IsSafe (label_mapping v place)
  unfolding label_mapping
  IsSafe-label_mapping null place = IsSafe-ok end
  IsSafe-label_mapping v place = IsSafe->>= (obj v place) _ (IsSafe-obj v place) λ d.
      IsSafe->>= (label_codes (integers (values d)) place) _ (IsSafe-label_codes _ place) λ codes.
        IsSafe->>= (require (consecutive codes) place _) _ (IsSafe-require _ _ _) λ _. IsSafe-ok d

  IsSafe-scan_tables :
      (place : String) (tables : List (Value F)) (aliases : List String) (primary : Option String)
      → IsSafe (scan_tables place tables aliases primary)
  unfolding scan_tables
  IsSafe-scan_tables place [] aliases primary = IsSafe-ok _
  IsSafe-scan_tables place (raw ∷ rest) aliases primary =
      IsSafe->>= (obj raw _) _ (IsSafe-obj raw _) λ d.
        IsSafe->>= (text (get d "table_alias") _) _ (IsSafe-text (get d "table_alias") _) λ alias.
          IsSafe->>= (require (not (elem alias aliases)) _ _) _ (IsSafe-require _ _ _) λ _.
            IsSafe->>= (texts d _ _) _ (IsSafe-texts d _ _) λ _.
              IsSafe->>= (enum (get d "role") _ _) _ (IsSafe-enum (get d "role") _ _) λ role.
                IsSafe->>= (next_primary role primary alias place) _
                  (IsSafe-next_primary role primary alias place)
                  λ p. IsSafe-scan_tables place rest (alias ∷ aliases) p

  IsSafe-condition : (place : String) (raw : Value F) → IsSafe (condition place raw)
  IsSafe-condition place raw = IsSafe->>= (obj raw _) _ (IsSafe-obj raw _) λ c. IsSafe-texts c _ _

  IsSafe-join_relations :
      (place : String) (aliases : List String) (rest : List (Value F)) (connected : List String)
      → IsSafe (join_relations place aliases rest connected)
  unfolding join_relations
  IsSafe-join_relations place aliases [] connected = IsSafe-ok connected
  IsSafe-join_relations place aliases (raw ∷ rest) connected =
      IsSafe->>= (obj raw _) _ (IsSafe-obj raw _) λ d.
        IsSafe->>=
          (expansion (expands (get d "left_alias") (get d "right_alias") aliases connected) place) _
          (IsSafe-expansion _ place)
          λ right.
            IsSafe->>= (enum (get d "join_type") _ _) _ (IsSafe-enum (get d "join_type") _ _) λ _.
              IsSafe->>= (non_empty (get d "on") _ _) _ (IsSafe-non_empty (get d "on") _ _)
                λ conditions.
                  IsSafe->>= (for_each (condition place) conditions) _
                    (IsSafe-for_each _ conditions (IsSafe-condition place))
                    λ _. IsSafe-join_relations place aliases rest (right ∷ connected)

  IsSafe-relation_list :
      (v : Value F) (aliases : List String) (place : String)
      → IsSafe (relation_list v aliases place)
  unfolding fail
  IsSafe-relation_list v aliases place = record { only = λ x h. ground arith }

  pub IsSafe-topology : (d : Dict F) (place : String) → IsSafe (topology d place)
  unfolding topology
  IsSafe-topology d place =
      IsSafe->>= (non_empty (get d "tables") _ _) _ (IsSafe-non_empty (get d "tables") _ _)
        λ tables.
          IsSafe->>= (scan_tables place tables [] none) _ (IsSafe-scan_tables place tables [] none)
            λ out.
              IsSafe->>= (single_primary out.1 place) _ (IsSafe-single_primary out.1 place) λ root.
                IsSafe->>= (relation_list (get_or d "relations" (array nil)) out.0 place) _
                  (IsSafe-relation_list _ out.0 place)
                  λ relations.
                    IsSafe->>= (join_relations place out.0 relations (root ∷ [])) _
                      (IsSafe-join_relations place out.0 relations (root ∷ []))
                      λ connected.
                        IsSafe->>= (require (subset connected out.0 && subset out.0 connected) _ _)
                          _ (IsSafe-require _ _ _) λ _. IsSafe-ok out.0

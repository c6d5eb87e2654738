-- ===== src/Validation/Features/Columns.antt =====
-- The features that `_features` accepts.
use tributo_knova.Prelude.{String, true, not, ◌||◌, List, [], ◌∷◌, ◌≡◌, refl, elem, distinct, arith}
use tributo_knova.Python.Value.{Value, Dict, string, object, get, array_of, text_at, texts_at}
use tributo_knova.Python.Result.{ok, from_ok}
use tributo_knova.Validation.Fields.{require, obj, text, enum, non_empty, texts, unless_none}
use tributo_knova.Validation.Fields.Laws.{require-eq-ok, obj-eq-ok, text-eq-ok, non_empty-eq-ok}
use tributo_knova.Validation.Features.{column, scan_features, features}

module _ {F : Type 0} where
  -- The value names a column of one of the declared tables, and the column of the result.
  pub record IsColumn (aliases : List String) (v : Value F) (name : String) : Type 0 where
    pub d : Dict F
    pub origin : Dict F
    pub alias : String
    pub is_object : v ≡ object d
    pub has_origin : get d "origin" ≡ object origin
    pub has_alias : get origin "table_alias" ≡ string alias
    pub is_declared : elem alias aliases ≡ true
    pub has_name : get d "result_column" ≡ string name

  pub column-IsColumn :
      (v : Value F) (aliases : List String) (place : String) {name : String}
      → column v aliases place ≡ ok name
      → IsColumn aliases v name
  unfolding column
  column-IsColumn v aliases place h = from_ok (obj v _) _ h λ d e1 h1.
      from_ok (obj (get d "origin") _) _ h1 λ origin e2 h2.
        from_ok (text (get origin "table_alias") _) _ h2 λ alias e3 h3.
          from_ok (require (elem alias aliases) _ _) _ h3 λ _ e4 h4.
            from_ok (texts origin _ _) _ h4 λ _ _ h5. record {
              d = d;
              origin = origin;
              alias = alias;
              is_object = obj-eq-ok v _ e1;
              has_origin = obj-eq-ok (get d "origin") _ e2;
              has_alias = text-eq-ok (get origin "table_alias") _ e3;
              is_declared = require-eq-ok (elem alias aliases) _ _ e4;
              has_name = text-eq-ok (get d "result_column") _ h5;
            }

  abbrev pub AllColumns : List String → List (Value F) → Type 0
  AllColumns aliases [] = Unit
  AllColumns aliases (v ∷ vs) = ((name : String) × IsColumn aliases v name) × AllColumns aliases vs

  text_at-column :
      (aliases : List String) (v : Value F) (name : String)
      → IsColumn aliases v name
      → text_at "result_column" v ≡ name ∷ []
  text_at-column aliases v name c = rw c.is_object (rw c.has_name refl)

  -- What the loop has seen: the sets are the texts of the features, none of them twice.
  pub record IsFeatures (aliases : List String) (vs : List (Value F))
      (ids columns out_ids out_columns : List String) : Type 0 where
    pub same_ids : out_ids ≡ texts_at "feature_id" vs ids
    pub same_columns : out_columns ≡ texts_at "result_column" vs columns
    pub unique_ids : distinct out_ids ≡ true
    pub unique_columns : distinct out_columns ≡ true
    pub owned : AllColumns aliases vs

  scan_features-IsFeatures :
      (place : String) (aliases : List String) (vs : List (Value F)) (ids columns : List String)
      {out : List String × List String}
      → scan_features place aliases vs ids columns ≡ ok out
      → distinct ids ≡ true
      → distinct columns ≡ true
      → IsFeatures aliases vs ids columns out.0 out.1
  unfolding scan_features
  scan_features-IsFeatures place aliases [] ids columns {out} h di dc =
      let e : out ≡ (ids, columns) = cc in
      rw e (record {
        same_ids = refl;
        same_columns = refl;
        unique_ids = di;
        unique_columns = dc;
        owned = tt;
      })
  scan_features-IsFeatures place aliases (raw ∷ rest) ids columns {out} h di dc =
      from_ok (obj raw _) _ h λ d e1 h1. from_ok (text (get d "feature_id") _) _ h1 λ id e2 h2.
        from_ok (column raw aliases _) _ h2 λ name e3 h3.
          from_ok (require (not (elem id ids || elem name columns)) place _) _ h3 λ _ e4 h4.
            from_ok (text (get d "display_name") _) _ h4 λ _ _ h5.
              from_ok (enum (get d "feature_role") _ _) _ h5 λ _ _ h6.
                from_ok (unless_none (get d "treatment") _) _ h6 λ _ _ h7.
                  let c = column-IsColumn raw aliases _ e3 in
                  let fresh = require-eq-ok (not (elem id ids || elem name columns)) _ _ e4 in
                  let ih =
                    scan_features-IsFeatures place aliases rest (id ∷ ids) (name ∷ columns) h7
                      (ground arith) (ground arith) in
                  record {
                    same_ids =
                        rw (obj-eq-ok raw _ e1)
                          (rw (text-eq-ok (get d "feature_id") _ e2) ih.same_ids);
                    same_columns = rw (text_at-column aliases raw name c) ih.same_columns;
                    unique_ids = ih.unique_ids;
                    unique_columns = ih.unique_columns;
                    owned = ((name, c), ih.owned);
                  }

  -- Accepted features: the result columns come back, the last one first; no result column and no
  -- feature id stands twice, and every feature names a column of a declared table.
  pub features-IsFeatures :
      (v : Value F) (aliases : List String) (place : String) {columns : List String}
      → features v aliases place ≡ ok columns
      → (ids : List String) × IsFeatures aliases (array_of v) [] [] ids columns
  unfolding features
  features-IsFeatures v aliases place {columns} h = from_ok (non_empty v place _) _ h λ raws e1 h1.
      from_ok (scan_features place aliases raws [] []) _ h1 λ out e2 h2.
        let e : out.1 ≡ columns = cc in
        (
          out.0,
          rw (← e) (
              rw (← (non_empty-eq-ok v place _ e1).0)
                (scan_features-IsFeatures place aliases raws [] [] e2 refl refl)),
        )

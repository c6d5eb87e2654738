-- ===== src/Training/Columns/Renaming.antt =====
-- The renaming that `_column_mapping` gives.
use tributo_knova.Prelude.{
  eq_refl, String, true, not, ◌||◌, List, [], ◌∷◌, Option, none, some, ◌≡◌, sym, ap, ◌∙◌, ◌⊎◌, inl,
  inr, elem, All, ◌==◌, eq_iff, arith, Bool-cases, if◌then◌else◌,
}
use mathlib.Core.Path.{subst}
use mathlib.Core.List as L
use tributo_knova.Python.Table.{Table, lookup, assign, table_values}
use tributo_knova.Python.Table.Laws.{lookup-assign, elem-lookup}
use tributo_knova.Python.Value.{Value, Dict, find}
use tributo_knova.Python.Result.{ok, from_ok, ok-injective, ◌>>=◌}
use tributo_knova.Training.Checks.{ensure}
use tributo_knova.Training.Checks.Laws.{ensure-eq-ok}
use tributo_knova.Training.Columns.{
  found, names_of, list_of, entity_of, is_free_or, is_already, add_column, add_columns, with_entity,
  column_mapping,
}

-- No two keys have one value.
pub record IsInjective (t : Table) : Type 0 where
  pub same : (a b v : String) → lookup t a ≡ some v → lookup t b ≡ some v → a ≡ b

already-eq : (o : Option String) (r : String) → is_already o r ≡ true → o ≡ some r
already-eq none r h = cc
already-eq (some x) r h = ap (λ (y : String). some y) ((eq_iff x r).0 h)

free_or-eq : (o : Option String) (r v : String) → is_free_or o r ≡ true → o ≡ some v → v ≡ r
free_or-eq none r v h e = cc
free_or-eq (some x) r v h e = ground (arith, eq_iff x r, eq_iff v r)

-- what `add_column` has checked
pub record IsAdded (t u : Table) (source result : String) : Type 0 where
  pub free : is_free_or (lookup t source) result ≡ true
  pub own : (not (elem result (table_values t)) || is_already (lookup t source) result) ≡ true
  pub written : u ≡ assign t source result

add_column-IsAdded :
    (t : Table) (source result : String) {u : Table}
    → add_column t (source, result) ≡ ok u
    → IsAdded t u source result
unfolding add_column
add_column-IsAdded t source result h =
    from_ok (ensure (is_free_or (lookup t source) result) _) _ h λ _ e1 h1.
      from_ok (ensure (not (elem result (table_values t)) || is_already (lookup t source) result) _)
        _ h1
        λ _ e2 h2. record {
          free = ensure-eq-ok (is_free_or (lookup t source) result) _ e1;
          own =
              ensure-eq-ok
                (not (elem result (table_values t)) || is_already (lookup t source) result) _ e2;
          written = sym (ok-injective h2);
        }

-- A key with the value that is written is the key that it is written at.
owner :
    (t u : Table) (source result b : String)
    → IsInjective t
    → IsAdded t u source result
    → lookup t b ≡ some result
    → b ≡ source
owner t u source result b i a l =
    let there = elem-lookup t b result l in
    let already = already-eq (lookup t source) result (ground arith) in
    i.same b source result l already

-- A key of the new table is the one that was written, or has what it had.
read_back :
    (t u : Table) (source result k v : String)
    → IsAdded t u source result
    → lookup u k ≡ some v
    → ((source ≡ k) × (result ≡ v)) ⊎ (lookup t k ≡ some v)
read_back t u source result k v a l =
    let e : lookup u k ≡ (if source == k then some result else lookup t k) =
      rw a.written (lookup-assign t source k result) in
    elim (Bool-cases (source == k)) [
      | inl same ↦ inl ((eq_iff source k).0 same, some-injective (sym (rw same at e) ∙ l))
      | inr other ↦ inr (sym (rw other at e) ∙ l)
    ]
  where
    some-injective : {x y : String} → some x ≡ some y → x ≡ y
    some-injective e = cc

IsAdded-IsInjective :
    (t u : Table) (source result : String)
    → IsInjective t
    → IsAdded t u source result
    → IsInjective u
IsAdded-IsInjective t u source result i a = record {
  same = λ p q v lp lq. elim (read_back t u source result p v a lp) [
    | inl (sp, rp) ↦ elim (read_back t u source result q v a lq) [
      | inl (sq, rq) ↦ sym sp ∙ sq
      | inr tq ↦
          sym sp ∙ sym (owner t u source result q i a (tq ∙ ap (λ (x : String). some x) (sym rp)))
    ]
    | inr tp ↦ elim (read_back t u source result q v a lq) [
      | inl (sq, rq) ↦
          owner t u source result p i a (tp ∙ ap (λ (x : String). some x) (sym rq)) ∙ sq
      | inr tq ↦ i.same p q v tp tq
    ]
  ];
}

IsAdded-lookup :
    (t u : Table) (source result k v : String)
    → IsAdded t u source result
    → lookup t k ≡ some v
    → lookup u k ≡ some v
IsAdded-lookup t u source result k v a l =
    let e : lookup u k ≡ (if source == k then some result else lookup t k) =
      rw a.written (lookup-assign t source k result) in
    elim (Bool-cases (source == k)) [
      | inl same ↦
          let there : lookup t source ≡ some v = rw ((eq_iff source k).0 same) l in
          let value = free_or-eq (lookup t source) result v a.free there in
          (rw same at e) ∙ ap (λ (x : String). some x) (sym value)
      | inr other ↦ (rw other at e) ∙ l
    ]

IsAdded-own :
    (t u : Table) (source result : String)
    → IsAdded t u source result
    → lookup u source ≡ some result
IsAdded-own t u source result a =
    let e : lookup u source ≡ (if source == source then some result else lookup t source) =
      rw a.written (lookup-assign t source source result) in
    (rw (eq_refl source) at e)

module _ {F : Type 0} where
  -- The table renames the source column of the value to its result column.
  abbrev pub IsRenamed : Table → Value F → Type 0
  IsRenamed t column =
      (names : String × String) × (names_of column ≡ ok names) × (lookup t names.0 ≡ some names.1)

  -- what the loop keeps and adds
  record IsGrown (columns : List (Value F)) (t u : Table) : Type 0 where
    pub injective : IsInjective u
    pub kept : (k v : String) → lookup t k ≡ some v → lookup u k ≡ some v
    pub renamed : All (IsRenamed u) columns

  add_columns-IsGrown :
      (columns : List (Value F)) (t : Table) {u : Table}
      → add_columns columns t ≡ ok u
      → IsInjective t
      → IsGrown columns t u
  unfolding add_columns
  add_columns-IsGrown [] t h i =
      subst (IsGrown [] t) (ok-injective h)
        (record { injective = i; kept = λ k v l. l; renamed = tt })
  add_columns-IsGrown (column ∷ rest) t h i = from_ok (names_of column) _ h λ names e1 h1.
      from_ok (add_column t names) _ h1 λ next e2 h2.
        let a = add_column-IsAdded t names.0 names.1 e2 in
        let g = add_columns-IsGrown rest next h2 (IsAdded-IsInjective t next names.0 names.1 i a) in
        record {
          injective = g.injective;
          kept = λ k v l. g.kept k v (IsAdded-lookup t next names.0 names.1 k v a l);
          renamed = (
            (names, e1, g.kept names.0 names.1 (IsAdded-own t next names.0 names.1 a)),
            g.renamed,
          );
        }

  -- the columns of a request: those of its features, of its target and of its entity key
  pub record IsRenaming (payload : Dict F) (t : Table) : Type 0 where
    pub features : List (Value F)
    pub target : Value F
    pub entity : Value F
    pub has_features : found (find payload "features") >>= list_of ≡ ok features
    pub has_target : found (find payload "target") ≡ ok target
    pub has_entity : found (find payload "data_query") >>= entity_of ≡ ok entity
    pub injective : IsInjective t
    pub renamed : All (IsRenamed t) (with_entity entity (L.◌++◌ features (target ∷ [])))

  -- A mapping that `_column_mapping` returns renames the source column of each feature, of the
  -- target and of the entity key, if there is one, to its result column, and no two source
  -- columns to one result column.
  pub column_mapping-IsRenaming :
      (payload : Dict F) {t : Table} → column_mapping payload ≡ ok t → IsRenaming payload t
  unfolding column_mapping lookup
  column_mapping-IsRenaming payload h =
      from_ok (found (find payload "features") >>= list_of) _ h λ features e1 h1.
        from_ok (found (find payload "target")) _ h1 λ target e2 h2.
          from_ok (found (find payload "data_query") >>= entity_of) _ h2 λ entity e3 h3.
            let g =
              add_columns-IsGrown (with_entity entity (L.◌++◌ features (target ∷ []))) [] h3
                (record { same = λ a b v p q. cc }) in
            record {
              features = features;
              target = target;
              entity = entity;
              has_features = e1;
              has_target = e2;
              has_entity = e3;
              injective = g.injective;
              renamed = g.renamed;
            }

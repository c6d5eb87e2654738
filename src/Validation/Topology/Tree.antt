-- ===== src/Validation/Topology/Tree.antt =====
-- The relations of an accepted topology are a tree over the declared tables, rooted in the one
-- PRIMARY table.
use tributo_knova.Prelude.{
  String, true, ◌&&◌, List, [], ◌∷◌, none, ◌≡◌, refl, sym, ◌∙◌, length-le_of_Within, elem-subset,
  eq_iff, elem, subset, distinct, length, arith,
}
use tributo_knova.Python.Value.{Value, Dict, array, nil, get, get_or, array_of}
use tributo_knova.Python.Result.{ok, from_ok}
use tributo_knova.Validation.Fields.{fail, require, non_empty}
use tributo_knova.Validation.Fields.Laws.{require-eq-ok, non_empty-eq-ok}
use tributo_knova.Validation.Topology.Graph.{Reach, here, IsTree}
use tributo_knova.Validation.Topology.Scan.{found_root, scan_tables-facts}
use tributo_knova.Validation.Topology.Joins.{join_relations-facts}
use tributo_knova.Validation.Topology.{
  single_primary, scan_tables, join_relations, relation_list, topology,
}

same_size :
    (xs ys : List String)
    → distinct xs ≡ true
    → distinct ys ≡ true
    → (subset xs ys && subset ys xs) ≡ true
    → length xs ≡ length ys
same_size xs ys dx dy s = omega (
  arith,
  length-le_of_Within xs ys dx dy (λ a. elem-subset a xs ys (ground arith)),
  length-le_of_Within ys xs dy dx (λ a. elem-subset a ys xs (ground arith)),
)

module _ {F : Type 0} where
  start : (all : List (Value F)) (root a : String) → elem a (root ∷ []) ≡ true → Reach all root a
  start all root a h = rw ((eq_iff a root).0 (ground arith)) here

  relation_list-eq-ok :
      (v : Value F) (aliases : List String) (place : String) {xs : List (Value F)}
      → relation_list v aliases place ≡ ok xs
      → xs ≡ array_of v
  unfolding fail
  relation_list-eq-ok v aliases place h = ground arith

  -- A topology that is accepted declares distinct aliases, those of its tables in order (the last
  -- one first), and exactly one PRIMARY table; its relations are one fewer than its tables, and
  -- every alias is reached from the PRIMARY one along them.
  pub topology-IsTree :
      (d : Dict F) (place : String) {aliases : List String}
      → topology d place ≡ ok aliases
      → IsTree d aliases
  unfolding topology
  topology-IsTree d place {aliases} h = from_ok (non_empty (get d "tables") _ _) _ h λ tables e1 h1.
      from_ok (scan_tables place tables [] none) _ h1 λ out e2 h2.
        from_ok (single_primary out.1 place) _ h2 λ root e3 h3.
          from_ok (relation_list (get_or d "relations" (array nil)) out.0 place) _ h3
            λ relations e4 h4.
              from_ok (join_relations place out.0 relations (root ∷ [])) _ h4 λ connected e5 h5.
                from_ok (require (subset connected out.0 && subset out.0 connected) _ _) _ h5
                  λ _ e6 h6.
                    let (order, unique, single, _) =
                      scan_tables-facts place tables [] none e2 refl in
                    let joined =
                      join_relations-facts place out.0 root relations relations (root ∷ []) e5
                        (λ l r k. k) (start relations root) refl in
                    let checked =
                      require-eq-ok (subset connected out.0 && subset out.0 connected) _ _ e6 in
                    let size = same_size connected out.0 joined.1 unique checked in
                    let e : out.0 ≡ aliases = cc in
                    let v1 = (non_empty-eq-ok (get d "tables") _ _ e1).0 in
                    let v4 =
                      relation_list-eq-ok (get_or d "relations" (array nil)) out.0 place e4 in
                    rw (← e) (record {
                      root = root;
                      in_order = rw (← v1) order;
                      unique = unique;
                      single = rw (← v1) (sym single ∙ found_root out.1 root place e3);
                      edges = rw (← v4) (omega (arith, size, joined.2));
                      connected = λ a k.
                          rw (← v4) (joined.0 a (elem-subset a out.0 connected (ground arith) k));
                    })

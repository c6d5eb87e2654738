-- ===== src/Python/Table.antt =====
-- A dict from texts to texts, in the order of insertion.
pub mod Laws
use tributo_knova.Prelude.{
  String, Bool, true, false, List, [], ◌∷◌, Option, none, some, ◌==◌, if◌then◌else◌,
}

abbrev pub Table : Type 0
Table = List (String × String)

-- t.get(k)
unfoldable pub lookup : Table → String → Option String
lookup [] k = none
lookup ((j, v) ∷ t) k = if j == k then some v else lookup t k

-- t[k] = v
unfoldable pub assign : Table → String → String → Table
assign [] k v = (k, v) ∷ []
assign ((j, w) ∷ t) k v = if j == k then (j, v) ∷ t else (j, w) ∷ assign t k v

-- t.values()
abbrev pub table_values : Table → List String
table_values [] = []
table_values ((k, v) ∷ t) = v ∷ table_values t

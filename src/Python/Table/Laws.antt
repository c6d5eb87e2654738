-- ===== src/Python/Table/Laws.antt =====
-- Reading a table of texts after writing it.
use tributo_knova.Prelude.{
  String, true, [], ◌∷◌, some, ◌≡◌, refl, ◌==◌, eq_iff, elem, arith, if◌then◌else◌,
}
use tributo_knova.Python.Table.{Table, lookup, assign, table_values}

pub lookup-assign :
    (t : Table) (k j v : String) → lookup (assign t k v) j ≡ (if k == j then some v else lookup t j)
unfolding lookup assign
lookup-assign [] k j v = refl
lookup-assign ((i, w) ∷ t) k j v =
    ground (arith, eq_iff i k, eq_iff i j, eq_iff k j, lookup-assign t k j v)

-- what a key has is among the values
pub elem-lookup : (t : Table) (k v : String) → lookup t k ≡ some v → elem v (table_values t) ≡ true
unfolding lookup
elem-lookup [] k v h = cc
elem-lookup ((j, w) ∷ t) k v h = ground (arith, eq_iff v w, elem-lookup t k v)

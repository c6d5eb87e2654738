-- ===== src/Validation/Topology/Graph.antt =====
-- What the tables and relations of a request describe: a directed graph over aliases, and the trees
-- among such graphs.
use tributo_knova.Prelude.{
  ◌+◌, String, Bool, true, false, ◌&&◌, ◌||◌, List, [], ◌∷◌, ◌++◌, ◌≡◌, ◌==◌, elem, distinct,
  length, if◌then◌else◌,
}
use tributo_knova.Python.Value.{
  Value, Dict, string, array, object, nil, get, get_or, array_of, text_of,
}

abbrev pub if_primary : List String → List String → List String
if_primary (role ∷ []) aliases = if role == "PRIMARY" then aliases else []
if_primary _ aliases = []

module _ {F : Type 0} where
  -- the texts that stand at a key of the objects of a list, the last one first, before `acc`
  abbrev pub alias_of : Value F → List String
  alias_of (object d) = text_of (get d "table_alias")
  alias_of _ = []

  abbrev pub declared : List (Value F) → List String → List String
  declared [] acc = acc
  declared (raw ∷ rest) acc = declared rest (alias_of raw ++ acc)

  abbrev pub root_of : Value F → List String
  root_of (object d) = if_primary (text_of (get d "role")) (text_of (get d "table_alias"))
  root_of _ = []

  -- the aliases of the tables whose role is PRIMARY
  abbrev pub roots : List (Value F) → List String
  roots [] = []
  roots (raw ∷ rest) = root_of raw ++ roots rest

  abbrev pub is_string : Value F → String → Bool
  is_string (string s) t = s == t
  is_string _ t = false

  abbrev pub is_edge : Value F → String → String → Bool
  is_edge (object d) left right =
      is_string (get d "left_alias") left && is_string (get d "right_alias") right
  is_edge _ left right = false

  -- a relation from the left alias to the right one
  abbrev pub has_edge : List (Value F) → String → String → Bool
  has_edge [] left right = false
  has_edge (raw ∷ rest) left right = is_edge raw left right || has_edge rest left right

  -- there is a path along the relations
  pub data Reach (relations : List (Value F)) (root : String) : String → Type 0 where
    here : Reach relations root root
    along :
        {left : String} (right : String)
        → Reach relations root left
        → has_edge relations left right ≡ true
        → Reach relations root right

  pub record IsTree (d : Dict F) (aliases : List String) : Type 0 where
    pub root : String
    pub in_order : aliases ≡ declared (array_of (get d "tables")) []
    pub unique : distinct aliases ≡ true
    pub single : roots (array_of (get d "tables")) ≡ root ∷ []
    pub edges : length (array_of (get_or d "relations" (array nil))) + 1 ≡ length aliases
    pub connected :
        (a : String)
        → elem a aliases ≡ true
        → Reach (array_of (get_or d "relations" (array nil))) root a

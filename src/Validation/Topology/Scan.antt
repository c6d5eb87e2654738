-- ===== src/Validation/Topology/Scan.antt =====
-- The loop of `_topology` over the tables.
use tributo_knova.Prelude.{
  ◌+◌, String, true, false, not, List, [], ◌∷◌, ◌++◌, Option, none, some, ◌≡◌, refl, append-nil,
  append_assoc, elem, distinct, length, arith,
}
use tributo_knova.Python.Value.{Value, Dict, string, object, get}
use tributo_knova.Python.Result.{ok, from_ok}
use tributo_knova.Validation.Fields.{fail, require, obj, text, enum, texts}
use tributo_knova.Validation.Fields.Laws.{require-eq-ok, obj-eq-ok, text-eq-ok, enum-eq-ok}
use tributo_knova.Validation.Topology.Graph.{alias_of, declared, root_of, roots}
use tributo_knova.Validation.Topology.{next_primary, single_primary, scan_tables}

-- the alias that is primary so far, if any
abbrev pub found : Option String → List String
found none = []
found (some a) = a ∷ []

pub found_root :
    (o : Option String) (root place : String)
    → single_primary o place ≡ ok root
    → found o ≡ root ∷ []
unfolding fail
found_root o root place h = ground arith

module _ {F : Type 0} where
  scanned :
      (raw : Value F) (d : Dict F) (alias role : String) (aliases : List String)
      (primary primary' : Option String) (place : String)
      → raw ≡ object d
      → get d "table_alias" ≡ string alias
      → not (elem alias aliases) ≡ true
      → get d "role" ≡ string role
      → next_primary role primary alias place ≡ ok primary'
      → (alias_of raw ≡ alias ∷ [])
        × (elem alias aliases ≡ false)
        × (found primary' ≡ found primary ++ root_of raw)
  unfolding fail
  scanned raw d alias role aliases none primary' place o a n r p =
      rw o (rw (a, r) (refl, ground arith, ground arith))
  scanned raw d alias role aliases (some q) primary' place o a n r p =
      rw o (rw (a, r) (refl, ground arith, ground arith))

  scan_step-inv :
      (place : String) (raw : Value F) (rest : List (Value F)) (aliases : List String)
      (primary : Option String) {out : List String × Option String}
      → scan_tables place (raw ∷ rest) aliases primary ≡ ok out
      → (alias : String) × (primary' : Option String) × (alias_of raw ≡ alias ∷ [])
        × (elem alias aliases ≡ false)
        × (found primary' ≡ found primary ++ root_of raw)
        × (scan_tables place rest (alias ∷ aliases) primary' ≡ ok out)
  unfolding scan_tables
  scan_step-inv place raw rest aliases primary {out} h = from_ok (obj raw _) _ h λ d e1 h1.
      from_ok (text (get d "table_alias") _) _ h1 λ alias e2 h2.
        from_ok (require (not (elem alias aliases)) _ _) _ h2 λ _ e3 h3.
          from_ok (texts d _ _) _ h3 λ _ _ h4. from_ok (enum (get d "role") _ _) _ h4 λ role e5 h5.
            from_ok (next_primary role primary alias place) _ h5 λ primary' e6 h6.
              let facts =
                scanned raw d alias role aliases primary primary' place (obj-eq-ok raw _ e1)
                  (text-eq-ok (get d "table_alias") _ e2)
                  (require-eq-ok (not (elem alias aliases)) _ _ e3)
                  (enum-eq-ok (get d "role") _ _ e5).0 e6 in
              (alias, primary', facts.0, facts.1, facts.2, h6)

  pub scan_tables-facts :
      (place : String) (tables : List (Value F)) (aliases : List String) (primary : Option String)
      {out : List String × Option String}
      → scan_tables place tables aliases primary ≡ ok out
      → distinct aliases ≡ true
      → (out.0 ≡ declared tables aliases)
        × (distinct out.0 ≡ true)
        × (found out.1 ≡ found primary ++ roots tables)
        × (length out.0 ≡ length tables + length aliases)
  unfolding scan_tables
  scan_tables-facts place [] aliases primary {out} h d =
      let e : out ≡ (aliases, primary) = cc in rw e (refl, d, rw append-nil, omega arith)
  scan_tables-facts place (raw ∷ rest) aliases primary {out} h d =
      let (alias, primary', e1, e2, e3, h') = scan_step-inv place raw rest aliases primary h in
      let ih = scan_tables-facts place rest (alias ∷ aliases) primary' h' (ground arith) in
      (rw e1 ih.0, ih.1, rw (ih.2, e3, append_assoc), omega (arith, ih.3))

-- ===== src/Validation/Topology/Joins.antt =====
-- The loop of `_topology` over the relations.
use tributo_knova.Prelude.{
  ◌+◌, String, Bool, true, false, ◌||◌, List, [], ◌∷◌, Option, none, some, ◌≡◌, refl, ◌==◌, eq_refl,
  eq_iff, elem, distinct, length, arith, Bool-cases, inl, inr,
}
use tributo_knova.Python.Value.{Value, Dict, string, object, get}
use tributo_knova.Python.Result.{ok, for_each, from_ok}
use tributo_knova.Validation.Fields.{fail, obj, enum, non_empty}
use tributo_knova.Validation.Fields.Laws.{obj-eq-ok}
use tributo_knova.Validation.Topology.Graph.{is_edge, has_edge, Reach, along}
use tributo_knova.Validation.Topology.{expansion, expands, condition, join_relations}

expansion-eq-ok :
    (o : Option String) (place : String) {right : String}
    → expansion o place ≡ ok right
    → o ≡ some right
unfolding fail
expansion-eq-ok (some r) place h = cc
expansion-eq-ok none place h = cc

or-left : (a b : Bool) → a ≡ true → (a || b) ≡ true
or-left a b h = rw h

or-right : (a b : Bool) → b ≡ true → (a || b) ≡ true
or-right a b h = ground arith

module _ {F : Type 0} where
  edge :
      (raw : Value F) (d : Dict F) (left right : String)
      → raw ≡ object d
      → get d "left_alias" ≡ string left
      → get d "right_alias" ≡ string right
      → is_edge raw left right ≡ true
  edge raw d left right o l r = rw o (rw (l, r, eq_refl, eq_refl) refl)

  extend-Reach :
      (all : List (Value F)) (root left right : String) (connected : List String) (a : String)
      → has_edge all left right ≡ true
      → Reach all root left
      → ((b : String) → elem b connected ≡ true → Reach all root b)
      → elem a (right ∷ connected) ≡ true
      → Reach all root a
  extend-Reach all root left right connected a e reached reach k = elim (Bool-cases (a == right)) [
    | inl same ↦ rw ((eq_iff a right).0 same) (along right reached e)
    | inr other ↦ reach a (ground arith)
  ]

  expands-inv :
      (v w : Value F) (aliases connected : List String) {right : String}
      → expands v w aliases connected ≡ some right
      → (left : String) × (v ≡ string left)
        × (w ≡ string right)
        × (elem left connected ≡ true)
        × (elem right aliases ≡ true)
        × (elem right connected ≡ false)
  expands-inv (string left) (string r) aliases connected h =
      (left, refl, ground arith, ground arith, ground arith, ground arith)
  expands-inv v w aliases connected h = cc

  join_step-inv :
      (place : String) (aliases : List String) (raw : Value F) (rest : List (Value F))
      (connected : List String) {final : List String}
      → join_relations place aliases (raw ∷ rest) connected ≡ ok final
      → (left : String) × (right : String) × (is_edge raw left right ≡ true)
        × (elem left connected ≡ true)
        × (elem right aliases ≡ true)
        × (elem right connected ≡ false)
        × (join_relations place aliases rest (right ∷ connected) ≡ ok final)
  unfolding join_relations
  join_step-inv place aliases raw rest connected {final} h = from_ok (obj raw _) _ h λ d e1 h1.
      from_ok
        (expansion (expands (get d "left_alias") (get d "right_alias") aliases connected) place) _
        h1
        λ right e2 h2. from_ok (enum (get d "join_type") _ _) _ h2 λ _ _ h3.
          from_ok (non_empty (get d "on") _ _) _ h3 λ conditions _ h4.
            from_ok (for_each (condition place) conditions) _ h4 λ _ _ h5.
              let (left, l, r, connects, declares, fresh) =
                expands-inv (get d "left_alias") (get d "right_alias") aliases connected
                  (expansion-eq-ok _ place e2) in
              (
                left,
                right,
                edge raw d left right (obj-eq-ok raw _ e1) l r,
                connects,
                declares,
                fresh,
                h5,
              )

  pub join_relations-facts :
      (place : String) (aliases : List String) (root : String) (all rest : List (Value F))
      (connected : List String) {final : List String}
      → join_relations place aliases rest connected ≡ ok final
      → ((l r : String) → has_edge rest l r ≡ true → has_edge all l r ≡ true)
      → ((a : String) → elem a connected ≡ true → Reach all root a)
      → distinct connected ≡ true
      → ((a : String) → elem a final ≡ true → Reach all root a)
        × (distinct final ≡ true)
        × (length final ≡ length rest + length connected)
  unfolding join_relations
  join_relations-facts place aliases root all [] connected {final} h sub reach d =
      let e : final ≡ connected = cc in rw e (reach, d, omega arith)
  join_relations-facts place aliases root all (raw ∷ rest) connected h sub reach d =
      let (left, right, is, l, _, r, h') = join_step-inv place aliases raw rest connected h in
      let ih =
        join_relations-facts place aliases root all rest (right ∷ connected) h'
          (λ x y k. sub x y (or-right (is_edge raw x y) _ k))
          (λ a k.
            extend-Reach all root left right connected a
              (sub left right (or-left _ (has_edge rest left right) is)) (reach left l) reach k)
          (ground arith) in
      (ih.0, ih.1, omega (arith, ih.2))

-- ===== src/Training/Failure/Chain.antt =====
-- The loop over the causes of an exception ends.
use tributo_knova.Prelude.{
  ℕ, zero, suc, ◌+◌, ◌<◌, String, true, List, [], ◌∷◌, Option, none, some, ◌≡◌, refl, inl, inr,
  elem, distinct, length, eq_iff, arith, Bool-cases, Option-cases, Within, length-le_of_Within,
}
use tributo_knova.Training.Failure.{Thrown, Heap, thrown_at, causes}

abbrev pub names : Heap → List String
names [] = []
names ((a, e) ∷ heap) = a ∷ names heap

elem-thrown_at :
    (heap : Heap) (a : String) (e : Thrown) → thrown_at heap a ≡ some e → elem a (names heap) ≡ true
unfolding thrown_at
elem-thrown_at [] a e h = cc
elem-thrown_at ((b, x) ∷ heap) a e h =
    ground (arith, eq_iff a b, eq_iff b a, elem-thrown_at heap a e)

-- there is a chain
abbrev pub Ends : Option (List Thrown) → Type 0
Ends o = (chain : List Thrown) × (o ≡ some chain)

module _ (heap : Heap) (unique : distinct (names heap) ≡ true) where
  causes-Ends :
      (fuel : ℕ) (seen : List String) (c : Option String)
      → distinct seen ≡ true
      → Within seen (names heap)
      → length (names heap) < fuel + length seen
      → Ends (causes fuel heap seen c)
  unfolding causes
  causes-Ends fuel seen none d w h = ([], refl)
  causes-Ends zero seen (some a) d w h =
      absurd (omega (arith, length-le_of_Within seen (names heap) d unique w))
  causes-Ends (suc fuel) seen (some a) d w h = elim (Bool-cases (elem a seen)) [
    | inl before ↦ rw before ([], refl)
    | inr new ↦ rw new (elim (Option-cases (thrown_at heap a)) [
      | inl absent ↦ rw absent ([], refl)
      | inr (e, there) ↦
          let within : Within (a ∷ seen) (names heap) =
            λ b hb. ground (arith, eq_iff b a, eq_iff a b, elem-thrown_at heap a e there, w b) in
          let (chain, ends) =
            causes-Ends fuel (a ∷ seen) e.cause (ground arith) within (omega arith) in
          rw (there, ends) (e ∷ chain, refl)
    ])
  ]

  -- If different exceptions have different identities, the loop over the causes of an exception ends
  -- within one round more than there are exceptions, also where the causes form a cycle.
  pub causes-total : (c : Option String) → Ends (causes (suc (length (names heap))) heap [] c)
  causes-total c = causes-Ends (suc (length (names heap))) [] c refl (λ a h. cc) (omega arith)

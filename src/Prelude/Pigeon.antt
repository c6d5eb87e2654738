-- ===== src/Prelude/Pigeon.antt =====
-- Two lists without repetition that hold the same texts are of one length.
use Prim.Native.Nat.{suc, ◌≤◌}
use Prim.Native.String.{String}
use mathlib.Core.Path.{◌≡◌, refl}
use mathlib.Core.Bool.{true, false}
use mathlib.Core.List.{List, [], ◌∷◌}
use native.Mathlib.Omega.{arith}
use text.Mathlib.Text.{◌==◌}
use text.Mathlib.TextEquality.{eq_iff}
use text.Mathlib.TextPositions.{eq_refl}
use tributo_knova.Prelude.Tests.{if◌then◌else◌}
use tributo_knova.Prelude.Lists.{elem, subset, distinct, length}

-- the list without one text
remove : String → List String → List String
remove x [] = []
remove x (y ∷ ys) = let rest = remove x ys in if x == y then rest else y ∷ rest

length-remove :
    (x : String) (ys : List String) → distinct ys ≡ true → elem x ys ≡ false → remove x ys ≡ ys
unfolding remove
length-remove x [] d h = refl
length-remove x (y ∷ ys) d h = ground (arith, length-remove x ys)

length-remove-elem :
    (x : String) (ys : List String)
    → distinct ys ≡ true
    → elem x ys ≡ true
    → length ys ≡ suc (length (remove x ys))
unfolding remove
length-remove-elem x [] d h = cc
length-remove-elem x (y ∷ ys) d h =
    ground (arith, length-remove-elem x ys, length-remove x ys, eq_iff x y)

elem-remove :
    (a x : String) (ys : List String)
    → (a == x) ≡ false
    → elem a ys ≡ true
    → elem a (remove x ys) ≡ true
unfolding remove
elem-remove a x [] n h = cc
elem-remove a x (y ∷ ys) n h =
    ground (arith, elem-remove a x ys, eq_iff x y, eq_iff a y, eq_iff a x)

elem-remove-false :
    (a x : String) (ys : List String) → elem a ys ≡ false → elem a (remove x ys) ≡ false
unfolding remove
elem-remove-false a x [] h = refl
elem-remove-false a x (y ∷ ys) h = ground (arith, elem-remove-false a x ys)

distinct-remove :
    (x : String) (ys : List String) → distinct ys ≡ true → distinct (remove x ys) ≡ true
unfolding remove
distinct-remove x [] d = refl
distinct-remove x (y ∷ ys) d = ground (arith, distinct-remove x ys, elem-remove-false y x ys)

elem_ne :
    (a x : String) (xs : List String) → elem x xs ≡ false → elem a xs ≡ true → (a == x) ≡ false
elem_ne a x [] n h = cc
elem_ne a x (y ∷ xs) n h = ground (arith, elem_ne a x xs, eq_iff a x, eq_iff a y, eq_iff x y)

pub elem-subset :
    (a : String) (xs ys : List String) → subset xs ys ≡ true → elem a xs ≡ true → elem a ys ≡ true
elem-subset a [] ys s h = cc
elem-subset a (x ∷ xs) ys s h = ground (arith, elem-subset a xs ys, eq_iff a x)

-- the texts of one list stand in another
abbrev pub Within : List String → List String → Type 0
Within xs ys = (a : String) → elem a xs ≡ true → elem a ys ≡ true

pub length-le_of_Within :
    (xs ys : List String)
    → distinct xs ≡ true
    → distinct ys ≡ true
    → Within xs ys
    → length xs ≤ length ys
length-le_of_Within [] ys dx dy w = omega arith
length-le_of_Within (x ∷ xs) ys dx dy w =
    let head : elem x ys ≡ true = w x (rw eq_refl refl) in
    let tail : Within xs (remove x ys) =
      λ a h. elem-remove a x ys (elem_ne a x xs (ground arith) h) (w a (ground arith)) in
    omega (
      arith,
      length-remove-elem x ys dy head,
      length-le_of_Within xs (remove x ys) (ground arith) (distinct-remove x ys dy) tail,
    )

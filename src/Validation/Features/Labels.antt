-- ===== src/Validation/Features/Labels.antt =====
-- The label mappings that `_label_mapping` accepts.
use tributo_knova.Prelude.{
  ℕ, zero, suc, ◌≤◌, ◌<◌, String, Bool, true, not, ◌&&◌, List, [], ◌∷◌, Option, some, ◌≡◌, refl,
  ◌↔◌, ◌⊎◌, inl, inr, length, arith, Bool-cases,
}
use tributo_knova.Python.Number.{ℤ, pos, int_eqb}
use tributo_knova.Python.Value.{Value, Dict, null, object, end, values}
use tributo_knova.Python.Result.{ok, from_ok}
use tributo_knova.Validation.Fields.{fail, require, obj}
use tributo_knova.Validation.Fields.Laws.{require-eq-ok}
use tributo_knova.Validation.Features.{
  elem_int, int_set, subset_int, range, consecutive, integers, label_codes, label_mapping,
}

pub int_eqb_iff : (a b : ℤ) → (int_eqb a b ≡ true) ↔ (a ≡ b)
int_eqb_iff a b = ground arith

abbrev pub distinct_int : List ℤ → Bool
distinct_int [] = true
distinct_int (n ∷ ns) = not (elem_int n ns) && distinct_int ns

length-int_set : (ns : List ℤ) → length (int_set ns) ≤ length ns
length-int_set [] = omega arith
length-int_set (n ∷ ns) = ground (arith, length-int_set ns)

elem_int-int_set : (m : ℤ) (ns : List ℤ) → elem_int m (int_set ns) ≡ elem_int m ns
elem_int-int_set m [] = refl
elem_int-int_set m (n ∷ ns) =
    ground (arith, elem_int-int_set m ns, elem_int-int_set n ns, int_eqb_iff m n)

-- A list that is as long as its set has no repetition.
distinct_of_length : (ns : List ℤ) → length (int_set ns) ≡ length ns → distinct_int ns ≡ true
distinct_of_length [] h = refl
distinct_of_length (n ∷ ns) h =
    ground (arith, distinct_of_length ns, length-int_set ns, elem_int-int_set n ns)

elem_int-range : (n i : ℕ) → i < n → elem_int (pos i) (range n) ≡ true
elem_int-range zero i h = elim h [ ]
elem_int-range (suc n) i h = ground (arith, elem_int-range n i)

below_of_elem : (n : ℕ) (m : ℤ) → elem_int m (range n) ≡ true → (i : ℕ) × (m ≡ pos i) × (i < n)
below_of_elem zero m h = cc
below_of_elem (suc n) m h = elim (Bool-cases (int_eqb m (pos n))) [
  | inl same ↦ (n, (int_eqb_iff m (pos n)).0 same, omega arith)
  | inr other ↦ let (i, e, l) = below_of_elem n m (ground arith) in (i, e, omega arith)
]

pub elem-subset_int :
    (m : ℤ) (ms ns : List ℤ) → subset_int ms ns ≡ true → elem_int m ms ≡ true → elem_int m ns ≡ true
elem-subset_int m [] ns s h = cc
elem-subset_int m (k ∷ ms) ns s h = ground (arith, elem-subset_int m ms ns, int_eqb_iff m k)

-- The codes are 0, 1, … n - 1 in some order.
pub record IsEnumeration (codes : List ℤ) : Type 0 where
  pub unique : distinct_int codes ≡ true
  pub present : (i : ℕ) → i < length codes → elem_int (pos i) codes ≡ true
  pub bounded : (m : ℤ) → elem_int m codes ≡ true → (i : ℕ) × (m ≡ pos i) × (i < length codes)

pub consecutive-IsEnumeration : (codes : List ℤ) → consecutive codes ≡ true → IsEnumeration codes
unfolding consecutive
consecutive-IsEnumeration codes h = record {
  unique = distinct_of_length codes (ground arith);
  present = λ i l.
      elem-subset_int (pos i) (range (length codes)) codes (ground arith)
        (elem_int-range (length codes) i l);
  bounded = λ m e.
      below_of_elem (length codes) m
        (elem-subset_int m codes (range (length codes)) (ground arith) e);
}

-- conversely
length-int_set_distinct : (ns : List ℤ) → distinct_int ns ≡ true → length (int_set ns) ≡ length ns
length-int_set_distinct [] d = refl
length-int_set_distinct (n ∷ ns) d =
    ground (arith, length-int_set_distinct ns, elem_int-int_set n ns)

subset_int_intro :
    (ms ns : List ℤ)
    → ((m : ℤ) → elem_int m ms ≡ true → elem_int m ns ≡ true)
    → subset_int ms ns ≡ true
subset_int_intro [] ns h = refl
subset_int_intro (m ∷ ms) ns h =
    ground (arith, h m, int_eqb_iff m m, subset_int_intro ms ns (λ k e. h k (ground arith)))

IsEnumeration-consecutive : (codes : List ℤ) → IsEnumeration codes → consecutive codes ≡ true
unfolding consecutive
IsEnumeration-consecutive codes e = ground (
  arith,
  length-int_set_distinct codes e.unique,
  subset_int_intro codes (range (length codes))
      (λ m k. let (i, p, l) = e.bounded m k in rw p (elem_int-range (length codes) i l)),
  subset_int_intro (range (length codes)) codes
      (λ m k. let (i, p, l) = below_of_elem (length codes) m k in rw p (e.present i l)),
)

label_codes-eq-ok :
    (o : Option (List ℤ)) (place : String) {codes : List ℤ}
    → label_codes o place ≡ ok codes
    → o ≡ some codes
unfolding fail
label_codes-eq-ok o place h = ground arith

module _ {F : Type 0} where
  -- None, as the empty mapping, or an object whose values enumerate 0, 1, … n - 1
  abbrev pub IsLabelMapping : Value F → Dict F → Type 0
  IsLabelMapping v d =
      ((v ≡ null) × (d ≡ end))
      ⊎ ((v ≡ object d)
          × ((codes : List ℤ) × (integers (values d) ≡ some codes) × IsEnumeration codes))

  label_mapping-IsLabelMapping :
      (v : Value F) (place : String) (d : Dict F)
      → label_mapping v place ≡ ok d
      → IsLabelMapping v d
  unfolding label_mapping obj fail
  label_mapping-IsLabelMapping null place d h = inl (refl, cc)
  label_mapping-IsLabelMapping (object m) place d h =
      from_ok (label_codes (integers (values m)) place) _ h λ codes e1 h1.
        from_ok (require (consecutive codes) place _) _ h1 λ _ e2 h2.
          let e : m ≡ d = cc in
          rw (← e) (
            inr (
              refl,
              (
                codes,
                label_codes-eq-ok (integers (values m)) place e1,
                consecutive-IsEnumeration codes (require-eq-ok (consecutive codes) place _ e2),
              ),
            ))
  label_mapping-IsLabelMapping v place d h = cc

  IsLabelMapping-label_mapping :
      (v : Value F) (place : String) (d : Dict F)
      → IsLabelMapping v d
      → label_mapping v place ≡ ok d
  unfolding label_mapping obj
  IsLabelMapping-label_mapping v place d (inl (n, e)) = rw (n, e) refl
  IsLabelMapping-label_mapping v place d (inr (o, (codes, i, e))) =
      rw o (rw i (rw (IsEnumeration-consecutive codes e) refl))

  -- A label mapping is accepted, and returned, exactly if it is an object whose values are integers
  -- that enumerate 0, 1, … n - 1 in some order; None is accepted as the empty mapping.
  pub label_mapping_iff :
      (v : Value F) (place : String) (d : Dict F)
      → (label_mapping v place ≡ ok d) ↔ IsLabelMapping v d
  label_mapping_iff v place d =
      (label_mapping-IsLabelMapping v place d, IsLabelMapping-label_mapping v place d)

-- ===== src/Tests/Pydantic.antt =====
-- A stand-in for pydantic, and a proof that it is what pydantic documents of a model that it accepts.
use Prim.Native.Char.{Char, code}
use tributo_knova.Prelude.{
  String, Bool, true, false, ◌&&◌, List, [], ◌∷◌, Option, none, some, ◌≡◌, refl, inl, inr, ◌==◌,
  eq_refl, elem, distinct, leb, All, arith, Bool-cases, if◌then◌else◌,
}
use mathlib.Core.Path.{subst}
use tributo_knova.Python.Value.{Value, Dict, field, find}
use tributo_knova.Python.Result.{Result, ok, err, from_ok, value_error, ◌>>=◌, ok-injective}
use tributo_knova.Protocol.Schema.{Declared, schema, conforms}
use tributo_knova.Protocol.{Loaded, Validated, refused, valid, Library}
use tributo_knova.Protocol.Admitted.{IsPydantic, IsFilled, after_validator}

module _ {F : Type 0} where
  abbrev pub given : Declared F → Value F → Result (Value F)
  given f raw =
      if conforms f.kind raw then after_validator f.validator raw else err (value_error f.name)

  abbrev pub defaulted : String → Option (Value F) → Result (Value F)
  defaulted name none = err (value_error name)
  defaulted name (some v) = ok v

  abbrev pub value_of : Declared F → Option (Value F) → Result (Value F)
  value_of f none = defaulted f.name f.default
  value_of f (some raw) = given f raw

  -- the declared fields, and then those of the input
  unfoldable pub filled : Dict F → List (Declared F) → Result (Dict F)
  filled d [] = ok d
  filled d (f ∷ fs) = do
    value ← value_of f (find d f.name)
    rest ← filled d fs
    ok (field f.name value rest)

  abbrev pub model_of : Result (Dict F) → Validated F
  model_of (ok fields) = valid fields
  model_of (err (value_error name)) = refused ((name ∷ []) ∷ [])
  model_of (err x) = refused []

  abbrev pub names : List (Declared F) → List String
  names [] = []
  names (f ∷ fs) = f.name ∷ names fs

  later :
      (d r : Dict F) (n : String) (v : Value F) (f : Declared F)
      → (n == f.name) ≡ false
      → IsFilled d r f
      → IsFilled d (field n v r) f
  unfolding find
  later d r n v f h (inl g) = inl (record {
    raw = g.raw;
    value = g.value;
    was_given = g.was_given;
    fits = g.fits;
    passes = g.passes;
    stands = rw h g.stands;
  })
  later d r n v f h (inr g) = inr (record {
    value = g.value;
    was_absent = g.was_absent;
    has_default = g.has_default;
    stands = rw h g.stands;
  })

  All-later :
      (d r : Dict F) (n : String) (v : Value F) (fs : List (Declared F))
      → elem n (names fs) ≡ false
      → All (IsFilled d r) fs
      → All (IsFilled d (field n v r)) fs
  All-later d r n v [] h g = tt
  All-later d r n v (f ∷ fs) h (g, gs) =
      (later d r n v f (ground arith) g, All-later d r n v fs (ground arith) gs)

  defaulted-eq-ok :
      (name : String) (o : Option (Value F)) {v : Value F} → defaulted name o ≡ ok v → o ≡ some v
  defaulted-eq-ok name o h = ground arith

  given-eq-ok :
      (f : Declared F) (raw : Value F) {v : Value F}
      → given f raw ≡ ok v
      → (conforms f.kind raw ≡ true) × (after_validator f.validator raw ≡ ok v)
  given-eq-ok f raw h = elim (Bool-cases (conforms f.kind raw)) [
    | inl fits ↦ (fits, rw fits at h)
    | inr other ↦ absurd (ground arith)
  ]

  first :
      (d r : Dict F) (f : Declared F) (o : Option (Value F)) {v : Value F}
      → find d f.name ≡ o
      → value_of f o ≡ ok v
      → IsFilled d (field f.name v r) f
  unfolding find
  first d r f none {v} e h = inr (record {
    value = v;
    was_absent = e;
    has_default = defaulted-eq-ok f.name f.default h;
    stands = rw (eq_refl f.name) refl;
  })
  first d r f (some raw) {v} e h =
      let (fits, passes) = given-eq-ok f raw h in
      inl (record {
        raw = raw;
        value = v;
        was_given = e;
        fits = fits;
        passes = passes;
        stands = rw (eq_refl f.name) refl;
      })

  filled-IsFilled :
      (d : Dict F) (fs : List (Declared F)) {r : Dict F}
      → distinct (names fs) ≡ true
      → filled d fs ≡ ok r
      → All (IsFilled d r) fs
  unfolding filled
  filled-IsFilled d [] u h = tt
  filled-IsFilled d (f ∷ fs) {r} u h = from_ok (value_of f (find d f.name)) _ h λ value e1 h1.
      from_ok (filled d fs) _ h1 λ rest e2 h2.
        let made = ok-injective h2 in
        subst (λ (x : Dict F). All (IsFilled d x) (f ∷ fs)) made
          (
            first d rest f (find d f.name) refl e1,
            All-later d rest f.name value fs (ground arith)
                (filled-IsFilled d fs (ground arith) e2),
          )

  model_of-eq-valid :
      (r : Result (Dict F)) {fields : Dict F} → model_of r ≡ valid fields → r ≡ ok fields
  model_of-eq-valid (ok d) h = ground arith
  model_of-eq-valid (err x) h = absurd (ground arith)

-- the digits of ASCII
abbrev pub ascii_digit : Char → Bool
ascii_digit c = leb 48 (code c) && leb (code c) 57

abbrev pub library : {F : Type 0} → (String → Loaded F) → Library F
library loads = record {
  loads = loads;
  is_digit = ascii_digit;
  model_validate = λ fields d. model_of (filled d fields);
}

pub IsPydantic-library : {F : Type 0} (loads : String → Loaded F) → IsPydantic (library loads)
IsPydantic-library {F} loads = record {
  fills = λ training d fields h.
      filled-IsFilled d (schema ascii_digit training) (unique training) (model_of-eq-valid _ h);
}
  where
    unique : (training : Bool) → distinct (names {F = F} (schema ascii_digit training)) ≡ true
    unique true = refl
    unique false = refl

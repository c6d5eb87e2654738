-- ===== src/Training/Runtime/Bounds.antt =====
-- What `_runtime_config` makes of any extensions.
use tributo_knova.Prelude.{
  ℕ, ◌≤◌, String, true, false, not, ◌&&◌, List, [], ◌∷◌, Option, none, some, ◌≡◌, ◌⊎◌, inl, inr,
  refl, arith, Bool-cases,
}
use tributo_knova.Python.Number.{ℤ, pos, int_leb, Floats}
use tributo_knova.Python.Value.{boolean, Value, Dict, integer, float, get_or}
use tributo_knova.Python.Result.{Result, ok, err, overflow_error, ◌>>=◌}
use tributo_knova.Training.Runtime.{
  Workers, nested, workers_of, checked_cpus, cpus_of, gpu_of, runtime_config,
}

-- where the hints stand in the extensions
abbrev pub hint_path : List String
hint_path = "extensions" ∷ "tributo" ∷ "training_runtime" ∷ "ray" ∷ []

module _ {F : Type 0} where
  workers_of-le : (v : Value F) → (n : ℕ) × (workers_of v ≡ pos n) × (2 ≤ n)
  workers_of-le (integer (pos n)) = elim (Bool-cases (int_leb (pos 2) (pos n))) [
    | inl enough ↦ (n, rw enough refl, ground arith)
    | inr few ↦ (2, rw few refl, omega arith)
  ]
  workers_of-le v = (2, refl, omega arith)

  module _ ⦃fl : Floats F⦄ where
    -- one processor, or a positive and finite number of them
    abbrev pub IsCpus : Value F → Type 0
    IsCpus v =
        (v ≡ integer (pos 1))
        ⊎ ((x : F) × ((v ≡ float x) ⊎ ((n : ℤ) × (v ≡ integer n) × (fl.of_int n ≡ some x)))
            × (fl.is_finite x ≡ true)
            × (fl.at_most x (fl.literal 0 0) ≡ false))

    abbrev pub Bounded : Result (Workers F) → Type 0
    Bounded (ok w) = ((n : ℕ) × (w.num_workers ≡ pos n) × (2 ≤ n)) × IsCpus w.num_cpus
    Bounded (err e) = e ≡ overflow_error

    abbrev pub GoodCpus : Result (Value F) → Type 0
    GoodCpus (ok v) = IsCpus v
    GoodCpus (err e) = e ≡ overflow_error

    checked_cpus-GoodCpus :
        (v : Value F) (o : Option F)
        → ((x : F)
            → o ≡ some x
            → (v ≡ float x) ⊎ ((n : ℤ) × (v ≡ integer n) × (fl.of_int n ≡ some x)))
        → GoodCpus (checked_cpus v o)
    checked_cpus-GoodCpus v none k = refl
    checked_cpus-GoodCpus v (some x) k =
        elim (Bool-cases (fl.is_finite x && not (fl.at_most x (fl.literal 0 0)))) [
          | inl good ↦ rw good (inr (x, k x refl, ground arith, ground arith))
          | inr bad ↦ rw bad (inl refl)
        ]

    cpus_of-GoodCpus : (v : Value F) → GoodCpus (cpus_of v)
    cpus_of-GoodCpus (integer n) =
        checked_cpus-GoodCpus (integer n) (fl.of_int n) (λ x e. inr (n, refl, e))
    cpus_of-GoodCpus (float x) = checked_cpus-GoodCpus (float x) (some x) (λ y e. inl (cc))
    cpus_of-GoodCpus v = inl refl

    -- Whatever the extensions hold, `_runtime_config` gives at least two workers, each with one
    -- processor or with a positive and finite number of them; or it raises OverflowError.
    pub runtime_config-Bounded : (payload : Dict F) → Bounded (runtime_config payload)
    unfolding runtime_config
    runtime_config-Bounded payload =
        go (cpus_of (get_or (nested payload hint_path) "cpus_per_worker" (integer (pos 1))))
          (cpus_of-GoodCpus (get_or (nested payload hint_path) "cpus_per_worker" (integer (pos 1))))
      where
        go :
            (r : Result (Value F))
            → GoodCpus r
            → Bounded (
                r >>= λ cpus. ok (record {
                  num_workers =
                      workers_of
                        (get_or (nested payload hint_path) "num_workers" (integer (pos 2)));
                  num_cpus = cpus;
                  use_gpu = gpu_of (get_or (nested payload hint_path) "use_gpu" (boolean false));
                }))
        go (ok v) g =
            (workers_of-le (get_or (nested payload hint_path) "num_workers" (integer (pos 2))), g)
        go (err e) g = g

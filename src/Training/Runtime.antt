-- ===== src/Training/Runtime.antt =====
-- src/tributo_knova/training.py: `_runtime_config`, the hints of the extensions.
pub mod Bounds
use tributo_knova.Prelude.{
  ℕ, ◌≤◌, String, Bool, true, false, not, ◌&&◌, ◌||◌, List, [], ◌∷◌, Option, none, some, ◌≡◌, ◌⊎◌,
  inl, inr, refl, arith, if◌then◌else◌,
}
use tributo_knova.Python.Number.{ℤ, pos, negsuc, int_leb, Floats}
use tributo_knova.Python.Value.{Value, Dict, integer, float, boolean, object, end, get_or}
use tributo_knova.Python.Result.{
  Result, Exception, ok, err, overflow_error, from_ok, ok-injective, ◌>>=◌, ◌>>◌,
}
use tributo_knova.Validation.Safe.{IsProtocolError}

-- the number of workers, and the resources of one of them
pub record Workers (F : Type 0) : Type 0 where
  pub num_workers : ℤ
  pub num_cpus : Value F
  pub use_gpu : Bool

module _ {F : Type 0} where
  -- `value if isinstance(value, Mapping) else {}`
  abbrev pub mapping_or_empty : Value F → Dict F
  mapping_or_empty (object d) = d
  mapping_or_empty _ = end

  -- for key in keys: value = ray.get(key, {}); …
  unfoldable pub nested : Dict F → List String → Dict F
  nested d [] = d
  nested d (key ∷ keys) = nested (mapping_or_empty (get_or d key (object end))) keys

  abbrev pub workers_of : Value F → ℤ
  workers_of (integer n) = if int_leb (pos 2) n then n else pos 2
  workers_of _ = pos 2

  module _ ⦃fl : Floats F⦄ where
    -- `math.isfinite` raises OverflowError for an integer that no float holds.
    abbrev pub checked_cpus : Value F → Option F → Result (Value F)
    checked_cpus v none = err overflow_error
    checked_cpus v (some x) =
        if fl.is_finite x && not (fl.at_most x (fl.literal 0 0)) then ok v else ok (integer (pos 1))

    abbrev pub cpus_of : Value F → Result (Value F)
    cpus_of (integer n) = checked_cpus (integer n) (fl.of_int n)
    cpus_of (float x) = checked_cpus (float x) (some x)
    cpus_of _ = ok (integer (pos 1))

    abbrev pub gpu_of : Value F → Bool
    gpu_of (boolean b) = b
    gpu_of _ = false

    unfoldable pub runtime_config : Dict F → Result (Workers F)
    unfolding nested
    runtime_config payload = do
      cpus ← cpus_of (
          get_or (nested payload ("extensions" ∷ "tributo" ∷ "training_runtime" ∷ "ray" ∷ []))
            "cpus_per_worker" (integer (pos 1)))
      ok (record {
        num_workers = workers_of (
            get_or (nested payload ("extensions" ∷ "tributo" ∷ "training_runtime" ∷ "ray" ∷ []))
              "num_workers" (integer (pos 2)));
        num_cpus = cpus;
        use_gpu = gpu_of (
            get_or (nested payload ("extensions" ∷ "tributo" ∷ "training_runtime" ∷ "ray" ∷ []))
              "use_gpu" (boolean false));
      })

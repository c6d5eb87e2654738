-- ===== src/Python/Value/Laws.antt =====
-- Writing one key of a dict leaves what stands at the others.
use tributo_knova.Prelude.{
  String, false, List, [], ◌∷◌, some, ◌≡◌, refl, ◌==◌, eq_iff, elem, arith, if◌then◌else◌,
}
use tributo_knova.Python.Value.{Value, Dict, null, end, field, find, get_or, get, put}

module _ {F : Type 0} where
  pub find-put :
      (d : Dict F) (k j : String) (v : Value F)
      → find (put d k v) j ≡ (if k == j then some v else find d j)
  unfolding find put
  find-put end k j v = refl
  find-put (field i w d) k j v =
      ground (arith, eq_iff i k, eq_iff i j, eq_iff k j, find-put d k j v)

  -- Two dicts have the same value, or none, at each of the keys.
  abbrev pub Agree : List String → Dict F → Dict F → Type 0
  Agree [] d e = Unit
  Agree (k ∷ ks) d e = (find d k ≡ find e k) × Agree ks d e

  pub put-Agree :
      (keys : List String) (d : Dict F) (k : String) (v : Value F)
      → elem k keys ≡ false
      → Agree keys (put d k v) d
  put-Agree [] d k v h = tt
  put-Agree (j ∷ keys) d k v h =
      (ground (arith, find-put d k j v), put-Agree keys d k v (ground arith))

  pub get_or_of_find :
      (d e : Dict F) (k : String) (v : Value F) → find d k ≡ find e k → get_or d k v ≡ get_or e k v
  unfolding get_or
  get_or_of_find d e k v h = rw (h, get_or) refl

  pub get_of_find : (d e : Dict F) (k : String) → find d k ≡ find e k → get d k ≡ get e k
  unfolding get
  get_of_find d e k h = get_or_of_find d e k null h

  pub get_of_some : (d : Dict F) (k : String) (v : Value F) → find d k ≡ some v → get d k ≡ v
  unfolding get get_or
  get_of_some d k v h = ground arith

  pub get-put :
      (d : Dict F) (k j : String) (v : Value F)
      → get (put d k v) j ≡ (if k == j then v else get d j)
  unfolding get get_or
  get-put d k j v = ground (arith, find-put d k j v)

-- ===== src/Validation/Tuning/Catalog.antt =====
-- The search space that `_tuning` accepts for an XGBoost algorithm stays inside the catalog.
use tributo_knova.Prelude.{
  String, Bool, true, false, not, ◌&&◌, ◌||◌, List, [], ◌∷◌, Option, none, some, ◌≡◌, ◌⊎◌, inl, inr,
  refl, ◌==◌, eq_iff, arith, Bool-cases, if◌then◌else◌,
}
use tributo_knova.Python.Number.{Floats}
use tributo_knova.Python.Value.{Value, Dict, string, object, get, is_empty, items}
use tributo_knova.Python.Result.{Result, ok, from_ok, for_each}
use tributo_knova.Validation.Fields.{fail, require, obj, enum, int, number}
use tributo_knova.Validation.Fields.Laws.{require-eq-ok, obj-eq-ok, enum-eq-ok}
use tributo_knova.Validation.Tuning.{
  Bounds, xgb_search, is_xgboost, listed, kind_fits, range_fits, numeric_domain, search_domain,
  auto_config, tuning,
}

module _ {F : Type 0} ⦃fl : Floats F⦄ where
  -- The parameter is in the catalog with its kind, and a numeric range lies inside the catalog's.
  pub record InCatalog (name : String) (raw : Value F) : Type 0 where
    pub bounds : Bounds F
    pub domain : Dict F
    pub found : xgb_search name ≡ some bounds
    pub is_object : raw ≡ object domain
    pub has_kind : get domain "type" ≡ string bounds.kind
    pub low : F
    pub high : F
    pub has_low : number (get domain "min") "search_space domain.min" ≡ ok low
    pub has_high : number (get domain "max") "search_space domain.max" ≡ ok high
    pub ordered : fl.below high low ≡ false
    pub above : fl.below low bounds.lowest ≡ false
    pub within : fl.below bounds.highest high ≡ false

  listed-eq-ok :
      (o : Option (Bounds F)) {p : Option (Bounds F)}
      → listed o ≡ ok p
      → (b : Bounds F) × (o ≡ some b) × (p ≡ some b)
  unfolding fail
  listed-eq-ok (some b) h = (b, refl, cc)
  listed-eq-ok none h = cc

  -- A property of each entry of a table is one of the entry that is found.
  entry_cases :
      (P : Bounds F → Type 0) (test : Bool) (first b : Bounds F) (rest : Option (Bounds F))
      → P first
      → (rest ≡ some b → P b)
      → (if test then some first else rest) ≡ some b
      → P b
  entry_cases P true first b rest p k h = let e : first ≡ b = cc in rw (← e) p
  entry_cases P false first b rest p k h = k h

  IsNumeric : Bounds F → Type 0
  IsNumeric b = (b.kind ≡ "INT") ⊎ (b.kind ≡ "FLOAT")

  xgb_search-IsNumeric : (name : String) (b : Bounds F) → xgb_search name ≡ some b → IsNumeric b
  unfolding xgb_search IsNumeric
  xgb_search-IsNumeric name b = entry_cases IsNumeric (name == "n_estimators") _ b _ (inl refl) (
      entry_cases IsNumeric (name == "max_depth") _ b _ (inl refl) (
        entry_cases IsNumeric (name == "learning_rate") _ b _ (inr refl) (
          entry_cases IsNumeric (name == "subsample") _ b _ (inr refl) (
            entry_cases IsNumeric (name == "colsample_bytree") _ b _ (inr refl) (
              entry_cases IsNumeric (name == "min_child_weight") _ b _ (inl refl) (
                entry_cases IsNumeric (name == "gamma") _ b _ (inr refl) (
                  entry_cases IsNumeric (name == "reg_alpha") _ b _ (inr refl)
                    (entry_cases IsNumeric (name == "reg_lambda") _ b _ (inr refl) (λ h. cc)))))))))

  kind_numeric :
      (kind : String) (b : Bounds F)
      → IsNumeric b
      → kind ≡ b.kind
      → (kind == "INT" || kind == "FLOAT") ≡ true
  unfolding IsNumeric
  kind_numeric kind b (inl e) h = rw (h, e) refl
  kind_numeric kind b (inr e) h = rw (h, e) refl

  numeric_domain-InCatalog :
      (sampler kind name : String) (raw : Value F) (b : Bounds F) (d : Dict F)
      → xgb_search name ≡ some b
      → raw ≡ object d
      → get d "type" ≡ string b.kind
      → numeric_domain sampler kind (some b) d ≡ ok tt
      → InCatalog name raw
  unfolding numeric_domain
  numeric_domain-InCatalog sampler kind name raw b d found o k h =
      from_ok (number (get d "min") _) _ h λ low e1 h1.
        from_ok (number (get d "max") _) _ h1 λ high e2 h2.
          from_ok (require (not (fl.below high low) && range_fits (some b) low high) _ _) _ h2
            λ _ e3 _.
              let fits =
                require-eq-ok (not (fl.below high low) && range_fits (some b) low high) _ _ e3 in
              record {
                bounds = b;
                domain = d;
                found = found;
                is_object = o;
                has_kind = k;
                low = low;
                high = high;
                has_low = e1;
                has_high = e2;
                ordered = ground arith;
                above = ground arith;
                within = ground arith;
              }

  fitting_domain :
      (sampler kind name : String) (raw : Value F) (b : Bounds F) (bounds : Option (Bounds F))
      (d : Dict F) (other : Result (Unit {0}))
      → xgb_search name ≡ some b
      → bounds ≡ some b
      → kind_fits bounds kind ≡ true
      → raw ≡ object d
      → get d "type" ≡ string kind
      → (if kind == "INT" || kind == "FLOAT" then numeric_domain sampler kind bounds d else other)
        ≡ ok tt
      → InCatalog name raw
  fitting_domain sampler kind name raw b bounds d other found same fits o k h =
      let is : kind ≡ b.kind = (eq_iff kind b.kind).0 (rw same at fits) in
      let numeric = kind_numeric kind b (xgb_search-IsNumeric name b found) is in
      numeric_domain-InCatalog sampler kind name raw b d found o (rw (← is) k)
        (rw (← same) (rw numeric at h))

  search_domain-InCatalog :
      (sampler name : String) (raw : Value F)
      → search_domain true sampler (name, raw) ≡ ok tt
      → InCatalog name raw
  unfolding search_domain
  search_domain-InCatalog sampler name raw h = from_ok (obj raw _) _ h λ d e1 h1.
      from_ok (enum (get d "type") _ _) _ h1 λ kind e2 h2.
        from_ok (listed (xgb_search name)) _ h2 λ bounds e3 h3.
          from_ok (require (kind_fits bounds kind) _ _) _ h3 λ _ e4 h4.
            let (b, found, same) = listed-eq-ok (xgb_search name) e3 in
            fitting_domain sampler kind name raw b bounds d _ found same
              (require-eq-ok (kind_fits bounds kind) _ _ e4) (obj-eq-ok raw _ e1)
              (enum-eq-ok (get d "type") _ _ e2).0 h4

  -- the domains of an accepted search space
  abbrev pub AllInCatalog : List (String × Value F) → Type 0
  AllInCatalog [] = Unit
  AllInCatalog ((name, raw) ∷ rest) = InCatalog name raw × AllInCatalog rest

  all_in_catalog :
      (sampler : String) (space : List (String × Value F))
      → for_each (search_domain true sampler) space ≡ ok tt
      → AllInCatalog space
  unfolding for_each
  all_in_catalog sampler [] h = tt
  all_in_catalog sampler ((name, raw) ∷ rest) h =
      from_ok (search_domain true sampler (name, raw)) _ h
        λ _ e1 h1. (search_domain-InCatalog sampler name raw e1, all_in_catalog sampler rest h1)

  auto_config-AllInCatalog :
      (value : Value F)
      → auto_config true value ≡ ok tt
      → (auto space : Dict F) × (value ≡ object auto)
        × (get auto "search_space" ≡ object space)
        × AllInCatalog (items space)
  unfolding auto_config
  auto_config-AllInCatalog value h = from_ok (obj value _) _ h λ auto e1 h1.
      from_ok (obj (get auto "sampler") _) _ h1 λ sampler _ h2.
        from_ok (enum (get sampler "type") _ _) _ h2 λ kind _ h3.
          from_ok (obj (get auto "budget") _) _ h3 λ budget _ h4.
            from_ok (int (get budget "max_trials") _ 1) _ h4 λ _ _ h5.
              from_ok (for_each _ ("patience" ∷ "parallelism" ∷ [])) _ h5 λ _ _ h6.
                from_ok (obj (get auto "search_space") _) _ h6 λ space e7 h7.
                  from_ok (require (not (is_empty space)) _ _) _ h7 λ _ _ h8.
                    from_ok (for_each (search_domain true kind) (items space)) _ h8 λ _ e9 _. (
                      auto,
                      space,
                      obj-eq-ok value _ e1,
                      obj-eq-ok (get auto "search_space") _ e7,
                      all_in_catalog kind (items space) e9,
                    )

  -- The tuning is manual, or its search space stays inside the catalog.
  abbrev pub TunesInCatalog : Value F → Type 0
  TunesInCatalog value =
      (d : Dict F) × (value ≡ object d)
      × ((get d "mode" ≡ string "MANUAL")
          ⊎ ((auto space : Dict F) × (get d "auto_config" ≡ object auto)
              × (get auto "search_space" ≡ object space)
              × AllInCatalog (items space)))

  -- If the tuning of an XGBoost algorithm is accepted, its mode is MANUAL, or it is AUTO and every
  -- parameter of the search space is one of the catalog, of the catalog's kind, with an ordered
  -- range inside the catalog's range.
  pub tuning-AllInCatalog :
      (value : Value F) (algorithm : Dict F)
      → is_xgboost (get algorithm "algorithm_key") ≡ true
      → tuning value algorithm ≡ ok tt
      → TunesInCatalog value
  unfolding tuning
  tuning-AllInCatalog value algorithm x h = from_ok (obj value _) _ h λ d e1 h1.
      from_ok (enum (get d "mode") _ _) _ h1 λ mode e2 h2.
        let has_mode = (enum-eq-ok (get d "mode") _ _ e2).0 in
        (
          d,
          obj-eq-ok value _ e1,
          elim (Bool-cases (mode == "MANUAL")) [
            | inl manual ↦ inl (rw (← (eq_iff mode "MANUAL").0 manual) has_mode)
            | inr auto ↦ inr (auto_config-AllInCatalog (get d "auto_config") (rw (x, auto) at h2))
          ],
        )

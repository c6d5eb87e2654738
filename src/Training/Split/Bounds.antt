-- ===== src/Training/Split/Bounds.antt =====
-- The splits that `_data_split_config` gives.
use mathlib.Core.Path.{subst}
use tributo_knova.Prelude.{◌<◌, ◌^◌, true, false, not, ◌&&◌, [], ◌∷◌, ◌≡◌, elem, ◌==◌, arith}
use tributo_knova.Python.Number.{ℤ, pos, negsuc, Floats}
use tributo_knova.Python.Value.{Dict, integer, float, string, boolean, object, end, get_or}
use tributo_knova.Python.Result.{ok, from_ok, ok-injective}
use tributo_knova.Training.Checks.{Casing, ensure, mapping, text, boolean_of, in_unit, ratio}
use tributo_knova.Training.Checks.Laws.{ensure-eq-ok, ratio-eq-ok}
use tributo_knova.Training.Split.{wrapped, Split, seed_of, no_cross_validation, data_split_config}

wrapped-lt : (n : ℤ) → wrapped n < 2 ^ 32
wrapped-lt (pos n) = omega arith
wrapped-lt (negsuc n) = omega arith

module _ {F : Type 0} ⦃fl : Floats F⦄ where
  -- Ratios from 0 to 1 that add up to 1, some rows to train on, a seed of 32 bits, a known strategy,
  -- and no stratification.
  pub record IsSplit (s : Split F) : Type 0 where
    pub train : in_unit s.train_ratio ≡ true
    pub validation : in_unit s.validation_ratio ≡ true
    pub test : in_unit s.test_ratio ≡ true
    pub whole :
        fl.is_close
          (fl.plus (fl.plus s.train_ratio s.validation_ratio) s.test_ratio)
          (fl.literal 1 0)
        ≡ true
    pub some_train : fl.at_most s.train_ratio (fl.literal 0 0) ≡ false
    pub seed_bound : s.seed < 2 ^ 32
    pub known : elem s.split_strategy ("RANDOM" ∷ "TIME_ORDERED" ∷ []) ≡ true
    pub plain : s.stratify ≡ false

  -- A split that `_data_split_config` returns has ratios from 0 to 1 that add up to 1, with a positive
  -- share to train on, a seed below 2 ** 32, one of the two strategies, and no stratification.
  pub data_split_config-IsSplit :
      (casing : Casing) (payload : Dict F) {s : Split F}
      → data_split_config casing payload ≡ ok s
      → IsSplit s
  unfolding data_split_config
  data_split_config-IsSplit casing payload h =
      from_ok (mapping (get_or payload "data_split" (object end)) _) _ h λ split _ h1.
        from_ok (ratio (get_or split "train_ratio" (float (fl.literal 7 1))) _) _ h1 λ train e2 h2.
          from_ok (ratio (get_or split "validation_ratio" (float (fl.literal 15 2))) _) _ h2
            λ validation e3 h3.
              from_ok (ratio (get_or split "test_ratio" (float (fl.literal 15 2))) _) _ h3
                λ test e4 h4.
                  from_ok
                    (ensure (fl.is_close (fl.plus (fl.plus train validation) test) (fl.literal 1 0))
                      _)
                    _ h4
                    λ _ e5 h5.
                      from_ok (ensure (not (fl.at_most train (fl.literal 0 0))) _) _ h5 λ _ e6 h6.
                        from_ok (text (get_or split "strategy" (string "RANDOM")) _) _ h6
                          λ raw _ h7.
                            from_ok
                              (ensure (elem (casing.upper raw) ("RANDOM" ∷ "TIME_ORDERED" ∷ [])) _)
                              _ h7
                              λ _ e8 h8.
                                from_ok (boolean_of (get_or split "stratify" (boolean false)) _) _
                                  h8
                                  λ stratify _ h9.
                                    from_ok
                                      (ensure (not (casing.upper raw == "TIME_ORDERED" && stratify))
                                        _)
                                      _ h9
                                      λ _ _ h10.
                                        from_ok (ensure (not stratify) _) _ h10 λ _ e11 h11.
                                          from_ok
                                            (seed_of
                                              (get_or split "random_seed" (integer (pos 42))))
                                            _ h11
                                            λ seed _ h12.
                                              from_ok (no_cross_validation split) _ h12 λ _ _ h13.
                                                let made = ok-injective h13 in
                                                let positive =
                                                  ensure-eq-ok
                                                    (not (fl.at_most train (fl.literal 0 0))) _
                                                    e6 in
                                                let unstratified =
                                                  ensure-eq-ok (not stratify) _ e11 in
                                                subst IsSplit made (record {
                                                  train =
                                                      ratio-eq-ok
                                                        (get_or split "train_ratio"
                                                          (float (fl.literal 7 1)))
                                                        _ e2;
                                                  validation =
                                                      ratio-eq-ok
                                                        (get_or split "validation_ratio"
                                                          (float (fl.literal 15 2)))
                                                        _ e3;
                                                  test =
                                                      ratio-eq-ok
                                                        (get_or split "test_ratio"
                                                          (float (fl.literal 15 2)))
                                                        _ e4;
                                                  whole =
                                                      ensure-eq-ok
                                                        (fl.is_close
                                                          (fl.plus (fl.plus train validation) test)
                                                          (fl.literal 1 0))
                                                        _ e5;
                                                  some_train = ground arith;
                                                  seed_bound = wrapped-lt seed;
                                                  known =
                                                      ensure-eq-ok
                                                        (elem (casing.upper raw)
                                                          ("RANDOM" ∷ "TIME_ORDERED" ∷ []))
                                                        _ e8;
                                                  plain = ground arith;
                                                })

-- ===== src/Training/Evaluation/Metrics.antt =====
-- The metrics that `_evaluation_config` gives.
use tributo_knova.Prelude.{
  String, Bool, true, List, [], ◌∷◌, Option, none, some, ◌≡◌, ◌⊎◌, inl, inr, refl, ap, elem,
  distinct, All, eq_iff, arith, Bool-cases, elem-append, distinct-append, All-append,
}
use mathlib.Core.List as L
use tributo_knova.Python.Text.{starts_with, strip, is_blank}
use tributo_knova.Python.Table.{lookup, table_values}
use tributo_knova.Python.Table.Laws.{elem-lookup}
use tributo_knova.Python.Value.{Value, Dict, null, string, array, object, nil, end, get, get_or}
use tributo_knova.Python.Result.{ok, from_ok, ok-injective}
use tributo_knova.Training.Checks.{Casing, invalid, mapping}
use mathlib.Core.Path.{subst}
use tributo_knova.Training.Checks.Laws.{mapping-eq-ok}
use tributo_knova.Training.Evaluation.{
  loss_of, supported_of, add_metric, artifact_names, metric_list, requested, collect, artifacts_of,
  evaluation_config,
}

-- The metrics start with the loss, none stands twice, and each is one of the objective's.
pub record IsMetrics (table : List (String × String)) (loss : String) (metrics : List String)
    : Type 0 where
  pub rest : List String
  pub starts : metrics ≡ loss ∷ rest
  pub unique : distinct metrics ≡ true
  pub supported : All (λ m. elem m (table_values table) ≡ true) metrics

module _ (table : List (String × String)) (loss : String) where
  add_metric-IsMetrics :
      (o : Option String) (metrics : List String)
      → ((m : String) → o ≡ some m → elem m (table_values table) ≡ true)
      → IsMetrics table loss metrics
      → IsMetrics table loss (add_metric o metrics)
  add_metric-IsMetrics none metrics k i = i
  add_metric-IsMetrics (some m) metrics k i = elim (Bool-cases (elem m metrics)) [
    | inl there ↦ rw there i
    | inr new ↦ rw new (record {
      rest = L.◌++◌ i.rest (m ∷ []);
      starts = rw i.starts refl;
      unique = distinct-append metrics m i.unique new;
      supported =
          All-append (λ n. elem n (table_values table) ≡ true) metrics m i.supported (k m refl);
    })
  ]

  add_metric-elem :
      (o : Option String) (metrics : List String) (m : String)
      → (elem m metrics ≡ true) ⊎ (o ≡ some m)
      → elem m (add_metric o metrics) ≡ true
  add_metric-elem none metrics m (inl e) = e
  add_metric-elem none metrics m (inr e) = cc
  add_metric-elem (some n) metrics m h =
      ground (arith, elem-append m metrics (n ∷ []), eq_iff m n, some-injective)
    where
      some-injective : some n ≡ some m → n ≡ m
      some-injective e = cc

module _ {F : Type 0} (casing : Casing) (table : List (String × String)) (loss : String) where
  -- A requested name that the table knows has its metric among the metrics.
  abbrev pub Wanted : List String → Value F → Type 0
  Wanted metrics (string s) =
      (m : String) → lookup table (casing.lower (strip s)) ≡ some m → elem m metrics ≡ true
  Wanted metrics v = Unit

  pub record IsCollected (raws : List (Value F)) (before after : List String) : Type 0 where
    pub metrics : IsMetrics table loss after
    pub kept : (m : String) → elem m before ≡ true → elem m after ≡ true
    pub wanted : All (Wanted after) raws

  requested-IsCollected :
      (v : Value F) (before : List String) {after : List String}
      → requested casing table v before ≡ ok after
      → IsMetrics table loss before
      → IsCollected (v ∷ []) before after
  unfolding invalid
  requested-IsCollected null before h i =
      subst (IsCollected (null ∷ []) before) (ok-injective h)
        (record { metrics = i; kept = λ m e. e; wanted = (tt, tt) })
  requested-IsCollected (string s) before h i = elim (Bool-cases (is_blank s)) [
    | inl blank ↦ let k = rw blank at h in cc
    | inr named ↦
        let o = lookup table (casing.lower (strip s)) in
        subst (IsCollected (string s ∷ []) before) (ok-injective (rw named at h)) (record {
          metrics =
              add_metric-IsMetrics table loss o before
                (λ m. elem-lookup table (casing.lower (strip s)) m) i;
          kept = λ m e. add_metric-elem table loss o before m (inl e);
          wanted = ((λ m e. add_metric-elem table loss o before m (inr e)), tt);
        })
  ]
  requested-IsCollected v before h i = cc

  Wanted-kept :
      (v : Value F) (before after : List String)
      → ((m : String) → elem m before ≡ true → elem m after ≡ true)
      → Wanted before v
      → Wanted after v
  Wanted-kept (string s) before after k w = λ m e. k m (w m e)
  Wanted-kept v before after k w = tt

  collect-IsCollected :
      (raws : List (Value F)) (before : List String) {after : List String}
      → collect casing table raws before ≡ ok after
      → IsMetrics table loss before
      → IsCollected raws before after
  unfolding collect
  collect-IsCollected [] before h i =
      subst (IsCollected [] before) (ok-injective h)
        (record { metrics = i; kept = λ m e. e; wanted = tt })
  collect-IsCollected (raw ∷ rest) before {after} h i =
      from_ok (requested casing table raw before) _ h λ next e1 h1.
        let one = requested-IsCollected raw before e1 i in
        let others = collect-IsCollected rest next h1 one.metrics in
        record {
          metrics = others.metrics;
          kept = λ m e. others.kept m (one.kept m e);
          wanted = (Wanted-kept raw next after others.kept one.wanted.0, others.wanted);
        }

loss_of-IsMetrics :
    (objective : String)
    → IsMetrics (supported_of objective) (loss_of objective) (loss_of objective ∷ [])
loss_of-IsMetrics objective = elim (Bool-cases (starts_with objective "multi:")) [
  | inl multi ↦
      rw multi (record { rest = []; starts = refl; unique = refl; supported = (refl, tt) })
  | inr other ↦ elim (Bool-cases (starts_with objective "binary:")) [
    | inl binary ↦
        rw (other, binary)
          (record { rest = []; starts = refl; unique = refl; supported = (refl, tt) })
    | inr regression ↦
        rw (other, regression)
          (record { rest = []; starts = refl; unique = refl; supported = (refl, tt) })
  ]
]

-- The metrics that `_evaluation_config` returns start with the loss of the objective; none of them
-- stands twice and each belongs to the objective; and a primary metric that the objective
-- knows is among them.
pub evaluation_config-IsMetrics :
    {F : Type 0} (casing : Casing) (payload : Dict F) (objective : String)
    {out : List String × List (String × Bool)}
    → evaluation_config casing payload objective ≡ ok out
    → IsMetrics (supported_of (casing.lower objective)) (loss_of (casing.lower objective)) out.0
      × ((evaluation : Dict F) × (get_or payload "evaluation" (object end) ≡ object evaluation)
          × Wanted casing
              (supported_of (casing.lower objective))
              (loss_of (casing.lower objective))
              out.0
              (get evaluation "primary_metric"))
unfolding evaluation_config
evaluation_config-IsMetrics casing payload objective {out} h =
    from_ok (mapping (get_or payload "evaluation" (object end)) _) _ h λ evaluation e1 h1.
      from_ok (metric_list (get_or evaluation "additional_metrics" (array nil)) _) _ h1
        λ additional _ h2.
          from_ok (metric_list (get_or evaluation "realtime_metrics" (array nil)) _) _ h2
            λ realtime _ h3.
              from_ok
                (collect casing (supported_of (casing.lower objective))
                  (get evaluation "primary_metric" ∷ L.◌++◌ additional realtime)
                  (loss_of (casing.lower objective) ∷ []))
                _ h3
                λ metrics e4 h4.
                  from_ok (mapping (get_or evaluation "artifacts" (object end)) _) _ h4 λ raw _ h5.
                    from_ok (artifacts_of raw artifact_names) _ h5 λ artifacts _ h6.
                      let c =
                        collect-IsCollected casing (supported_of (casing.lower objective))
                          (loss_of (casing.lower objective))
                          (get evaluation "primary_metric" ∷ L.◌++◌ additional realtime)
                          (loss_of (casing.lower objective) ∷ []) e4
                          (loss_of-IsMetrics (casing.lower objective)) in
                      let same : metrics ≡ out.0 =
                        ap (λ (o : List String × List (String × Bool)). o.0) (ok-injective h6) in
                      rw (← same) (
                        c.metrics,
                        (
                          evaluation,
                          mapping-eq-ok (get_or payload "evaluation" (object end)) _ e1,
                          c.wanted.0,
                        ),
                      )

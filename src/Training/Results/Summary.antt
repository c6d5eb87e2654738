-- ===== src/Training/Results/Summary.antt =====
-- What the summary of a training holds.

use Prim.Native.String.{[], ◌∷◌}
use mathlib.Core.List as L
use mathlib.Core.Path.{subst}
use tributo_knova.Prelude.{
  ◌+◌, String, true, false, List, [], ◌∷◌, Option, none, some, All, eqb, eqb_iff, ◌==◌, eq_iff, ◌≡◌,
  refl, ap, arith, Bool-cases, inl, inr,
}
use tributo_knova.Python.Number.{Floats}
use tributo_knova.Python.Value.{Value, Dict, integer, float, object, field, end, get, get_or}
use tributo_knova.Python.Result.{ok, from_ok, ok-injective}
use tributo_knova.Training.Checks.{Casing, converted}
use tributo_knova.Training.Manifest.{require_that}
use tributo_knova.Training.Manifest.Complete.{require_that-eq-ok}
use tributo_knova.Training.Results.{
  Rows, text_leb, Metric, Results, internal_metrics, raw_rows, row_count, sample_rows,
  insert_metric, sorted_onto, next_metric, requested_name, primary_metric, finite_metric, metric_of,
  metrics_of, raw_metrics, evaluation_metrics, result_summary,
}

text_leb-total : (s t : String) → text_leb s t ≡ false → text_leb t s ≡ true
unfolding text_leb
text_leb-total [] t h = cc
text_leb-total (c ∷ s) [] h = refl
text_leb-total (c ∷ s) (d ∷ t) h = ground (arith, text_leb-total s t)

module _ {F : Type 0} where
  -- The metrics are in the order of their names.
  abbrev pub FirstBelow : String → List (Metric F) → Type 0
  FirstBelow name [] = Unit
  FirstBelow name (m ∷ ms) = text_leb name m.0 ≡ true

  abbrev pub InOrder : List (Metric F) → Type 0
  InOrder [] = Unit
  InOrder (m ∷ ms) = FirstBelow m.0 ms × InOrder ms

  FirstBelow-insert :
      (name : String) (m : Metric F) (ns : List (Metric F))
      → FirstBelow name ns
      → text_leb name m.0 ≡ true
      → FirstBelow name (insert_metric m ns)
  unfolding insert_metric
  FirstBelow-insert name m [] f h = h
  FirstBelow-insert name m (n ∷ ns) f h = elim (Bool-cases (text_leb n.0 m.0)) [
    | inl before ↦ rw before f
    | inr behind ↦ rw behind h
  ]

  InOrder-insert : (m : Metric F) (ns : List (Metric F)) → InOrder ns → InOrder (insert_metric m ns)
  unfolding insert_metric
  InOrder-insert m [] o = (tt, tt)
  InOrder-insert m (n ∷ ns) (f, o) = elim (Bool-cases (text_leb n.0 m.0)) [
    | inl before ↦ rw before (FirstBelow-insert n.0 m ns f before, InOrder-insert m ns o)
    | inr behind ↦ rw behind (text_leb-total n.0 m.0 behind, (f, o))
  ]

  InOrder-sorted : (ms done : List (Metric F)) → InOrder done → InOrder (sorted_onto ms done)
  InOrder-sorted [] done o = o
  InOrder-sorted (m ∷ ms) done o =
      InOrder-sorted ms (insert_metric m done) (InOrder-insert m done o)

  All-insert :
      (P : Metric F → Type 0) (m : Metric F) (ns : List (Metric F))
      → P m
      → All P ns
      → All P (insert_metric m ns)
  unfolding insert_metric
  All-insert P m [] p a = (p, tt)
  All-insert P m (n ∷ ns) p (q, a) = elim (Bool-cases (text_leb n.0 m.0)) [
    | inl before ↦ rw before (q, All-insert P m ns p a)
    | inr behind ↦ rw behind (p, (q, a))
  ]

  All-sorted :
      (P : Metric F → Type 0) (ms done : List (Metric F))
      → All P ms
      → All P done
      → All P (sorted_onto ms done)
  All-sorted P [] done a d = d
  All-sorted P (m ∷ ms) done (p, a) d =
      All-sorted P ms (insert_metric m done) a (All-insert P m done p d)

  -- the first metric of the name, or none where no metric has it
  abbrev pub IsNext : List (Metric F) → String → Option (Metric F) → Type 0
  IsNext metrics name none = All (λ (m : Metric F). m.0 == name ≡ false) metrics
  IsNext metrics name (some m) =
      (before : List (Metric F)) × (behind : List (Metric F)) × (metrics
        ≡ L.◌++◌ before (m ∷ behind))
      × (m.0 ≡ name)
      × All (λ (n : Metric F). n.0 == name ≡ false) before

  next_metric-IsNext :
      (metrics : List (Metric F)) (name : String) → IsNext metrics name (next_metric metrics name)
  next_metric-IsNext [] name = tt
  next_metric-IsNext (m ∷ ms) name = elim (Bool-cases (m.0 == name)) [
    | inl same ↦ rw same ([], ms, refl, (eq_iff m.0 name).0 same, tt)
    | inr other ↦ rw other (go (next_metric ms name) (next_metric-IsNext ms name) other)
  ]
    where
      go : (o : Option (Metric F)) → IsNext ms name o → m.0 == name ≡ false → IsNext (m ∷ ms) name o
      go none a other = (other, a)
      go (some n) (before, behind, same, named, a) other =
          (m ∷ before, behind, ap (λ (ns : List (Metric F)). m ∷ ns) same, named, (other, a))

module _ {F : Type 0} ⦃fl : Floats F⦄ where
  abbrev pub IsFinite : Metric F → Type 0
  IsFinite m = fl.is_finite m.1 ≡ true

  All-both :
      (xs ys : List (Metric F)) → All IsFinite xs → All IsFinite ys → All IsFinite (L.◌++◌ xs ys)
  All-both [] ys a b = b
  All-both (x ∷ xs) ys (p, a) b = (p, All-both xs ys a b)

  finite_metric-IsFinite :
      (name : String) (o : Option F) {ms : List (Metric F)}
      → finite_metric name o ≡ ok ms
      → All IsFinite ms
  finite_metric-IsFinite name o h = from_ok (converted o) _ h λ x _ h1.
      elim (Bool-cases (fl.is_finite x)) [
        | inl finite ↦ let k = rw finite at h1 in subst (All IsFinite) (ok-injective k) (finite, tt)
        | inr other ↦ let k = rw other at h1 in subst (All IsFinite) (ok-injective k) tt
      ]

  metric_of-IsFinite :
      (casing : Casing) (name : String) (v : Value F) {ms : List (Metric F)}
      → metric_of casing name v ≡ ok ms
      → All IsFinite ms
  metric_of-IsFinite casing name (integer n) h =
      finite_metric-IsFinite (casing.lower name) (fl.of_int n) h
  metric_of-IsFinite casing name (float x) h = finite_metric-IsFinite (casing.lower name) (some x) h
  metric_of-IsFinite casing name v h = subst (All IsFinite) (ok-injective h) tt

  metrics_of-IsFinite :
      (casing : Casing) (d : Dict F) {ms : List (Metric F)}
      → metrics_of casing d ≡ ok ms
      → All IsFinite ms
  unfolding metrics_of
  metrics_of-IsFinite casing end h = subst (All IsFinite) (ok-injective h) tt
  metrics_of-IsFinite casing (field name v rest) h =
      from_ok (metric_of casing name v) _ h λ here e1 h1.
        from_ok (metrics_of casing rest) _ h1 λ others e2 h2.
          subst (All IsFinite) (ok-injective h2) (
            All-both here others (metric_of-IsFinite casing name v e1)
              (metrics_of-IsFinite casing rest e2))

  raw_metrics-IsFinite :
      (casing : Casing) (v : Value F) {ms : List (Metric F)}
      → raw_metrics casing v ≡ ok ms
      → All IsFinite ms
  raw_metrics-IsFinite casing (object d) h = metrics_of-IsFinite casing d h
  raw_metrics-IsFinite casing v h = subst (All IsFinite) (ok-injective h) tt

  evaluation_metrics-IsEvaluated :
      (casing : Casing) (metrics : Dict F) {ms : List (Metric F)}
      → evaluation_metrics casing metrics ≡ ok ms
      → InOrder ms × All IsFinite ms
  unfolding evaluation_metrics
  evaluation_metrics-IsEvaluated casing metrics h =
      from_ok (raw_metrics casing (get_or metrics "evaluation" (object end))) _ h λ raw e1 h1.
        let finite = raw_metrics-IsFinite casing (get_or metrics "evaluation" (object end)) e1 in
        subst (λ (ms : List (Metric F)). InOrder ms × All IsFinite ms) (ok-injective h1)
          (InOrder-sorted raw [] tt, All-sorted IsFinite raw [] finite tt)

  sample_rows-whole :
      (metrics : Dict F) {r : Rows}
      → sample_rows metrics ≡ ok r
      → r.train + r.validation + r.test ≡ r.total
  unfolding sample_rows
  sample_rows-whole metrics h = from_ok (raw_rows (get metrics "sample_rows")) _ h λ raw _ h1.
      from_ok (row_count (get raw "total")) _ h1 λ total _ h2.
        from_ok (row_count (get raw "train")) _ h2 λ train _ h3.
          from_ok (row_count (get raw "validation")) _ h3 λ validation _ h4.
            from_ok (row_count (get raw "test")) _ h4 λ test _ h5.
              from_ok (require_that (eqb (train + validation + test) total) _) _ h5 λ _ e6 h6.
                let whole = require_that-eq-ok (eqb (train + validation + test) total) _ e6 in
                subst (λ (r : Rows). r.train + r.validation + r.test ≡ r.total) (ok-injective h6)
                  ((eqb_iff (train + validation + test) total).0 whole)

  -- the metric that was asked for, if one was
  abbrev pub IsPrimary : List (Metric F) → Option String → Option (Metric F) → Type 0
  IsPrimary metrics none o = o ≡ none
  IsPrimary metrics (some name) o = IsNext metrics name o

  primary_metric-IsPrimary :
      (metrics : List (Metric F)) (o : Option String)
      → IsPrimary metrics o (primary_metric metrics o)
  primary_metric-IsPrimary metrics none = refl
  primary_metric-IsPrimary metrics (some name) = next_metric-IsNext metrics name

  pub record IsSummary (casing : Casing) (payload : Dict F) (r : Results F) : Type 0 where
    pub whole : r.rows.train + r.rows.validation + r.rows.test ≡ r.rows.total
    pub ordered : InOrder r.metrics
    pub finite : All IsFinite r.metrics
    pub primary : IsPrimary r.metrics (requested_name casing (get payload "evaluation")) r.primary

  -- In a summary of the results of a training, the rows of the three splits add up to all rows; the
  -- metrics are in the order of their names, and finite; and the primary metric is the first one of the
  -- name that was asked for, or none where no metric has that name or none was asked for.
  pub result_summary-IsSummary :
      (casing : Casing) (payload : Dict F) (result : Value F) {r : Results F}
      → result_summary casing payload result ≡ ok r
      → IsSummary casing payload r
  unfolding result_summary
  result_summary-IsSummary casing payload result h =
      from_ok (internal_metrics result) _ h λ metrics _ h1.
        from_ok (sample_rows metrics) _ h1 λ rows e2 h2.
          from_ok (evaluation_metrics casing metrics) _ h2 λ evaluated e3 h3.
            let both = evaluation_metrics-IsEvaluated casing metrics e3 in
            subst (IsSummary casing payload) (ok-injective h3) (record {
              whole = sample_rows-whole metrics e2;
              ordered = both.0;
              finite = both.1;
              primary =
                  primary_metric-IsPrimary evaluated
                    (requested_name casing (get payload "evaluation"));
            })

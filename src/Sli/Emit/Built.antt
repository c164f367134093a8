-- ===== src/Sli/Emit/Built.antt =====
-- That what `Aggregator.build` of sli.py makes is let through by `assert_allowed` of emit/base.py.
use inference_control_plane.Prelude.{
  ℕ, String, Bool, true, false, ◌≡◌, refl, List, [], ◌∷◌, ◌++◌, All, All-append, some, eq_refl, ltb,
  Bool-cases, Option-cases, inl, inr, if◌then◌else◌,
}
use inference_control_plane.Prelude.Dict.{sorted_items, All-sorted_items, lookup}
use inference_control_plane.Prelude.Table.{Table, AllKeys}
use inference_control_plane.Python.{FloatOps, Result, ok, err, ◌>>=◌}
use inference_control_plane.Sli.Governance.{Config}
use inference_control_plane.Sli.Governance.Registry.{metric, metric_registry, cost}
use inference_control_plane.Sli.Normalize.{Texts, PrimaryDims, as_dict}
use inference_control_plane.Sli.Histogram.{HistAcc, Number, whole, real, MetricPoint, acc_to_point}
use inference_control_plane.Sli.Aggregation.{Aggregator, Outcomes, CostKey, CostEntry}
use inference_control_plane.Sli.Aggregation.Points.{
  point, counter, counter_if, points_of, hist_points, outcome_points, error_points, cost_dims,
  AggregationStats, ratio_points, cache_points, cost_points, all_cost_points, fold_points, build,
}
use inference_control_plane.Sli.Aggregation.Governed.{IsGoverned}
use inference_control_plane.Sli.Emit.{Reprs, check_point, check_shape, check_values}
use inference_control_plane.Sli.Emit.Allowed.{
  InVocabulary, AreKnown, IsAllowed, PrimaryKnown, check_values-ok,
}

module _ (q : Reprs) where
  abbrev pub AllAllowed : List MetricPoint → Type 0
  AllAllowed = All (IsAllowed q)

  pub points_of-allowed {ℓ} :
      {K V : Type ℓ} (P : K → Type 0) (p : K → V → List MetricPoint) (d : Table K V)
      → ((k : K) (v : V) → P k → AllAllowed (p k v))
      → AllKeys P d
      → AllAllowed (points_of p d)
  points_of-allowed P p [] one all = tt
  points_of-allowed P p ((k, v) ∷ d) one all =
      All-append (IsAllowed q) (p k v) (points_of p d) (one k v all.0)
        (points_of-allowed P p d one all.1)

  pub if-allowed :
      (test : Bool) (ps : List MetricPoint) → AllAllowed ps → AllAllowed (if test then ps else [])
  if-allowed true ps h = h
  if-allowed false ps h = tt

  duration-allowed :
      (f : FloatOps) (pk : PrimaryDims) (acc : HistAcc)
      → PrimaryKnown pk
      → AllAllowed (hist_points f "gateway.request.duration" pk acc)
  unfolding check_point check_shape lookup as_dict acc_to_point
  duration-allowed f pk acc (t, r, m, e) =
      if-allowed (ltb 0 acc.count) _
        (check_values-ok q "gateway.request.duration" (as_dict pk) (t, (r, (m, (e, tt)))), tt)

  ttft-allowed :
      (f : FloatOps) (pk : PrimaryDims) (acc : HistAcc)
      → PrimaryKnown pk
      → AllAllowed (hist_points f "gateway.request.ttft" pk acc)
  unfolding check_point check_shape lookup as_dict acc_to_point
  ttft-allowed f pk acc (t, r, m, e) =
      if-allowed (ltb 0 acc.count) _
        (check_values-ok q "gateway.request.ttft" (as_dict pk) (t, (r, (m, (e, tt)))), tt)

  outcome-allowed :
      (pk : PrimaryDims) (c : Outcomes) → PrimaryKnown pk → AllAllowed (outcome_points pk c)
  unfolding check_point check_shape lookup as_dict
  outcome-allowed pk c (t, r, m, e) = (
    check_values-ok q "gateway.request.count" (as_dict pk ++ ("outcome", "success") ∷ [])
        (t, (r, (m, (e, (refl, tt))))),
    if-allowed (ltb 0 c.error) _ (
      check_values-ok q "gateway.request.count" (as_dict pk ++ ("outcome", "error") ∷ [])
          (t, (r, (m, (e, (refl, tt))))),
      tt,
    ),
  )

  error-allowed :
      (k : PrimaryDims × String) (n : ℕ)
      → PrimaryKnown k.0 × InVocabulary "error_category" k.1
      → AllAllowed (error_points k n)
  unfolding check_point check_shape lookup as_dict
  error-allowed (pk, category) n ((t, r, m, e), h) = (
    check_values-ok q "gateway.request.errors" (as_dict pk ++ ("error_category", category) ∷ [])
        (t, (r, (m, (e, (h, tt))))),
    tt,
  )

  cost_metric-ok :
      (include : Bool) (k : CostKey) (name type unit : String) (n : Number)
      → AreKnown (cost_dims include k)
      → lookup name metric_registry ≡ some (metric type unit cost)
      → IsAllowed q (point name type unit (cost_dims include k) n)
  unfolding check_point check_shape
  cost_metric-ok true k name type unit n h found =
      rw (found, check_point, eq_refl type, eq_refl unit)
        (check_values-ok q name (cost_dims true k) h)
  cost_metric-ok false k name type unit n h found =
      rw (found, check_point, eq_refl type, eq_refl unit)
        (check_values-ok q name (cost_dims false k) h)

  cost_counter-ok :
      (include : Bool) (k : CostKey) (name : String) (n : ℕ)
      → AreKnown (cost_dims include k)
      → lookup name metric_registry ≡ some (metric "counter" "1" cost)
      → IsAllowed q (counter name (cost_dims include k) n)
  cost_counter-ok include k name n = cost_metric-ok include k name "counter" "1" (whole n)

  -- All points of a list that is returned are let through.
  abbrev pub Allows : Result (List MetricPoint) → Type 0
  Allows (err e) = Unit
  Allows (ok points) = AllAllowed points

  pub bind-Allows :
      (r : Result (List MetricPoint)) (k : List MetricPoint → Result (List MetricPoint))
      → Allows r
      → ((points : List MetricPoint) → AllAllowed points → Allows (k points))
      → Allows (r >>= k)
  bind-Allows (err e) k h each = tt
  bind-Allows (ok points) k h each = each points h

  ratio-allowed :
      (f : FloatOps) (include : Bool) (k : CostKey) (c : CostEntry)
      → AreKnown (cost_dims include k)
      → Allows (ratio_points f (cost_dims include k) c)
  unfolding lookup
  ratio-allowed f include k c h = elim (Bool-cases (ltb 0 c.input)) [
    | inr none_read ↦ rw none_read tt
    | inl some_read ↦ rw some_read (elim (Option-cases (f.true_div c.output c.input)) [
      | inl large ↦ rw large tt
      | inr (quotient, q') ↦
          rw q' (
            cost_metric-ok include k "gateway.tokens.completion_ratio" "gauge" "ratio" _ h refl,
            tt,
          )
    ])
  ]

  cost-allowed :
      (f : FloatOps) (include : Bool) (k : CostKey) (c : CostEntry)
      → AreKnown (cost_dims include k)
      → Allows (cost_points f include k c)
  unfolding lookup
  cost-allowed f include k c h =
      let one = λ (name : String) (n : ℕ). cost_counter-ok include k name n h in
      let dims = cost_dims include k in
      bind-Allows (ratio_points f dims c) _ (ratio-allowed f include k c h) (λ ratio allowed.
        let head =
          point "gateway.cost.usd" "counter" "USD" dims (real (f.round c.usd 6))
          ∷ counter "gateway.cost.request_count" dims c.requests
          ∷ counter "gateway.tokens.input" dims c.input
          ∷ counter "gateway.tokens.output" dims c.output
          ∷ ratio in
        let cached = cache_points dims c in
        let missing = counter_if "gateway.cost.records_missing" dims c.missing in
        All-append (IsAllowed q) (head ++ cached ++ missing)
          (counter_if "gateway.cost.records_invalid" dims c.invalid)
          (All-append (IsAllowed q) (head ++ cached) missing
            (All-append (IsAllowed q) head cached
              (
                cost_metric-ok include k "gateway.cost.usd" "counter" "USD" _ h refl,
                (
                  one "gateway.cost.request_count" c.requests refl,
                  (
                    one "gateway.tokens.input" c.input refl,
                    (one "gateway.tokens.output" c.output refl, allowed),
                  ),
                ),
              )
              (if-allowed (ltb 0 c.cache_hits) _ (
                one "gateway.cache.read_tokens" c.cache_read refl,
                (one "gateway.cache.hit_count" c.cache_hits refl, tt),
              )))
            (if-allowed (ltb 0 c.missing) _
              (one "gateway.cost.records_missing" c.missing refl, tt)))
          (if-allowed (ltb 0 c.invalid) _ (one "gateway.cost.records_invalid" c.invalid refl, tt)))

  costs-allowed :
      (f : FloatOps) (include : Bool) (d : Table CostKey CostEntry)
      → AllKeys (λ k. AreKnown (cost_dims include k)) d
      → Allows (all_cost_points f include d)
  costs-allowed f include [] all = tt
  costs-allowed f include ((k, c) ∷ d) all =
      bind-Allows (cost_points f include k c) _ (cost-allowed f include k c all.0) (λ points h.
        bind-Allows (all_cost_points f include d) _ (costs-allowed f include d all.1)
          (λ rest hs. All-append (IsAllowed q) points rest h hs))

  fold-allowed :
      (dim : String) (n : ℕ) → InVocabulary "dimension" dim → AllAllowed (fold_points dim n)
  unfolding check_point check_shape lookup
  fold-allowed dim n h =
      (check_values-ok q "gateway.pipeline.unknown_dimension" (("dimension", dim) ∷ []) (h, tt), tt)

  -- The points of a build that returns.
  abbrev pub AllowsBuilt : Result (List MetricPoint × AggregationStats) → Type 0
  AllowsBuilt (err e) = Unit
  AllowsBuilt (ok (points, stats)) = AllAllowed points

  bind-AllowsBuilt :
      (r : Result (List MetricPoint))
      (k : List MetricPoint → Result (List MetricPoint × AggregationStats))
      → Allows r
      → ((points : List MetricPoint) → AllAllowed points → AllowsBuilt (k points))
      → AllowsBuilt (r >>= k)
  bind-AllowsBuilt (err e) k h each = tt
  bind-AllowsBuilt (ok points) k h each = each points h

  -- What is built of an aggregator whose keys are registered is let through.
  pub build-allowed :
      (f : FloatOps) (x : Texts) (cfg : Config) (a : Aggregator) (malformed duplicates : ℕ)
      → IsGoverned cfg a
      → AllowsBuilt (build f x cfg a malformed duplicates)
  unfolding build check_point check_shape check_values lookup
  build-allowed f x cfg a malformed duplicates (d, t, c, e, k, u) =
      let P = IsAllowed q in
      let include = cfg.include_provider_region in
      let p1 = points_of (hist_points f "gateway.request.duration") a.dur in
      let p2 = points_of (hist_points f "gateway.request.ttft") a.ttft in
      let p3 = points_of outcome_points a.counts in
      let p4 = points_of error_points a.errcat in
      let p6 = counter_if "gateway.pipeline.malformed_records" [] malformed in
      let p7 = counter_if "gateway.pipeline.duplicate_records" [] duplicates in
      let p8 = points_of fold_points (sorted_items a.unknown_dims) in
      bind-AllowsBuilt (all_cost_points f include a.cost) _ (costs-allowed f include a.cost k)
        (λ p5 costs.
          All-append P (p1 ++ p2 ++ p3 ++ p4 ++ p5 ++ p6 ++ p7) p8
            (All-append P (p1 ++ p2 ++ p3 ++ p4 ++ p5 ++ p6) p7
              (All-append P (p1 ++ p2 ++ p3 ++ p4 ++ p5) p6
                (All-append P (p1 ++ p2 ++ p3 ++ p4) p5
                  (All-append P (p1 ++ p2 ++ p3) p4
                    (All-append P (p1 ++ p2) p3
                      (All-append P p1 p2
                        (points_of-allowed PrimaryKnown (hist_points f "gateway.request.duration")
                          a.dur (duration-allowed f) d)
                        (points_of-allowed PrimaryKnown (hist_points f "gateway.request.ttft")
                          a.ttft (ttft-allowed f) t))
                      (points_of-allowed PrimaryKnown outcome_points a.counts outcome-allowed c))
                    (points_of-allowed (λ k. PrimaryKnown k.0 × InVocabulary "error_category" k.1)
                      error_points a.errcat error-allowed e))
                  costs)
                (if-allowed (ltb 0 malformed) _ (refl, tt)))
              (if-allowed (ltb 0 duplicates) _ (refl, tt)))
            (points_of-allowed (InVocabulary "dimension") fold_points (sorted_items a.unknown_dims)
              fold-allowed (All-sorted_items (λ e. InVocabulary "dimension" e.0) a.unknown_dims u)))

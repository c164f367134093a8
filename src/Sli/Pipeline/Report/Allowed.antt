-- ===== src/Sli/Pipeline/Report/Allowed.antt =====
-- That the points which `run` of pipeline.py adds are let through by `assert_allowed`.
use inference_control_plane.Prelude.{
  ℕ, ◌-◌, String, Bool, true, false, ◌≡◌, refl, Option, none, some, List, [], ◌∷◌, ◌++◌, ltb,
  eq_refl, All-append, ◌&&◌, if◌then◌else◌,
}
use inference_control_plane.Prelude.Dict.{lookup}
use inference_control_plane.Prelude.Table.{Table, AllKeys}
use inference_control_plane.Python.{Float, FloatOps}
use inference_control_plane.Sli.Governance.Registry.{metric, metric_registry, quality}
use inference_control_plane.Sli.Histogram.{Number, whole, real, MetricPoint}
use inference_control_plane.Sli.Aggregation.Points.{
  AggregationStats, point, counter, counter_if, points_of,
}
use inference_control_plane.Sli.Quality.{QualityKey}
use inference_control_plane.Sli.Quality.Scoring.{GroupResult}
use inference_control_plane.Sli.Langfuse.{SourceStats}
use inference_control_plane.Sli.Emit.{Reprs, check_point, check_shape, check_values}
use inference_control_plane.Sli.Emit.Allowed.{AreKnown, IsAllowed, check_values-ok}
use inference_control_plane.Sli.Emit.Built.{AllAllowed, points_of-allowed, if-allowed}
use inference_control_plane.Sli.Pipeline.Finish.{gauge}
use inference_control_plane.Sli.Pipeline.Report.{
  key_dims, score_points, is_scored, group_points, empty_points, run_points, source_points,
  freshness_points, own_points, with_series, workload_series, seconds,
}

-- The dimensions of a group are in their vocabularies.
abbrev pub KeyKnown : QualityKey → Type 0
KeyKnown k = AreKnown (key_dims k)

module _ (q : Reprs) (f : FloatOps) where
  -- A metric of quality lets the dimensions of a group through.
  quality_metric-ok :
      (route : String) (family : Option String) (name type unit : String) (n : Number)
      → KeyKnown (record { key_route = route; key_family = family })
      → lookup name metric_registry ≡ some (metric type unit quality)
      → IsAllowed q
          (point name type unit (key_dims (record { key_route = route; key_family = family })) n)
  unfolding check_point check_shape
  quality_metric-ok route none name type unit n h found =
      rw (found, check_point, eq_refl type, eq_refl unit)
        (check_values-ok q name (key_dims (record { key_route = route; key_family = none })) h)
  quality_metric-ok route (some family) name type unit n h found =
      rw (found, check_point, eq_refl type, eq_refl unit)
        (check_values-ok q name (key_dims (record { key_route = route; key_family = some family }))
          h)

  score_points-allowed :
      (k : QualityKey) (z : Option Float)
      → KeyKnown k
      → AllAllowed q (score_points f (key_dims k) z)
  unfolding lookup
  score_points-allowed k none h = tt
  score_points-allowed k (some z) h = (
    quality_metric-ok k.key_route k.key_family "gateway.quality.completion_length_max_zscore"
        "gauge" "score" (real (f.round z 4)) h refl,
    tt,
  )

  group-allowed :
      (k : QualityKey) (g : GroupResult) → KeyKnown k → AllAllowed q (group_points f k g)
  unfolding group_points lookup
  group-allowed k g h = if-allowed q (is_scored g.status) _ (
    quality_metric-ok k.key_route k.key_family "gateway.quality.completion_length_anomalies"
        "counter" "1" (whole g.anomaly_count) h refl,
    score_points-allowed k g.max_abs_z h,
  )

  empty-allowed : (k : QualityKey) (n : ℕ) → KeyKnown k → AllAllowed q (empty_points k n)
  unfolding lookup
  empty-allowed k n h = (
    quality_metric-ok k.key_route k.key_family "gateway.quality.empty_completion_count" "counter"
        "1" (whole n) h refl,
    tt,
  )

  pub unless-allowed :
      (test : Bool) (ps : List MetricPoint)
      → AllAllowed q ps
      → AllAllowed q (if test then [] else ps)
  unless-allowed true ps h = tt
  unless-allowed false ps h = h

  run-allowed : (processed : ℕ) (s : AggregationStats) → AllAllowed q (run_points f processed s)
  unfolding check_point check_shape check_values lookup
  run-allowed processed s =
      let P = IsAllowed q in
      let p1 =
        counter "gateway.pipeline.records_read" [] s.records_read
        ∷ counter "gateway.pipeline.records_processed" [] processed
        ∷ counter_if "gateway.pipeline.cross_run_duplicate_records" [] s.cross_run_duplicates in
      let p2 = counter_if "gateway.pipeline.quarantined_records" [] s.quarantined in
      let cut = gauge "gateway.pipeline.read_truncated" "1" (real (f.of_nat 1)) ∷ [] in
      let p3 = if s.read_truncated then cut else [] in
      let p4 = counter_if "gateway.pipeline.records_missing_cost" [] s.cost_missing in
      let p5 = counter_if "gateway.pipeline.records_invalid_cost" [] s.cost_invalid in
      All-append P (p1 ++ p2 ++ p3 ++ p4) p5
        (All-append P (p1 ++ p2 ++ p3) p4
          (All-append P (p1 ++ p2) p3
            (All-append P p1 p2
              (refl, (refl, if-allowed q (ltb 0 s.cross_run_duplicates) _ (refl, tt)))
              (if-allowed q (ltb 0 s.quarantined) _ (refl, tt)))
            (if-allowed q s.read_truncated _ (refl, tt)))
          (if-allowed q (ltb 0 s.cost_missing) _ (refl, tt)))
        (if-allowed q (ltb 0 s.cost_invalid) _ (refl, tt))

  source-allowed : (s : Option SourceStats) → AllAllowed q (source_points f s)
  unfolding check_point check_shape check_values lookup
  source-allowed none = tt
  source-allowed (some s) =
      let P = IsAllowed q in
      let p1 = counter_if "gateway.pipeline.source_requests" [] s.requests in
      let p2 = counter_if "gateway.pipeline.source_retries" [] s.retries in
      let p3 = counter_if "gateway.pipeline.source_pages" [] s.pages in
      let idle = f.le s.latency_seconds (f.of_nat 0) && f.le (f.of_nat 0) s.latency_seconds in
      let late =
        gauge "gateway.pipeline.source_latency_seconds" "s" (real s.latency_seconds) ∷ [] in
      let p4 = if idle then [] else late in
      All-append P (p1 ++ p2 ++ p3) p4
        (All-append P (p1 ++ p2) p3
          (All-append P p1 p2 (if-allowed q (ltb 0 s.requests) _ (refl, tt))
            (if-allowed q (ltb 0 s.retries) _ (refl, tt)))
          (if-allowed q (ltb 0 s.pages) _ (refl, tt)))
        (unless-allowed idle late (refl, tt))

  freshness-allowed :
      (window_end : ℕ) (latest : Option ℕ) → AllAllowed q (freshness_points f window_end latest)
  unfolding check_point check_shape check_values lookup
  freshness-allowed window_end none = tt
  freshness-allowed window_end (some latest) =
      let skew =
        gauge "gateway.pipeline.clock_skew_seconds" "s" (real (seconds f (latest - window_end)))
        ∷ [] in
      All-append (IsAllowed q) (if ltb window_end latest then skew else [])
        (gauge "gateway.pipeline.freshness_seconds" "s" (real (seconds f (window_end - latest)))
          ∷ [])
        (if-allowed q (ltb window_end latest) skew (refl, tt)) (refl, tt)

  -- The points that a run adds to those of the aggregator are let through, if the dimensions of its
  -- groups are registered.
  pub own-allowed :
      (scored : Table QualityKey GroupResult) (empty : Table QualityKey ℕ) (processed : ℕ)
      (s : AggregationStats) (source : Option SourceStats) (window_end : ℕ) (latest : Option ℕ)
      → AllKeys KeyKnown scored
      → AllKeys KeyKnown empty
      → AllAllowed q (own_points f scored empty processed s source window_end latest)
  unfolding own_points
  own-allowed scored empty processed s source window_end latest hs he =
      let P = IsAllowed q in
      let p1 = points_of (group_points f) scored in
      let p2 = points_of empty_points empty in
      let p3 = run_points f processed s in
      let p4 = source_points f source in
      let p5 = freshness_points f window_end latest in
      All-append P (p1 ++ p2 ++ p3 ++ p4) p5
        (All-append P (p1 ++ p2 ++ p3) p4
          (All-append P (p1 ++ p2) p3
            (All-append P p1 p2
              (points_of-allowed q KeyKnown (group_points f) scored group-allowed hs)
              (points_of-allowed q KeyKnown empty_points empty empty-allowed he))
            (run-allowed processed s))
          (source-allowed source))
        (freshness-allowed window_end latest)

  pub with_series-allowed :
      (ps : List MetricPoint) → AllAllowed q ps → AllAllowed q (with_series f ps)
  unfolding with_series check_point check_shape check_values lookup
  with_series-allowed ps h =
      All-append (IsAllowed q) ps
        (gauge "gateway.pipeline.series_emitted" "1" (whole (workload_series ps)) ∷ []) h (refl, tt)

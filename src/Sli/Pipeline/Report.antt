-- ===== src/Sli/Pipeline/Report.antt =====
-- The middle of `run`, in pipeline.py: the points of quality and of the pipeline's own health.
pub mod Allowed
use inference_control_plane.Prelude.{
  ℕ, ◌+◌, ◌-◌, String, Bool, true, false, not, Option, none, some, List, [], ◌∷◌, ◌++◌, ◌<>◌, ◌==◌,
  ◌&&◌, ltb, leb, starts_with, if◌then◌else◌,
}
use inference_control_plane.Prelude.Dict.{Dict, insert}
use inference_control_plane.Prelude.Table.{Table}
use inference_control_plane.Python.{Float, FloatOps}
use inference_control_plane.Sli.Histogram.{Number, whole, real, MetricPoint}
use inference_control_plane.Sli.Aggregation.Points.{
  AggregationStats, point, counter, counter_if, points_of,
}
use inference_control_plane.Sli.Quality.{QualityKey}
use inference_control_plane.Sli.Quality.Scoring.{
  Status, well, cold_start, degenerate_constant_baseline, status_text, GroupResult,
}
use inference_control_plane.Sli.Langfuse.{SourceStats}
use inference_control_plane.Sli.Pipeline.Finish.{gauge}

-- `QualityKey.as_dict`
abbrev pub key_dims : QualityKey → Dict String
key_dims k =
    ("route", k.key_route)
    ∷ elim k.key_family [ none ↦ [] | some family ↦ ("model_family", family) ∷ [] ]

-- `"|".join(key.as_dict().values())`
abbrev pub label_of : QualityKey → String
label_of k = elim k.key_family [ none ↦ k.key_route | some family ↦ k.key_route <> "|" <> family ]

abbrev pub score_points : FloatOps → Dict String → Option Float → List MetricPoint
score_points f dims none = []
score_points f dims (some z) =
    point "gateway.quality.completion_length_max_zscore" "gauge" "score" dims (real (f.round z 4))
    ∷ []

abbrev pub is_scored : Status → Bool
is_scored cold_start = false
is_scored _ = true

-- The points of a group.
unfoldable pub group_points : FloatOps → QualityKey → GroupResult → List MetricPoint
group_points f k g =
    if is_scored g.status
    then counter "gateway.quality.completion_length_anomalies" (key_dims k) g.anomaly_count
      ∷ score_points f (key_dims k) g.max_abs_z
    else []

abbrev pub empty_points : QualityKey → ℕ → List MetricPoint
empty_points k n = counter "gateway.quality.empty_completion_count" (key_dims k) n ∷ []

-- The dict `quality`.
abbrev pub quality_of : Table QualityKey GroupResult → Dict String → Dict String
quality_of [] d = d
quality_of ((k, g) ∷ rest) d = quality_of rest (insert (label_of k) (status_text g.status) d)

-- The points of the counts of the run.
abbrev pub run_points : FloatOps → ℕ → AggregationStats → List MetricPoint
run_points f processed s =
    counter "gateway.pipeline.records_read" [] s.records_read
      ∷ counter "gateway.pipeline.records_processed" [] processed
      ∷ counter_if "gateway.pipeline.cross_run_duplicate_records" [] s.cross_run_duplicates
    ++ counter_if "gateway.pipeline.quarantined_records" [] s.quarantined
    ++ (if s.read_truncated
        then gauge "gateway.pipeline.read_truncated" "1" (real (f.of_nat 1)) ∷ []
        else [])
    ++ counter_if "gateway.pipeline.records_missing_cost" [] s.cost_missing
    ++ counter_if "gateway.pipeline.records_invalid_cost" [] s.cost_invalid

-- The points of the source's counters, if it has any.
abbrev pub source_points : FloatOps → Option SourceStats → List MetricPoint
source_points f none = []
source_points f (some s) =
    counter_if "gateway.pipeline.source_requests" [] s.requests
    ++ counter_if "gateway.pipeline.source_retries" [] s.retries
    ++ counter_if "gateway.pipeline.source_pages" [] s.pages
    ++ (if f.le s.latency_seconds (f.of_nat 0) && f.le (f.of_nat 0) s.latency_seconds
        then []
        else gauge "gateway.pipeline.source_latency_seconds" "s" (real s.latency_seconds) ∷ [])

-- `total_seconds` of a difference in microseconds.
abbrev pub seconds : FloatOps → ℕ → Float
seconds f n = f.div (f.of_nat n) (f.of_nat 1000000)

-- The freshness, of the window's end and the latest end: not below zero.
abbrev pub freshness_of : FloatOps → ℕ → Option ℕ → Option Float
freshness_of f window_end none = none
freshness_of f window_end (some latest) = some (seconds f (window_end - latest))

abbrev pub freshness_points : FloatOps → ℕ → Option ℕ → List MetricPoint
freshness_points f window_end none = []
freshness_points f window_end (some latest) =
    (if ltb window_end latest
      then gauge "gateway.pipeline.clock_skew_seconds" "s" (real (seconds f (latest - window_end)))
        ∷ []
      else [])
    ++ gauge "gateway.pipeline.freshness_seconds" "s" (real (seconds f (window_end - latest))) ∷ []

abbrev pub is_workload : String → Bool
is_workload name =
    starts_with name "gateway."
    && not (starts_with name "gateway.pipeline.")
    && not (starts_with name "gateway.quality.")

-- `workload_series`
unfoldable pub workload_series : List MetricPoint → ℕ
workload_series [] = 0
workload_series (p ∷ ps) = (if is_workload p.name then 1 else 0) + workload_series ps

module _ (f : FloatOps) where
  -- What `run` appends to the points of the aggregator, before it counts the series.
  unfoldable pub own_points :
      Table QualityKey GroupResult
      → Table QualityKey ℕ
      → ℕ
      → AggregationStats
      → Option SourceStats
      → ℕ
      → Option ℕ
      → List MetricPoint
  unfolding group_points
  own_points scored empty processed stats source window_end max_end =
      points_of (group_points f) scored
      ++ points_of empty_points empty
      ++ run_points f processed stats
      ++ source_points f source
      ++ freshness_points f window_end max_end

  -- The points, with the gauge of the series.
  unfoldable pub with_series : List MetricPoint → List MetricPoint
  unfolding workload_series
  with_series points =
      points ++ gauge "gateway.pipeline.series_emitted" "1" (whole (workload_series points)) ∷ []

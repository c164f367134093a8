-- ===== src/Sli/Pipeline/Run.antt =====
-- `run` of pipeline.py, composed of its parts, for a run that has an exporter, a store and a window.
pub mod Allowed
pub mod Safety
use inference_control_plane.Prelude.{
  ℕ, ◌-◌, String, Bool, true, Option, none, some, List, [], ◌∷◌, ◌++◌, if◌then◌else◌,
}
use inference_control_plane.Prelude.Dict.{Dict, keys}
use inference_control_plane.Prelude.Table.{Table}
use inference_control_plane.Python.{Float, FloatOps, Exc, Result, ok, err, ◌>>=◌}
use inference_control_plane.Python.Json.{Json}
use inference_control_plane.Python.Builtins.{Builtins}
use inference_control_plane.Sli.Times.{Times}
use inference_control_plane.Sli.Governance.{Config}
use inference_control_plane.Sli.Normalize.{Texts}
use inference_control_plane.Sli.Histogram.{MetricPoint}
use inference_control_plane.Sli.Aggregation.Points.{AggregationStats, stats_of, build}
use inference_control_plane.Sli.Quality.{Random, QualityKey}
use inference_control_plane.Sli.Quality.Scoring.{Statistics, GroupResult, results}
use inference_control_plane.Sli.Langfuse.{SourceStats}
use inference_control_plane.Sli.Checkpoint.{Checkpoint}
use inference_control_plane.Sli.Pipeline.{Window, Source, Progress, begin, stream}
use inference_control_plane.Sli.Pipeline.Finish.{
  Exporter, Store, Finished, with_source, schema_reasons, finish,
}
use inference_control_plane.Sli.Pipeline.Report.{own_points, with_series, quality_of, freshness_of}

-- The keyword arguments of a run, what the store has loaded, and the counters that the source has at
-- the end of the pass. Times and the overlap are in microseconds, the duration is in seconds.
pub record Arguments : Type 0 where
  pub loaded : Option Checkpoint
  pub window_end : ℕ
  pub overlap : ℕ
  pub max_records : Option ℕ
  pub source_stats : Option SourceStats
  pub duration : Float

-- How a run ends: an exception that it does not contain, or the end of `run` with the rest of its
-- result.
pub data Ran (Exporters Stores : Type 0) : Type 0 where
  broke : Exc → Ran Exporters Stores
  ran : Finished Exporters Stores → Dict String → Table String ℕ → Ran Exporters Stores

-- `checkpoint.seen if checkpoint is not None else {}`
abbrev pub prior_map : Option Checkpoint → Dict Json
prior_map none = []
prior_map (some c) = c.seen

abbrev pub window_of : Arguments → Window
window_of a = record {
  prior_seen = keys (prior_map a.loaded);
  collect_seen = true;
  cutoff = some (a.window_end - a.overlap);
  max_records = a.max_records;
}

module _ (r : Random) (b : Builtins) (t : Times) (x : Texts) (m : Statistics) (cfg : Config)
    (a : Arguments) where
  -- The statistics after the pass, with the freshness.
  abbrev pub stats_after : Progress r → AggregationStats
  stats_after p =
      record (with_source p.cross_run_duplicates p.records_read p.quarantined p.read_truncated
        p.source_error
        (stats_of p.aggregator (schema_reasons p.malformed_by_reason) p.duplicates)) {
          freshness_seconds = freshness_of b.floats a.window_end p.max_end;
        }

  -- The points of a pass: those that are built, and those of the run with the results of its groups.
  unfoldable pub points_after :
      Progress r → List MetricPoint → Table QualityKey GroupResult → List MetricPoint
  unfolding own_points with_series with_source
  points_after p built scored = with_series b.floats (
      built
      ++ own_points b.floats scored p.quality.empty_counts p.processed (stats_after p)
          a.source_stats a.window_end p.max_end)

  -- What is computed of a pass: the points of the aggregator, and then the results of the groups.
  unfoldable pub computed : Progress r → Result (List MetricPoint × Table QualityKey GroupResult)
  unfolding build results
  computed p = do
    let malformed = schema_reasons p.malformed_by_reason
    (points, _) ← build b.floats x cfg p.aggregator malformed p.duplicates
    scored ← results b.floats m cfg.anomaly p.quality.groups
    ok (points, scored)

  module _ (E : Exporter) (S : Store) where
    -- What follows the pass.
    unfoldable pub after_pass :
        Progress r
        → Result (List MetricPoint × Table QualityKey GroupResult)
        → E.State
        → S.State
        → Ran E.State S.State
    unfolding points_after finish with_source
    after_pass p (err e) es s = broke e
    after_pass p (ok (built, scored)) es s =
        ran
          (finish b.floats t E S a.window_end a.overlap (prior_map a.loaded) p.current_seen
            a.duration (points_after p built scored) (stats_after p) es s)
          (quality_of scored []) p.malformed_by_reason

    unfoldable pub run : Source → E.State → S.State → Ran E.State S.State
    unfolding after_pass stream computed
    run source es s =
        let p = stream r b t x cfg (window_of a) source.failure source.records (begin r) in
        after_pass p (computed p) es s

-- A run with a checkpoint store, from what loading the checkpoint gives. `run` catches nothing that
-- the load raises.
unfoldable pub run_from_store :
    (r : Random)
    → Builtins
    → Times
    → Texts
    → Statistics
    → Config
    → Arguments
    → (E : Exporter) → (S : Store) → Result (Option Checkpoint)
    → Source
    → E.State
    → S.State
    → Ran E.State S.State
unfolding run
run_from_store r b t x m cfg a E S (err e) source es s = broke e
run_from_store r b t x m cfg a E S (ok loaded) source es s =
    run r b t x m cfg (record a { loaded = loaded }) E S source es s

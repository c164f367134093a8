-- ===== src/Sli/Pipeline/Finish.antt =====
-- The end of `run`, in pipeline.py: the guarded export, the heartbeats and the checkpoint.
pub mod Watermark
use inference_control_plane.Prelude.{
  ℕ, ◌+◌, ◌-◌, String, Bool, true, false, not, Option, none, some, List, [], ◌∷◌, ◌++◌, ◌==◌, ◌&&◌,
  if◌then◌else◌,
}
use inference_control_plane.Prelude.Dict.{Dict}
use inference_control_plane.Prelude.Table.{Table, total}
use inference_control_plane.Python.{Float, FloatOps}
use inference_control_plane.Python.Json.{Json}
use inference_control_plane.Sli.Times.{Times}
use inference_control_plane.Sli.Histogram.{Number, whole, real, MetricPoint}
use inference_control_plane.Sli.Aggregation.Points.{AggregationStats, point, counter}
use inference_control_plane.Sli.Checkpoint.{Checkpoint, prune_seen}

-- An exporter: a call gives the type of what it raises, if it raises. It may have no heartbeat.
pub record Exporter : Type 1 where
  pub State : Type 0
  pub export : List MetricPoint → State → Option String × State
  pub heartbeat : Option (List MetricPoint → State → Option String × State)

-- How a save ends: it returns, it raises a `CheckpointConflict`, or it raises something else, which
-- `run` does not catch.
pub data Saved : Type 0 where
  saved : Saved
  conflict : Saved
  raised : String → Saved

pub record Store : Type 1 where
  pub State : Type 0
  pub save : Checkpoint → State → Saved × State

-- `_gauge`
abbrev pub gauge : String → String → Number → MetricPoint
gauge name unit value = point name "gauge" unit [] value

-- `malformed`: the reasons without that of an unexpected error.
abbrev pub schema_reasons : Table String ℕ → ℕ
schema_reasons [] = 0
schema_reasons ((reason, n) ∷ d) =
    if reason == "unexpected_error" then schema_reasons d else n + schema_reasons d

-- `first or second`
abbrev pub or_name : Option String → Option String → Option String
or_name none second = second
or_name (some first) second = some first

-- What the counts of the pass, and an error of the source, make of the statistics.
unfoldable pub with_source : ℕ → ℕ → ℕ → Bool → Option String → AggregationStats → AggregationStats
with_source cross_run records_read quarantined truncated none stats = record stats {
  cross_run_duplicates = cross_run;
  records_read = records_read;
  quarantined = quarantined;
  read_truncated = truncated;
}
with_source cross_run records_read quarantined truncated (some source_error) stats = record stats {
  cross_run_duplicates = cross_run;
  records_read = records_read;
  quarantined = quarantined;
  read_truncated = truncated;
  source_ok = false;
  source_error = some source_error;
  export_ok = false;
  export_error = some "skipped_source_failure";
}

-- The `except` clause of the export.
abbrev pub export_outcome : Option String → AggregationStats → AggregationStats
export_outcome none stats = stats
export_outcome (some name) stats = record stats { export_ok = false; export_error = some name }

-- The `except` clause of a heartbeat.
abbrev pub heartbeat_outcome : Option String → AggregationStats → AggregationStats
heartbeat_outcome none stats = stats
heartbeat_outcome (some name) stats = record stats {
  heartbeat_ok = false;
  export_error = or_name stats.export_error (some name);
}

-- The heartbeat after the export.
abbrev pub health_points : FloatOps → AggregationStats → List MetricPoint
health_points f stats =
    gauge "gateway.pipeline.export_success" "1"
      (real (if stats.export_ok then f.of_nat 1 else f.of_nat 0))
    ∷ (if stats.source_ok
        then []
        else gauge "gateway.pipeline.source_success" "1" (real (f.of_nat 0)) ∷ [])

-- The last heartbeat.
abbrev pub final_points : FloatOps → Float → AggregationStats → List MetricPoint
final_points f duration stats =
    gauge "gateway.pipeline.run_duration_seconds" "s" (real duration)
    ∷ (if stats.checkpoint_conflict
        then counter "gateway.pipeline.checkpoint_conflicts" [] 1 ∷ []
        else [])

module _ (E : Exporter) where
  -- The guarded export, of an exporter that is there.
  unfoldable pub guarded_export :
      List MetricPoint → AggregationStats → E.State → AggregationStats × E.State
  guarded_export points stats e =
      if stats.source_ok
      then (let (failure, e') = E.export points e in (export_outcome failure stats, e'))
      else (stats, e)

  -- A heartbeat, if there is a channel for it.
  abbrev pub beat :
      Option (List MetricPoint → E.State → Option String × E.State)
      → List MetricPoint
      → AggregationStats
      → E.State
      → AggregationStats × E.State
  beat none points stats e = (stats, e)
  beat (some send) points stats e =
      let (failure, e') = send points e in (heartbeat_outcome failure stats, e')

-- The condition under which the watermark advances, for a store and a window that are there.
abbrev pub may_advance : AggregationStats → Bool
may_advance stats = stats.export_ok && stats.heartbeat_ok && not stats.read_truncated

abbrev pub save_outcome : Saved → AggregationStats → AggregationStats
save_outcome conflict stats = record stats { checkpoint_conflict = true }
save_outcome _ stats = stats

-- The state that `run` leaves, and the exception of a save that ends it.
pub record Finished (Exporters Stores : Type 0) : Type 0 where
  pub points : List MetricPoint
  pub stats : AggregationStats
  pub exporter : Exporters
  pub store : Stores
  pub uncaught : Option String

module _ (f : FloatOps) (t : Times) (E : Exporter) (S : Store) where
  -- The checkpoint of a run: the overlap is in microseconds.
  abbrev pub new_checkpoint : ℕ → ℕ → Dict Json → Dict ℕ → Checkpoint
  new_checkpoint window_end overlap prior current = record {
    watermark = some window_end;
    seen = prune_seen t prior current (window_end - overlap);
  }

  -- What follows the save.
  unfoldable pub conclude :
      Float
      → List MetricPoint
      → AggregationStats
      → E.State
      → Saved
      → S.State
      → Finished E.State S.State
  conclude duration points stats e (raised name) s = record {
    points = points;
    stats = stats;
    exporter = e;
    store = s;
    uncaught = some name;
  }
  conclude duration points stats e outcome s =
      let stats' = save_outcome outcome stats in
      let final = final_points f duration stats' in
      let (stats'', e') = beat E E.heartbeat final stats' e in
      record {
        points = points ++ final;
        stats = stats'';
        exporter = e';
        store = s;
        uncaught = none;
      }

  -- From the main flush on, for a run with an exporter, a store and a window's end.
  unfoldable pub finish :
      ℕ
      → ℕ
      → Dict Json
      → Dict ℕ
      → Float
      → List MetricPoint
      → AggregationStats
      → E.State
      → S.State
      → Finished E.State S.State
  unfolding guarded_export conclude prune_seen
  finish window_end overlap prior current duration points stats e s =
      let (exported, e') = guarded_export E points stats e in
      let health = health_points f exported in
      let (beaten, e'') = beat E E.heartbeat health exported e' in
      let (outcome, s') =
        if may_advance beaten
        then S.save (new_checkpoint window_end overlap prior current) s
        else (saved, s) in
      conclude duration (points ++ health) beaten e'' outcome s'

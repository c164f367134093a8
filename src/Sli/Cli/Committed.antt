-- ===== src/Sli/Cli/Committed.antt =====
-- What an exit code of 0 of cli.py says of the checkpoint.
use inference_control_plane.Prelude.{
  ℕ, ◌-◌, String, Bool, true, false, Option, none, some, List, ◌++◌, ◌≡◌, refl, ap, sym, arith, ◌∙◌,
  if◌then◌else◌,
}
use inference_control_plane.Prelude.Dict.{Dict}
use inference_control_plane.Prelude.Table.{Table}
use inference_control_plane.Python.{Float, FloatOps, Result, ok, err}
use inference_control_plane.Python.Json.{Json}
use inference_control_plane.Python.Builtins.{Builtins}
use inference_control_plane.Sli.Times.{Times}
use inference_control_plane.Sli.Governance.{Config}
use inference_control_plane.Sli.Normalize.{Texts}
use inference_control_plane.Sli.Histogram.{MetricPoint}
use inference_control_plane.Sli.Aggregation.Points.{AggregationStats}
use inference_control_plane.Sli.Quality.{Random, QualityKey}
use inference_control_plane.Sli.Quality.Scoring.{Statistics, GroupResult}
use inference_control_plane.Sli.Checkpoint.{Checkpoint, prune_seen}
use inference_control_plane.Sli.Pipeline.{Source, Progress, begin, stream}
use inference_control_plane.Sli.Pipeline.Finish.{
  Exporter, Saved, saved, conflict, raised, Store, heartbeat_outcome, health_points, guarded_export,
  beat, may_advance, save_outcome, Finished, new_checkpoint, final_points, conclude, finish,
}
use inference_control_plane.Sli.Pipeline.Run.{
  Arguments, prior_map, Ran, ran, window_of, stats_after, points_after, after_pass, run,
}
use inference_control_plane.Sli.Cli.{run_ok, by_code, exit_of, exit_code}

-- The statistics of a run that exits with 0 are in order.
exit_of-zero :
    (uncaught : Option String) (stats : AggregationStats)
    → exit_of uncaught stats ≡ by_code 0
    → (uncaught ≡ none) × (run_ok stats ≡ true)
exit_of-zero (some name) stats h = absurd (cc h)
exit_of-zero none stats h = (refl, ground (arith, h))

module _ (f : FloatOps) (t : Times) (E : Exporter) (S : Store) where
  heartbeat_outcome-run_ok :
      (failure : Option String) (stats : AggregationStats)
      → run_ok (heartbeat_outcome failure stats) ≡ true
      → run_ok stats ≡ true
  heartbeat_outcome-run_ok none stats h = h
  heartbeat_outcome-run_ok (some name) stats h = ground (arith, h)

  beat-run_ok :
      (channel : Option (List MetricPoint → E.State → Option String × E.State))
      (points : List MetricPoint) (stats : AggregationStats) (e : E.State)
      → run_ok (beat E channel points stats e).0 ≡ true
      → run_ok stats ≡ true
  beat-run_ok none points stats e h = h
  beat-run_ok (some send) points stats e h = heartbeat_outcome-run_ok (send points e).0 stats h

  conclude-run_ok :
      (duration : Float) (points : List MetricPoint) (stats : AggregationStats) (e : E.State)
      (o : Saved) (s : S.State)
      → (conclude f t E S duration points stats e o s).uncaught ≡ none
      → run_ok (conclude f t E S duration points stats e o s).stats ≡ true
      → (run_ok stats ≡ true)
        × (o ≡ saved)
        × ((conclude f t E S duration points stats e o s).store ≡ s)
  unfolding conclude
  conclude-run_ok duration points stats e saved s u h =
      (beat-run_ok E.heartbeat (final_points f duration stats) stats e h, refl, refl)
  conclude-run_ok duration points stats e conflict s u h = absurd (
      let k : run_ok (save_outcome conflict stats) ≡ true =
        beat-run_ok E.heartbeat (final_points f duration (save_outcome conflict stats))
          (save_outcome conflict stats) e h in
      ground (arith, k))
  conclude-run_ok duration points stats e (raised name) s u h = absurd (cc u)

  -- A save that has returned, with the state that it leaves.
  abbrev pub IsCommitted : Checkpoint → S.State → S.State → Type 0
  IsCommitted cp s s' = (S.save cp s ≡ (saved, s'))

  branch :
      (duration : Float) (points : List MetricPoint) (stats : AggregationStats) (e : E.State)
      (cp : Checkpoint) (s : S.State) (advance : Bool)
      → may_advance stats ≡ advance
      → let after : Saved × S.State = if advance then S.save cp s else (saved, s) in
        (conclude f t E S duration points stats e after.0 after.1).uncaught ≡ none
        → run_ok (conclude f t E S duration points stats e after.0 after.1).stats ≡ true
        → IsCommitted cp s (conclude f t E S duration points stats e after.0 after.1).store
  branch duration points stats e cp s true q u h =
      let (fine, returned, store) =
        conclude-run_ok duration points stats e (S.save cp s).0 (S.save cp s).1 u h in
      ap (λ o. (o, (S.save cp s).1)) returned ∙ ap (λ v. (saved, v)) (sym store)
  branch duration points stats e cp s false q u h =
      let (fine, returned, store) = conclude-run_ok duration points stats e saved s u h in
      absurd (ground (arith, fine, q))

  finish-IsCommitted :
      (window_end overlap : ℕ) (prior : Dict Json) (current : Dict ℕ) (duration : Float)
      (points : List MetricPoint) (stats : AggregationStats) (e : E.State) (s : S.State)
      → let end = finish f t E S window_end overlap prior current duration points stats e s in
        end.uncaught ≡ none
        → run_ok end.stats ≡ true
        → IsCommitted (new_checkpoint f t E S window_end overlap prior current) s end.store
  unfolding finish
  finish-IsCommitted window_end overlap prior current duration points stats e s u h =
      let (exported, e') = guarded_export E points stats e in
      let health = health_points f exported in
      let (beaten, e'') = beat E E.heartbeat health exported e' in
      branch duration (points ++ health) beaten e''
        (new_checkpoint f t E S window_end overlap prior current) s (may_advance beaten) refl u h

module _ (r : Random) (b : Builtins) (t : Times) (x : Texts) (m : Statistics) (cfg : Config)
    (a : Arguments) (E : Exporter) (S : Store) where
  -- A run that ends, with the save that has returned, its checkpoint at the window's end and with the
  -- pruned ids, of which the new ones are given.
  abbrev pub HasCommitted : Dict ℕ → S.State → Ran E.State S.State → Type 0
  HasCommitted current s outcome =
      (cp : Checkpoint) × (end : Finished E.State S.State) × (quality : Dict String)
      × (reasons : Table String ℕ) × (outcome ≡ ran end quality reasons)
      × (cp.watermark ≡ some a.window_end)
      × (cp.seen ≡ prune_seen t (prior_map a.loaded) current (a.window_end - a.overlap))
      × IsCommitted b.floats t E S cp s end.store

  after_pass-HasCommitted :
      (p : Progress r) (outcome : Result (List MetricPoint × Table QualityKey GroupResult))
      (es : E.State) (s : S.State)
      → exit_code (after_pass r b t x m cfg a E S p outcome es s) ≡ by_code 0
      → HasCommitted p.current_seen s (after_pass r b t x m cfg a E S p outcome es s)
  unfolding after_pass exit_code
  after_pass-HasCommitted p (err e) es s h = absurd (cc h)
  after_pass-HasCommitted p (ok (built, scored)) es s h =
      let points = points_after r b t x m cfg a p built scored in
      let stats = stats_after r b t x m cfg a p in
      let end =
        finish b.floats t E S a.window_end a.overlap (prior_map a.loaded) p.current_seen a.duration
          points stats es s in
      let (ended, fine) = exit_of-zero end.uncaught end.stats h in
      (
        new_checkpoint b.floats t E S a.window_end a.overlap (prior_map a.loaded) p.current_seen,
        end,
        _,
        p.malformed_by_reason,
        refl,
        refl,
        refl,
        finish-IsCommitted b.floats t E S a.window_end a.overlap (prior_map a.loaded) p.current_seen
            a.duration points stats es s ended fine,
      )

  -- Of a run with a checkpoint store, an exporter and a window's end: if the process exits with 0, the
  -- run has ended, and the save of a checkpoint has returned, whose watermark is the window's end and
  -- whose ids are those loaded and those of the pass, pruned at the window's end less the overlap;
  -- the store is as that save has left it. A run without `--checkpoint` has no store and is not
  -- spoken of.
  pub run-HasCommitted :
      (source : Source) (es : E.State) (s : S.State)
      → exit_code (run r b t x m cfg a E S source es s) ≡ by_code 0
      → HasCommitted
          (stream r b t x cfg (window_of a) source.failure source.records (begin r)).current_seen
          s
          (run r b t x m cfg a E S source es s)
  unfolding run
  run-HasCommitted source es s h =
      after_pass-HasCommitted
        (stream r b t x cfg (window_of a) source.failure source.records (begin r)) _ es s h

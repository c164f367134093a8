-- ===== src/Sli/Pipeline/Finish/Watermark.antt =====
-- When a run of pipeline.py advances the watermark.
use inference_control_plane.Prelude.{
  ℕ, ◌-◌, String, true, false, Option, none, some, List, ◌++◌, ◌≡◌, ◌⊎◌, inl, inr, refl, ap, ◌∙◌,
  arith, Bool-cases, Option-cases,
}
use inference_control_plane.Prelude.Dict.{Dict}
use inference_control_plane.Python.{Float, FloatOps}
use inference_control_plane.Python.Json.{Json}
use inference_control_plane.Sli.Times.{Times}
use inference_control_plane.Sli.Checkpoint.{Checkpoint, prune_seen}
use inference_control_plane.Sli.Histogram.{MetricPoint}
use inference_control_plane.Sli.Aggregation.Points.{AggregationStats}
use inference_control_plane.Sli.Pipeline.Finish.{
  Exporter, Saved, saved, conflict, raised, Store, export_outcome, heartbeat_outcome, health_points,
  guarded_export, beat, may_advance, Finished, new_checkpoint, conclude, finish,
}

module _ (f : FloatOps) (t : Times) (E : Exporter) (S : Store) where
  -- The statistics after the export, and after the heartbeat that follows it.
  abbrev exported : List MetricPoint → AggregationStats → E.State → AggregationStats
  exported points stats e = (guarded_export E points stats e).0

  abbrev sent : List MetricPoint → AggregationStats → E.State → AggregationStats × E.State
  sent points stats e =
      beat E E.heartbeat (health_points f (exported points stats e)) (exported points stats e)
        (guarded_export E points stats e).1

  conclude-store :
      (duration : Float) (points : List MetricPoint) (stats : AggregationStats) (e : E.State)
      (o : Saved) (s : S.State)
      → (conclude f t E S duration points stats e o s).store ≡ s
  unfolding conclude
  conclude-store duration points stats e saved s = refl
  conclude-store duration points stats e conflict s = refl
  conclude-store duration points stats e (raised name) s = refl

  -- A heartbeat does not mend what may keep the watermark.
  beat-may_advance :
      (channel : Option (List MetricPoint → E.State → Option String × E.State))
      (points : List MetricPoint) (stats : AggregationStats) (e : E.State)
      → may_advance stats ≡ false
      → may_advance (beat E channel points stats e).0 ≡ false
  beat-may_advance none points stats e h = h
  beat-may_advance (some send) points stats e h = elim (Option-cases (send points e).0) [
    | inl quiet ↦ simp quiet h
    | inr (name, raised_name) ↦ simp raised_name (ground arith)
  ]

  module _ (window_end overlap : ℕ) (prior : Dict Json) (current : Dict ℕ) (duration : Float)
      (points : List MetricPoint) (stats : AggregationStats) (e : E.State) (s : S.State) where
    abbrev run_end : Finished E.State S.State
    run_end = finish f t E S window_end overlap prior current duration points stats e s

    kept : may_advance (sent points stats e).0 ≡ false → run_end.store ≡ s
    unfolding finish
    kept h = rw h (
        conclude-store duration (points ++ health_points f (exported points stats e))
          (sent points stats e).0 (sent points stats e).1 saved s)

    advanced :
        may_advance (sent points stats e).0 ≡ true
        → run_end.store ≡ (S.save (new_checkpoint f t E S window_end overlap prior current) s).1
    unfolding finish
    advanced h =
        let (outcome, s') = S.save (new_checkpoint f t E S window_end overlap prior current) s in
        rw h (
          conclude-store duration (points ++ health_points f (exported points stats e))
            (sent points stats e).0 (sent points stats e).1 outcome s')

    live_export :
        stats.source_ok ≡ true
        → guarded_export E points stats e
          ≡ (export_outcome (E.export points e).0 stats, (E.export points e).1)
    unfolding guarded_export
    live_export live = rw live refl

    dead_export : stats.source_ok ≡ false → guarded_export E points stats e ≡ (stats, e)
    unfolding guarded_export
    dead_export failed = rw failed refl

    raised_outcome :
        (o : Option String) (name : String)
        → o ≡ some name
        → may_advance (export_outcome o stats) ≡ false
    raised_outcome none name h = absurd (cc h)
    raised_outcome (some other) name h = refl

    truncated_outcome :
        (o : Option String)
        → stats.read_truncated ≡ true
        → may_advance (export_outcome o stats) ≡ false
    truncated_outcome none truncated = ground arith
    truncated_outcome (some name) truncated = refl

    export-truncated : stats.read_truncated ≡ true → may_advance (exported points stats e) ≡ false
    export-truncated truncated = elim (Bool-cases stats.source_ok) [
      | inr failed ↦
          ap (λ g. may_advance g.0) (dead_export failed) ∙ truncated_outcome none truncated
      | inl live ↦
          ap (λ g. may_advance g.0) (live_export live)
          ∙ truncated_outcome (E.export points e).0 truncated
    ]

    -- After a flush that returned, the statistics are those of the heartbeat's answer.
    sent-outcome :
        (send : List MetricPoint → E.State → Option String × E.State) (answer : Option String)
        → stats.source_ok ≡ true
        → (E.export points e).0 ≡ none
        → E.heartbeat ≡ some send
        → (send (health_points f stats) (E.export points e).1).0 ≡ answer
        → (sent points stats e).0 ≡ heartbeat_outcome answer stats
    sent-outcome send answer live flushed channel answered =
        let g : guarded_export E points stats e ≡ (stats, (E.export points e).1) =
          live_export live ∙ ap (λ o. (export_outcome o stats, (E.export points e).1)) flushed in
        ap (λ g. (beat E E.heartbeat (health_points f g.0) g.0 g.1).0) g
        ∙ ap (λ c. (beat E c (health_points f stats) stats (E.export points e).1).0) channel
        ∙ ap (λ o. heartbeat_outcome o stats) answered

    -- The end of a run leaves the checkpoint store as it was if the source failed and the export is
    -- marked as failed with it, if the reading was truncated, if the main flush raised, or if the heartbeat after a flush that returned
    -- raised.
    pub finish-kept :
        (stats.source_ok ≡ false) × (stats.export_ok ≡ false)
          ⊎ (stats.read_truncated ≡ true)
          ⊎ ((stats.source_ok ≡ true) × (name : String) × ((E.export points e).0 ≡ some name))
          ⊎ (stats.source_ok ≡ true)
            × ((E.export points e).0 ≡ none)
            × (send : List MetricPoint → E.State → Option String × E.State) × (name : String)
            × (E.heartbeat ≡ some send)
            × ((send (health_points f stats) (E.export points e).1).0 ≡ some name)
        → run_end.store ≡ s
    finish-kept (inl (failed, skipped)) = kept (
        beat-may_advance E.heartbeat (health_points f (exported points stats e))
          (exported points stats e) (guarded_export E points stats e).1
          (ap (λ g. may_advance g.0) (dead_export failed) ∙ ground (arith, skipped)))
    finish-kept (inr (inl truncated)) = kept (
        beat-may_advance E.heartbeat (health_points f (exported points stats e))
          (exported points stats e) (guarded_export E points stats e).1
          (export-truncated truncated))
    finish-kept (inr (inr (inl (live, name, h)))) = kept (
        beat-may_advance E.heartbeat (health_points f (exported points stats e))
          (exported points stats e) (guarded_export E points stats e).1
          (ap (λ g. may_advance g.0) (live_export live)
            ∙ raised_outcome (E.export points e).0 name h))
    finish-kept (inr (inr (inr (live, flushed, send, name, channel, answered)))) = kept (
        ap may_advance (sent-outcome send (some name) live flushed channel answered) ∙ ground arith)

    -- If the source did not fail, everything was read, nothing is marked as failed, the exporter
    -- has a heartbeat, and neither the main flush nor the heartbeat after it raises, the store is
    -- as one save leaves it, of a checkpoint whose watermark is the window's end and whose ids are
    -- the earlier ones and those of the run, pruned at the window's end less the overlap.
    pub finish-saves :
        (send : List MetricPoint → E.State → Option String × E.State)
        → E.heartbeat ≡ some send
        → stats.source_ok ≡ true
        → stats.export_ok ≡ true
        → stats.heartbeat_ok ≡ true
        → stats.read_truncated ≡ false
        → (E.export points e).0 ≡ none
        → (send (health_points f stats) (E.export points e).1).0 ≡ none
        → (cp : Checkpoint) × (cp.watermark ≡ some window_end)
          × (cp.seen ≡ prune_seen t prior current (window_end - overlap))
          × (run_end.store ≡ (S.save cp s).1)
    finish-saves send channel live export_ok heartbeat_ok complete flushed answered = (
      new_checkpoint f t E S window_end overlap prior current,
      refl,
      refl,
      advanced (
          ap may_advance (sent-outcome send none live flushed channel answered)
          ∙ ground (arith, export_ok, heartbeat_ok, complete)),
    )

-- ===== src/Sli/Pipeline/Run/Safety.antt =====
-- Whether a run of pipeline.py ends, and what a failing source leaves of the checkpoint.
use inference_control_plane.Prelude.{
  ℕ, ◌≤◌, String, Bool, true, false, ◌≡◌, ◌⊎◌, refl, inl, inr, arith, Option, none, some, List, [],
  ◌∷◌, ◌∙◌, ltb, Bool-cases, Option-cases, subst,
}
use inference_control_plane.Prelude.Dict.{Dict}
use inference_control_plane.Prelude.Table.{Table}
use inference_control_plane.Python.{Exc, Result, ok, err, ◌>>=◌, Raises}
use inference_control_plane.Python.Builtins.{Builtins}
use inference_control_plane.Sli.Times.{Times}
use inference_control_plane.Sli.Governance.{Config}
use inference_control_plane.Sli.Normalize.{Texts}
use inference_control_plane.Sli.Aggregation.Points.{
  AggregationStats, overflow, cost_dims, ratio_points, cost_points, all_cost_points, build,
}
use inference_control_plane.Sli.Aggregation.{Aggregator, CostKey, CostEntry}
use inference_control_plane.Sli.Histogram.{MetricPoint}
use inference_control_plane.Sli.Pipeline.Report.{quality_of}
use inference_control_plane.Sli.Quality.{Random, QualityKey}
use inference_control_plane.Sli.Quality.Scoring.{Statistics, GroupResult}
use inference_control_plane.Sli.Quality.Scoring.Returns.{results-returns}
use inference_control_plane.Sli.Pipeline.{Source, Progress, begin, stream}
use inference_control_plane.Sli.Pipeline.Accounting.{IsWithin, stream-limit}
use inference_control_plane.Sli.Pipeline.Finish.{
  Exporter, Store, Finished, with_source, schema_reasons, finish,
}
use inference_control_plane.Sli.Pipeline.Finish.Watermark.{finish-kept}
use inference_control_plane.Sli.Pipeline.Run.{
  Arguments, prior_map, Ran, broke, ran, window_of, stats_after, points_after, computed, after_pass,
  run,
}

-- A run that does not end by an exception has left the store as it was.
abbrev Keeps : {E S : Type 0} → S → Ran E S → Type 0
Keeps s (broke e) = Unit
Keeps s (ran end quality reasons) = end.store ≡ s

with_source-truncated :
    (cross read quarantined : ℕ) (truncated : Bool) (failure : Option String)
    (stats : AggregationStats)
    → truncated ≡ true
    → (with_source cross read quarantined truncated failure stats).read_truncated ≡ true
unfolding with_source
with_source-truncated cross read quarantined truncated none stats h = h
with_source-truncated cross read quarantined truncated (some _) stats h = h

with_source-failed :
    (cross read quarantined : ℕ) (truncated : Bool) (failure : Option String)
    (stats : AggregationStats) (name : String)
    → failure ≡ some name
    → ((with_source cross read quarantined truncated failure stats).source_ok ≡ false)
      × ((with_source cross read quarantined truncated failure stats).export_ok ≡ false)
unfolding with_source
with_source-failed cross read quarantined truncated none stats name h = absurd (cc h)
with_source-failed cross read quarantined truncated (some _) stats name h = (refl, refl)

IsWithin-zero : (limit : Option ℕ) → IsWithin limit 0
unfolding IsWithin
IsWithin-zero none = tt
IsWithin-zero (some most) = omega arith

module _ (r : Random) (b : Builtins) (t : Times) (x : Texts) (m : Statistics) (cfg : Config)
    (a : Arguments) (E : Exporter) (S : Store) where
  abbrev Ends : Ran E.State S.State → Type 0
  Ends outcome =
      (end : Finished E.State S.State) × (quality : Dict String) × (reasons : Table String ℕ)
      × (outcome ≡ ran end quality reasons)

  -- The exception of a quotient of two integers that is out of the range of a float.
  abbrev pub Overflows : Exc → Type 0
  Overflows e = (e ≡ overflow) × (m : ℕ) × (n : ℕ) × (1 ≤ n) × (b.floats.true_div m n ≡ none)

  after_pass-Ends :
      (p : Progress r) (outcome : Result (List MetricPoint × Table QualityKey GroupResult))
      (es : E.State) (s : S.State)
      → Raises Overflows outcome
      → Ends (after_pass r b t x m cfg a E S p outcome es s)
        ⊎ ((e : Exc) × (after_pass r b t x m cfg a E S p outcome es s ≡ broke e) × Overflows e)
  unfolding after_pass
  after_pass-Ends p (err e) es s h = inr (e, refl, h)
  after_pass-Ends p (ok (built, scored)) es s h = inl (
    finish b.floats t E S a.window_end a.overlap (prior_map a.loaded) p.current_seen a.duration
        (points_after r b t x m cfg a p built scored) (stats_after r b t x m cfg a p) es s,
    quality_of scored [],
    p.malformed_by_reason,
    refl,
  )

  bind-Raises :
      {A B : Type 0} (v : Result A) (k : A → Result B)
      → Raises Overflows v
      → ((y : A) → Raises Overflows (k y))
      → Raises Overflows (v >>= k)
  bind-Raises (err e) k h each = h
  bind-Raises (ok y) k h each = each y

  ratio-Raises :
      (dims : Dict String) (c : CostEntry) → Raises Overflows (ratio_points b.floats dims c)
  ratio-Raises dims c = elim (Bool-cases (ltb 0 c.input)) [
    | inr none_read ↦ rw none_read tt
    | inl some_read ↦ rw some_read (elim (Option-cases (b.floats.true_div c.output c.input)) [
      | inl large ↦ rw large (refl, c.output, c.input, ground (arith, some_read), large)
      | inr (quotient, q) ↦ rw q tt
    ])
  ]

  costs-Raises :
      (include : Bool) (d : Table CostKey CostEntry)
      → Raises Overflows (all_cost_points b.floats include d)
  costs-Raises include [] = tt
  costs-Raises include ((k, c) ∷ d) =
      bind-Raises (cost_points b.floats include k c) _
        (bind-Raises (ratio_points b.floats (cost_dims include k) c) _
          (ratio-Raises (cost_dims include k) c) (λ ratio. tt))
        (λ points.
          bind-Raises (all_cost_points b.floats include d) _ (costs-Raises include d) (λ rest. tt))

  build-Raises :
      (g : Aggregator) (malformed duplicates : ℕ)
      → Raises Overflows (build b.floats x cfg g malformed duplicates)
  unfolding build
  build-Raises g malformed duplicates =
      bind-Raises (all_cost_points b.floats cfg.include_provider_region g.cost) _
        (costs-Raises cfg.include_provider_region g.cost) (λ costs. tt)

  computed-Raises :
      (p : Progress r) → 2 ≤ cfg.anomaly.min_sample → Raises Overflows (computed r b t x m cfg a p)
  unfolding computed
  computed-Raises p least =
      let (scored, e) = results-returns b.floats m cfg.anomaly p.quality.groups least in
      bind-Raises
        (build b.floats x cfg p.aggregator (schema_reasons p.malformed_by_reason) p.duplicates) _
        (build-Raises p.aggregator (schema_reasons p.malformed_by_reason) p.duplicates)
        (λ built. rw e tt)

  -- With a minimal sample of at least two, a run from a loaded checkpoint, whose times are in the range
  -- of a datetime, whatever its source gives, comes to its end and gives a result, unless the save
  -- itself raises what `run` does not catch, or it is broken off by the `OverflowError` of a token
  -- ratio: of a division of two integers, with a denominator of at least one, whose quotient is out
  -- of the range of a float.
  pub run-ran :
      (source : Source) (es : E.State) (s : S.State)
      → 2 ≤ cfg.anomaly.min_sample
      → ((end : Finished E.State S.State) × (quality : Dict String) × (reasons : Table String ℕ)
          × (run r b t x m cfg a E S source es s ≡ ran end quality reasons))
        ⊎ ((e : Exc) × (run r b t x m cfg a E S source es s ≡ broke e) × Overflows e)
  unfolding run
  run-ran source es s least =
      let p = stream r b t x cfg (window_of a) source.failure source.records (begin r) in
      after_pass-Ends p (computed r b t x m cfg a p) es s (computed-Raises p least)

  after_pass-Keeps :
      (p : Progress r) (outcome : Result (List MetricPoint × Table QualityKey GroupResult))
      (es : E.State) (s : S.State) (name : String)
      → (p.read_truncated ≡ true) ⊎ (p.source_error ≡ some name)
      → Keeps s (after_pass r b t x m cfg a E S p outcome es s)
  unfolding after_pass
  after_pass-Keeps p (err e) es s name h = tt
  after_pass-Keeps p (ok (built, scored)) es s name h =
      finish-kept b.floats t E S a.window_end a.overlap (prior_map a.loaded) p.current_seen
        a.duration (points_after r b t x m cfg a p built scored) (stats_after r b t x m cfg a p) es
        s
        (elim h [
          | inl cut ↦ inr (
              inl (
                with_source-truncated p.cross_run_duplicates p.records_read p.quarantined
                  p.read_truncated p.source_error _ cut))
          | inr failure ↦ inl (
              with_source-failed p.cross_run_duplicates p.records_read p.quarantined
                p.read_truncated p.source_error _ name failure)
        ])

  run-Keeps :
      (source : Source) (es : E.State) (s : S.State) (name : String)
      → source.failure ≡ some name
      → Keeps s (run r b t x m cfg a E S source es s)
  unfolding run
  run-Keeps source es s name failure =
      let p = stream r b t x cfg (window_of a) source.failure source.records (begin r) in
      let (_, end) =
        stream-limit r b t x cfg (window_of a) source.failure source.records (begin r) refl
          (IsWithin-zero a.max_records) in
      after_pass-Keeps p (computed r b t x m cfg a p) es s name
        (elim end [ inl cut ↦ inl cut | inr (_, reported) ↦ inr (reported ∙ failure) ])

  -- A source that fails, at whatever record and within whatever limit, leaves the checkpoint store as it
  -- was: a run that ends has not advanced the watermark.
  pub run-failed_source :
      (source : Source) (es : E.State) (s : S.State) (name : String)
      (end : Finished E.State S.State) (quality : Dict String) (reasons : Table String ℕ)
      → source.failure ≡ some name
      → run r b t x m cfg a E S source es s ≡ ran end quality reasons
      → end.store ≡ s
  run-failed_source source es s name end quality reasons failure h =
      subst (Keeps s) h (run-Keeps source es s name failure)

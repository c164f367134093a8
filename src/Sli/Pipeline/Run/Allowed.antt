-- ===== src/Sli/Pipeline/Run/Allowed.antt =====
-- That every point of a run of pipeline.py is let through by `assert_allowed`.
use inference_control_plane.Prelude.{
  ℕ, ◌+◌, String, true, ◌≡◌, refl, inl, inr, subst, Option, List, [], ◌∷◌, eqb, All-append,
  Bool-cases, contains, is_empty,
}
use inference_control_plane.Prelude.Dict.{Dict, lookup}
use inference_control_plane.Prelude.Table.{Table, AllKeys, AllKeys-update}
use inference_control_plane.Python.{Float, FloatOps, Result, ok, err, ◌>>=◌}
use inference_control_plane.Python.Json.{Json}
use inference_control_plane.Python.Builtins.{Builtins}
use inference_control_plane.Sli.Times.{Times}
use inference_control_plane.Sli.Governance.{Config, accepts, Grouping, by_route, by_route_model}
use inference_control_plane.Sli.Models.{Observation, is_error}
use inference_control_plane.Sli.Models.Parse.{
  Parsed, observed, malformed, crashed, parse_observation,
}
use inference_control_plane.Sli.Normalize.{Texts, primary_dims}
use inference_control_plane.Sli.Histogram.{MetricPoint}
use inference_control_plane.Sli.Aggregation.Points.{AggregationStats}
use inference_control_plane.Sli.Aggregation.Governed.{
  IsGoverned, start-IsGoverned, add_observation-IsGoverned,
}
use inference_control_plane.Sli.Quality.{
  Random, QualityKey, QualityAccumulator, same_key, baseline_key, family_for, value_at, sample,
  add_quality,
}
use inference_control_plane.Sli.Quality.Scoring.{Statistics, GroupResult, score_group, results}
use inference_control_plane.Sli.Emit.{Reprs, check_point, check_shape, check_values, assert_allowed}
use inference_control_plane.Sli.Emit.Allowed.{
  IsAllowed, InVocabulary, assert_allowed-All, primary_dims-PrimaryKnown,
}
use inference_control_plane.Sli.Emit.Built.{AllAllowed, AllowsBuilt, build-allowed, if-allowed}
use inference_control_plane.Sli.Pipeline.{
  Window, Source, Progress, begin, process, take_parsed, step, stream, is_full,
}
use inference_control_plane.Sli.Pipeline.Finish.{
  Exporter, Saved, saved, conflict, raised, Store, Finished, health_points, final_points,
  save_outcome, conclude, finish, guarded_export, schema_reasons,
}
use inference_control_plane.Sli.Pipeline.Report.{own_points}
use inference_control_plane.Sli.Pipeline.Report.Allowed.{
  KeyKnown, unless-allowed, own-allowed, with_series-allowed,
}
use inference_control_plane.Sli.Pipeline.Run.{
  computed, Arguments, prior_map, Ran, broke, ran, window_of, stats_after, points_after, after_pass,
  run,
}

family_known :
    (g : Grouping) (route family : String)
    → InVocabulary "route" route
    → InVocabulary "model_family" family
    → KeyKnown (record { key_route = route; key_family = family_for g family })
family_known by_route route family r m = (r, tt)
family_known by_route_model route family r m = (r, (m, tt))

-- The groups and the empty counts have registered dimensions.
abbrev pub QualityKnown : (r : Random) → QualityAccumulator r → Type 0
QualityKnown r acc = AllKeys KeyKnown acc.groups × AllKeys KeyKnown acc.empty_counts

module _ (r : Random) (x : Texts) (cfg : Config) (f : FloatOps) (valid : accepts f cfg ≡ true) where
  baseline_key-known : (obs : Observation) → KeyKnown (baseline_key x obs cfg)
  unfolding baseline_key primary_dims
  baseline_key-known obs =
      let (_, route_in, family_in, _) = primary_dims-PrimaryKnown f x cfg valid obs in
      family_known cfg.anomaly.baseline_grouping (primary_dims x obs cfg).route_dim
        (primary_dims x obs cfg).model_family_dim route_in family_in

  add_quality-known :
      (obs : Observation) (acc : QualityAccumulator r)
      → QualityKnown r acc
      → QualityKnown r (add_quality r x cfg obs acc)
  unfolding add_quality
  add_quality-known obs acc (g, n) =
      let key = baseline_key x obs cfg in
      let known = baseline_key-known obs in
      let drawn =
        sample r acc.sample_cap (value_at same_key key 0 acc.seen) obs.output_tokens
          (value_at same_key key [] acc.groups) acc.rng in
      elim (Bool-cases (is_error obs)) [
        | inl e ↦ rw e (g, n)
        | inr e ↦ rw e (elim (Bool-cases (eqb obs.output_tokens 0)) [
          | inl z ↦
              rw z (g, AllKeys-update same_key KeyKnown key 0 (λ n. n + 1) acc.empty_counts known n)
          | inr z ↦
              rw z (AllKeys-update same_key KeyKnown key [] (λ b. drawn.0) acc.groups known g, n)
        ])
      ]

-- What a pass keeps.
abbrev pub IsKnown : (r : Random) → Config → Progress r → Type 0
IsKnown r cfg p = IsGoverned cfg p.aggregator × QualityKnown r p.quality

-- The results, if there are any, have registered dimensions.
abbrev Scored : Result (Table QualityKey GroupResult) → Type 0
Scored (ok d) = AllKeys KeyKnown d
Scored (err _) = Unit

cons-Scored :
    (k : QualityKey) (g : Result GroupResult) (rest : Result (Table QualityKey GroupResult))
    → KeyKnown k
    → Scored rest
    → Scored (g >>= λ g'. rest >>= λ d. ok ((k, g') ∷ d))
cons-Scored k (err e) rest h hs = tt
cons-Scored k (ok g) (err e) h hs = tt
cons-Scored k (ok g) (ok d) h hs = (h, hs)

module _ (r : Random) (b : Builtins) (t : Times) (x : Texts) (cfg : Config)
    (valid : accepts b.floats cfg ≡ true) where
  module _ (w : Window) where
    take_parsed-IsKnown :
        (parsed : Parsed) (p : Progress r)
        → IsKnown r cfg p
        → IsKnown r cfg (take_parsed r b t x cfg w parsed p)
    unfolding take_parsed process
    take_parsed-IsKnown (malformed reason) p h = h
    take_parsed-IsKnown (crashed e) p h = h
    take_parsed-IsKnown (observed obs) p h = elim (Bool-cases (is_empty obs.obs_id)) [
      | inl e ↦ rw e h
      | inr e ↦ rw e (elim (Bool-cases (contains p.seen_batch obs.obs_id)) [
        | inl again ↦ rw again h
        | inr new ↦ rw new (elim (Bool-cases (contains w.prior_seen obs.obs_id)) [
          | inl old ↦ rw old h
          | inr fresh ↦ rw fresh (
            add_observation-IsGoverned b.floats x cfg valid obs p.aggregator h.0,
            add_quality-known r x cfg b.floats valid obs p.quality h.1,
          )
        ])
      ])
    ]

    stream-IsKnown :
        (failure : Option String) (records : List Json) (p : Progress r)
        → IsKnown r cfg p
        → IsKnown r cfg (stream r b t x cfg w failure records p)
    unfolding stream step
    stream-IsKnown failure [] p h = h
    stream-IsKnown failure (raw ∷ rest) p h =
        elim (Bool-cases (is_full w.max_records p.records_read)) [
          | inl full ↦ rw full h
          | inr more ↦ rw more (
              stream-IsKnown failure rest (step r b t x cfg w raw p)
                (take_parsed-IsKnown (parse_observation b t x.lower raw) _ h))
        ]

  module _ (m : Statistics) where
    results-Scored :
        (groups : Table QualityKey (List ℕ))
        → AllKeys KeyKnown groups
        → Scored (results b.floats m cfg.anomaly groups)
    unfolding results
    results-Scored [] known = tt
    results-Scored ((k, lengths) ∷ groups) known =
        cons-Scored k (score_group b.floats m lengths cfg.anomaly)
          (results b.floats m cfg.anomaly groups) known.0 (results-Scored groups known.1)

module _ (q : Reprs) (f : FloatOps) (t : Times) (E : Exporter) (S : Store) where
  health-allowed : (s : AggregationStats) → AllAllowed q (health_points f s)
  unfolding check_point check_shape check_values lookup
  health-allowed s = (refl, unless-allowed q f s.source_ok _ (refl, tt))

  final-allowed :
      (duration : Float) (s : AggregationStats) → AllAllowed q (final_points f duration s)
  unfolding check_point check_shape check_values lookup
  final-allowed duration s = (refl, if-allowed q s.checkpoint_conflict _ (refl, tt))

  conclude-allowed :
      (duration : Float) (points : List MetricPoint) (stats : AggregationStats) (e : E.State)
      (outcome : Saved) (s : S.State)
      → AllAllowed q points
      → AllAllowed q (conclude f t E S duration points stats e outcome s).points
  unfolding conclude
  conclude-allowed duration points stats e (raised name) s h = h
  conclude-allowed duration points stats e saved s h =
      All-append (IsAllowed q) points _ h (final-allowed duration (save_outcome saved stats))
  conclude-allowed duration points stats e conflict s h =
      All-append (IsAllowed q) points _ h (final-allowed duration (save_outcome conflict stats))

  finish-allowed :
      (window_end overlap : ℕ) (prior : Dict Json) (current : Dict ℕ) (duration : Float)
      (points : List MetricPoint) (stats : AggregationStats) (e : E.State) (s : S.State)
      → AllAllowed q points
      → AllAllowed q
          (finish f t E S window_end overlap prior current duration points stats e s).points
  unfolding finish
  finish-allowed window_end overlap prior current duration points stats e s h =
      let exported = (guarded_export E points stats e).0 in
      conclude-allowed duration _ _ _ _ _
        (All-append (IsAllowed q) points (health_points f exported) h (health-allowed exported))

-- How a run ends, if it ends: all its points are let through.
abbrev Passes : {E S : Type 0} → Reprs → Ran E S → Type 0
Passes q (broke e) = Unit
Passes q (ran end quality reasons) = assert_allowed q end.points ≡ ok tt

module _ (r : Random) (b : Builtins) (t : Times) (x : Texts) (m : Statistics) (cfg : Config)
    (a : Arguments) (q : Reprs) (E : Exporter) (S : Store)
    (valid : accepts b.floats cfg ≡ true) where
  points_after-allowed :
      (p : Progress r) (built : List MetricPoint) (scored : Table QualityKey GroupResult)
      → AllAllowed q built
      → AllKeys KeyKnown scored
      → IsKnown r cfg p
      → AllAllowed q (points_after r b t x m cfg a p built scored)
  unfolding points_after
  points_after-allowed p built scored allowed hs known = with_series-allowed q b.floats _ (
      All-append (IsAllowed q) _
        (own_points b.floats scored p.quality.empty_counts p.processed
          (stats_after r b t x m cfg a p) a.source_stats a.window_end p.max_end)
        allowed
        (own-allowed q b.floats scored p.quality.empty_counts p.processed
          (stats_after r b t x m cfg a p) a.source_stats a.window_end p.max_end hs known.1.1))

  -- What is computed of a pass is let through.
  abbrev AreKnownAll : Result (List MetricPoint × Table QualityKey GroupResult) → Type 0
  AreKnownAll (err e) = Unit
  AreKnownAll (ok (built, scored)) = AllAllowed q built × AllKeys KeyKnown scored

  both :
      (built : Result (List MetricPoint × AggregationStats))
      (scored : Result (Table QualityKey GroupResult))
      → AllowsBuilt q built
      → Scored scored
      → AreKnownAll (built >>= λ (points, _). scored >>= λ table. ok (points, table))
  both (err e) scored h hs = tt
  both (ok (points, stats)) (err e) h hs = tt
  both (ok (points, stats)) (ok table) h hs = (h, hs)

  computed-AreKnownAll :
      (p : Progress r) → IsKnown r cfg p → AreKnownAll (computed r b t x m cfg a p)
  unfolding computed
  computed-AreKnownAll p known =
      both _ (results b.floats m cfg.anomaly p.quality.groups)
        (build-allowed q b.floats x cfg p.aggregator (schema_reasons p.malformed_by_reason)
          p.duplicates known.0)
        (results-Scored r b t x cfg valid m p.quality.groups known.1.0)

  after_pass-Passes :
      (p : Progress r) (outcome : Result (List MetricPoint × Table QualityKey GroupResult))
      (es : E.State) (s : S.State)
      → IsKnown r cfg p
      → AreKnownAll outcome
      → Passes q (after_pass r b t x m cfg a E S p outcome es s)
  unfolding after_pass
  after_pass-Passes p (err e) es s known hs = tt
  after_pass-Passes p (ok (built, scored)) es s known hs = assert_allowed-All q _ (
      finish-allowed q b.floats t E S a.window_end a.overlap (prior_map a.loaded) p.current_seen
        a.duration (points_after r b t x m cfg a p built scored) (stats_after r b t x m cfg a p) es
        s (points_after-allowed p built scored hs.0 hs.1 known))

  run-Passes :
      (source : Source) (es : E.State) (s : S.State)
      → Passes q (run r b t x m cfg a E S source es s)
  unfolding run
  run-Passes source es s =
      let p = stream r b t x cfg (window_of a) source.failure source.records (begin r) in
      let known =
        stream-IsKnown r b t x cfg valid (window_of a) source.failure source.records (begin r)
          (start-IsGoverned b.floats x cfg valid, (tt, tt)) in
      after_pass-Passes p (computed r b t x m cfg a p) es s known (computed-AreKnownAll p known)

  -- With a configuration that is accepted, whatever records the source gives, whatever the exporter and
  -- the store do, `assert_allowed` lets every point of the result of a run through.
  pub run-allowed :
      (source : Source) (es : E.State) (s : S.State) (end : Finished E.State S.State)
      (quality : Dict String) (reasons : Table String ℕ)
      → run r b t x m cfg a E S source es s ≡ ran end quality reasons
      → assert_allowed q end.points ≡ ok tt
  run-allowed source es s end quality reasons h = subst (Passes q) h (run-Passes source es s)

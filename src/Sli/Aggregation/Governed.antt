-- ===== src/Sli/Aggregation/Governed.antt =====
-- Which keys the tables of an aggregator can have.
use inference_control_plane.Prelude.{
  ℕ, ◌+◌, String, Bool, true, false, not, ◌≡◌, refl, inl, inr, Option, none, some, List, [], ◌∷◌,
  ◌++◌, ◌==◌, ◌&&◌, All, All-append, Bool-cases, is_empty, strip, if◌then◌else◌,
}
use inference_control_plane.Prelude.Dict.{lookup}
use inference_control_plane.Prelude.Table.{Table, AllKeys, AllKeys-update}
use inference_control_plane.Python.{Float, FloatOps}
use inference_control_plane.Sli.Models.{Observation, is_error, latency_ms, ttft_ms}
use inference_control_plane.Sli.Governance.{Config, accepts, other}
use inference_control_plane.Sli.Normalize.{
  Texts, PrimaryDims, same_dims, primary_dims, folded, folded_dimensions, category_of,
  provider_region, team, route, model_family, env,
}
use inference_control_plane.Sli.Histogram.{HistAcc, new, add}
use inference_control_plane.Sli.Aggregation.{
  Aggregator, start, same_cost, same_error, no_outcomes, no_cost, outcome, charge, count_folds,
  count_error, count_ttft, cost_key, add_observation,
}
use inference_control_plane.Sli.Aggregation.Points.{cost_dims}
use inference_control_plane.Sli.Emit.Allowed.{
  InVocabulary, AreKnown, PrimaryKnown, primary_dims-PrimaryKnown, category_of-known,
  provider_region-known,
}

-- Every key of every table is of registered values.
abbrev pub IsGoverned : Config → Aggregator → Type 0
IsGoverned cfg a =
    AllKeys PrimaryKnown a.dur
    × AllKeys PrimaryKnown a.ttft
    × AllKeys PrimaryKnown a.counts
    × AllKeys (λ k. PrimaryKnown k.0 × InVocabulary "error_category" k.1) a.errcat
    × AllKeys (λ k. AreKnown (cost_dims cfg.include_provider_region k)) a.cost
    × AllKeys (InVocabulary "dimension") a.unknown_dims

count_folds-AllKeys :
    (dims : List String) (d : Table String ℕ)
    → All (InVocabulary "dimension") dims
    → AllKeys (InVocabulary "dimension") d
    → AllKeys (InVocabulary "dimension") (count_folds dims d)
unfolding count_folds
count_folds-AllKeys [] d h k = k
count_folds-AllKeys (dim ∷ dims) d h k =
    count_folds-AllKeys dims _ h.1
      (AllKeys-update (λ a b. a == b) (InVocabulary "dimension") dim 0 (λ n. n + 1) d h.0 k)

folded-known :
    (name raw value : String)
    → InVocabulary "dimension" name
    → All (InVocabulary "dimension") (folded name raw value)
folded-known name raw value h = elim (Bool-cases (not (is_empty (strip raw)) && value == other)) [
  | inl e ↦ rw e (h, tt)
  | inr e ↦ rw e tt
]

cost_dims-known :
    (include : Bool) (pk : PrimaryDims) (region : String)
    → PrimaryKnown pk
    → InVocabulary "provider_region" region
    → AreKnown (
        cost_dims include (record {
          cost_team = pk.team_dim;
          cost_route = pk.route_dim;
          cost_family = pk.model_family_dim;
          provider = if include then region else "n/a";
        }))
cost_dims-known true pk region (t, r, m, e) h = (t, (r, (m, (h, tt))))
cost_dims-known false pk region (t, r, m, e) h = (t, (r, (m, tt)))

module _ (f : FloatOps) (x : Texts) (cfg : Config) (valid : accepts f cfg ≡ true) where
  folded_dimensions-known :
      (obs : Observation) → All (InVocabulary "dimension") (folded_dimensions x obs cfg)
  unfolding folded_dimensions lookup
  folded_dimensions-known obs =
      let P = InVocabulary "dimension" in
      let a = folded "team" obs.team (team x obs cfg) in
      let b = folded "route" obs.route (route x obs cfg) in
      let c = folded "model_family" obs.provided_model (model_family x obs.provided_model) in
      let d = folded "env" obs.env_raw (env x obs) in
      let e = folded "provider_region" obs.internal_model (provider_region obs) in
      All-append P (a ++ b ++ c ++ d) e
        (All-append P (a ++ b ++ c) d
          (All-append P (a ++ b) c
            (All-append P a b (folded-known "team" obs.team (team x obs cfg) refl)
              (folded-known "route" obs.route (route x obs cfg) refl))
            (folded-known "model_family" obs.provided_model (model_family x obs.provided_model)
              refl))
          (folded-known "env" obs.env_raw (env x obs) refl))
        (folded-known "provider_region" obs.internal_model (provider_region obs) refl)

  pub start-IsGoverned : IsGoverned cfg start
  start-IsGoverned = (tt, tt, tt, tt, tt, tt)

  cost_key-known :
      (obs : Observation)
      → AreKnown
          (cost_dims cfg.include_provider_region (cost_key f x cfg obs (primary_dims x obs cfg)))
  cost_key-known obs =
      cost_dims-known cfg.include_provider_region (primary_dims x obs cfg) (provider_region obs)
        (primary_dims-PrimaryKnown f x cfg valid obs) (provider_region-known obs)

  count_error-known :
      (obs : Observation) (failed : Bool) (d : Table (PrimaryDims × String) ℕ)
      → AllKeys (λ k. PrimaryKnown k.0 × InVocabulary "error_category" k.1) d
      → AllKeys
          (λ k. PrimaryKnown k.0 × InVocabulary "error_category" k.1)
          (count_error x obs (primary_dims x obs cfg) failed d)
  unfolding count_error
  count_error-known obs false d h = h
  count_error-known obs true d h =
      AllKeys-update same_error _ (primary_dims x obs cfg, category_of x obs.error) 0 (λ n. n + 1) d
        (primary_dims-PrimaryKnown f x cfg valid obs, category_of-known x obs.error) h

  count_ttft-known :
      (pk : PrimaryDims) (first : Option Float) (d : Table PrimaryDims HistAcc)
      → PrimaryKnown pk
      → AllKeys PrimaryKnown d
      → AllKeys PrimaryKnown (count_ttft f cfg.latency_buckets_ms pk first d)
  unfolding count_ttft
  count_ttft-known pk none d one h = h
  count_ttft-known pk (some t) d one h =
      AllKeys-update same_dims PrimaryKnown pk (new f cfg.latency_buckets_ms) (add f t) d one h

  -- With a configuration that is accepted, adding an observation, whatever it holds, keeps all keys
  -- of all tables in the registered vocabularies.
  pub add_observation-IsGoverned :
      (obs : Observation) (a : Aggregator)
      → IsGoverned cfg a
      → IsGoverned cfg (add_observation f x cfg obs a)
  unfolding add_observation
  add_observation-IsGoverned obs a (d, t, c, e, k, u) =
      let pk = primary_dims x obs cfg in
      let bounds = cfg.latency_buckets_ms in
      let known = primary_dims-PrimaryKnown f x cfg valid obs in
      (
        AllKeys-update same_dims PrimaryKnown pk (new f bounds) (add f (latency_ms f obs)) a.dur
            known d,
        count_ttft-known pk (ttft_ms f obs) a.ttft known t,
        AllKeys-update same_dims PrimaryKnown pk no_outcomes (outcome (is_error obs)) a.counts known
            c,
        count_error-known obs (is_error obs) a.errcat e,
        AllKeys-update same_cost (λ k. AreKnown (cost_dims cfg.include_provider_region k))
            (cost_key f x cfg obs pk) (no_cost f) (charge f obs) a.cost (cost_key-known obs) k,
        count_folds-AllKeys (folded_dimensions x obs cfg) a.unknown_dims
            (folded_dimensions-known obs) u,
      )

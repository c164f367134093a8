-- ===== src/Sli/Emit/Allowed.antt =====
-- Which points `assert_allowed` lets through.
use inference_control_plane.Prelude.{
  String, true, ◌≡◌, refl, arith, inl, inr, Option, List, [], ◌∷◌, ◌++◌, ◌==◌, contains, All,
  eq_iff, Bool-cases,
}
use inference_control_plane.Prelude.Dict.{Dict, lookup}
use inference_control_plane.Python.{FloatOps, ok}
use inference_control_plane.Sli.Governance.{
  Config, accepts, subset, other, unknown, unattributed, teams, routes, model_families, envs,
  error_categories, provider_regions,
}
use inference_control_plane.Sli.Governance.Registry.{vocabulary_of}
use inference_control_plane.Sli.Models.{Observation}
use inference_control_plane.Sli.Normalize.{
  Texts, PrimaryDims, primary_dims, category_of, provider_region,
}
use inference_control_plane.Sli.Normalize.Vocabulary.{
  primary_dims-Governed, category_of-Governed, provider_region-Governed,
}
use inference_control_plane.Sli.Histogram.{MetricPoint}
use inference_control_plane.Sli.Emit.{Reprs, check_point, check_values, assert_allowed}

-- A value is in the vocabulary of its dimension.
abbrev pub InVocabulary : String → String → Type 0
InVocabulary key value = contains (vocabulary_of key) value ≡ true

abbrev pub AreKnown : Dict String → Type 0
AreKnown = All (λ e. InVocabulary e.0 e.1)

abbrev pub IsAllowed : Reprs → MetricPoint → Type 0
IsAllowed q p = check_point q p ≡ ok tt

module _ (q : Reprs) where
  pub assert_allowed-All :
      (ps : List MetricPoint) → All (IsAllowed q) ps → assert_allowed q ps ≡ ok tt
  unfolding assert_allowed
  assert_allowed-All [] h = refl
  assert_allowed-All (p ∷ ps) h = rw h.0 (assert_allowed-All ps h.1)

  -- Dimensions whose values are in their vocabularies pass.
  pub check_values-ok :
      (name : String) (dims : Dict String) → AreKnown dims → check_values q name dims ≡ ok tt
  unfolding check_values
  check_values-ok name [] h = refl
  check_values-ok name ((key, value) ∷ dims) h = rw h.0 (check_values-ok name dims h.1)

subset-contains :
    (vs ws : List String) (v : String)
    → subset vs ws ≡ true
    → contains vs v ≡ true
    → contains ws v ≡ true
unfolding subset
subset-contains [] ws v hs hv = absurd (cc hv)
subset-contains (u ∷ vs) ws v hs hv = elim (Bool-cases (v == u)) [
  | inl e ↦ let same : v ≡ u = (eq_iff v u).0 e in rw same (ground arith)
  | inr e ↦ subset-contains vs ws v (ground arith) (ground arith)
]

contains-append :
    (xs ys : List String) (v : String) → contains xs v ≡ true → contains (xs ++ ys) v ≡ true
contains-append [] ys v h = absurd (cc h)
contains-append (x ∷ xs) ys v h = ground (arith, contains-append xs ys v)

subset-append : (vs xs ys : List String) → subset vs xs ≡ true → subset vs (xs ++ ys) ≡ true
unfolding subset
subset-append [] xs ys h = refl
subset-append (v ∷ vs) xs ys h = ground (arith, contains-append xs ys v, subset-append vs xs ys)

-- The primary dimensions are in the vocabularies.
abbrev pub PrimaryKnown : PrimaryDims → Type 0
PrimaryKnown pk =
    InVocabulary "team" pk.team_dim
    × InVocabulary "route" pk.route_dim
    × InVocabulary "model_family" pk.model_family_dim
    × InVocabulary "env" pk.env_dim

module _ (f : FloatOps) (x : Texts) (cfg : Config) (valid : accepts f cfg ≡ true) where
  known_teams-subset : subset cfg.known_teams teams ≡ true
  unfolding accepts
  known_teams-subset = ground arith

  known_routes-subset : subset cfg.known_routes routes ≡ true
  unfolding accepts
  known_routes-subset = ground arith

  -- With a configuration that is accepted, the primary dimensions of every observation are in the
  -- registered vocabularies.
  pub primary_dims-PrimaryKnown : (obs : Observation) → PrimaryKnown (primary_dims x obs cfg)
  unfolding subset lookup
  primary_dims-PrimaryKnown obs =
      let (t, r, m, e) = primary_dims-Governed x obs cfg in
      let teams_in =
        subset-append cfg.known_teams teams (other ∷ unattributed ∷ []) known_teams-subset in
      let routes_in = subset-append cfg.known_routes routes (other ∷ []) known_routes-subset in
      let pk = primary_dims x obs cfg in
      (
        subset-contains (other ∷ unattributed ∷ cfg.known_teams) (vocabulary_of "team") pk.team_dim
            teams_in t,
        subset-contains (other ∷ cfg.known_routes) (vocabulary_of "route") pk.route_dim routes_in r,
        subset-contains (other ∷ model_families) (vocabulary_of "model_family") pk.model_family_dim
            refl m,
        subset-contains (other ∷ envs) (vocabulary_of "env") pk.env_dim refl e,
      )

pub category_of-known :
    (x : Texts) (etype : Option String) → InVocabulary "error_category" (category_of x etype)
unfolding subset lookup
category_of-known x etype =
    subset-contains (unknown ∷ error_categories) (vocabulary_of "error_category")
      (category_of x etype) refl (category_of-Governed x etype)

pub provider_region-known :
    (obs : Observation) → InVocabulary "provider_region" (provider_region obs)
unfolding subset lookup
provider_region-known obs =
    subset-contains (other ∷ provider_regions) (vocabulary_of "provider_region")
      (provider_region obs) refl (provider_region-Governed obs)

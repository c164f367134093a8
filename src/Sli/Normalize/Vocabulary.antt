-- ===== src/Sli/Normalize/Vocabulary.antt =====
-- What normalize.py can put into a dimension.
use inference_control_plane.Prelude.{
  String, Bool, true, false, Option, none, some, List, [], ◌∷◌, ◌==◌, ◌&&◌, ◌||◌, contains, ◌≡◌,
  ◌⊎◌, refl, arith, eq_refl, inl, inr, strip, is_empty, Bool-cases, includes, starts_with,
}
use inference_control_plane.Prelude.Dict.{Dict, lookup, insert, or_default}
use inference_control_plane.Sli.Models.{Observation, is_error}
use inference_control_plane.Sli.Governance.{
  Config, other, unknown, unattributed, model_families, error_categories, envs, provider_regions,
  subset,
}
use inference_control_plane.Sli.Normalize.{
  Texts, rules, gpt_family, model_family, error_type_map, category_of, error_category, env_map, env,
  canonical, team, route, model_rules, first_prefix, provider_map, provider_region, primary_dims,
}

abbrev pub Governed : List String → String → Type 0
Governed vs v = contains vs v ≡ true

-- A value under a key of a table is a member of a list that holds the table's values.
unfoldable within : List String → Dict String → Bool
within vs [] = true
within vs ((k, v) ∷ d) = contains vs v && within vs d

module _ (vs : List String) where
  lookup-within :
      (k : String) (d : Dict String) (v : String)
      → Governed vs v
      → within vs d ≡ true
      → Governed vs (or_default v (lookup k d))
  unfolding within lookup
  lookup-within k [] v hv hd = hv
  lookup-within k ((j, w) ∷ d) v hv hd = elim (Bool-cases (k == j)) [
    | inl e ↦ rw e (ground arith)
    | inr e ↦ rw e (lookup-within k d v hv (ground arith))
  ]

  insert-within :
      (k v : String) (d : Dict String)
      → Governed vs v
      → within vs d ≡ true
      → within vs (insert k v d) ≡ true
  unfolding within insert
  insert-within k v [] hv hd = rw hv refl
  insert-within k v ((j, w) ∷ d) hv hd = ground (arith, insert-within k v d hv)

  canonical-within :
      (x : Texts) (d : Dict String) (ts : List String)
      → subset ts vs ≡ true
      → within vs d ≡ true
      → within vs (canonical x d ts) ≡ true
  unfolding canonical subset
  canonical-within x d [] hs hd = hd
  canonical-within x d (t ∷ ts) hs hd =
      canonical-within x (insert (x.lower t) t d) ts (ground arith)
        (insert-within (x.lower t) t d (ground arith) hd)

  subset-more : (v : String) (ts : List String) → subset ts vs ≡ true → subset ts (v ∷ vs) ≡ true
  unfolding subset
  subset-more v [] h = refl
  subset-more v (t ∷ ts) h = ground (arith, subset-more v ts)

subset_refl : (vs : List String) → subset vs vs ≡ true
unfolding subset
subset_refl [] = refl
subset_refl (v ∷ vs) = simp (eq_refl, subset-more vs v vs (subset_refl vs))

first_prefix-Governed :
    (vs : List String) (im : String) (rs : Dict String)
    → Governed vs other
    → within vs rs ≡ true
    → Governed vs (first_prefix im rs)
unfolding first_prefix within
first_prefix-Governed vs im [] ho hr = ho
first_prefix-Governed vs im ((prefix, value) ∷ rs) ho hr =
    elim (Bool-cases (starts_with im prefix)) [
      | inl h ↦ rw h (ground arith)
      | inr h ↦ rw h (first_prefix-Governed vs im rs ho (ground arith))
    ]

-- The region of a provider is a registered one or `other`.
pub provider_region-Governed :
    (obs : Observation) → Governed (other ∷ provider_regions) (provider_region obs)
unfolding provider_region within
provider_region-Governed obs =
    first_prefix-Governed (other ∷ provider_regions) obs.internal_model provider_map refl refl

module _ (x : Texts) where
  rules-Governed :
      (vs : List String) (model : String) (rs : Dict String)
      → Governed vs other
      → within vs rs ≡ true
      → Governed vs (rules x model rs)
  unfolding rules within
  rules-Governed vs model [] ho hr = ho
  rules-Governed vs model ((rx, name) ∷ rs) ho hr =
      elim (Bool-cases (name == "gpt-5" || name == "gpt-5-mini")) [
        | inl e ↦ rw e (rules-Governed vs model rs ho (ground arith))
        | inr e ↦ elim (Bool-cases (x.matches_i rx model)) [
          | inl h ↦ rw (e, h) (ground arith)
          | inr h ↦ rw (e, h) (rules-Governed vs model rs ho (ground arith))
        ]
      ]

  gpt_family-Governed :
      (value model : String) → Governed (other ∷ model_families) (gpt_family x value model)
  unfolding gpt_family within
  gpt_family-Governed value model =
      elim (Bool-cases (x.matches "^gpt-5(?:[.-]\\d+)*(?:[-.].*mini)$" value)) [
        | inl e ↦ rw e refl
        | inr e ↦ elim (Bool-cases (x.matches "^gpt-5(?:[.-]\\d+)*$" value)) [
          | inl h ↦ rw (e, h) refl
          | inr h ↦ rw (e, h) (rules-Governed (other ∷ model_families) model model_rules refl refl)
        ]
      ]

  pub model_family-Governed :
      (model : String) → Governed (other ∷ model_families) (model_family x model)
  unfolding model_family
  model_family-Governed model =
      let value = x.lower model in
      let rest = gpt_family-Governed value model in
      elim (Bool-cases (includes "claude" value)) [
        | inr e ↦ rw e rest
        | inl e ↦ elim (Bool-cases (includes "sonnet" value)) [
          | inl s ↦ rw (e, s) refl
          | inr s ↦ elim (Bool-cases (includes "haiku" value)) [
            | inl h ↦ rw (e, s, h) refl
            | inr h ↦ elim (Bool-cases (includes "opus" value)) [
              | inl o ↦ rw (e, s, h, o) refl
              | inr o ↦ rw (e, s, h, o) rest
            ]
          ]
        ]
      ]

  team-Governed :
      (obs : Observation) (cfg : Config)
      → Governed (other ∷ unattributed ∷ cfg.known_teams) (team x obs cfg)
  unfolding team within
  team-Governed obs cfg =
      let vs = other ∷ unattributed ∷ cfg.known_teams in
      elim (Bool-cases (is_empty (strip obs.team))) [
        | inl e ↦ rw e refl
        | inr e ↦ rw e (
            lookup-within vs (x.lower (strip obs.team)) (canonical x [] cfg.known_teams) other refl
              (canonical-within vs x [] cfg.known_teams
                (subset-more (unattributed ∷ cfg.known_teams) other cfg.known_teams (
                  subset-more cfg.known_teams unattributed cfg.known_teams
                    (subset_refl cfg.known_teams)))
                refl))
      ]

  pub route-Governed :
      (obs : Observation) (cfg : Config) → Governed (other ∷ cfg.known_routes) (route x obs cfg)
  unfolding route within
  route-Governed obs cfg =
      let vs = other ∷ cfg.known_routes in
      elim (Bool-cases (x.matches_i "^[a-z0-9][a-z0-9._-]{0,63}$" (strip obs.route))) [
        | inr e ↦ rw e refl
        | inl e ↦ rw e (
            lookup-within vs (x.lower (strip obs.route)) (canonical x [] cfg.known_routes) other
              refl
              (canonical-within vs x [] cfg.known_routes
                (subset-more cfg.known_routes other cfg.known_routes (subset_refl cfg.known_routes))
                refl))
      ]

  -- The primary dimensions of an observation are drawn from closed vocabularies, whatever texts it
  -- has and whatever the patterns match: the team is a known one, `other` or `unattributed`, the
  -- route is a known one or `other`, the model's family and the environment are registered ones or
  -- `other`.
  pub primary_dims-Governed :
      (obs : Observation) (cfg : Config)
      → Governed (other ∷ unattributed ∷ cfg.known_teams) (primary_dims x obs cfg).team_dim
        × Governed (other ∷ cfg.known_routes) (primary_dims x obs cfg).route_dim
        × Governed (other ∷ model_families) (primary_dims x obs cfg).model_family_dim
        × Governed (other ∷ envs) (primary_dims x obs cfg).env_dim
  unfolding primary_dims env within
  primary_dims-Governed obs cfg = (
    team-Governed obs cfg,
    route-Governed obs cfg,
    model_family-Governed obs.provided_model,
    lookup-within (other ∷ envs) (x.lower obs.env_raw) env_map other refl refl,
  )

  pub category_of-Governed :
      (etype : Option String) → Governed (unknown ∷ error_categories) (category_of x etype)
  unfolding category_of within
  category_of-Governed none = refl
  category_of-Governed (some etype) = elim (Bool-cases (is_empty etype)) [
    | inl e ↦ rw e refl
    | inr e ↦ rw e (
        lookup-within (unknown ∷ error_categories) (x.lower etype) error_type_map unknown refl refl)
  ]

  -- An observation that is no error has no category, and one that is an error has a registered one
  -- or `unknown`.
  pub error_category-Governed :
      (obs : Observation)
      → ((is_error obs ≡ false) × (error_category x obs ≡ none))
        ⊎ ((is_error obs ≡ true)
            × (category : String) × (error_category x obs ≡ some category)
            × Governed (unknown ∷ error_categories) category)
  unfolding error_category
  error_category-Governed obs = elim (Bool-cases (is_error obs)) [
    | inl e ↦ inr (e, category_of x obs.error, simp e, category_of-Governed obs.error)
    | inr e ↦ inl (e, simp e)
  ]

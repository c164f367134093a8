-- ===== src/Sli/Governance/Registry.antt =====
-- The contract of governance.py: the registered dimensions and metrics, and the series that they allow.
use inference_control_plane.Prelude.{
  ℕ, ◌+◌, ◌*◌, String, Bool, true, false, none, some, List, [], ◌∷◌, ◌++◌, map, length,
}
use inference_control_plane.Prelude.Dict.{Dict, lookup}
use inference_control_plane.Sli.Governance.{
  other, unknown, unattributed, model_families, error_categories, envs, provider_regions, teams,
  routes,
}

abbrev pub outcomes : List String
outcomes = "success" ∷ "error" ∷ []

pub record Dimension : Type 0 where
  pub dim_name : String
  pub owner : String
  pub privacy_class : String
  pub vocabulary : List String
  pub bounded_open : Bool
  pub unknown_behavior : String
  pub cardinality_budget : ℕ
  pub normalization : String

abbrev platform : String
platform = "AI Platform (paved road)"

abbrev observability : String
observability = "AI Platform (observability)"

abbrev pub dimension : String → String → List String → Bool → String → ℕ → String → Dimension
dimension name owner vocabulary is_open behavior budget normalization = record {
  dim_name = name;
  owner = owner;
  privacy_class = "non-sensitive";
  vocabulary = vocabulary;
  bounded_open = is_open;
  unknown_behavior = behavior;
  cardinality_budget = budget;
  normalization = normalization;
}

-- `WORKLOAD_DIMENSIONS`
abbrev pub workload_dimensions : List Dimension
workload_dimensions =
    dimension "team" platform (teams ++ other ∷ unattributed ∷ []) true
      "case-insensitive allowlist; blank -> unattributed; unknown -> other" 8 "normalize.team"
    ∷ dimension "route" platform (routes ++ other ∷ []) true
        "shape-validated + known-route allowlist; unknown -> other" 32 "normalize.route"
    ∷ dimension "model_family" platform (model_families ++ other ∷ []) false
        "explicit prefix rules; unknown -> other" 8 "normalize.model_family"
    ∷ dimension "env" platform (envs ++ other ∷ []) false "explicit map; unknown -> other" 4
        "normalize.env"
    ∷ dimension "outcome" platform outcomes false "literal success|error" 2 "sli.aggregate"
    ∷ dimension "error_category" platform (error_categories ++ unknown ∷ []) false
        "bounded map on structured error.type (never statusMessage); unknown -> unknown" 8
        "normalize.error_category"
    ∷ dimension "provider_region" platform (provider_regions ++ other ∷ []) false
        "explicit bounded mapping; never parsed from internalModelId; unknown -> other" 4
        "normalize.provider_region"
    ∷ []

-- `PIPELINE_DIMENSIONS`
abbrev pub pipeline_dimensions : List Dimension
pipeline_dimensions =
    dimension "dimension" observability
      ("team" ∷ "route" ∷ "model_family" ∷ "env" ∷ "provider_region" ∷ []) false
      "names which governed dimension folded a non-blank value to a token" 5
      "sli.aggregate unknown-dimension counter"
    ∷ []

-- `REGISTRY`
abbrev pub registry : Dict Dimension
registry = map (λ d. (d.dim_name, d)) (workload_dimensions ++ pipeline_dimensions)

pub record MetricDefinition : Type 0 where
  pub metric_type : String
  pub metric_unit : String
  pub allowed_dimensions : List String

abbrev pub metric : String → String → List String → MetricDefinition
metric type unit dimensions = record {
  metric_type = type;
  metric_unit = unit;
  allowed_dimensions = dimensions;
}

abbrev pub primary : List String
primary = "team" ∷ "route" ∷ "model_family" ∷ "env" ∷ []

abbrev pub cost : List String
cost = "team" ∷ "route" ∷ "model_family" ∷ "provider_region" ∷ []

abbrev pub quality : List String
quality = "route" ∷ "model_family" ∷ []

-- `METRIC_REGISTRY`, with what the loop below it adds.
abbrev pub metric_registry : Dict MetricDefinition
metric_registry =
    ("gateway.request.duration", metric "histogram" "ms" primary)
    ∷ ("gateway.request.ttft", metric "histogram" "ms" primary)
    ∷ ("gateway.request.count", metric "counter" "1" (primary ++ "outcome" ∷ []))
    ∷ ("gateway.request.errors", metric "counter" "1" (primary ++ "error_category" ∷ []))
    ∷ ("gateway.cost.usd", metric "counter" "USD" cost)
    ∷ ("gateway.cost.request_count", metric "counter" "1" cost)
    ∷ ("gateway.cost.records_missing", metric "counter" "1" cost)
    ∷ ("gateway.cost.records_invalid", metric "counter" "1" cost)
    ∷ ("gateway.tokens.input", metric "counter" "1" cost)
    ∷ ("gateway.tokens.output", metric "counter" "1" cost)
    ∷ ("gateway.tokens.completion_ratio", metric "gauge" "ratio" cost)
    ∷ ("gateway.cache.read_tokens", metric "counter" "1" cost)
    ∷ ("gateway.cache.hit_count", metric "counter" "1" cost)
    ∷ ("gateway.quality.completion_length_anomalies", metric "counter" "1" quality)
    ∷ ("gateway.quality.completion_length_max_zscore", metric "gauge" "score" quality)
    ∷ ("gateway.quality.empty_completion_count", metric "counter" "1" quality)
    ∷ ("gateway.pipeline.unknown_dimension", metric "counter" "1" ("dimension" ∷ []))
    ∷ ("gateway.pipeline.malformed_records", metric "counter" "1" [])
    ∷ ("gateway.pipeline.duplicate_records", metric "counter" "1" [])
    ∷ ("gateway.pipeline.records_read", metric "counter" "1" [])
    ∷ ("gateway.pipeline.records_processed", metric "counter" "1" [])
    ∷ ("gateway.pipeline.cross_run_duplicate_records", metric "counter" "1" [])
    ∷ ("gateway.pipeline.quarantined_records", metric "counter" "1" [])
    ∷ ("gateway.pipeline.read_truncated", metric "gauge" "1" [])
    ∷ ("gateway.pipeline.records_missing_cost", metric "counter" "1" [])
    ∷ ("gateway.pipeline.records_invalid_cost", metric "counter" "1" [])
    ∷ ("gateway.pipeline.freshness_seconds", metric "gauge" "s" [])
    ∷ ("gateway.pipeline.clock_skew_seconds", metric "gauge" "s" [])
    ∷ ("gateway.pipeline.series_emitted", metric "gauge" "1" [])
    ∷ ("gateway.pipeline.run_duration_seconds", metric "gauge" "s" [])
    ∷ ("gateway.pipeline.source_requests", metric "counter" "1" [])
    ∷ ("gateway.pipeline.source_retries", metric "counter" "1" [])
    ∷ ("gateway.pipeline.source_pages", metric "counter" "1" [])
    ∷ ("gateway.pipeline.source_latency_seconds", metric "gauge" "s" [])
    ∷ ("gateway.pipeline.export_success", metric "gauge" "1" [])
    ∷ ("gateway.pipeline.source_success", metric "gauge" "1" [])
    ∷ ("gateway.pipeline.checkpoint_conflicts", metric "counter" "1" [])
    ∷ []

-- `ALLOWED_ATTRIBUTE_KEYS`
abbrev pub allowed_attribute_keys : List String
allowed_attribute_keys = map (λ d. d.dim_name) (workload_dimensions ++ pipeline_dimensions)

-- `REGISTRY[name].vocabulary`, of a name that is there.
abbrev pub vocabulary_of : String → List String
vocabulary_of name = elim (lookup name registry) [ none ↦ [] | some d ↦ d.vocabulary ]

-- `_vocab`
abbrev pub vocab : String → ℕ
vocab name = length (vocabulary_of name)

-- `estimated_max_series`, the loop over the primary dimensions written out.
unfoldable pub estimated_max_series : ℕ
estimated_max_series = vocab "team" * vocab "route" * vocab "model_family" * vocab "env"

unfoldable pub estimated_max_total_series : ℕ
estimated_max_total_series =
    let groups = vocab "team" * vocab "route" * vocab "model_family" * vocab "env" in
    let cost_group =
      vocab "team" * vocab "route" * vocab "model_family" * vocab "provider_region" in
    2 * groups + groups * vocab "outcome" + groups * vocab "error_category" + cost_group * 9

-- ===== src/Sli/Governance.antt =====
-- governance.py and config.py: the vocabularies of the dimensions, and the configuration.
pub mod Registry
use inference_control_plane.Prelude.{
  ℕ, String, Bool, true, false, not, List, [], ◌∷◌, contains, ltb, ◌&&◌,
}
use inference_control_plane.Python.{Float, FloatOps}

abbrev pub other : String
other = "other"

abbrev pub unknown : String
unknown = "unknown"

abbrev pub unattributed : String
unattributed = "unattributed"

abbrev pub model_families : List String
model_families =
    "claude-sonnet" ∷ "claude-haiku" ∷ "claude-opus" ∷ "gpt-5" ∷ "gpt-5-mini" ∷ "gpt-4o" ∷ []

abbrev pub error_categories : List String
error_categories =
    "throttling" ∷ "timeout" ∷ "provider_error" ∷ "auth" ∷ "invalid_request" ∷ "content_filter" ∷ []

abbrev pub envs : List String
envs = "prod" ∷ "staging" ∷ "dev" ∷ []

abbrev pub provider_regions : List String
provider_regions = "bedrock_eu" ∷ "bedrock_us" ∷ "external_zdr" ∷ []

abbrev pub teams : List String
teams = "AdvisorChat" ∷ "KYC" ∷ "DevAgent" ∷ "DigestBot" ∷ "Research" ∷ "Marketing" ∷ []

abbrev pub routes : List String
routes = "advisorchat-turn" ∷ "digestbot-summary" ∷ "devagent-task" ∷ []

pub data Grouping : Type 0 where
  by_route by_route_model : Grouping

-- `AnomalyConfig`
pub record AnomalyConfig : Type 0 where
  pub min_sample : ℕ
  pub threshold : Float
  pub baseline_grouping : Grouping

-- `Config`. A set is listed in the order of its iteration.
pub record Config : Type 0 where
  pub latency_buckets_ms : List Float
  pub anomaly : AnomalyConfig
  pub include_provider_region : Bool
  pub known_teams : List String
  pub known_routes : List String

-- Whether the members of a tuple ascend strictly.
unfoldable pub ascending : FloatOps → List Float → Bool
ascending f [] = true
ascending f (x ∷ []) = true
ascending f (x ∷ y ∷ ys) = f.lt x y && ascending f (y ∷ ys)

-- `all(x > 0 for x in xs)`
unfoldable pub positive : FloatOps → List Float → Bool
positive f [] = true
positive f (x ∷ xs) = not (f.le x (f.of_nat 0)) && positive f xs

-- `xs.issubset(ys)`
unfoldable pub subset : List String → List String → Bool
subset [] ys = true
subset (x ∷ xs) ys = contains ys x && subset xs ys

abbrev pub is_nil {ℓ} : {A : Type ℓ} → List A → Bool
is_nil [] = true
is_nil (_ ∷ _) = false

-- Whether `Config.__post_init__` and `AnomalyConfig.__post_init__` accept a configuration: neither
-- raises a `ValueError`. The two groupings are the only ones.
unfoldable pub accepts : FloatOps → Config → Bool
unfolding ascending positive subset
accepts f cfg =
    ltb 0 cfg.anomaly.min_sample
    && not (f.le cfg.anomaly.threshold (f.of_nat 0))
    && not (is_nil cfg.latency_buckets_ms)
    && positive f cfg.latency_buckets_ms
    && ascending f cfg.latency_buckets_ms
    && not (is_nil cfg.known_teams)
    && subset cfg.known_teams teams
    && subset cfg.known_routes routes

-- ===== src/Metrics.antt =====
-- observability/metrics.py: the two counters of the module, and what each Prometheus instrument
-- has been given, newest last.
use inference_control_plane.Prelude.{
  ℕ, ◌+◌, ltb, String, Bool, true, false, List, [], ◌∷◌, ◌++◌, if◌then◌else◌,
}
use inference_control_plane.Python.{Float, FloatOps}
use inference_control_plane.Python.Builtins.{max_float}

pub record Metrics : Type 0 where
  pub cache_hits : ℕ
  pub cache_misses : ℕ
  pub cache_hit_ratio : Float
  pub request_count : List (String × String × Bool)
  pub latency_histogram : List (String × String × Float)
  pub model_usage_count : List String
  pub rate_limit_rejections : List String
  pub model_cost_usd_total : List (String × Float)

module _ (f : FloatOps) where
  ratio : ℕ → ℕ → Float
  ratio hits total = if ltb 0 total then f.div (f.of_nat hits) (f.of_nat total) else f.of_nat 0

  unfoldable pub record_cache_result : Bool → Metrics → Metrics
  unfolding ratio
  record_cache_result true m = record m {
    cache_hits = m.cache_hits + 1;
    cache_hit_ratio = ratio (m.cache_hits + 1) (m.cache_hits + 1 + m.cache_misses);
  }
  record_cache_result false m = record m {
    cache_misses = m.cache_misses + 1;
    cache_hit_ratio = ratio m.cache_hits (m.cache_hits + (m.cache_misses + 1));
  }

  unfoldable pub record_request : String → String → Float → Bool → Metrics → Metrics
  unfolding max_float
  record_request model status latency_ms cache_hit m = record m {
    request_count = m.request_count ++ (model, status, cache_hit) ∷ [];
    latency_histogram =
        m.latency_histogram ++ (model, status, max_float f latency_ms (f.of_nat 0)) ∷ [];
  }

  unfoldable pub record_cost : String → Float → Metrics → Metrics
  unfolding max_float
  record_cost model cost m = record m {
    model_cost_usd_total = m.model_cost_usd_total ++ (model, max_float f cost (f.of_nat 0)) ∷ [];
  }

unfoldable pub record_model_usage : String → Metrics → Metrics
record_model_usage model m = record m { model_usage_count = m.model_usage_count ++ model ∷ [] }

unfoldable pub record_rate_limit_rejection : String → Metrics → Metrics
record_rate_limit_rejection scope m = record m {
  rate_limit_rejections = m.rate_limit_rejections ++ scope ∷ [];
}

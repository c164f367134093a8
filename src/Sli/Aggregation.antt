-- ===== src/Sli/Aggregation.antt =====
-- `Aggregator`, `AggregationStats` and `aggregate` of sli.py.
pub mod Accounting
pub mod Points
pub mod Governed
use inference_control_plane.Prelude.{
  ℕ, zero, suc, ◌+◌, String, Bool, true, false, not, Option, none, some, List, [], ◌∷◌, ◌==◌, ◌&&◌,
  ◌||◌, contains, is_empty, if◌then◌else◌,
}
use inference_control_plane.Prelude.Table.{Table, update}
use inference_control_plane.Python.{Float, FloatOps}
use inference_control_plane.Sli.Models.{Observation, is_error, latency_ms, ttft_ms, is_cache_hit}
use inference_control_plane.Sli.Governance.{Config, unknown}
use inference_control_plane.Sli.Normalize.{
  Texts, PrimaryDims, same_dims, primary_dims, folded_dimensions, category_of, provider_region,
}
use inference_control_plane.Sli.Histogram.{HistAcc, new, add}

pub record Outcomes : Type 0 where
  pub success : ℕ
  pub error : ℕ

pub record CostKey : Type 0 where
  pub cost_team : String
  pub cost_route : String
  pub cost_family : String
  pub provider : String

pub record CostEntry : Type 0 where
  pub usd : Float
  pub requests : ℕ
  pub missing : ℕ
  pub invalid : ℕ
  pub input : ℕ
  pub output : ℕ
  pub cache_read : ℕ
  pub cache_hits : ℕ

abbrev pub same_cost : CostKey → CostKey → Bool
same_cost a b =
    a.cost_team == b.cost_team
    && a.cost_route == b.cost_route
    && a.cost_family == b.cost_family
    && a.provider == b.provider

abbrev pub same_error : PrimaryDims × String → PrimaryDims × String → Bool
same_error a b = same_dims a.0 b.0 && a.1 == b.1

pub record Aggregator : Type 0 where
  pub dur : Table PrimaryDims HistAcc
  pub ttft : Table PrimaryDims HistAcc
  pub counts : Table PrimaryDims Outcomes
  pub errcat : Table (PrimaryDims × String) ℕ
  pub cost : Table CostKey CostEntry
  pub unknown_dims : Table String ℕ
  pub observations : ℕ
  pub errors : ℕ
  pub ttft_eligible : ℕ
  pub cost_missing : ℕ
  pub cost_invalid : ℕ

-- `__init__`
abbrev pub start : Aggregator
start = record {
  dur = [];
  ttft = [];
  counts = [];
  errcat = [];
  cost = [];
  unknown_dims = [];
  observations = 0;
  errors = 0;
  ttft_eligible = 0;
  cost_missing = 0;
  cost_invalid = 0;
}

abbrev pub no_outcomes : Outcomes
no_outcomes = record { success = 0; error = 0 }

abbrev pub no_cost : FloatOps → CostEntry
no_cost f = record {
  usd = f.of_nat 0;
  requests = 0;
  missing = 0;
  invalid = 0;
  input = 0;
  output = 0;
  cache_read = 0;
  cache_hits = 0;
}

-- The number that a test adds.
abbrev pub one_if : Bool → ℕ
one_if true = 1
one_if false = 0

-- `for dim in dims: self.unknown[dim] += 1`
unfoldable pub count_folds : List String → Table String ℕ → Table String ℕ
unfolding update
count_folds [] d = d
count_folds (dim ∷ dims) d = count_folds dims (update (λ a b. a == b) dim 0 (λ n. n + 1) d)

-- What `add` does to the outcomes of a series.
abbrev pub outcome : Bool → Outcomes → Outcomes
outcome true c = record c { error = c.error + 1 }
outcome false c = record c { success = c.success + 1 }

-- What `add` does to the table of error categories.
unfoldable pub count_error :
    Texts
    → Observation
    → PrimaryDims
    → Bool
    → Table (PrimaryDims × String) ℕ
    → Table (PrimaryDims × String) ℕ
unfolding category_of update
count_error x obs pk false d = d
count_error x obs pk true d = update same_error (pk, category_of x obs.error) 0 (λ n. n + 1) d

-- What `add` does to the table of times to the first token.
unfoldable pub count_ttft :
    FloatOps
    → List Float
    → PrimaryDims
    → Option Float
    → Table PrimaryDims HistAcc
    → Table PrimaryDims HistAcc
unfolding update add
count_ttft f bounds pk none d = d
count_ttft f bounds pk (some t) d = update same_dims pk (new f bounds) (add f t) d

abbrev pub one_of {ℓ} : {A : Type ℓ} → Option A → ℕ
one_of none = 0
one_of (some _) = 1

-- Whether a cost is missing: it is neither invalid nor there.
abbrev pub is_missing : Observation → Bool
is_missing obs = not obs.cost_invalid && elim obs.cost_total [ none ↦ true | some _ ↦ false ]

-- What `add` does to an entry of the costs.
unfoldable pub charge : FloatOps → Observation → CostEntry → CostEntry
unfolding is_cache_hit
charge f obs e = record {
  usd =
      if obs.cost_invalid
      then e.usd
      else elim obs.cost_total [ none ↦ e.usd | some c ↦ f.add e.usd c ];
  requests = e.requests + 1;
  missing = e.missing + one_if (is_missing obs);
  invalid = e.invalid + one_if obs.cost_invalid;
  input = e.input + obs.input_tokens;
  output = e.output + obs.output_tokens;
  cache_read = e.cache_read + obs.cache_read_tokens;
  cache_hits = e.cache_hits + one_if (is_cache_hit obs);
}

module _ (f : FloatOps) (x : Texts) (cfg : Config) where
  abbrev pub cost_key : Observation → PrimaryDims → CostKey
  cost_key obs pk = record {
    cost_team = pk.team_dim;
    cost_route = pk.route_dim;
    cost_family = pk.model_family_dim;
    provider = if cfg.include_provider_region then provider_region obs else "n/a";
  }

  -- `Aggregator.add`. The category of an error is never none, so `or "unknown"` has nothing to do.
  unfoldable pub add_observation : Observation → Aggregator → Aggregator
  unfolding count_folds count_error count_ttft charge update add is_error latency_ms ttft_ms
      primary_dims folded_dimensions
  add_observation obs agg =
      let pk = primary_dims x obs cfg in
      let failed = is_error obs in
      let first = ttft_ms f obs in
      record {
        dur = update same_dims pk (new f cfg.latency_buckets_ms) (add f (latency_ms f obs)) agg.dur;
        ttft = count_ttft f cfg.latency_buckets_ms pk first agg.ttft;
        counts = update same_dims pk no_outcomes (outcome failed) agg.counts;
        errcat = count_error x obs pk failed agg.errcat;
        cost = update same_cost (cost_key obs pk) (no_cost f) (charge f obs) agg.cost;
        unknown_dims = count_folds (folded_dimensions x obs cfg) agg.unknown_dims;
        observations = agg.observations + 1;
        errors = agg.errors + one_if failed;
        ttft_eligible = agg.ttft_eligible + one_of first;
        cost_missing = agg.cost_missing + one_if (is_missing obs);
        cost_invalid = agg.cost_invalid + one_if obs.cost_invalid;
      }

  -- The loop of `aggregate`: the aggregator and the number of duplicates.
  unfoldable pub fold : List Observation → List String → ℕ → Aggregator → Aggregator × ℕ
  unfolding add_observation
  fold [] seen duplicates agg = (agg, duplicates)
  fold (obs ∷ rest) seen duplicates agg =
      let blank = is_empty obs.obs_id in
      let again = not blank && contains seen obs.obs_id in
      fold rest (if blank || again then seen else obs.obs_id ∷ seen)
        (if again then duplicates + 1 else duplicates)
        (if again then agg else add_observation obs agg)

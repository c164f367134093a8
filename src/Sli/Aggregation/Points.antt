-- ===== src/Sli/Aggregation/Points.antt =====
-- `Aggregator.build` and `aggregate` of sli.py.
use inference_control_plane.Prelude.{
  ℕ, String, Bool, true, false, Option, none, some, List, [], ◌∷◌, ◌++◌, ltb, if◌then◌else◌,
}
use inference_control_plane.Prelude.Dict.{Dict, sorted_items}
use inference_control_plane.Prelude.Table.{Table}
use inference_control_plane.Python.{Float, FloatOps, Exc, builtin, other, Result, ok, err, ◌>>=◌}
use inference_control_plane.Sli.Models.{Observation}
use inference_control_plane.Sli.Governance.{Config}
use inference_control_plane.Sli.Normalize.{Texts, PrimaryDims, as_dict}
use inference_control_plane.Sli.Histogram.{HistAcc, Number, whole, real, MetricPoint, acc_to_point}
use inference_control_plane.Sli.Aggregation.{Aggregator, Outcomes, CostKey, CostEntry, start, fold}

-- `AggregationStats`, without the field `extra`, which is never used.
pub record AggregationStats : Type 0 where
  pub observations : ℕ
  pub malformed : ℕ
  pub duplicates : ℕ
  pub cross_run_duplicates : ℕ
  pub errors : ℕ
  pub ttft_eligible : ℕ
  pub cost_missing : ℕ
  pub cost_invalid : ℕ
  pub records_read : ℕ
  pub quarantined : ℕ
  pub export_ok : Bool
  pub heartbeat_ok : Bool
  pub export_error : Option String
  pub freshness_seconds : Option Float
  pub read_truncated : Bool
  pub checkpoint_conflict : Bool
  pub source_ok : Bool
  pub source_error : Option String
  pub unknown_dims : Table String ℕ

abbrev pub point : String → String → String → Dict String → Number → MetricPoint
point name type unit dims value = record {
  name = name;
  type = type;
  unit = unit;
  dims = dims;
  value = some value;
  histogram = none;
}

-- `MetricPoint(name, "counter", "1", dims, value=value)`
abbrev pub counter : String → Dict String → ℕ → MetricPoint
counter name dims value = point name "counter" "1" dims (whole value)

-- The point of a counter that is emitted if it is not zero.
abbrev pub counter_if : String → Dict String → ℕ → List MetricPoint
counter_if name dims value = if ltb 0 value then counter name dims value ∷ [] else []

-- The points of a table.
abbrev pub points_of {ℓ} :
    {K V : Type ℓ} → (K → V → List MetricPoint) → Table K V → List MetricPoint
points_of p [] = []
points_of p ((k, v) ∷ d) = p k v ++ points_of p d

abbrev pub hist_points : FloatOps → String → PrimaryDims → HistAcc → List MetricPoint
hist_points f name pk acc =
    if ltb 0 acc.count then acc_to_point f name (as_dict pk) acc ∷ [] else []

abbrev pub outcome_points : PrimaryDims → Outcomes → List MetricPoint
outcome_points pk c =
    counter "gateway.request.count" (as_dict pk ++ ("outcome", "success") ∷ []) c.success
    ∷ counter_if "gateway.request.count" (as_dict pk ++ ("outcome", "error") ∷ []) c.error

abbrev pub error_points : PrimaryDims × String → ℕ → List MetricPoint
error_points (pk, category) n =
    counter "gateway.request.errors" (as_dict pk ++ ("error_category", category) ∷ []) n ∷ []

-- The dimensions of a cost entry.
abbrev pub cost_dims : Bool → CostKey → Dict String
cost_dims include k =
    ("team", k.cost_team)
    ∷ ("route", k.cost_route)
    ∷ ("model_family", k.cost_family)
    ∷ (if include then ("provider_region", k.provider) ∷ [] else [])

-- `c["out"] / c["in"]` divides integers, and raises if the quotient is out of the range of a float.
abbrev pub overflow : Exc
overflow = builtin other "integer division result too large for a float"

abbrev pub ratio_points : FloatOps → Dict String → CostEntry → Result (List MetricPoint)
ratio_points f dims c =
    if ltb 0 c.input
    then elim (f.true_div c.output c.input) [
      | none ↦ err overflow
      | some quotient ↦ ok (
          point "gateway.tokens.completion_ratio" "gauge" "ratio" dims (real (f.round quotient 4))
          ∷ [])
    ]
    else ok []

abbrev pub cache_points : Dict String → CostEntry → List MetricPoint
cache_points dims c =
    if ltb 0 c.cache_hits
    then counter "gateway.cache.read_tokens" dims c.cache_read
      ∷ counter "gateway.cache.hit_count" dims c.cache_hits
      ∷ []
    else []

abbrev pub cost_points : FloatOps → Bool → CostKey → CostEntry → Result (List MetricPoint)
cost_points f include k c = do
  let dims = cost_dims include k
  ratio ← ratio_points f dims c
  ok (
      point "gateway.cost.usd" "counter" "USD" dims (real (f.round c.usd 6))
        ∷ counter "gateway.cost.request_count" dims c.requests
        ∷ counter "gateway.tokens.input" dims c.input
        ∷ counter "gateway.tokens.output" dims c.output
        ∷ ratio
      ++ cache_points dims c
      ++ counter_if "gateway.cost.records_missing" dims c.missing
      ++ counter_if "gateway.cost.records_invalid" dims c.invalid)

-- The loop over the cost entries.
abbrev pub all_cost_points : FloatOps → Bool → Table CostKey CostEntry → Result (List MetricPoint)
all_cost_points f include [] = ok []
all_cost_points f include ((k, c) ∷ d) = do
  points ← cost_points f include k c
  rest ← all_cost_points f include d
  ok (points ++ rest)

abbrev pub fold_points : String → ℕ → List MetricPoint
fold_points dim n = counter "gateway.pipeline.unknown_dimension" (("dimension", dim) ∷ []) n ∷ []

-- The statistics of `build`.
abbrev pub stats_of : Aggregator → ℕ → ℕ → AggregationStats
stats_of a malformed duplicates = record {
  observations = a.observations;
  malformed = malformed;
  duplicates = duplicates;
  cross_run_duplicates = 0;
  errors = a.errors;
  ttft_eligible = a.ttft_eligible;
  cost_missing = a.cost_missing;
  cost_invalid = a.cost_invalid;
  records_read = 0;
  quarantined = 0;
  export_ok = true;
  heartbeat_ok = true;
  export_error = none;
  freshness_seconds = none;
  read_truncated = false;
  checkpoint_conflict = false;
  source_ok = true;
  source_error = none;
  unknown_dims = a.unknown_dims;
}

module _ (f : FloatOps) (x : Texts) (cfg : Config) where
  unfoldable pub build : Aggregator → ℕ → ℕ → Result (List MetricPoint × AggregationStats)
  unfolding acc_to_point as_dict sorted_items
  build a malformed duplicates = do
    costs ← all_cost_points f cfg.include_provider_region a.cost
    ok (
      points_of (hist_points f "gateway.request.duration") a.dur
          ++ points_of (hist_points f "gateway.request.ttft") a.ttft
          ++ points_of outcome_points a.counts
          ++ points_of error_points a.errcat
          ++ costs
          ++ counter_if "gateway.pipeline.malformed_records" [] malformed
          ++ counter_if "gateway.pipeline.duplicate_records" [] duplicates
          ++ points_of fold_points (sorted_items a.unknown_dims),
      stats_of a malformed duplicates,
    )

  unfoldable pub aggregate : List Observation → ℕ → ℕ → Result (List MetricPoint × AggregationStats)
  unfolding fold build
  aggregate batch malformed duplicates =
      let (a, repeated) = fold f x cfg batch [] duplicates start in build a malformed repeated

-- ===== src/Http/Dashboard.antt =====
-- services/dashboard.py, on the rows of `request_logs`.
use inference_control_plane.Prelude.{
  ℕ, ◌-◌, String, not, Option, none, some, List, [], ◌∷◌, map, ◌<>◌, ◌==◌, leb, ltb, show,
  if◌then◌else◌, length,
}
use inference_control_plane.Python.{Float, FloatOps, Result, ok, ◌>>=◌}
use inference_control_plane.Http.Usage.{StoredLog, where_is, newest_first, first_rows, total_cost}

-- An entry of `DashboardMetricsResponse`.
pub record DashboardMetric : Type 0 where
  pub label : String
  pub value : String
  pub delta : String

abbrev pub metric : String → String → DashboardMetric
metric label value = record { label = label; value = value; delta = "0%" }

abbrev pub total_latency : FloatOps → List StoredLog → Float
total_latency f [] = f.of_nat 0
total_latency f (r ∷ rs) = f.add r.latency_ms (total_latency f rs)

-- `func.avg`, and 0 where there are no rows.
abbrev pub average_latency : FloatOps → List StoredLog → Float
average_latency f [] = f.of_nat 0
average_latency f (r ∷ rs) = f.div (total_latency f (r ∷ rs)) (f.of_nat (length (r ∷ rs)))

-- What an optional text is in an f-string.
abbrev pub shown : Option String → String
shown none = "None"
shown (some s) = s

abbrev pub error_line : StoredLog → String
error_line r = "Error on " <> r.model_used <> ": " <> shown r.error_message

abbrev pub or_normal : List String → List String
or_normal [] = "System operating normally." ∷ []
or_normal lines = lines

-- `get_dashboard_activity`
unfoldable pub get_dashboard_activity : Result (List StoredLog) → Result (List String)
unfolding where_is newest_first first_rows
get_dashboard_activity rows = do
  rs ← rows
  ok (
      or_normal (
        map error_line
          (first_rows 5 (newest_first (where_is (λ r. not (r.status == "success")) rs)))))

-- `fixed x n` is the text of a number with `n` decimals. A day has 86400000000 microseconds.
module _ (f : FloatOps) (fixed : Float → ℕ → String) where
  -- A part of the requests, and 0 where there are none.
  abbrev pub ratio : Float → ℕ → ℕ → Float
  ratio part whole scale =
      if ltb 0 whole then f.mul (f.div part (f.of_nat whole)) (f.of_nat scale) else f.of_nat 0

  abbrev pub metrics_of : List StoredLog → List DashboardMetric
  metrics_of recent =
      let req_count = length recent in
      let hit_count = length (where_is (λ r. r.cache_hit) recent) in
      metric "Avg Latency" (fixed (average_latency f recent) 1 <> "ms")
      ∷ metric "Cache Hit Ratio" (fixed (ratio (f.of_nat hit_count) req_count 100) 1 <> "%")
      ∷ metric "Requests (24h)" (show req_count)
      ∷ metric "Cost / 1K req" ("$" <> fixed (ratio (total_cost f recent) req_count 1000) 4)
      ∷ []

  -- `get_dashboard_metrics`. The four statements are read on the same rows.
  unfoldable pub get_dashboard_metrics : ℕ → Result (List StoredLog) → Result (List DashboardMetric)
  unfolding where_is show
  get_dashboard_metrics now rows = do
    rs ← rows
    ok (metrics_of (where_is (λ r. leb (now - 86400000000) r.created_at) rs))

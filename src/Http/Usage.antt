-- ===== src/Http/Usage.antt =====
-- services/usage.py, on the rows of `request_logs`. A statement is read as the function of the rows
-- that it denotes. `rows` is what the database holds, or the exception that it raises.
pub mod Own
use inference_control_plane.Prelude.{
  ℕ, zero, suc, ◌+◌, String, Bool, true, false, Option, none, some, List, [], ◌∷◌, map, ◌==◌, ◌&&◌,
  leb, if◌then◌else◌, length,
}
use inference_control_plane.Python.{Float, FloatOps, Result, ok, err}
use inference_control_plane.Python.Json.{Json, str}

-- A row of `request_logs`. The numbers of tokens are not negative, as they are written that way.
pub record StoredLog : Type 0 where
  pub id : String
  pub tenant_id : String
  pub user_id : String
  pub prompt : String
  pub response : String
  pub model_used : String
  pub latency_ms : Float
  pub tokens : ℕ
  pub cost : Float
  pub cache_hit : Bool
  pub status : String
  pub error_message : Option String
  pub created_at : ℕ

-- `UsageLogEntry`
pub record UsageLogEntry : Type 0 where
  pub request_id : String
  pub model_used : String
  pub latency_ms : Float
  pub tokens : ℕ
  pub cost : Float
  pub cache_hit : Bool
  pub status : String
  pub created_at : ℕ
  pub error_message : Option String

pub record UsageLogsResponse : Type 0 where
  pub user_id : String
  pub limit : ℕ
  pub entries : List UsageLogEntry

pub record UsageSummaryResponse : Type 0 where
  pub user_id : String
  pub requests : ℕ
  pub total_tokens : ℕ
  pub total_cost : Float

-- The rows of which a test is true.
unfoldable pub where_is : (StoredLog → Bool) → List StoredLog → List StoredLog
where_is p [] = []
where_is p (r ∷ rs) = let rest = where_is p rs in if p r then r ∷ rest else rest

-- `RequestLog.tenant_id == tenant_id`. No row is that of a value that is no text.
abbrev pub is_tenant : Json → StoredLog → Bool
is_tenant (str t) r = r.tenant_id == t
is_tenant _ r = false

-- The two `where` clauses.
abbrev pub is_of : Json → String → StoredLog → Bool
is_of tenant user r = is_tenant tenant r && r.user_id == user

-- `order_by(RequestLog.created_at.desc())`
unfoldable pub newest : StoredLog → List StoredLog → List StoredLog
newest r [] = r ∷ []
newest r (q ∷ qs) =
    let rest = newest r qs in if leb q.created_at r.created_at then r ∷ q ∷ qs else q ∷ rest

unfoldable pub newest_first : List StoredLog → List StoredLog
unfolding newest
newest_first [] = []
newest_first (r ∷ rs) = newest r (newest_first rs)

-- `limit(n)`
unfoldable pub first_rows : ℕ → List StoredLog → List StoredLog
first_rows zero rs = []
first_rows (suc n) [] = []
first_rows (suc n) (r ∷ rs) = r ∷ first_rows n rs

abbrev pub total_tokens : List StoredLog → ℕ
total_tokens [] = 0
total_tokens (r ∷ rs) = r.tokens + total_tokens rs

abbrev pub total_cost : FloatOps → List StoredLog → Float
total_cost f [] = f.of_nat 0
total_cost f (r ∷ rs) = f.add r.cost (total_cost f rs)

abbrev pub entry_of : StoredLog → UsageLogEntry
entry_of r = record {
  request_id = r.id;
  model_used = r.model_used;
  latency_ms = r.latency_ms;
  tokens = r.tokens;
  cost = r.cost;
  cache_hit = r.cache_hit;
  status = r.status;
  created_at = r.created_at;
  error_message = r.error_message;
}

-- What a query gives, and nothing where the database raises.
abbrev pub rows_or_none : Result (List StoredLog) → List StoredLog
rows_or_none (ok rs) = rs
rows_or_none (err _) = []

-- `get_usage_summary`
unfoldable pub get_usage_summary :
    FloatOps → Result (List StoredLog) → Json → String → UsageSummaryResponse
unfolding where_is
get_usage_summary f rows tenant_id user_id =
    let found = where_is (is_of tenant_id user_id) (rows_or_none rows) in
    record {
      user_id = user_id;
      requests = length found;
      total_tokens = total_tokens found;
      total_cost = total_cost f found;
    }

-- `get_usage_logs`
unfoldable pub get_usage_logs : Result (List StoredLog) → Json → String → ℕ → UsageLogsResponse
unfolding where_is newest_first first_rows
get_usage_logs rows tenant_id user_id limit = record {
  user_id = user_id;
  limit = limit;
  entries =
      map entry_of
        (first_rows limit (newest_first (where_is (is_of tenant_id user_id) (rows_or_none rows))));
}

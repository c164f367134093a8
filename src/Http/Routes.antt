-- ===== src/Http/Routes.antt =====
-- api/routes.py, with `get_auth_context` of core/security.py and `ping_redis` of db/redis.py. The
-- dependencies of a route are resolved first, then its arguments are validated, then it runs.
pub mod Answers
pub mod Bounds
pub mod Denials
pub mod Admin
use inference_control_plane.Prelude.{
  ℕ, String, Bool, true, false, Option, none, some, List, [], ◌∷◌, ◌<>◌, ◌==◌, ◌&&◌, leb, len,
  if◌then◌else◌,
}
use inference_control_plane.Prelude.Dict.{Dict}
use inference_control_plane.Python.{
  FloatOps, Float, Exc, builtin, runtime_error, Result, ok, err, is_err,
}
use inference_control_plane.Python.Exec.{Exec, continue}
use inference_control_plane.Python.Json.{Json, bool, str, obj, Fields, end, field}
use inference_control_plane.Python.Builtins.{Builtins, JsonCodec}
use inference_control_plane.Redis.{Redis}
use inference_control_plane.Settings.{Settings}
use inference_control_plane.Schemas.{GenerateRequest, GenerateResponse, ApiKey}
use inference_control_plane.Auth.{AuthContext, extract_api_key, validate_api_key}
use inference_control_plane.LlmClient.Transport.{Transport, World, Retryer}
use inference_control_plane.Inference.State.{Readings}
use inference_control_plane.Inference.Handler.{Server, handle_generate_request}
use inference_control_plane.Http.Errors.{
  HttpException, http, invalid, unhandled, Outcome, returned, failed, failure_of, outcome_of,
}
use inference_control_plane.Http.Usage.{
  StoredLog, UsageLogsResponse, UsageSummaryResponse, get_usage_summary, get_usage_logs,
}
use inference_control_plane.Http.Dashboard.{
  DashboardMetric, get_dashboard_activity, get_dashboard_metrics,
}

abbrev pub has_size : ℕ → ℕ → String → Bool
has_size least most s = leb least (len s) && leb (len s) most

abbrev pub has_at_most : ℕ → Option String → Bool
has_at_most most none = true
has_at_most most (some s) = leb (len s) most

-- The constraints of the fields of `GenerateRequest`.
unfoldable pub is_valid_request : GenerateRequest → Bool
unfolding len
is_valid_request r =
    has_size 1 20000 r.prompt
    && has_size 1 128 r.user_id
    && has_at_most 128 r.model_override
    && has_at_most 128 r.provider_override

-- `auth_context.role != "admin"`
abbrev pub is_admin : AuthContext → Bool
is_admin auth = elim auth.role [ str r ↦ r == "admin" | _ ↦ false ]

abbrev pub forbidden : {A : Type 0} → String → Outcome A
forbidden what = failed (
    http (record {
      status_code = 403;
      detail = str ("Admin privileges required to view " <> what <> ".");
      headers = [];
    }))

-- What a route for administrators begins with.
abbrev pub for_admin : {A : Type 0} → String → AuthContext → Outcome A → Outcome A
for_admin what auth rest = if is_admin auth then rest else forbidden what

abbrev pub checked : {A : Type 0} → Bool → List Fields → Outcome A → Outcome A
checked true errors rest = rest
checked false errors rest = failed (invalid errors)

-- What depends on the authentication.
abbrev pub with_auth : {A : Type 0} → Result AuthContext → (AuthContext → Outcome A) → Outcome A
with_auth (ok auth) rest = rest auth
with_auth (err e) rest = failed (failure_of e)

-- `errors` is what Pydantic says of arguments that break their constraints, and `authenticated` is
-- the outcome of `get_auth_context`.
module _ (errors : List Fields) (authenticated : Result AuthContext)
    (rows : Result (List StoredLog)) where
  unfoldable pub usage_summary : FloatOps → String → Outcome UsageSummaryResponse
  unfolding get_usage_summary len
  usage_summary f user_id = with_auth authenticated (λ auth.
      checked (has_size 1 128 user_id) errors (
        for_admin "usage summary" auth
          (returned (get_usage_summary f rows auth.tenant_id user_id))))

  unfoldable pub usage_logs : String → ℕ → Outcome UsageLogsResponse
  unfolding get_usage_logs len
  usage_logs user_id limit = with_auth authenticated (λ auth.
      checked (has_size 1 128 user_id && leb 1 limit && leb limit 100) errors
        (for_admin "usage logs" auth (returned (get_usage_logs rows auth.tenant_id user_id limit))))

  unfoldable pub dashboard_metrics :
      FloatOps → (Float → ℕ → String) → ℕ → Outcome (List DashboardMetric)
  unfolding get_dashboard_metrics
  dashboard_metrics f fixed now = with_auth authenticated (λ auth.
      for_admin "dashboard metrics" auth (outcome_of (get_dashboard_metrics f fixed now rows)))

  unfoldable pub dashboard_activity : Outcome (List String)
  unfolding get_dashboard_activity
  dashboard_activity =
      with_auth authenticated
        (λ auth. for_admin "dashboard activity" auth (outcome_of (get_dashboard_activity rows)))

abbrev pub health_live : Outcome (Dict String)
health_live = returned (("status", "ok") ∷ [])

-- `ping_redis`, of the answer of the server, if there is a client.
abbrev pub ping_redis : Option (Result Bool) → Bool
ping_redis none = false
ping_redis (some (ok pong)) = pong
ping_redis (some (err _)) = false

abbrev pub not_ready : Bool → Outcome (Dict String)
not_ready database = failed (
    http (record {
      status_code = 503;
      detail = obj (
          field "status" (str "not-ready")
            (field "database" (bool database) (field "redis" (bool false) end)));
      headers = [];
    }))

-- `health_ready`, of what the database answers to `select(1)`.
abbrev pub health_ready : Result (Unit {0}) → Option (Result Bool) → Outcome (Dict String)
health_ready (err _) ping = not_ready false
health_ready (ok _) ping =
    if ping_redis ping then returned (("status", "ready") ∷ []) else not_ready true

module _ (b : Builtins) (J : JsonCodec) (R : Redis J.Text) (T : Transport) (Y : Retryer (World T))
    (settings : Settings) (connected : Bool) (find : String → Result (Option ApiKey)) where
  -- `validate_api_key` on the server's Redis.
  abbrev pub validate : String → Exec (Server b J R T Y) AuthContext
  validate key app =
      let (r, redis) = validate_api_key b J R settings find connected key app.redis in
      (r, record app { redis = redis })

  -- `get_auth_context`. The session comes from `get_session_factory`.
  unfoldable pub get_auth_context : Option String → Exec (Server b J R T Y) AuthContext
  unfolding extract_api_key validate_api_key
  get_auth_context header app =
      continue (extract_api_key header, app)
        (λ key app.
          if app.session_factory
          then validate key app
          else (err (builtin runtime_error "Session factory has not been initialized."), app))

  -- The handler, if the payload is valid.
  abbrev pub run :
      List Fields
      → GenerateRequest
      → Readings
      → AuthContext
      → Server b J R T Y
      → Outcome GenerateResponse × Server b J R T Y
  run errors payload at auth app =
      if is_valid_request payload
      then (let (r, app') =
            handle_generate_request b J R T Y payload auth settings connected at app in
          (outcome_of r, app'))
      else (failed (invalid errors), app)

  abbrev pub after_auth :
      List Fields
      → GenerateRequest
      → Readings
      → Result AuthContext × Server b J R T Y
      → Outcome GenerateResponse × Server b J R T Y
  after_auth errors payload at (ok auth, app) = run errors payload at auth app
  after_auth errors payload at (err e, app) = (failed (failure_of e), app)

  -- `generate`
  unfoldable pub generate :
      List Fields
      → Option String
      → GenerateRequest
      → Readings
      → Server b J R T Y
      → Outcome GenerateResponse × Server b J R T Y
  unfolding get_auth_context is_valid_request handle_generate_request
  generate errors header payload at app = after_auth errors payload at (get_auth_context header app)

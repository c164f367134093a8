-- ===== src/Tests/Routes.antt =====
-- Runs of the routes.
use Prim.Native.Nat.{min}
use inference_control_plane.Prelude.{
  ℕ, ◌≡◌, ◌≤◌, refl, String, true, false, Option, none, some, List, [], ◌∷◌, ◌==◌, if◌then◌else◌,
  length,
}
use inference_control_plane.Prelude.Dict.{lookup}
use inference_control_plane.Python.{of_bits, Result, ok, err, builtin, runtime_error}
use inference_control_plane.Python.Json.{str}
use inference_control_plane.Schemas.{GenerateResponse, ApiKey}
use inference_control_plane.Auth.{AuthContext}
use inference_control_plane.Http.Errors.{Outcome, dispatch}
use inference_control_plane.Http.Errors.Traced.{HasEnvelope, dispatch-IsTraced}
use inference_control_plane.Http.Usage.{StoredLog, get_usage_logs, get_usage_summary}
use inference_control_plane.Http.Usage.Own.{tokens_of, get_usage_logs-summary}
use inference_control_plane.Http.Routes.{
  forbidden, usage_summary, usage_logs, dashboard_metrics, dashboard_activity, generate,
}
use inference_control_plane.Http.Routes.Admin.{
  FailAlike, routes-denied, ShowsOwn, usage_logs-ShowsOwn,
}
use inference_control_plane.Http.Routes.Answers.{IsAnswer, generate-IsAnswer}
use inference_control_plane.Tests.Fixtures.{
  builtins, codec, server, provider, tenacity, settings, request, auth, readings, app, key_record,
  floats,
}

abbrev lowered : String → String
lowered s = if s == "Retry-After" then "retry-after" else s

abbrev denial : Outcome GenerateResponse
denial = forbidden "usage logs"

dispatch-IsTraced_example :
    (lookup "x-request-id" (dispatch lowered (some "r1") "new" "other" denial).headers ≡ some "r1")
    × HasEnvelope "r1" (dispatch lowered (some "r1") "new" "other" denial).body
dispatch-IsTraced_example = dispatch-IsTraced lowered (some "r1") "new" "other" denial

abbrev row : String → String → ℕ → StoredLog
row tenant id at = record {
  id = id;
  tenant_id = tenant;
  user_id = "u";
  prompt = "p";
  response = "r";
  model_used = "m";
  latency_ms = of_bits 1;
  tokens = 3;
  cost = of_bits 2;
  cache_hit = false;
  status = "success";
  error_message = none;
  created_at = at;
}

abbrev stored : Result (List StoredLog)
stored = ok (row "t" "1" 5 ∷ row "other" "2" 6 ∷ row "t" "3" 7 ∷ [])

abbrev admin : AuthContext
admin = record auth { role = str "admin" }

abbrev gone : Result (List StoredLog)
gone = err (builtin runtime_error "gone")

routes-denied_example :
    FailAlike
      (usage_summary [] (ok auth) stored floats "u")
      (usage_summary [] (ok auth) gone floats "u")
    × FailAlike (usage_logs [] (ok auth) stored "u" 10) (usage_logs [] (ok auth) gone "u" 10)
    × FailAlike
        (dashboard_metrics [] (ok auth) stored floats (λ x n. "0") 9)
        (dashboard_metrics [] (ok auth) gone floats (λ x n. "0") 9)
    × FailAlike (dashboard_activity [] (ok auth) stored) (dashboard_activity [] (ok auth) gone)
routes-denied_example = routes-denied [] stored gone (ok auth) floats (λ x n. "0") "u" 10 9 refl

usage_logs-ShowsOwn_example :
    ShowsOwn
      (ok admin)
      (row "t" "1" 5 ∷ row "other" "2" 6 ∷ row "t" "3" 7 ∷ [])
      "u"
      1
      (usage_logs [] (ok admin) stored "u" 1)
usage_logs-ShowsOwn_example = usage_logs-ShowsOwn [] stored (ok admin) "u" 1

-- The log shows one of the two requests.
get_usage_logs-summary_example :
    (length (get_usage_logs stored (str "t") "u" 1).entries
      ≡ min 1 (get_usage_summary floats stored (str "t") "u").requests)
    × (tokens_of (get_usage_logs stored (str "t") "u" 1).entries
        ≤ (get_usage_summary floats stored (str "t") "u").total_tokens)
    × (tokens_of
          (get_usage_logs stored
            (str "t")
            "u"
            (get_usage_summary floats stored (str "t") "u").requests).entries
        ≡ (get_usage_summary floats stored (str "t") "u").total_tokens)
get_usage_logs-summary_example = get_usage_logs-summary floats stored (str "t") "u" 1

abbrev found : String → Result (Option ApiKey)
found hash = ok (some key_record)

generate-IsAnswer_example :
    IsAnswer found builtins codec server provider tenacity settings true request readings "new"
      (some "secret")
      app
      (dispatch lowered none "new" "other"
        (generate builtins codec server provider tenacity settings true found []
          (some "secret")
          request
          readings
          app).0)
generate-IsAnswer_example =
    generate-IsAnswer found builtins codec server provider tenacity settings true request readings
      (λ hash e q. absurd (cc q)) lowered refl none "new" "other" [] (some "secret") app refl

-- ===== src/Inference/Logging.antt =====
-- The row that a request of services/inference.py leaves in the list of background tasks.
use inference_control_plane.Prelude.{
  ◌+◌, String, Bool, true, false, ◌≡◌, refl, ap, ◌∙◌, arith, Option, some, none, List, [], ◌∷◌,
  ◌++◌, ◌<>◌, length-append,
}
use mathlib.Core.List.{append-nil}
use inference_control_plane.Prelude.Int.{pos}
use inference_control_plane.Python.{Result, ok, err}
use inference_control_plane.Python.Exec.{catch}
use inference_control_plane.Python.Builtins.{Builtins, JsonCodec}
use inference_control_plane.Settings.{Settings}
use inference_control_plane.Schemas.{GenerateRequest, GenerateResponse, RequestLog}
use inference_control_plane.Redis.{Redis}
use inference_control_plane.RateLimiter.{RateLimitResult}
use inference_control_plane.Router.{RouteDecision, estimate_tokens}
use inference_control_plane.Cache.{CachedResponse, get_cached_response}
use inference_control_plane.Auth.{AuthContext}
use inference_control_plane.LlmClient.Transport.{Transport, World, Retryer}
use inference_control_plane.Inference.State.{
  persist_request_log, Readings, redact_pii, estimate_cost,
}
use inference_control_plane.Inference.Handler.{
  Server, success_entry, error_entry, logged_message, judge, enforce_rate_limits, on_hit,
  on_generated, on_miss, answer, serve, on_error, handle_generate_request,
}
use inference_control_plane.Inference.Rows.{
  logs, logs-append, IsQuiet, IsLogged, Logs, Logs-after, Logs-continue,
}

module _ (b : Builtins) (J : JsonCodec) (R : Redis J.Text) (T : Transport)
    (Y : Retryer (World T)) where
  judge-IsQuiet :
      (k u : RateLimitResult) (app : Server b J R T Y) → IsQuiet app (judge b J R T Y k u app).1
  unfolding judge
  judge-IsQuiet k u app = ground arith

  enforce-IsQuiet :
      (auth : AuthContext) (user_id : String) (connected : Bool) (settings : Settings)
      (at : Readings) (app : Server b J R T Y)
      → IsQuiet app (enforce_rate_limits b J R T Y auth user_id connected settings at app).1
  unfolding enforce_rate_limits judge
  enforce-IsQuiet auth user_id connected settings at app = ground arith

  module _ (payload : GenerateRequest) (auth : AuthContext) (settings : Settings) (connected : Bool)
      (at : Readings) where
    on_hit-Logs :
        (prompt : String) (c : CachedResponse) (app : Server b J R T Y)
        → app.session_factory ≡ true
        → Logs b.floats app prompt
            (on_hit b J R T Y payload auth settings connected at prompt c app)
    unfolding on_hit
    on_hit-Logs prompt c app set = simp set (record {
      row =
          success_entry b J R T Y payload auth settings connected at prompt c.response c.model_used
            c.tokens c.cost true;
      one_row = logs-append app.tasks _;
      one_request = length-append app.metrics.request_count _;
      prompt_kept = refl;
      tells = (refl, refl, refl, refl, refl, refl);
    })

    on_generated-Logs :
        (prompt key : String) (g : String × String) (app : Server b J R T Y)
        → app.session_factory ≡ true
        → Logs b.floats app prompt
            (on_generated b J R T Y payload auth settings connected at prompt key g app)
    unfolding on_generated
    on_generated-Logs prompt key (model_used, text) app set =
        let tokens = pos (estimate_tokens (prompt <> " " <> text)) in
        let cost = estimate_cost b model_used tokens settings in
        let row =
          success_entry b J R T Y payload auth settings connected at prompt text model_used tokens
            cost false in
        simp set (record {
          row = row;
          one_row =
              logs-append (app.tasks ++ _ ∷ []) _
              ∙ ap (λ (x : List RequestLog). x ++ row ∷ [])
                  (logs-append app.tasks _ ∙ append-nil (logs app.tasks));
          one_request = length-append app.metrics.request_count _;
          prompt_kept = refl;
          tells = (refl, refl, refl, refl, refl, refl);
        })

    on_miss-Logs :
        (route : RouteDecision) (prompt key : String) (app : Server b J R T Y)
        → app.session_factory ≡ true
        → Logs b.floats app prompt
            (on_miss b J R T Y payload auth settings connected at route prompt key app)
    unfolding on_miss
    on_miss-Logs route prompt key app set =
        Logs-continue b.floats app prompt _
          (on_generated b J R T Y payload auth settings connected at prompt key)
          (record { session = refl; same_logs = refl; same_requests = refl }) set
          (λ g s set'. on_generated-Logs prompt key g s set')

    answer-Logs :
        (route : RouteDecision) (prompt key : String) (c : Option CachedResponse)
        (app : Server b J R T Y)
        → app.session_factory ≡ true
        → Logs b.floats app prompt
            (answer b J R T Y payload auth settings connected at route prompt key c app)
    unfolding answer
    answer-Logs route prompt key (some c) app set = on_hit-Logs prompt c app set
    answer-Logs route prompt key none app set = on_miss-Logs route prompt key app set

    pub serve-Logs :
        (route : RouteDecision) (prompt key : String) (app : Server b J R T Y)
        → app.session_factory ≡ true
        → Logs b.floats app prompt
            (serve b J R T Y payload auth settings connected at route prompt key app)
    unfolding serve
    serve-Logs route prompt key app set =
        Logs-continue b.floats app prompt
          (enforce_rate_limits b J R T Y auth payload.user_id connected settings at app) _
          (enforce-IsQuiet auth payload.user_id connected settings at app) set
          (λ _ s set'.
            let (cached, redis) = get_cached_response b J R connected prompt key s.redis in
            Logs-after b.floats s (record s { redis = redis }) prompt _
              (record { session = refl; same_logs = refl; same_requests = refl })
              (answer-Logs route prompt key cached (record s { redis = redis }) set'))

    catch-IsLogged :
        (prompt key : String) (app : Server b J R T Y)
        (x : Result GenerateResponse × Server b J R T Y)
        → app.session_factory ≡ true
        → Logs b.floats app prompt x
        → let y = catch x (on_error b J R T Y payload auth settings connected at prompt key) in
          IsLogged b.floats app y.1 prompt y.0
    unfolding on_error
    catch-IsLogged prompt key app (ok r, s) set l = l
    catch-IsLogged prompt key app (err e, s) set quiet =
        let row =
          error_entry b J R T Y payload auth settings connected at prompt key (logged_message e) in
        simp (quiet.session ∙ set) (record {
          row = row;
          one_row =
              logs-append s.tasks (persist_request_log row ∷ [])
              ∙ ap (λ (x : List RequestLog). x ++ row ∷ []) quiet.same_logs;
          one_request =
              length-append s.metrics.request_count _ ∙ ap (λ n. n + 1) quiet.same_requests;
          prompt_kept = refl;
          tells = (refl, refl, refl, refl, refl);
        })

    -- With the session factory set, a request, however it ends, leaves exactly one more row in the
    -- list of background tasks and counts one request. The row holds the redacted prompt, and tells
    -- what the handler gives: the response with its model, tokens, cost and cache flag, or an error
    -- with an empty response, no tokens and the cost 0.0. Whether a queued row is written is not
    -- said: the framework runs the tasks of a response that is returned, and drops those of an
    -- endpoint that raises.
    pub handle-IsLogged :
        (app : Server b J R T Y)
        → app.session_factory ≡ true
        → let y = handle_generate_request b J R T Y payload auth settings connected at app in
          IsLogged b.floats app y.1 (redact_pii b payload.prompt) y.0
    unfolding handle_generate_request
    handle-IsLogged app set = catch-IsLogged _ _ app _ set (serve-Logs _ _ _ app set)

-- ===== src/Inference/Handler.antt =====
-- `_enforce_rate_limits` and `handle_generate_request` of services/inference.py.
use inference_control_plane.Prelude.{
  ℕ, String, Bool, true, false, not, Option, none, some, [], ◌∷◌, ◌<>◌, if◌then◌else◌,
}
use inference_control_plane.Prelude.Int.{ℤ, pos, show_int}
use inference_control_plane.Python.{Float, Exc, http_exception, ok, err}
use inference_control_plane.Python.Exec.{Exec, continue, catch}
use inference_control_plane.Python.Builtins.{Builtins, JsonCodec}
use inference_control_plane.Settings.{Settings}
use inference_control_plane.Schemas.{GenerateRequest, GenerateResponse, RequestLog}
use inference_control_plane.Redis.{Redis}
use inference_control_plane.RateLimiter.{RateLimitResult, check_rate_limit}
use inference_control_plane.Router.{RouteDecision, choose_model, estimate_tokens}
use inference_control_plane.Cache.{CachedResponse, get_cached_response}
use inference_control_plane.Auth.{AuthContext}
use inference_control_plane.Metrics.{
  record_cache_result, record_request, record_cost, record_model_usage, record_rate_limit_rejection,
}
use inference_control_plane.LlmClient.Payload.{py_str}
use inference_control_plane.LlmClient.Transport.{Transport, World, Retryer}
use inference_control_plane.LlmClient.Completion.{generate_completion, or_text}
use inference_control_plane.Inference.State.{
  cache_response, App, Readings, redact_pii, estimate_cost, add_task, count_in, queue_request_log,
}

-- `route.model_override or f"{route.provider_override or 'default'}:{route.model_tier}"`
unfoldable pub cache_model_key : RouteDecision → String
cache_model_key route =
    or_text route.model_override
      (or_text route.provider_override "default" <> ":" <> route.model_tier)

-- The 429 for a scope.
abbrev pub too_many : String → RateLimitResult → Exc
too_many detail r = http_exception 429 detail (("Retry-After", show_int r.retry_after_seconds) ∷ [])

abbrev pub bad_gateway : Exc
bad_gateway = http_exception 502 "Failed to generate response from upstream model." []

-- The message of the log for an exception, and the exception that the handler raises for it.
abbrev pub logged_message : Exc → String
logged_message (http_exception _ detail _) = detail
logged_message _ = "Internal error during generation."

abbrev pub raised : Exc → Exc
raised (http_exception status detail headers) = http_exception status detail headers
raised _ = bad_gateway

module _ (b : Builtins) (J : JsonCodec) (R : Redis J.Text) (T : Transport)
    (Y : Retryer (World T)) where
  abbrev pub Server : Type 0
  Server = App R.State T

  -- One check, on the server's Redis.
  abbrev check : Bool → String → String → ℤ → ℕ → ℕ → Exec Server RateLimitResult
  check connected scope identifier limit window now app =
      let (r, redis) = check_rate_limit R connected scope identifier limit window now app.redis in
      (r, record app { redis = redis })

  -- The two refusals.
  unfoldable pub judge : RateLimitResult → RateLimitResult → Exec Server (Unit {0})
  unfolding record_rate_limit_rejection
  judge key_result user_result app =
      if not key_result.allowed
      then (
        err (too_many "API key rate limit exceeded." key_result),
        count_in (record_rate_limit_rejection "api_key") app,
      )
      else if not user_result.allowed
      then (
        err (too_many "User rate limit exceeded." user_result),
        count_in (record_rate_limit_rejection "user") app,
      )
      else (ok tt, app)

  -- `_enforce_rate_limits`. Of the two checks that are gathered, that of the key comes first.
  unfoldable pub enforce_rate_limits :
      AuthContext → String → Bool → Settings → Readings → Exec Server (Unit {0})
  unfolding judge
  enforce_rate_limits auth user_id connected settings at app =
      continue
        (check connected "api_key" auth.api_key_hash auth.rate_limit_per_minute
          settings.rate_limit_window_seconds at.key_check app)
        (λ key_result app'.
          continue
            (check connected "user" (py_str b.repr auth.tenant_id <> ":" <> user_id)
              settings.user_rate_limit_per_minute settings.rate_limit_window_seconds at.user_check
              app')
            (judge key_result))

  module _ (payload : GenerateRequest) (auth : AuthContext) (settings : Settings) (connected : Bool)
      (at : Readings) where
    -- The log entry of a response.
    abbrev pub success_entry : String → String → String → ℤ → Float → Bool → RequestLog
    success_entry prompt response model_used tokens cost cache_hit = record {
      tenant_id = auth.tenant_id;
      user_id = payload.user_id;
      api_key_hash = auth.api_key_hash;
      prompt = prompt;
      response = response;
      model_used = model_used;
      latency_ms = at.latency_ms;
      tokens = tokens;
      cost = cost;
      cache_hit = cache_hit;
      status = "success";
      error_message = none;
    }

    abbrev pub error_entry : String → String → String → RequestLog
    error_entry prompt model detail = record {
      tenant_id = auth.tenant_id;
      user_id = payload.user_id;
      api_key_hash = auth.api_key_hash;
      prompt = prompt;
      response = "";
      model_used = model;
      latency_ms = at.latency_ms;
      tokens = pos 0;
      cost = b.floats.of_nat 0;
      cache_hit = false;
      status = "error";
      error_message = some detail;
    }

    abbrev pub response_with : String → String → ℤ → Float → Bool → GenerateResponse
    response_with model_used response tokens cost cached = record {
      request_id = at.request_id;
      model_used = model_used;
      response = response;
      cached = cached;
      latency_ms = at.latency_ms;
      tokens = tokens;
      cost = cost;
      timestamp = at.timestamp;
    }

    -- The branch of a cache hit.
    unfoldable pub on_hit : String → CachedResponse → Exec Server GenerateResponse
    unfolding record_cache_result record_request queue_request_log
    on_hit prompt c app =
        continue
          (queue_request_log (success_entry prompt c.response c.model_used c.tokens c.cost true) (
            count_in (record_request b.floats c.model_used "success" at.latency_ms true)
              (count_in (record_cache_result b.floats true) app)))
          (λ _ app'. (ok (response_with c.model_used c.response c.tokens c.cost true), app'))

    -- What follows the completion.
    unfoldable pub on_generated : String → String → String × String → Exec Server GenerateResponse
    unfolding estimate_tokens estimate_cost record_model_usage record_cost record_request
        queue_request_log
    on_generated prompt model_key (model_used, text) app =
        let tokens = pos (estimate_tokens (prompt <> " " <> text)) in
        let cost = estimate_cost b model_used tokens settings in
        let stored : CachedResponse = record {
          response = text;
          model_used = model_used;
          tokens = tokens;
          cost = cost;
        } in
        continue
          (queue_request_log (success_entry prompt text model_used tokens cost false) (
            count_in (record_request b.floats model_used "success" at.latency_ms false) (
              count_in (record_cost b.floats model_used cost) (
                count_in (record_model_usage model_used) (
                  add_task (cache_response prompt model_key stored settings.cache_ttl_seconds)
                    app)))))
          (λ _ app'. (ok (response_with model_used text tokens cost false), app'))

    -- The branch of a cache miss.
    unfoldable pub on_miss : RouteDecision → String → String → Exec Server GenerateResponse
    unfolding record_cache_result on_generated
    on_miss route prompt model_key app =
        let app' = count_in (record_cache_result b.floats false) app in
        let (generated, llm) =
          generate_completion b.sha1 b.repr T Y settings at.breaker_asked at.breaker_failed prompt
            route.model_tier route.model_override route.provider_override payload.provider_api_key
            app'.llm in
        continue (generated, record app' { llm = llm }) (on_generated prompt model_key)

    -- What follows the look into the cache.
    unfoldable pub answer :
        RouteDecision → String → String → Option CachedResponse → Exec Server GenerateResponse
    answer route prompt model_key (some c) = on_hit prompt c
    answer route prompt model_key none = on_miss route prompt model_key

    -- The `try` block.
    unfoldable pub serve : RouteDecision → String → String → Exec Server GenerateResponse
    unfolding enforce_rate_limits answer
    serve route prompt model_key app =
        continue (enforce_rate_limits auth payload.user_id connected settings at app) (λ _ app'.
          let (cached, redis) = get_cached_response b J R connected prompt model_key app'.redis in
          answer route prompt model_key cached (record app' { redis = redis }))

    -- The two `except` clauses.
    unfoldable pub on_error : String → String → Exc → Exec Server GenerateResponse
    unfolding record_request queue_request_log
    on_error prompt model_key exc app =
        continue
          (queue_request_log (error_entry prompt model_key (logged_message exc))
            (count_in (record_request b.floats model_key "error" at.latency_ms false) app))
          (λ _ app'. (err (raised exc), app'))

    unfoldable pub handle_generate_request : Exec Server GenerateResponse
    unfolding choose_model redact_pii cache_model_key on_error
    handle_generate_request app =
        let route = choose_model payload settings in
        let safe_prompt = redact_pii b payload.prompt in
        let model_key = cache_model_key route in
        catch (serve route safe_prompt model_key app) (on_error safe_prompt model_key)

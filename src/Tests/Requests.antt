-- ===== src/Tests/Requests.antt =====
-- Runs of the request path.
use inference_control_plane.Prelude.{
  take, spaced, strip, ◌-◌, ◌≡◌, ◌⊎◌, refl, true, false, some, [], ◌∷◌, show,
}
use Prim.Native.Nat.{min}
use inference_control_plane.Prelude.Int.{pos}
use inference_control_plane.Python.{of_bits}
use inference_control_plane.Python.Json.{Json}
use inference_control_plane.Settings.{simulated}
use inference_control_plane.Redis.Memory.{memory-IsReliable, empty}
use inference_control_plane.RateLimiter.{check_rate_limit}
use inference_control_plane.RateLimiter.Window.{admitted, admitted_lem}
use inference_control_plane.LlmClient.Payload.{py_str}
use inference_control_plane.LlmClient.Completion.{generate_completion}
use inference_control_plane.Inference.Caching.{stored_of, run_tasks, handle-cached}
use inference_control_plane.Cache.{get_cached_response}
use inference_control_plane.Schemas.{GenerateResponse}
use inference_control_plane.Inference.State.{redact_pii}
use inference_control_plane.Inference.Handler.{
  too_many, bad_gateway, on_miss, serve, handle_generate_request,
}
use inference_control_plane.Inference.Rows.{IsLogged}
use inference_control_plane.Inference.Logging.{handle-IsLogged}
use inference_control_plane.Inference.Errors.{Refused, handle-err}
use inference_control_plane.Inference.Privacy.{with_prompt, handle-redacted}
use inference_control_plane.Router.{choose_model}
use inference_control_plane.Tests.Fixtures.{
  builtins, codec, codec-IsLossless, server, provider, tenacity, settings, settings_in, request,
  auth, readings, app,
}

-- The parameters of the handler: `b J R T Y payload auth settings connected at`.
handle-IsLogged_example :
    IsLogged builtins.floats app
      (handle_generate_request builtins codec server provider tenacity request auth settings true
        readings app).1
      "hi"
      (handle_generate_request builtins codec server provider tenacity request auth settings true
        readings app).0
unfolding redact_pii
handle-IsLogged_example =
    handle-IsLogged builtins codec server provider tenacity request auth settings true readings app
      refl

-- A key with a limit of no requests is refused.
handle-err_example :
    (too_many "API key rate limit exceeded."
        (record { allowed = false; remaining = pos 0; retry_after_seconds = pos 60 })
      ≡ bad_gateway)
    ⊎ Refused builtins codec server provider tenacity request
        (record auth { rate_limit_per_minute = pos 0 })
        settings
        true
        readings
        app.redis
        (too_many "API key rate limit exceeded."
          (record { allowed = false; remaining = pos 0; retry_after_seconds = pos 60 }))
unfolding handle_generate_request serve check_rate_limit py_str show
handle-err_example =
    handle-err builtins codec server provider tenacity request
      (record auth { rate_limit_per_minute = pos 0 }) settings true readings app
      (too_many "API key rate limit exceeded."
        (record { allowed = false; remaining = pos 0; retry_after_seconds = pos 60 }))
      refl refl

handle-redacted_example :
    handle_generate_request
      (record builtins { re_sub = λ pattern replacement s. "x" })
      codec
      server
      provider
      tenacity
      (with_prompt request settings "call me")
      auth
      settings
      true
      readings
      app
    ≡ handle_generate_request
        (record builtins { re_sub = λ pattern replacement s. "x" })
        codec
        server
        provider
        tenacity
        request
        auth
        settings
        true
        readings
        app
unfolding redact_pii choose_model
handle-redacted_example =
    handle-redacted (record builtins { re_sub = λ pattern replacement s. "x" }) codec server
      provider tenacity request auth settings true readings "call me" app refl refl

-- Three requests in one window, of which two are admitted.
admitted_lem_example :
    admitted server "user" "u" (pos 2) 60 (60 ∷ 61 ∷ 119 ∷ []) (empty Json) ≡ min 3 (2 - 0)
admitted_lem_example =
    admitted_lem server (memory-IsReliable Json) "user" "u" 2 59 1 (60 ∷ 61 ∷ 119 ∷ []) (empty Json)
      (refl, (refl, (refl, tt)))

-- A request in simulated mode.
abbrev generated : GenerateResponse
generated = record {
  request_id = "id";
  model_used = "simulated-model";
  response = "[simulated-model] simulated response :: hi :: id=hi";
  cached = false;
  latency_ms = of_bits 7;
  tokens = pos 14;
  cost = of_bits 0;
  timestamp = 1;
}

handle-cached_example :
    (get_cached_response builtins codec server true "hi" "default:cheap" (
      run_tasks builtins codec server provider tenacity
        (handle_generate_request builtins codec server provider tenacity request auth
          (settings_in simulated)
          true
          readings
          app).1.tasks
        (handle_generate_request builtins codec server provider tenacity request auth
          (settings_in simulated)
          true
          readings
          app).1.redis)).0
    ≡ some (stored_of generated)
unfolding handle_generate_request serve check_rate_limit py_str show get_cached_response on_miss
    generate_completion take spaced strip
handle-cached_example =
    handle-cached builtins codec server provider tenacity codec-IsLossless (memory-IsReliable Json)
      request auth (settings_in simulated) readings app
      (handle_generate_request builtins codec server provider tenacity request auth
        (settings_in simulated) true readings app).1
      generated refl refl refl refl

-- ===== src/Http/Routes/Answers.antt =====
-- What a client of `/generate` may be answered.
use inference_control_plane.Prelude.{
  ℕ, String, Bool, true, false, Option, none, some, List, ◌≡◌, refl, ◌∙◌, ◌⊎◌, inl, inr, Bool-cases,
  ap,
}
use inference_control_plane.Prelude.Dict.{lookup}
use inference_control_plane.Prelude.Int.{show_int}
use inference_control_plane.Python.{
  Exc, builtin, timeout_exception, http_status_error, request_error, llm_client_error,
  llm_client_retryable_error, llm_client_timeout_error, circuit_breaker_open_error, http_exception,
  Result, ok, err, Raises, is_http_exception,
}
use inference_control_plane.Python.Json.{Json, arr, Fields}
use inference_control_plane.Python.Builtins.{Builtins, JsonCodec}
use inference_control_plane.Redis.{Redis}
use inference_control_plane.RateLimiter.{RateLimitResult}
use inference_control_plane.Settings.{Settings}
use inference_control_plane.Schemas.{GenerateRequest, GenerateResponse, ApiKey}
use inference_control_plane.Auth.{AuthContext, hash_api_key}
use inference_control_plane.LlmClient.Transport.{Transport, World, Retryer}
use inference_control_plane.Inference.State.{Readings}
use inference_control_plane.Inference.Handler.{
  Server, too_many, bad_gateway, handle_generate_request,
}
use inference_control_plane.Inference.Errors.{Refused, handle-err}
use inference_control_plane.Http.Errors as E
use inference_control_plane.Http.Errors.{
  Failure, Outcome, returned, failed, failure_of, outcome_of, Body, model, json, Response,
  error_payload, request_id_of, http_exception_handler, validation_exception_handler,
  validation_details, dispatch,
}
use inference_control_plane.Http.Routes.{is_valid_request, get_auth_context, after_auth, generate}
use inference_control_plane.Http.Routes.Bounds.{
  IsWithinBounds, valid-IsWithinBounds, IsWithinBounds-valid,
}
use inference_control_plane.Http.Routes.Denials.{
  IsRejected, IsUnanswered, IsDenied, authenticated-IsDenied, session-get_auth_context,
}

-- An error response with a status, a code and a message.
abbrev pub IsError : String → ℕ → String → String → Option Json → Response GenerateResponse → Type 0
IsError id status code message details r =
    (r.status_code ≡ status) × (r.body ≡ json (error_payload code message id details))

-- An exception that is no `HTTPException` is left to the last handler.
failure_of-unhandled : (e : Exc) → is_http_exception e ≡ false → failure_of e ≡ E.unhandled e
failure_of-unhandled (http_exception status detail headers) h = absurd (cc h)
failure_of-unhandled (builtin k m) h = refl
failure_of-unhandled (timeout_exception m) h = refl
failure_of-unhandled (http_status_error n m) h = refl
failure_of-unhandled (request_error m) h = refl
failure_of-unhandled (llm_client_error m) h = refl
failure_of-unhandled (llm_client_retryable_error m) h = refl
failure_of-unhandled (llm_client_timeout_error m) h = refl
failure_of-unhandled (circuit_breaker_open_error m) h = refl

module _ (find : String → Result (Option ApiKey)) (b : Builtins) (J : JsonCodec) (R : Redis J.Text)
    (T : Transport) (Y : Retryer (World T)) (settings : Settings) (connected : Bool)
    (payload : GenerateRequest) (at : Readings) where
  -- What the handler gives for the payload.
  abbrev handled : AuthContext → Server b J R T Y → Result GenerateResponse
  handled auth app = (handle_generate_request b J R T Y payload auth settings connected at app).0

  -- The answer to a caller that is let in: the payload's error or what the handler ends in.
  abbrev pub IsServed : String → AuthContext → Server b J R T Y → Response GenerateResponse → Type 0
  IsServed id auth app r =
      (¬ (IsWithinBounds payload))
        × ((details : Json) × IsError id 422 "VALIDATION_ERROR" "Request validation failed."
              (some details) r)
      ⊎ IsWithinBounds payload
        × (((response : GenerateResponse) × (handled auth app ≡ ok response)
              × (r.status_code ≡ 200)
              × (r.body ≡ model response))
            ⊎ ((message : String) × (limit : RateLimitResult) × Refused b J R T Y payload auth
                  settings connected at app.redis (too_many message limit)
                × IsError id 429 "RATE_LIMITED" message none r
                × (lookup "retry-after" r.headers ≡ some (show_int limit.retry_after_seconds)))
            ⊎ (handled auth app ≡ err bad_gateway)
              × IsError id 502 "UPSTREAM_ERROR" "Failed to generate response from upstream model."
                  none r)

  -- The six answers, each with its cause.
  abbrev pub IsAnswer :
      String → Option String → Server b J R T Y → Response GenerateResponse → Type 0
  IsAnswer id key app r =
      IsRejected find b key × ((message : String) × IsError id 401 "UNAUTHORIZED" message none r)
      ⊎ ((e : Exc) × IsUnanswered find b key e
          × IsError id 500 "INTERNAL_ERROR" "An internal error occurred." none r)
      ⊎ ((auth : AuthContext) × (app' : Server b J R T Y) × (get_auth_context b J R T Y settings
              connected find key app
            ≡ (ok auth, app'))
          × IsServed id auth app' r)

  module _ (plain : (hash : String) (e : Exc) → find hash ≡ err e → is_http_exception e ≡ false)
      (lower : String → String) (lowered : lower "Retry-After" ≡ "retry-after")
      (header : Option String) (fresh unused : String) (errors : List Fields) where
    -- The response for an outcome of the route.
    abbrev respond : Outcome GenerateResponse → Response GenerateResponse
    respond = dispatch lower header fresh unused

    denied-IsAnswer :
        (key : Option String) (app : Server b J R T Y) (e : Exc)
        → IsDenied find b key e
        → IsAnswer (request_id_of header fresh) key app (respond (failed (failure_of e)))
    unfolding dispatch http_exception_handler
    denied-IsAnswer key app e (inl (detail, q, why)) = rw q (inl (why, (detail, (refl, refl))))
    denied-IsAnswer key app e (inr why) =
        let (k, _, _, _, q) = why in
        rw (failure_of-unhandled e (plain (hash_api_key b k) e q))
          (inr (inl (e, why, (refl, refl))))

    handled-IsServed :
        (auth : AuthContext) (app : Server b J R T Y) (r : Result GenerateResponse)
        → app.session_factory ≡ true
        → IsWithinBounds payload
        → handled auth app ≡ r
        → IsServed (request_id_of header fresh) auth app (respond (outcome_of r))
    unfolding dispatch http_exception_handler lookup
    handled-IsServed auth app (ok response) set within h =
        inr (within, inl (response, h, refl, refl))
    handled-IsServed auth app (err e) set within h =
        elim (handle-err b J R T Y payload auth settings connected at app e set h) [
          | inl q ↦ rw q (inr (within, inr (inr (h ∙ ap (λ x. err x) q, (refl, refl)))))
          | inr (inl (k, asked, refused, q)) ↦ rw q (
              inr (
                within,
                inr (
                    inl (
                      "API key rate limit exceeded.",
                      k,
                      inl (k, asked, refused, refl),
                      (refl, refl),
                      rw lowered refl,
                    )),
              ))
          | inr (inr (k, u, asked, allowed, also, refused, q)) ↦ rw q (
              inr (
                within,
                inr (
                    inl (
                      "User rate limit exceeded.",
                      u,
                      inr (k, u, asked, allowed, also, refused, refl),
                      (refl, refl),
                      rw lowered refl,
                    )),
              ))
        ]

    after-IsAnswer :
        (key : Option String) (app : Server b J R T Y) (x : Result AuthContext × Server b J R T Y)
        → get_auth_context b J R T Y settings connected find key app ≡ x
        → Raises (IsDenied find b key) x.0
        → x.1.session_factory ≡ true
        → IsAnswer
            (request_id_of header fresh)
            key
            app
            (respond (after_auth b J R T Y settings connected find errors payload at x).0)
    unfolding dispatch validation_exception_handler
    after-IsAnswer key app (err e, app') asked h set = denied-IsAnswer key app e h
    after-IsAnswer key app (ok auth, app') asked h set =
        elim (Bool-cases (is_valid_request payload)) [
          | inr broken ↦ rw broken (
              inr (
                inr (
                  auth,
                  app',
                  asked,
                  inl (
                    λ within. absurd (cc (broken, IsWithinBounds-valid payload within)),
                    (arr (validation_details errors), (refl, refl)),
                  ),
                )))
          | inl valid ↦ rw valid (
              inr (
                inr (
                  auth,
                  app',
                  asked,
                  handled-IsServed auth app' (handled auth app') set
                      (valid-IsWithinBounds payload valid) refl,
                )))
        ]

    -- Let the session factory be set and let the database raise no `HTTPException`. Whatever Redis,
    -- the provider and the database do, a call of `/generate` is answered by one of six responses,
    -- each for its cause. 401: the key is missing or empty, or it is not the public one and the
    -- database has no record or an inactive one for its hash. 500: the query for the key's hash
    -- raises. Otherwise the caller is authenticated, and the answer is 422 if the payload is not
    -- within the bounds of its fields, and within them 200 with the response that the handler gives,
    -- 429 with the `retry-after` of the limiter's own refusal, or 502 if the handler raises that,
    -- a provider's timeout included. The errors have their code and the request's identifier.
    pub generate-IsAnswer :
        (key : Option String) (app : Server b J R T Y)
        → app.session_factory ≡ true
        → IsAnswer (request_id_of header fresh) key app (
            dispatch lower header fresh unused
              (generate b J R T Y settings connected find errors key payload at app).0)
    unfolding generate
    generate-IsAnswer key app set =
        after-IsAnswer key app (get_auth_context b J R T Y settings connected find key app) refl
          (authenticated-IsDenied find b J R T Y settings connected key app set)
          (session-get_auth_context find b J R T Y settings connected key app ∙ set)

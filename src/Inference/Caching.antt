-- ===== src/Inference/Caching.antt =====
-- What services/inference.py leaves in the cache.
use inference_control_plane.Prelude.{
  ℕ, ◌<>◌, String, Bool, true, false, Option, none, some, List, [], ◌∷◌, ◌++◌, ◌≡◌, subst,
  Bool-cases, inl, inr, sym, ap, ◌∙◌, arith, eq_refl,
}
use mathlib.Core.List.{append_assoc}
use inference_control_plane.Prelude.Int.{pos}
use inference_control_plane.Python.{Exc, Result, ok, err}
use inference_control_plane.Python.Exec.{continue_post, catch_post}
use inference_control_plane.Python.Builtins.{Builtins, JsonCodec, IsLossless}
use inference_control_plane.Settings.{Settings}
use inference_control_plane.Schemas.{GenerateRequest, GenerateResponse, RequestLog}
use inference_control_plane.Redis.{Redis, IsReliable}
use inference_control_plane.Router.{RouteDecision, choose_model, estimate_tokens}
use inference_control_plane.Cache.{CachedResponse, get_cached_response, set_cached_response}
use inference_control_plane.Cache.RoundTrip.{get-set}
use inference_control_plane.Auth.{AuthContext}
use inference_control_plane.LlmClient.Transport.{Transport, World, Retryer}
use inference_control_plane.Inference.State.{
  Task, persist_request_log, cache_response, App, Readings, redact_pii, estimate_cost,
}
use inference_control_plane.Inference.Handler.{
  Server, cache_model_key, success_entry, judge, enforce_rate_limits, on_hit, on_generated, on_miss,
  answer, serve, on_error, handle_generate_request,
}

append_twice {ℓ} :
    {A : Type ℓ} (xs ys : List A) (x y : A) → xs ≡ ys → (xs ++ x ∷ []) ++ y ∷ [] ≡ ys ++ x ∷ y ∷ []
append_twice xs ys x y same = append_assoc xs (x ∷ []) (y ∷ []) ∙ ap (λ l. l ++ x ∷ y ∷ []) same

-- The cache entry of a response.
abbrev pub stored_of : GenerateResponse → CachedResponse
stored_of r = record {
  response = r.response;
  model_used = r.model_used;
  tokens = r.tokens;
  cost = r.cost;
}

-- A response that was generated leaves two tasks more: to cache it, and to write its row.
unfoldable pub Stores :
    {S : Type 0} {T : Transport}
    → List Task
    → String
    → String
    → ℕ
    → Result GenerateResponse × App S T
    → Type 0
Stores ts prompt key ttl (ok r, app) =
    r.cached ≡ false
    → (row : RequestLog) × (app.tasks
        ≡ ts ++ cache_response prompt key (stored_of r) ttl ∷ persist_request_log row ∷ [])
Stores ts prompt key ttl (err e, app) = Unit

module _ (b : Builtins) (J : JsonCodec) (R : Redis J.Text) (T : Transport)
    (Y : Retryer (World T)) where
  -- The effect on Redis of the tasks that run after the response.
  abbrev pub run_tasks : List Task → R.State → R.State
  run_tasks [] s = s
  run_tasks (persist_request_log row ∷ ts) s = run_tasks ts s
  run_tasks (cache_response prompt key c ttl ∷ ts) s =
      run_tasks ts (set_cached_response b J R true prompt key c ttl s)

  enforce-tasks :
      (auth : AuthContext) (user_id : String) (connected : Bool) (settings : Settings)
      (at : Readings) (app : Server b J R T Y)
      → ((enforce_rate_limits b J R T Y auth user_id connected settings at app).1.tasks ≡ app.tasks)
        × ((enforce_rate_limits b J R T Y auth user_id connected settings at app).1.session_factory
            ≡ app.session_factory)
  unfolding enforce_rate_limits judge
  enforce-tasks auth user_id connected settings at app = (ground arith, ground arith)

  module _ (payload : GenerateRequest) (auth : AuthContext) (settings : Settings) (connected : Bool)
      (at : Readings) where
    on_hit-Stores :
        (ts : List Task) (prompt key : String) (c : CachedResponse) (app : Server b J R T Y)
        → app.session_factory ≡ true
        → Stores ts prompt key settings.cache_ttl_seconds
            (on_hit b J R T Y payload auth settings connected at prompt c app)
    unfolding on_hit Stores
    on_hit-Stores ts prompt key c app set = simp set (λ fresh. absurd (cc fresh))

    on_generated-Stores :
        (ts : List Task) (prompt key : String) (g : String × String) (app : Server b J R T Y)
        → app.session_factory ≡ true
        → app.tasks ≡ ts
        → Stores ts prompt key settings.cache_ttl_seconds
            (on_generated b J R T Y payload auth settings connected at prompt key g app)
    unfolding on_generated Stores
    on_generated-Stores ts prompt key (model_used, text) app set same =
        let tokens = pos (estimate_tokens (prompt <> " " <> text)) in
        let cost = estimate_cost b model_used tokens settings in
        let row =
          success_entry b J R T Y payload auth settings connected at prompt text model_used tokens
            cost false in
        let stored : CachedResponse = record {
          response = text;
          model_used = model_used;
          tokens = tokens;
          cost = cost;
        } in
        simp set (λ fresh. (
          row,
          append_twice app.tasks ts (cache_response prompt key stored settings.cache_ttl_seconds)
              (persist_request_log row) same,
        ))

    answer-Stores :
        (ts : List Task) (route : RouteDecision) (prompt key : String) (c : Option CachedResponse)
        (app : Server b J R T Y)
        → app.session_factory ≡ true
        → app.tasks ≡ ts
        → Stores ts prompt key settings.cache_ttl_seconds
            (answer b J R T Y payload auth settings connected at route prompt key c app)
    unfolding answer on_miss Stores
    answer-Stores ts route prompt key (some c) app set same = on_hit-Stores ts prompt key c app set
    answer-Stores ts route prompt key none app set same =
        continue_post (Stores ts prompt key settings.cache_ttl_seconds) _
          (on_generated b J R T Y payload auth settings connected at prompt key) (λ e s _. tt)
          (λ g s h.
            on_generated-Stores ts prompt key g s
              (ap (λ (r : Result (String × String) × Server b J R T Y). r.1.session_factory) (sym h)
                ∙ set)
              (ap (λ (r : Result (String × String) × Server b J R T Y). r.1.tasks) (sym h) ∙ same))

    serve-Stores :
        (ts : List Task) (route : RouteDecision) (prompt key : String) (app : Server b J R T Y)
        → app.session_factory ≡ true
        → app.tasks ≡ ts
        → Stores ts prompt key settings.cache_ttl_seconds
            (serve b J R T Y payload auth settings connected at route prompt key app)
    unfolding serve Stores
    serve-Stores ts route prompt key app set same =
        let (tasks, session) = enforce-tasks auth payload.user_id connected settings at app in
        continue_post (Stores ts prompt key settings.cache_ttl_seconds)
          (enforce_rate_limits b J R T Y auth payload.user_id connected settings at app) _
          (λ e s _. tt)
          (λ u s h.
            let (cached, redis) = get_cached_response b J R connected prompt key s.redis in
            answer-Stores ts route prompt key cached (record s { redis = redis })
              (ap (λ (r : Result (Unit {0}) × Server b J R T Y). r.1.session_factory) (sym h)
                ∙ session
                ∙ set)
              (ap (λ (r : Result (Unit {0}) × Server b J R T Y). r.1.tasks) (sym h) ∙ tasks ∙ same))

    on_error-Stores :
        (ts : List Task) (prompt key : String) (e : Exc) (app : Server b J R T Y)
        → Stores ts prompt key settings.cache_ttl_seconds
            (on_error b J R T Y payload auth settings connected at prompt key e app)
    unfolding on_error Stores
    on_error-Stores ts prompt key e app = elim (Bool-cases app.session_factory) [
      | inl set ↦ simp set tt
      | inr unset ↦ simp unset tt
    ]

    handle-Stores :
        (ts : List Task) (app : Server b J R T Y)
        → app.session_factory ≡ true
        → app.tasks ≡ ts
        → Stores ts
            (redact_pii b payload.prompt)
            (cache_model_key (choose_model payload settings))
            settings.cache_ttl_seconds
            (handle_generate_request b J R T Y payload auth settings connected at app)
    unfolding handle_generate_request
    handle-Stores ts app set same =
        let prompt = redact_pii b payload.prompt in
        let route = choose_model payload settings in
        let key = cache_model_key route in
        let P = Stores ts prompt key settings.cache_ttl_seconds in
        let tried = serve-Stores ts route prompt key app set same in
        catch_post P (serve b J R T Y payload auth settings connected at route prompt key app)
          (on_error b J R T Y payload auth settings connected at prompt key)
          (λ r s h. subst P h tried) (λ e s h. on_error-Stores ts prompt key e s)

  module _ (lossless : IsLossless J) (reliable : IsReliable R) where
    -- On a server that answers and with a lossless codec, for a request that starts with no
    -- background tasks and ends in a response that was generated: once its tasks have run, the cache
    -- holds that response, with its model, tokens and cost, under the redacted prompt and the
    -- model key of its route.
    pub handle-cached :
        (payload : GenerateRequest) (auth : AuthContext) (settings : Settings) (at : Readings)
        (app after : Server b J R T Y) (r : GenerateResponse)
        → app.session_factory ≡ true
        → app.tasks ≡ []
        → handle_generate_request b J R T Y payload auth settings true at app ≡ (ok r, after)
        → r.cached ≡ false
        → (get_cached_response b J R true
            (redact_pii b payload.prompt)
            (cache_model_key (choose_model payload settings))
            (run_tasks after.tasks after.redis)).0
          ≡ some (stored_of r)
    unfolding Stores
    handle-cached payload auth settings at app after r set none_yet h fresh =
        let prompt = redact_pii b payload.prompt in
        let key = cache_model_key (choose_model payload settings) in
        let (row, tasks) =
          subst (Stores [] prompt key settings.cache_ttl_seconds) h
            (handle-Stores payload auth settings true at [] app set none_yet) fresh in
        ap (λ ts. (get_cached_response b J R true prompt key (run_tasks ts after.redis)).0) tasks
        ∙ get-set b J R lossless reliable prompt key prompt key (stored_of r)
            settings.cache_ttl_seconds after.redis
        ∙ simp eq_refl

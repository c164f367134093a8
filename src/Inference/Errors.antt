-- ===== src/Inference/Errors.antt =====
-- Which exceptions leave the `try` block of `handle_generate_request` in services/inference.py.
use inference_control_plane.Prelude.{
  String, Bool, true, ◌≡◌, ◌⊎◌, inl, inr, refl, sym, subst, ◌∙◌, Bool-cases, some, none, Option,
}
use inference_control_plane.Python.{Exc, Result, ok, err, Raises}
use inference_control_plane.Python.Exec.{catch}
use inference_control_plane.Python.Builtins.{Builtins, JsonCodec}
use inference_control_plane.Settings.{Settings}
use inference_control_plane.Schemas.{GenerateRequest, GenerateResponse}
use inference_control_plane.Redis.{Redis}
use inference_control_plane.Router.{RouteDecision}
use inference_control_plane.Cache.{CachedResponse}
use inference_control_plane.Auth.{AuthContext}
use inference_control_plane.LlmClient.Transport.{Transport, World, Retryer}
use inference_control_plane.LlmClient.Completion.Outcomes.{generate_completion-err}
use inference_control_plane.Inference.State.{Readings}
use inference_control_plane.Inference.Rows.{Logs}
use inference_control_plane.Inference.Logging.{serve-Logs}
use inference_control_plane.Inference.Handler.{
  Server, bad_gateway, raised, on_hit, on_generated, on_miss, answer, serve, on_error,
  handle_generate_request,
}
use inference_control_plane.Inference.Refusals.{
  Raises-of, Raises-continue, Raises-mono, IsHidden, IsRefusal, IsKnown, enforce-IsKnown,
}

module _ (b : Builtins) (J : JsonCodec) (R : Redis J.Text) (T : Transport)
    (Y : Retryer (World T)) where
  module _ (payload : GenerateRequest) (auth : AuthContext) (settings : Settings) (connected : Bool)
      (at : Readings) where
    on_generated-IsHidden :
        (prompt key : String) (g : String × String) (app : Server b J R T Y)
        → Raises IsHidden
            (on_generated b J R T Y payload auth settings connected at prompt key g app).0
    unfolding on_generated
    on_generated-IsHidden prompt key (model_used, text) app =
        elim (Bool-cases app.session_factory) [
          | inl set ↦ simp set tt
          | inr unset ↦ simp unset refl
        ]

    on_miss-IsHidden :
        (route : RouteDecision) (prompt key : String) (app : Server b J R T Y)
        → Raises IsHidden
            (on_miss b J R T Y payload auth settings connected at route prompt key app).0
    unfolding on_miss
    on_miss-IsHidden route prompt key app =
        Raises-continue IsHidden _ _
          (Raises-of IsHidden _ (λ e h.
            let (m, q) =
              generate_completion-err b.sha1 b.repr T Y settings at.breaker_asked at.breaker_failed
                prompt route.model_tier route.model_override route.provider_override
                payload.provider_api_key app.llm e h in
            subst IsHidden (sym q) refl))
          (λ g app'. on_generated-IsHidden prompt key g app')

    answer-IsHidden :
        (route : RouteDecision) (prompt key : String) (c : Option CachedResponse)
        (app : Server b J R T Y)
        → Raises IsHidden
            (answer b J R T Y payload auth settings connected at route prompt key c app).0
    unfolding answer on_hit
    answer-IsHidden route prompt key (some c) app = elim (Bool-cases app.session_factory) [
      | inl set ↦ simp set tt
      | inr unset ↦ simp unset refl
    ]
    answer-IsHidden route prompt key none app = on_miss-IsHidden route prompt key app

    -- The exceptions of the `try` block, from a state of Redis.
    abbrev Known : R.State → Exc → Type 0
    Known = IsKnown b J R T Y auth payload.user_id connected settings at

    -- The two refusals of a request, from a state of Redis.
    abbrev pub Refused : R.State → Exc → Type 0
    Refused = IsRefusal b J R T Y auth payload.user_id connected settings at

    -- The `try` block of the handler ends in a response, in a refusal of the rate limiter, or in an
    -- exception that is answered by 502.
    serve-IsKnown :
        (route : RouteDecision) (prompt key : String) (app : Server b J R T Y)
        → Raises
            (Known app.redis)
            (serve b J R T Y payload auth settings connected at route prompt key app).0
    unfolding serve
    serve-IsKnown route prompt key app =
        Raises-continue (Known app.redis) _ _
          (enforce-IsKnown b J R T Y auth payload.user_id connected settings at app)
          (λ _ app'.
            Raises-mono IsHidden (Known app.redis) _ (λ e h. inl h)
              (answer-IsHidden route prompt key _ _))

    answered :
        (x e : Exc) (s : R.State)
        → Known s x
        → ◌≡◌ {A = Result GenerateResponse} (err (raised x)) (err e)
        → (e ≡ bad_gateway) ⊎ Refused s e
    answered x e s (inl p) h = inl (cc)
    answered x e s (inr (inl (k, asked, refused, p))) h = inr (inl (k, asked, refused, cc))
    answered x e s (inr (inr (k, u, asked, allowed, also, refused, p))) h =
        inr (inr (k, u, asked, allowed, also, refused, cc))

    catch-IsKnown :
        (prompt key : String) (app : Server b J R T Y)
        (x : Result GenerateResponse × Server b J R T Y)
        → app.session_factory ≡ true
        → Raises (Known app.redis) x.0
        → Logs b.floats app prompt x
        → (e : Exc)
        → (catch x (on_error b J R T Y payload auth settings connected at prompt key)).0 ≡ err e
        → (e ≡ bad_gateway) ⊎ Refused app.redis e
    unfolding on_error
    catch-IsKnown prompt key app (ok r, s) set k l e h = absurd (cc h)
    catch-IsKnown prompt key app (err x, s) set k l e h =
        answered x e app.redis k (simp (l.session ∙ set) at h)

    -- With the session factory set, an exception of a request is one of three `HTTPException`s: the
    -- 429 of the key, with the `Retry-After` header of the limiter's own answer for the key, which
    -- refuses it; the 429 of the user, with that of the limiter's refusal of the user, after it has
    -- admitted the key; or the 502 that hides any other exception, the provider's timeouts among
    -- them.
    pub handle-err :
        (app : Server b J R T Y) (e : Exc)
        → app.session_factory ≡ true
        → (handle_generate_request b J R T Y payload auth settings connected at app).0 ≡ err e
        → (e ≡ bad_gateway) ⊎ Refused app.redis e
    unfolding handle_generate_request
    handle-err app e set h =
        catch-IsKnown _ _ app _ set (serve-IsKnown _ _ _ app)
          (serve-Logs b J R T Y payload auth settings connected at _ _ _ app set) e h

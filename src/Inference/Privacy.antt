-- ===== src/Inference/Privacy.antt =====
-- What services/inference.py lets through of a prompt.
use inference_control_plane.Prelude.{
  ℕ, String, Bool, ◌≡◌, refl, ap, ◌∙◌, arith, Option-cases, inl, inr,
}
use inference_control_plane.Python.{Result}
use inference_control_plane.Python.Exec.{catch}
use inference_control_plane.Python.Builtins.{Builtins, JsonCodec}
use inference_control_plane.Settings.{Settings}
use inference_control_plane.Schemas.{GenerateRequest, GenerateResponse}
use inference_control_plane.Redis.{Redis}
use inference_control_plane.Router.{RouteDecision, choose_model, stripped}
use inference_control_plane.Auth.{AuthContext}
use inference_control_plane.LlmClient.Transport.{Transport, World, Retryer}
use inference_control_plane.Inference.State.{Readings, redact_pii}
use inference_control_plane.Inference.Handler.{
  Server, cache_model_key, on_hit, on_miss, serve, on_error, handle_generate_request,
}

module _ (payload : GenerateRequest) (settings : Settings) (prompt : String) where
  abbrev pub with_prompt : GenerateRequest
  with_prompt = record payload { prompt = prompt }

  -- A prompt changes a route in its token count and its tier only.
  choose_model-prompt :
      (choose_model with_prompt settings).model_tier ≡ (choose_model payload settings).model_tier
      → choose_model with_prompt settings ≡ record (choose_model payload settings) {
        estimated_tokens = (choose_model with_prompt settings).estimated_tokens;
      }
  unfolding choose_model
  choose_model-prompt h = elim (Option-cases (stripped payload.model_override)) [
    | inl e ↦ ground arith
    | inr (model, e) ↦ ground arith
  ]

module _ (b : Builtins) (J : JsonCodec) (R : Redis J.Text) (T : Transport)
    (Y : Retryer (World T)) where
  module _ (payload : GenerateRequest) (auth : AuthContext) (settings : Settings) (connected : Bool)
      (at : Readings) where
    serve-prompt :
        (prompt : String) (route : RouteDecision) (n : ℕ) (safe key : String)
        (app : Server b J R T Y)
        → serve b J R T Y
            (with_prompt payload settings prompt)
            auth
            settings
            connected
            at
            (record route { estimated_tokens = n })
            safe
            key
            app
          ≡ serve b J R T Y payload auth settings connected at route safe key app
    unfolding serve on_hit on_miss
    serve-prompt prompt route n safe key app = refl

    -- The handler from the route and the redacted prompt on.
    abbrev run :
        String
        → Server b J R T Y
        → RouteDecision
        → String
        → Result GenerateResponse × Server b J R T Y
    run prompt app route safe =
        catch
          (serve b J R T Y (with_prompt payload settings prompt) auth settings connected at route
            safe (cache_model_key route) app)
          (on_error b J R T Y payload auth settings connected at safe (cache_model_key route))

    -- Two prompts that are redacted to the same text and are routed to the same tier have the same
    -- outcome and leave the same state: the cache, the log, the metrics and the provider see nothing
    -- of a prompt but its redacted text.
    pub handle-redacted :
        (prompt : String) (app : Server b J R T Y)
        → redact_pii b prompt ≡ redact_pii b payload.prompt
        → (choose_model (with_prompt payload settings prompt) settings).model_tier
          ≡ (choose_model payload settings).model_tier
        → handle_generate_request b J R T Y
            (with_prompt payload settings prompt)
            auth
            settings
            connected
            at
            app
          ≡ handle_generate_request b J R T Y payload auth settings connected at app
    unfolding handle_generate_request cache_model_key on_error
    handle-redacted prompt app same tier =
        let tokens =
          (choose_model (with_prompt payload settings prompt) settings).estimated_tokens in
        let route = choose_model payload settings in
        ap (λ r. run prompt app r (redact_pii b prompt))
          (choose_model-prompt payload settings prompt tier)
        ∙ ap (run prompt app (record route { estimated_tokens = tokens })) same
        ∙ ap
            (λ x. catch x (
              on_error b J R T Y payload auth settings connected at (redact_pii b payload.prompt)
                (cache_model_key route)))
            (serve-prompt prompt route tokens (redact_pii b payload.prompt) (cache_model_key route)
              app)

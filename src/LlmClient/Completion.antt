-- ===== src/LlmClient/Completion.antt =====
-- The three provider requests and `generate_completion` of services/llm_client.py.
pub mod Outcomes
use inference_control_plane.Prelude.{
  ℕ, String, Bool, true, false, Option, none, some, List, [], ◌∷◌, ◌<>◌, ◌==◌, not, ◌&&◌, is_empty,
  ends_with, rstrip_slash, strip, spaced, take, if◌then◌else◌,
}
use inference_control_plane.Python.{
  Exc, builtin, type_error, llm_client_error, message, Result, ok, err,
}
use inference_control_plane.Python.Exec.{Exec, continue, catch}
use inference_control_plane.Python.Json.{Json}
use inference_control_plane.Settings.{
  Settings, LlmMode, simulated, openai_compatible, multi_provider,
}
use inference_control_plane.LlmClient.Payload.{extract_message_text}
use inference_control_plane.LlmClient.Transport.{HttpRequest, Transport, World, Retryer}
use inference_control_plane.LlmClient.Retry.{execute, request_with_retry}

-- `not value` of an optional text
abbrev pub is_missing : Option String → Bool
is_missing none = true
is_missing (some s) = is_empty s

-- `a or b` for optional texts
abbrev pub or_else : Option String → Option String → Option String
or_else none b = b
or_else (some s) b = if is_empty s then b else some s

-- `a or "…"`
abbrev pub or_text : Option String → String → String
or_text none b = b
or_text (some s) b = if is_empty s then b else s

abbrev pub text_of : Option String → String
text_of none = ""
text_of (some s) = s

-- The address that the request is sent to.
unfoldable pub endpoint_of : String → String
endpoint_of base_url =
    let base = rstrip_slash base_url in
    if ends_with base "/chat/completions"
    then base
    else if ends_with base "/v1"
    then base <> "/chat/completions"
    else base <> "/v1" <> "/chat/completions"

abbrev headers_of : String → List (String × String)
headers_of api_key =
    if not (is_empty api_key) && not (api_key == "dummy-key")
    then ("Authorization", "Bearer " <> api_key) ∷ []
    else []

-- `_simulated_response`; `sha1` is `hashlib.sha1(…).hexdigest()`.
unfoldable pub simulated_response : (String → String) → String → String → String
simulated_response sha1 prompt model =
    "["
    <> model
    <> "] simulated response :: "
    <> take 180 (spaced (strip prompt))
    <> " :: id="
    <> take 8 (sha1 prompt)

-- Calling `_request_with_retry(settings, _execute)` without its third argument.
abbrev pub missing_argument : Exc
missing_argument =
    builtin type_error "_request_with_retry() missing 1 required positional argument: 'request_fn'"

module _ (sha1 : String → String) (repr : Json → String) (T : Transport)
    (R : Retryer (World T)) where
  unfoldable pub request_openai_compatible :
      Settings → ℕ → ℕ → String → String → String → String → Option String → Exec (World T) String
  unfolding endpoint_of
  request_openai_compatible settings now later provider prompt model base_url api_key w =
      if is_missing api_key
      then (err (llm_client_error "API Key is required for this provider."), w)
      else request_with_retry T R settings.llm_max_retries now later provider
          (execute T "Unable to parse LLM response payload." (extract_message_text repr) (record {
            endpoint = endpoint_of base_url;
            headers = headers_of (text_of api_key);
            params = [];
            model = model;
            max_tokens = settings.llm_max_output_tokens;
            prompt = prompt;
          }))
          w

  -- The request itself is built and never sent.
  unfoldable pub request_azure_openai : Settings → String → String → Exec (World T) String
  request_azure_openai settings prompt model w =
      if is_missing settings.azure_openai_base_url
      then (err (llm_client_error "Azure OpenAI configuration is missing."), w)
      else if is_missing settings.azure_openai_api_key
      then (err (llm_client_error "Azure OpenAI configuration is missing."), w)
      else if is_missing settings.azure_openai_deployment
      then (err (llm_client_error "Azure OpenAI deployment is required."), w)
      else (err missing_argument, w)

  unfoldable pub request_anthropic : Settings → String → String → Exec (World T) String
  request_anthropic settings prompt model w =
      if is_missing settings.anthropic_api_key
      then (
        err (llm_client_error "Anthropic API key is required when using the anthropic provider."),
        w,
      )
      else (err missing_argument, w)

  -- The provider branch, after the simulated mode.
  complete_with :
      Settings
      → ℕ
      → ℕ
      → String
      → Option String
      → String
      → Option String
      → Exec (World T) (String × String)
  unfolding request_openai_compatible
  complete_with settings now later prompt model_override provider provider_api_key w =
      if provider == "openrouter"
      then (let exact_model = or_text model_override settings.openrouter_cheap_model in
          catch
            (continue
              (request_openai_compatible settings now later provider prompt exact_model
                settings.openrouter_base_url (or_else provider_api_key settings.openrouter_api_key)
                w)
              (λ res w'. (ok (exact_model, res), w')))
            (λ exc w'. (
              err (
                  llm_client_error ("Failed to generate response via OpenRouter: " <> message exc)),
              w',
            )))
      else (
        err (llm_client_error ("Provider " <> provider <> " not implemented in fallback demo.")),
        w,
      )

  -- The model that answered, and its text.
  unfoldable pub generate_completion :
      Settings
      → ℕ
      → ℕ
      → String
      → String
      → Option String
      → Option String
      → Option String
      → Exec (World T) (String × String)
  unfolding simulated_response complete_with
  generate_completion settings now later prompt model_tier model_override provider_override
        provider_api_key w =
      elim settings.llm_mode [
        | simulated ↦
            let exact_model = or_text model_override "simulated-model" in
            (ok (exact_model, simulated_response sha1 prompt exact_model), w)
        | _ ↦
            complete_with settings now later prompt model_override
              (or_text provider_override "openrouter") provider_api_key w
      ]

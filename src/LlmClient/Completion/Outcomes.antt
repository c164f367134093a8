-- ===== src/LlmClient/Completion/Outcomes.antt =====
-- What `generate_completion` and the other provider requests of services/llm_client.py can do.
use inference_control_plane.Prelude.{
  ℕ, String, false, Option, ◌≡◌, ◌==◌, ◌<>◌, refl, arith, Bool-cases, inl, inr,
}
use inference_control_plane.Python.{Exc, message, llm_client_error, Result, ok, err, is_err}
use inference_control_plane.Python.Exec.{catch}
use inference_control_plane.Python.Json.{Json}
use inference_control_plane.Settings.{Settings, LlmMode, simulated}
use inference_control_plane.LlmClient.Transport.{Transport, World, Retryer}
use inference_control_plane.LlmClient.Completion.{generate_completion, complete_with, or_text}

-- A result whose exception, if any, is a plain `LLMClientError`.
abbrev IsPlain : {A : Type 0} → Result A → Type 0
IsPlain (ok _) = Unit {0}
IsPlain (err e) = (m : String) × (e ≡ llm_client_error m)

IsPlain-catch :
    {A W : Type 0} (x : Result A × W) (text : Exc → String)
    → IsPlain (catch x (λ exc w. (err (llm_client_error (text exc)), w))).0
IsPlain-catch (ok a, w) text = tt
IsPlain-catch (err e, w) text = (text e, refl)

IsPlain-of_mode :
    {A W : Type 0} (mode : LlmMode) (x y : Result A × W)
    → IsPlain x.0
    → IsPlain y.0
    → let r : Result A × W = elim mode [ simulated ↦ x | _ ↦ y ] in IsPlain r.0
IsPlain-of_mode simulated x y hx hy = hx
IsPlain-of_mode _ x y hx hy = hy

plain_error :
    {A : Type 0} (r : Result A) (e : Exc)
    → IsPlain r
    → r ≡ err e
    → (m : String) × (e ≡ llm_client_error m)
plain_error (ok a) e h p = absurd (cc p)
plain_error (err x) e (m, q) p = (m, cc)

module _ (sha1 : String → String) (repr : Json → String) (T : Transport)
    (R : Retryer (World T)) where
  -- A completion has the same outcome and the same effects for any two model tiers.
  pub generate_completion-tier :
      (s : Settings) (now later : ℕ) (prompt tier tier' : String)
      (model_override provider_override key : Option String) (w : World T)
      → generate_completion sha1 repr T R s now later prompt tier model_override provider_override
          key w
        ≡ generate_completion sha1 repr T R s now later prompt tier' model_override
            provider_override key w
  unfolding generate_completion
  generate_completion-tier s now later prompt tier tier' mo po key w = refl

  complete_with-IsPlain :
      (s : Settings) (now later : ℕ) (prompt : String) (model_override : Option String)
      (provider : String) (key : Option String) (w : World T)
      → IsPlain (complete_with sha1 repr T R s now later prompt model_override provider key w).0
  unfolding complete_with
  complete_with-IsPlain s now later prompt mo provider key w =
      elim (Bool-cases (provider == "openrouter")) [
        | inl here ↦
            rw here (
              IsPlain-catch _
                (λ exc. "Failed to generate response via OpenRouter: " <> message exc))
        | inr elsewhere ↦ rw elsewhere (_, refl)
      ]

  -- An exception of a completion is a plain `LLMClientError`.
  pub generate_completion-err :
      (s : Settings) (now later : ℕ) (prompt tier : String)
      (model_override provider_override key : Option String) (w : World T) (e : Exc)
      → (generate_completion sha1 repr T R s now later prompt tier model_override provider_override
          key w).0
        ≡ err e
      → (m : String) × (e ≡ llm_client_error m)
  unfolding generate_completion
  generate_completion-err s now later prompt tier mo po key w e h =
      plain_error _ e
        (IsPlain-of_mode s.llm_mode _ _ tt
          (complete_with-IsPlain s now later prompt mo (or_text po "openrouter") key w))
        h

  -- In simulated mode a completion returns, sends nothing and changes no breaker.
  pub generate_completion-simulated :
      (s : Settings) (now later : ℕ) (prompt tier : String)
      (model_override provider_override key : Option String) (w : World T)
      → s.llm_mode ≡ simulated
      → let x =
          generate_completion sha1 repr T R s now later prompt tier model_override provider_override
            key w in
        (x.1 ≡ w) × (is_err x.0 ≡ false)
  unfolding generate_completion
  generate_completion-simulated s now later prompt tier mo po key w h = ground arith

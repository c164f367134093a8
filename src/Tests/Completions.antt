-- ===== src/Tests/Completions.antt =====
-- Runs of the circuit breaker and of the LLM client.
use inference_control_plane.Prelude.{◌⊎◌, ℕ, ◌≤◌, ◌≡◌, refl, String, true, [], ◌∷◌, arith}
use inference_control_plane.Prelude.Dict.{lookup}
use inference_control_plane.Python.{Result, is_err}
use inference_control_plane.LlmClient.Breaker.{
  opened, init, CircuitBreaker, record_success, is_allowed, get_circuit_breaker,
}
use inference_control_plane.LlmClient.Breaker.Tripping.{failures, failures-state}
use inference_control_plane.LlmClient.Transport.{World}
use inference_control_plane.LlmClient.Payload.{extract_message_text}
use inference_control_plane.LlmClient.Retry.{execute, breaker, request_with_retry}
use inference_control_plane.LlmClient.Retry.Attempts.{Fails, Ends, settle, request_with_retry_lem}
use inference_control_plane.LlmClient.Retry.Attempts as Attempts
use inference_control_plane.LlmClient.Retry.Accounting.{
  told, breakers-execute, breaker-request_with_retry,
}
use inference_control_plane.Tests.Fixtures.{
  builtins, provider, tenacity, tenacity-IsTenacity, world,
}

failures-state_example : (failures (1 ∷ 2 ∷ 3 ∷ 4 ∷ 5 ∷ []) init).state ≡ opened
failures-state_example = failures-state (1 ∷ 2 ∷ 3 ∷ 4 ∷ 5 ∷ []) init refl (omega arith)

abbrev tripped : CircuitBreaker
tripped = record init { failure_count = 5; last_failure_time = 10; state = opened }

abbrev ask : World provider → Result String × World provider
ask =
    execute provider "Unable to parse LLM response payload." (extract_message_text builtins.repr)
      (record {
        endpoint = "e";
        headers = [];
        params = [];
        model = "m";
        max_tokens = 1;
        prompt = "p";
      })

-- Two timeouts and a text, with two retries.
request_with_retry_lem_example :
    (k : ℕ) × (u : World provider) × (k ≤ 2)
    × Fails ask k (Attempts.asked provider 0 "openrouter" world) u
    × Ends k 2 (ask u).0
    × (request_with_retry provider tenacity 2 0 1 "openrouter" ask world
        ≡ settle provider 1 "openrouter" (ask u))
unfolding is_allowed get_circuit_breaker lookup
request_with_retry_lem_example =
    request_with_retry_lem provider "openrouter" ask tenacity 2 0 1 world tenacity-IsTenacity refl

breaker-request_with_retry_example :
    (breaker provider "openrouter"
        (request_with_retry provider tenacity 2 0 1 "openrouter" ask world).1
      ≡ told provider "openrouter" ask 1
          (request_with_retry provider tenacity 2 0 1 "openrouter" ask world).0
          init)
    × ((true ≡ true)
        ⊎ (is_err (request_with_retry provider tenacity 2 0 1 "openrouter" ask world).0 ≡ true)
          × ((request_with_retry provider tenacity 2 0 1 "openrouter" ask world).1.net ≡ 0))
unfolding is_allowed request_with_retry get_circuit_breaker record_success lookup
breaker-request_with_retry_example =
    breaker-request_with_retry provider "openrouter" ask tenacity 2 0 1 world tenacity-IsTenacity (
      breakers-execute provider "Unable to parse LLM response payload."
        (extract_message_text builtins.repr)
        (record {
          endpoint = "e";
          headers = [];
          params = [];
          model = "m";
          max_tokens = 1;
          prompt = "p";
        }))

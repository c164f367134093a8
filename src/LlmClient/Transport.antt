-- ===== src/LlmClient/Transport.antt =====
-- What services/llm_client.py takes from httpx and tenacity, and the state of its module.
use inference_control_plane.Prelude.{ℕ, zero, suc, String, Bool, List, ◌≡◌, if◌then◌else◌}
use inference_control_plane.Python.{Exc, Result, ok, err}
use inference_control_plane.Python.Json.{Json}
use inference_control_plane.Python.Exec.{Exec}
use inference_control_plane.LlmClient.Breaker.{Breakers}

-- One `POST`: the address, the headers, the query, and the body `{model, max_tokens, messages}`
-- with one message of the user.
pub record HttpRequest : Type 0 where
  pub endpoint : String
  pub headers : List (String × String)
  pub params : List (String × String)
  pub model : String
  pub max_tokens : ℕ
  pub prompt : String

-- httpx and the provider behind it: `client.post(…)`, `raise_for_status()` and `json()`, which
-- give the decoded body or raise.
pub record Transport : Type 1 where
  pub State : Type 0
  pub exchange : HttpRequest → Exec State Json

-- `_shared_client is not None`, `_circuit_breakers`, and what the provider has seen.
pub record World (T : Transport) : Type 0 where
  pub client : Bool
  pub breakers : Breakers
  pub net : T.State

-- `AsyncRetrying(retry=retry_if_exception_type(…), stop=stop_after_attempt(n), reraise=True)`
-- run over an action. The waits between attempts change no state.
pub record Retryer (W : Type 0) : Type 0 where
  pub run : (Exc → Bool) → ℕ → Exec W String → Exec W String

-- After an attempt: a result ends the loop, an exception that is not to be retried leaves it, and
-- so does the exception of the last attempt.
abbrev pub attempted :
    {W : Type 0} → (Exc → Bool) → ℕ → Exec W String → Result String × W → Result String × W
attempted p n rest (ok a, w) = (ok a, w)
attempted p zero rest (err e, w) = (err e, w)
attempted p (suc n) rest (err e, w) = if p e then rest w else (err e, w)

-- Tenacity's documented behaviour.
pub record IsTenacity {W : Type 0} (R : Retryer W) : Type 0 where
  pub run-suc :
      (p : Exc → Bool) (n : ℕ) (f : Exec W String) (w : W)
      → R.run p (suc n) f w ≡ attempted p n (R.run p n f) (f w)

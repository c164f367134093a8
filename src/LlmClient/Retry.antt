-- ===== src/LlmClient/Retry.antt =====
-- One attempt at a provider, and the retry loop behind the circuit breaker, in
-- services/llm_client.py.
pub mod Attempts
pub mod Accounting
use inference_control_plane.Prelude.{
  ℕ, suc, String, Bool, true, false, not, ◌<>◌, ltb, leb, ◌&&◌, show, if◌then◌else◌,
}
use inference_control_plane.Prelude.Dict.{insert, lookup}
use inference_control_plane.Python.{
  Exc, builtin, type_error, value_error, key_error, index_error, timeout_exception,
  http_status_error, request_error, llm_client_error, llm_client_retryable_error,
  llm_client_timeout_error, circuit_breaker_open_error, is_llm_client_error, is_retryable, Result,
  ok, err, ◌>>=◌,
}
use inference_control_plane.Python.Exec.{Exec, continue, catch}
use inference_control_plane.Python.Json.{Json}
use inference_control_plane.LlmClient.Breaker.{
  CircuitBreaker, get_circuit_breaker, is_allowed, record_success, record_failure,
}
use inference_control_plane.LlmClient.Transport.{HttpRequest, Transport, World, Retryer}

-- The branches of `_coerce_retryable_error`, in the order of its tests.
unfoldable pub coerce_retryable_error : Exc → Exc
coerce_retryable_error (timeout_exception _) = llm_client_timeout_error "LLM request timed out."
coerce_retryable_error (http_status_error status _) =
    if leb 500 status && ltb status 600
    then llm_client_retryable_error "LLM provider returned a server error."
    else llm_client_error ("LLM provider returned status " <> show status <> ".")
coerce_retryable_error (request_error _) =
    llm_client_retryable_error "LLM request failed due to a network error."
coerce_retryable_error exc =
    if is_llm_client_error exc then exc else llm_client_error "LLM request failed unexpectedly."

-- The two `except` clauses of `_execute`; `parse` is the message of the second. An exception that
-- neither names goes on.
unfoldable pub translate : String → Exc → Exc
unfolding coerce_retryable_error
translate parse (timeout_exception m) = coerce_retryable_error (timeout_exception m)
translate parse (http_status_error s m) = coerce_retryable_error (http_status_error s m)
translate parse (request_error m) = coerce_retryable_error (request_error m)
translate parse (builtin value_error _) = llm_client_error parse
translate parse (builtin key_error _) = llm_client_error parse
translate parse (builtin index_error _) = llm_client_error parse
translate parse (builtin type_error _) = llm_client_error parse
translate parse exc = if is_llm_client_error exc then llm_client_error parse else exc

module _ (T : Transport) where
  -- `_get_client`, then the exchange
  post : HttpRequest → Exec (World T) Json
  post request w =
      if w.client
      then (let (r, net) = T.exchange request w.net in (r, record w { net = net }))
      else (err (llm_client_error "HTTP client is not initialized."), w)

  -- `_execute`: one attempt
  unfoldable pub execute : String → (Json → Result String) → HttpRequest → Exec (World T) String
  unfolding post translate
  execute parse extract request w =
      catch (continue (post request w) (λ payload w'. (extract payload, w')))
        (λ exc w'. (err (translate parse exc), w'))

  -- The registry hands out one shared object for each provider: a change to it is a write here.
  abbrev pub store : String → CircuitBreaker → World T → World T
  store provider cb w = record w { breakers = insert provider cb w.breakers }

  abbrev pub breaker : String → World T → CircuitBreaker
  breaker provider w = (get_circuit_breaker provider w.breakers).0

  -- What the loop runs: the attempt, and `record_success` behind it.
  unfoldable pub attempt : String → Exec (World T) String → Exec (World T) String
  attempt provider request_fn w =
      continue (request_fn w)
        (λ result w'. (ok result, store provider (record_success (breaker provider w')) w'))

  -- The handler behind the loop.
  unfoldable pub record_and_raise : ℕ → String → Exc → Exec (World T) String
  record_and_raise later provider exc w =
      (err exc, store provider (record_failure later (breaker provider w)) w)

  -- `now` is the time that `is_allowed` reads, `later` the one that `record_failure` reads. The
  -- statement behind the loop is not reached: the loop returns or raises.
  unfoldable pub request_with_retry :
      Retryer (World T) → ℕ → ℕ → ℕ → String → Exec (World T) String → Exec (World T) String
  unfolding attempt record_and_raise
  request_with_retry R max_retries now later provider request_fn w =
      let (allowed, cb) = is_allowed now (breaker provider w) in
      let w' = store provider cb w in
      if allowed
      then catch (R.run is_retryable (suc max_retries) (attempt provider request_fn) w')
          (record_and_raise later provider)
      else (
        err (
            circuit_breaker_open_error
              ("Circuit breaker for " <> provider <> " is OPEN. Fast failing request.")),
        w',
      )

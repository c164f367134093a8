-- ===== src/LlmClient/Breaker.antt =====
-- The circuit breaker of services/llm_client.py, and the registry of breakers by provider. A time
-- is the reading of `time.time()` in microseconds.
pub mod Tripping
use inference_control_plane.Prelude.{
  ℕ, ◌+◌, ◌-◌, String, Bool, true, false, none, some, ltb, leb, if◌then◌else◌,
}
use inference_control_plane.Prelude.Dict.{Dict, lookup, insert}

pub data State : Type 0 where
  closed opened half_open : State

pub record CircuitBreaker : Type 0 where
  pub failure_threshold : ℕ
  pub recovery_timeout : ℕ
  pub failure_count : ℕ
  pub last_failure_time : ℕ
  pub state : State

-- `CircuitBreaker()`, with the default threshold and the default timeout of 30 seconds.
abbrev pub init : CircuitBreaker
init = record {
  failure_threshold = 5;
  recovery_timeout = 30_000_000;
  failure_count = 0;
  last_failure_time = 0;
  state = closed;
}

unfoldable pub record_failure : ℕ → CircuitBreaker → CircuitBreaker
record_failure now cb =
    let count = cb.failure_count + 1 in
    record cb {
      failure_count = count;
      last_failure_time = now;
      state = if leb cb.failure_threshold count then opened else cb.state;
    }

unfoldable pub record_success : CircuitBreaker → CircuitBreaker
record_success cb = record cb { failure_count = 0; state = closed }

allowed_in : State → ℕ → CircuitBreaker → Bool × CircuitBreaker
allowed_in closed now cb = (true, cb)
allowed_in opened now cb =
    if ltb cb.recovery_timeout (now - cb.last_failure_time)
    then (true, record cb { state = half_open })
    else (false, cb)
allowed_in half_open now cb = (true, cb)

unfoldable pub is_allowed : ℕ → CircuitBreaker → Bool × CircuitBreaker
unfolding allowed_in
is_allowed now cb = allowed_in cb.state now cb

-- `_circuit_breakers`
abbrev pub Breakers : Type 0
Breakers = Dict CircuitBreaker

-- The breaker of a provider, which is made on its first use, and the registry after the call.
unfoldable pub get_circuit_breaker : String → Breakers → CircuitBreaker × Breakers
get_circuit_breaker provider breakers = elim (lookup provider breakers) [
  | none ↦ (init, insert provider init breakers)
  | some cb ↦ (cb, breakers)
]

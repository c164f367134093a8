-- ===== src/Python.antt =====
-- The Python runtime as the program meets it: floats, decoded JSON, exceptions, and actions that
-- change a state and may raise.
pub mod Json
pub mod Exec
pub mod Builtins
use inference_control_plane.Prelude.{ℕ, String, Bool, true, false, Option, List, ◌<>◌, show}

-- A binary64 number, by its bit pattern.
pub data Float : Type 0 where
  of_bits : ℕ → Float

-- Python's arithmetic on floats. `of_nat` is the conversion of an `int`, and `round x n` rounds to
-- `n` decimals. `truncate` is `int(x)` of a float that is finite and not negative. `true_div m n` is
-- `m / n` on integers with `n` not 0, and none where that raises an `OverflowError`.
pub record FloatOps : Type 0 where
  pub of_nat : ℕ → Float
  pub add : Float → Float → Float
  pub sub : Float → Float → Float
  pub mul : Float → Float → Float
  pub div : Float → Float → Float
  pub true_div : ℕ → ℕ → Option Float
  pub lt : Float → Float → Bool
  pub le : Float → Float → Bool
  pub round : Float → ℕ → Float
  pub is_finite : Float → Bool
  pub is_integer : Float → Bool
  pub truncate : Float → ℕ

pub data Builtin : Type 0 where
  type_error value_error key_error index_error attribute_error zero_division_error runtime_error
        other :
      Builtin

-- The exceptions that meet in the request path, each with its `str(exc)`: Python's own, those of
-- httpx, those of services/llm_client.py, and FastAPI's `HTTPException`.
pub data Exc : Type 0 where
  builtin : Builtin → String → Exc
  timeout_exception : String → Exc
  http_status_error : ℕ → String → Exc
  request_error : String → Exc
  llm_client_error : String → Exc
  llm_client_retryable_error : String → Exc
  llm_client_timeout_error : String → Exc
  circuit_breaker_open_error : String → Exc
  http_exception : ℕ → String → List (String × String) → Exc

-- `str(exc)`
abbrev pub message : Exc → String
message (builtin _ m) = m
message (timeout_exception m) = m
message (http_status_error _ m) = m
message (request_error m) = m
message (llm_client_error m) = m
message (llm_client_retryable_error m) = m
message (llm_client_timeout_error m) = m
message (circuit_breaker_open_error m) = m
message (http_exception status detail _) = show status <> ": " <> detail

pub data Result {ℓ} (A : Type ℓ) : Type ℓ where
  ok : A → Result A
  err : Exc → Result A

infixl 5 ◌>>=◌
abbrev pub ◌>>=◌ {ℓ κ} : {A : Type ℓ} {B : Type κ} → Result A → (A → Result B) → Result B
ok a >>= f = f a
err e >>= f = err e

-- What is raised, if anything is, has a property.
abbrev pub Raises : {A : Type 0} → (Exc → Type 0) → Result A → Type 0
Raises P (ok _) = Unit {0}
Raises P (err e) = P e

-- A call that ended by an exception.
abbrev pub is_err {ℓ} : {A : Type ℓ} → Result A → Bool
is_err (ok _) = false
is_err (err _) = true

-- `isinstance(exc, LLMClientError)`
abbrev pub is_llm_client_error : Exc → Bool
is_llm_client_error (llm_client_error _) = true
is_llm_client_error (llm_client_retryable_error _) = true
is_llm_client_error (llm_client_timeout_error _) = true
is_llm_client_error (circuit_breaker_open_error _) = true
is_llm_client_error _ = false

-- `isinstance(exc, LLMClientRetryableError)`
abbrev pub is_retryable : Exc → Bool
is_retryable (llm_client_retryable_error _) = true
is_retryable (llm_client_timeout_error _) = true
is_retryable _ = false

-- `isinstance(exc, HTTPException)`
abbrev pub is_http_exception : Exc → Bool
is_http_exception (http_exception _ _ _) = true
is_http_exception _ = false

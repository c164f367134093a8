-- ===== src/Cache.antt =====
-- services/cache.py. `connected` is `redis_client is not None`.
pub mod RoundTrip
use inference_control_plane.Prelude.{
  ℕ, String, Bool, true, false, Option, none, some, ◌<>◌, if◌then◌else◌,
}
use inference_control_plane.Prelude.Int.{ℤ}
use inference_control_plane.Python.{Float, Result, ok, err, ◌>>=◌}
use inference_control_plane.Python.Json.{Json, int, float, str, obj, end, field}
use inference_control_plane.Python.Builtins.{Builtins, JsonCodec, item, py_int, py_float}
use inference_control_plane.LlmClient.Payload.{py_str}
use inference_control_plane.Redis.{Redis}

pub record CachedResponse : Type 0 where
  pub response : String
  pub model_used : String
  pub tokens : ℤ
  pub cost : Float

-- `_cache_key`
unfoldable pub cache_key : Builtins → String → String → String
cache_key b prompt model = "cache:inference:" <> b.sha256 (model <> ":" <> prompt)

-- The response in a decoded payload.
unfoldable pub response_of : Builtins → Json → Result CachedResponse
unfolding item py_int py_float py_str
response_of b payload = do
  response ← item payload "response"
  model_used ← item payload "model_used"
  tokens ← item payload "tokens"
  tokens_int ← py_int b tokens
  cost ← item payload "cost"
  cost_float ← py_float b cost
  ok (record {
    response = py_str b.repr response;
    model_used = py_str b.repr model_used;
    tokens = tokens_int;
    cost = cost_float;
  })

-- `except Exception: return None`
abbrev pub or_none {ℓ} : {A : Type ℓ} → Result A → Option A
or_none (ok a) = some a
or_none (err _) = none

-- The payload that is stored.
abbrev pub payload_of : CachedResponse → Json
payload_of c = obj (
    field "response" (str c.response) (
      field "model_used" (str c.model_used)
        (field "tokens" (int c.tokens) (field "cost" (float c.cost) end))))

module _ (b : Builtins) (J : JsonCodec) (R : Redis J.Text) where
  -- What is made of the answer of `GET`.
  unfoldable pub decode : Result (Option J.Text) → Option CachedResponse
  unfolding response_of
  decode (err _) = none
  decode (ok none) = none
  decode (ok (some raw)) =
      if J.is_blank raw then none else or_none (do payload ← J.loads raw; response_of b payload)

  unfoldable pub get_cached_response :
      Bool → String → String → R.State → Option CachedResponse × R.State
  unfolding decode cache_key
  get_cached_response connected prompt model s =
      if connected
      then (let (raw, s') = R.get (cache_key b prompt model) s in (decode raw, s'))
      else (none, s)

  unfoldable pub set_cached_response :
      Bool → String → String → CachedResponse → ℕ → R.State → R.State
  unfolding cache_key
  set_cached_response connected prompt model response ttl_seconds s =
      if connected
      then (R.set (cache_key b prompt model) (J.dumps (payload_of response)) ttl_seconds s).1
      else s

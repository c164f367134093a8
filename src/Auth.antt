-- ===== src/Auth.antt =====
-- services/auth.py, and `extract_api_key` of core/security.py. `connected` is
-- `redis_client is not None`.
pub mod Validation
use inference_control_plane.Prelude.{
  ℕ, String, Bool, true, false, Option, none, some, [], ◌<>◌, ◌==◌, is_empty, if◌then◌else◌,
}
use inference_control_plane.Prelude.Int.{ℤ, pos}
use inference_control_plane.Python.{Exc, http_exception, Result, ok, err, ◌>>=◌}
use inference_control_plane.Python.Exec.{Exec, continue}
use inference_control_plane.Python.Json.{Json, bool, int, str, obj, end, field, truthy, get_or}
use inference_control_plane.Python.Builtins.{Builtins, JsonCodec, item, py_int}
use inference_control_plane.Redis.{Redis}
use inference_control_plane.Schemas.{ApiKey}
use inference_control_plane.Settings.{Settings}

-- The tenant and the role may come from decoded JSON, which the program does not convert.
pub record AuthContext : Type 0 where
  pub tenant_id : Json
  pub api_key_hash : String
  pub rate_limit_per_minute : ℤ
  pub role : Json

-- `_auth_cache_key`
abbrev pub auth_cache_key : String → String
auth_cache_key api_key_hash = "auth:key:" <> api_key_hash

-- `hash_api_key`
abbrev pub hash_api_key : Builtins → String → String
hash_api_key b api_key = b.sha256 api_key

-- `extract_api_key`
unfoldable pub extract_api_key : Option String → Result String
extract_api_key none = err (http_exception 401 "Missing API key. Provide x-api-key header." [])
extract_api_key (some key) =
    if is_empty key
    then err (http_exception 401 "Missing API key. Provide x-api-key header." [])
    else ok key

abbrev pub invalid : Exc
invalid = http_exception 401 "Invalid API key." []

-- The context of a key that the database knows.
abbrev pub context_of : ApiKey → AuthContext
context_of k = record {
  tenant_id = str k.tenant_id;
  api_key_hash = k.key_hash;
  rate_limit_per_minute = k.rate_limit_per_minute;
  role = str k.role;
}

-- The payload that is stored for a key.
abbrev pub key_payload : ApiKey → Json
key_payload k = obj (
    field "tenant_id" (str k.tenant_id) (
      field "rate_limit_per_minute" (int k.rate_limit_per_minute)
        (field "is_active" (bool k.is_active) (field "role" (str k.role) end))))

-- The context in a decoded payload, if it says that the key is active.
unfoldable pub context_in : Builtins → String → Json → Result (Option AuthContext)
unfolding item py_int truthy get_or
context_in b api_key_hash payload = do
  active ← get_or payload "is_active" (bool false)
  if truthy active
      then (do
        tenant_id ← item payload "tenant_id"
        limit ← item payload "rate_limit_per_minute"
        limit_int ← py_int b limit
        role ← get_or payload "role" (str "tenant")
        ok (
            some (record {
              tenant_id = tenant_id;
              api_key_hash = api_key_hash;
              rate_limit_per_minute = limit_int;
              role = role;
            })))
      else ok none

-- The context of the public key, which is written into the program.
abbrev pub public_context : Builtins → AuthContext
public_context b = record {
  tenant_id = str "public-guest";
  api_key_hash = hash_api_key b "public-demo-key";
  rate_limit_per_minute = pos 20;
  role = str "admin";
}

-- The cached context that is used, if loading it neither fails nor raises.
abbrev pub usable : Result (Option AuthContext) → Option AuthContext
usable (ok c) = c
usable (err _) = none

module _ (b : Builtins) (J : JsonCodec) (R : Redis J.Text) where
  -- What is made of the answer of `GET`.
  unfoldable pub decode_context : String → Option J.Text → Result (Option AuthContext)
  unfolding context_in
  decode_context api_key_hash none = ok none
  decode_context api_key_hash (some cached) =
      if J.is_blank cached
      then ok none
      else (do payload ← J.loads cached; context_in b api_key_hash payload)

  -- `_load_cached_auth_context`
  unfoldable pub load_cached_auth_context : String → Exec R.State (Option AuthContext)
  unfolding decode_context
  load_cached_auth_context api_key_hash s =
      continue (R.get (auth_cache_key api_key_hash) s)
        (λ cached s'. (decode_context api_key_hash cached, s'))

  -- `_store_cached_auth_context`
  unfoldable pub store_cached_auth_context : Settings → ApiKey → Exec R.State (Unit {0})
  store_cached_auth_context settings key =
      R.set (auth_cache_key key.key_hash) (J.dumps (key_payload key))
        settings.auth_cache_ttl_seconds

  -- What follows the query.
  check_record : Settings → Bool → Result (Option ApiKey) → Exec R.State AuthContext
  unfolding store_cached_auth_context
  check_record settings connected (err e) s = (err e, s)
  check_record settings connected (ok none) s = (err invalid, s)
  check_record settings connected (ok (some key)) s =
      if key.is_active
      then (
        ok (context_of key),
        (if connected then (store_cached_auth_context settings key s).1 else s),
      )
      else (err invalid, s)

  -- `find` is the query `select(APIKey).where(APIKey.key_hash == …)`.
  from_cache_or :
      Settings → Bool → Result (Option ApiKey) → Option AuthContext → Exec R.State AuthContext
  unfolding check_record
  from_cache_or settings connected found (some context) s = (ok context, s)
  from_cache_or settings connected found none s = check_record settings connected found s

  unfoldable pub validate_api_key :
      Settings → (String → Result (Option ApiKey)) → Bool → String → Exec R.State AuthContext
  unfolding from_cache_or load_cached_auth_context
  validate_api_key settings find connected api_key s =
      let api_key_hash = hash_api_key b api_key in
      if api_key == "public-demo-key"
      then (ok (public_context b), s)
      else if connected
      then (let (cached, s') = load_cached_auth_context api_key_hash s in
          from_cache_or settings connected (find api_key_hash) (usable cached) s')
      else check_record settings connected (find api_key_hash) s

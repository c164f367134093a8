-- ===== src/Auth/Validation.antt =====
-- Whom services/auth.py lets in.
use inference_control_plane.Prelude.{
  String, Bool, true, false, Option, none, some, ◌≡◌, ◌∙◌, refl, if◌then◌else◌, ◌==◌, inl, inr,
  arith, eq_refl, Bool-cases,
}
use inference_control_plane.Python.{Result, ok, err}
use inference_control_plane.Python.Builtins.{Builtins, JsonCodec, IsLossless, item, py_int}
use inference_control_plane.Python.Json.{truthy, get_or}
use inference_control_plane.Redis.{Redis, IsReliable}
use inference_control_plane.Schemas.{ApiKey}
use inference_control_plane.Settings.{Settings}
use inference_control_plane.Auth.{
  AuthContext, auth_cache_key, hash_api_key, invalid, context_of, key_payload, context_in,
  public_context, usable, decode_context, load_cached_auth_context, store_cached_auth_context,
  check_record, from_cache_or, validate_api_key,
}

-- What the database says of a key.
abbrev pub verdict : Result (Option ApiKey) → Result AuthContext
verdict (err e) = err e
verdict (ok none) = err invalid
verdict (ok (some key)) = if key.is_active then ok (context_of key) else err invalid

-- The context that a validation finds in the cache.
abbrev pub cached_or : Result AuthContext → Option AuthContext → Result AuthContext
cached_or r none = r
cached_or r (some c) = ok c

module _ (b : Builtins) (J : JsonCodec) (R : Redis J.Text) (settings : Settings) where
  check_record-verdict :
      (connected : Bool) (found : Result (Option ApiKey)) (s : R.State)
      → (check_record b J R settings connected found s).0 ≡ verdict found
  unfolding check_record
  check_record-verdict connected (err e) s = refl
  check_record-verdict connected (ok none) s = refl
  check_record-verdict connected (ok (some key)) s = ground arith

  from_cache_or-verdict :
      (connected : Bool) (found : Result (Option ApiKey)) (c : Option AuthContext) (s : R.State)
      → (from_cache_or b J R settings connected found c s).0 ≡ cached_or (verdict found) c
  unfolding from_cache_or
  from_cache_or-verdict connected found none s = check_record-verdict connected found s
  from_cache_or-verdict connected found (some c) s = refl

  -- The outcome of a validation, whatever Redis does: the public key gets the public context, which is
  -- that of an administrator. Any other key gets the context in the cache, if Redis is connected and
  -- loading it gives one, and otherwise what the database says of its hash: 401 for an unknown and an
  -- inactive key, the record's context for an active one, and the database's own exception. An
  -- exception of Redis or of the decoder is never the outcome.
  pub validate_api_key-verdict :
      (find : String → Result (Option ApiKey)) (connected : Bool) (key : String) (s : R.State)
      → (validate_api_key b J R settings find connected key s).0 ≡ (
          if key == "public-demo-key"
          then ok (public_context b)
          else cached_or (verdict (find (hash_api_key b key))) (
              if connected
              then usable (load_cached_auth_context b J R (hash_api_key b key) s).0
              else none))
  unfolding validate_api_key
  validate_api_key-verdict find connected key s = elim (Bool-cases (key == "public-demo-key")) [
    | inl e ↦ simp e
    | inr e ↦ elim (Bool-cases connected) [
      | inl up ↦ simp (
        e,
        up,
        from_cache_or-verdict true (find (hash_api_key b key))
            (usable (load_cached_auth_context b J R (hash_api_key b key) s).0)
            (load_cached_auth_context b J R (hash_api_key b key) s).1,
      )
      | inr down ↦ simp (e, down, check_record-verdict false (find (hash_api_key b key)) s)
    ]
  ]

  module _ (lossless : IsLossless J) (reliable : IsReliable R) where
    open reliable use {value, get_lem, value-set}

    loaded-payload :
        (hash : String) (k : ApiKey) (s : R.State)
        → value s (auth_cache_key hash) ≡ some (J.dumps (key_payload k))
        → k.is_active ≡ true
        → k.key_hash ≡ hash
        → (load_cached_auth_context b J R hash s).0 ≡ ok (some (context_of k))
    unfolding load_cached_auth_context decode_context context_in truthy get_or item py_int
    loaded-payload hash k s stored active same =
        simp (get_lem, stored, lossless.dumps-full, lossless.loads-dumps, active, same)

    loaded-fresh :
        (hash : String) (s : R.State)
        → value s (auth_cache_key hash) ≡ none
        → load_cached_auth_context b J R hash s ≡ (ok none, s)
    unfolding load_cached_auth_context decode_context
    loaded-fresh hash s fresh = simp (get_lem, fresh)

    stored :
        (find : String → Result (Option ApiKey)) (key : String) (k : ApiKey) (s : R.State)
        → (key == "public-demo-key") ≡ false
        → value s (auth_cache_key (hash_api_key b key)) ≡ none
        → find (hash_api_key b key) ≡ ok (some k)
        → k.is_active ≡ true
        → k.key_hash ≡ hash_api_key b key
        → value
            (validate_api_key b J R settings find true key s).1
            (auth_cache_key (hash_api_key b key))
          ≡ some (J.dumps (key_payload k))
    unfolding validate_api_key from_cache_or check_record store_cached_auth_context
    stored find key k s other fresh found active same =
        simp (
          other,
          loaded-fresh (hash_api_key b key) s fresh,
          found,
          active,
          same,
          value-set,
          eq_refl,
        )

    -- On a server that answers and with a lossless codec, let a key that is not the public one be
    -- found in the database as active and with its own hash, with no cached entry. The validation
    -- gives the record's context, and a second one after it gives the same context whatever the
    -- database says by then, also if the key is gone or inactive.
    pub validate_api_key-again :
        (find later : String → Result (Option ApiKey)) (key : String) (record_found : ApiKey)
        (s : R.State)
        → (key == "public-demo-key") ≡ false
        → value s (auth_cache_key (hash_api_key b key)) ≡ none
        → find (hash_api_key b key) ≡ ok (some record_found)
        → record_found.is_active ≡ true
        → record_found.key_hash ≡ hash_api_key b key
        → ((validate_api_key b J R settings find true key s).0 ≡ ok (context_of record_found))
          × ((validate_api_key b J R settings later true key
                (validate_api_key b J R settings find true key s).1).0
              ≡ ok (context_of record_found))
    validate_api_key-again find later key record_found s other fresh found active same = (
      validate_api_key-verdict find true key s
          ∙ simp (other, found, active, loaded-fresh (hash_api_key b key) s fresh),
      validate_api_key-verdict later true key (validate_api_key b J R settings find true key s).1
          ∙ simp (
            other,
            loaded-payload (hash_api_key b key) record_found
                (validate_api_key b J R settings find true key s).1
                (stored find key record_found s other fresh found active same) active same,
          ),
    )

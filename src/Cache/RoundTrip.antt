-- ===== src/Cache/RoundTrip.antt =====
-- What services/cache.py gives back of what it has stored, and for which keys.
use inference_control_plane.Prelude.{
  ℕ, String, true, some, ◌<>◌, ◌==◌, ◌≡◌, ap, ◌∙◌, Bool-cases, inl, inr, if◌then◌else◌,
}
use text.Mathlib.TextLemmas.{append_assoc}
use inference_control_plane.Python.{ok}
use inference_control_plane.Python.Builtins.{Builtins, JsonCodec, IsLossless}
use inference_control_plane.Redis.{Redis, IsReliable}
use inference_control_plane.Cache.{
  CachedResponse, cache_key, payload_of, decode, get_cached_response, set_cached_response,
}

module _ (b : Builtins) where
  module _ (J : JsonCodec) (R : Redis J.Text) (lossless : IsLossless J) where
    pub decode-dumps :
        (c : CachedResponse) → decode b J R (ok (some (J.dumps (payload_of c)))) ≡ some c
    unfolding decode
    decode-dumps c = simp (lossless.dumps-full (payload_of c), lossless.loads-dumps (payload_of c))

    module _ (reliable : IsReliable R) where
      open reliable use {value, get_lem, value-set}

      -- On a server that answers and with a lossless codec, a look into the cache after a response
      -- was stored finds that response, with all its fields, if the two keys are the same, and
      -- otherwise what it found before.
      pub get-set :
          (prompt model other other_model : String) (c : CachedResponse) (ttl : ℕ) (s : R.State)
          → (get_cached_response b J R true prompt model
              (set_cached_response b J R true other other_model c ttl s)).0
            ≡ (if cache_key b prompt model == cache_key b other other_model
                then some c
                else (get_cached_response b J R true prompt model s).0)
      unfolding get_cached_response set_cached_response
      get-set prompt model other other_model c ttl s =
          elim (Bool-cases (cache_key b prompt model == cache_key b other other_model)) [
            | inl e ↦ simp (get_lem, value-set, e, decode-dumps c)
            | inr e ↦ simp (get_lem, value-set, e)
          ]

-- A model that ends in a colon and a text has, for any prompt, the cache key of the shorter model
-- for the prompt that begins with that text and a colon.
pub cache_key_collides :
    (b : Builtins) (model x prompt : String)
    → cache_key b prompt (model <> ":" <> x) ≡ cache_key b (x <> ":" <> prompt) model
unfolding cache_key
cache_key_collides b model x prompt =
    ap (λ t. "cache:inference:" <> b.sha256 t)
      (append_assoc model (":" <> x) (":" <> prompt)
        ∙ ap (λ t. model <> t) (append_assoc ":" x (":" <> prompt)))

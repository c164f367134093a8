-- ===== src/Tests/Services.antt =====
-- Runs of the cache, the authentication and the router.
use inference_control_plane.Prelude.{◌≡◌, refl, true, false, none, some}
use inference_control_plane.Prelude.Int.{pos}
use inference_control_plane.Python.{of_bits, ok, err}
use inference_control_plane.Python.Json.{Json}
use inference_control_plane.Redis.Memory.{memory-IsReliable, empty}
use inference_control_plane.Cache.{
  CachedResponse, cache_key, get_cached_response, set_cached_response,
}
use inference_control_plane.Cache.RoundTrip.{get-set, cache_key_collides}
use inference_control_plane.Auth.{invalid, context_of, validate_api_key}
use inference_control_plane.Auth.Validation.{validate_api_key-verdict, validate_api_key-again}
use inference_control_plane.Tests.Fixtures.{
  builtins, codec, codec-IsLossless, server, settings, key_record,
}

abbrev response : CachedResponse
response = record { response = "r"; model_used = "m"; tokens = pos 3; cost = of_bits 1 }

-- The same key.
get-set_example :
    (get_cached_response builtins codec server true "p" "m"
      (set_cached_response builtins codec server true "p" "m" response 60 (empty Json))).0
    ≡ some response
unfolding cache_key
get-set_example =
    get-set builtins codec server codec-IsLossless (memory-IsReliable Json) "p" "m" "p" "m" response
      60 (empty Json)

cache_key_collides_example :
    cache_key builtins "y" "default:cheap:x" ≡ cache_key builtins "x:y" "default:cheap"
cache_key_collides_example = cache_key_collides builtins "default:cheap" "x" "y"

-- A key that the database does not know.
validate_api_key-verdict_example :
    (validate_api_key builtins codec server settings
      (λ hash. ok none)
      false
      "secret"
      (empty Json)).0
    ≡ err invalid
validate_api_key-verdict_example =
    validate_api_key-verdict builtins codec server settings (λ hash. ok none) false "secret"
      (empty Json)

-- A key that the database forgets.
validate_api_key-again_example :
    ((validate_api_key builtins codec server settings
        (λ hash. ok (some key_record))
        true
        "secret"
        (empty Json)).0
      ≡ ok (context_of key_record))
    × ((validate_api_key builtins codec server settings
          (λ hash. ok none)
          true
          "secret"
          (validate_api_key builtins codec server settings
            (λ hash. ok (some key_record))
            true
            "secret"
            (empty Json)).1).0
        ≡ ok (context_of key_record))
validate_api_key-again_example =
    validate_api_key-again builtins codec server settings codec-IsLossless (memory-IsReliable Json)
      (λ hash. ok (some key_record)) (λ hash. ok none) "secret" key_record (empty Json) refl refl
      refl refl refl

-- ===== src/RateLimiter.antt =====
-- services/rate_limiter.py. `connected` is `redis_client is not None`, `now` the reading of
-- `time.time()` in whole seconds.
pub mod Decisions
pub mod Window
use inference_control_plane.Prelude.{
  ℕ, zero, suc, ◌/◌, String, Bool, true, false, not, ◌<>◌, show, if◌then◌else◌,
}
use inference_control_plane.Prelude.Int.{ℤ, pos, negsuc, leb_ℤ, max_ℤ, ◌-ℤ◌}
use inference_control_plane.Python.{Exc, builtin, zero_division_error, Result, ok, err}
use inference_control_plane.Python.Exec.{Exec, continue, catch}
use inference_control_plane.Redis.{Redis}

pub record RateLimitResult : Type 0 where
  pub allowed : Bool
  pub remaining : ℤ
  pub retry_after_seconds : ℤ

-- `_bucket_key`
unfoldable pub bucket_key : String → String → ℕ → ℕ → Result String
bucket_key scope identifier zero now =
    err (builtin zero_division_error "integer division or modulo by zero")
bucket_key scope identifier (suc n) now =
    ok ("rate:" <> scope <> ":" <> identifier <> ":" <> show (now / suc n))

-- The answer without a server, and that of the `except` clause.
abbrev pub unlimited : ℤ → RateLimitResult
unlimited limit = record { allowed = true; remaining = limit; retry_after_seconds = pos 0 }

-- The answer from a count and a remaining time.
unfoldable pub decide : ℤ → ℤ → ℤ → RateLimitResult
decide limit count ttl =
    let allowed = leb_ℤ count limit in
    record {
      allowed = allowed;
      remaining = max_ℤ (limit -ℤ count) (pos 0);
      retry_after_seconds = if not allowed then max_ℤ ttl (pos 1) else pos 0;
    }

abbrev pub is_one : ℤ → Bool
is_one (pos (suc zero)) = true
is_one _ = false

module _ {Text : Type 0} (R : Redis Text) where
  -- The `try` block, on a key.
  unfoldable pub count_request : String → ℤ → ℕ → Exec R.State RateLimitResult
  unfolding decide
  count_request key limit window s = continue (R.incr_ttl key s) (λ (count, ttl) s'.
      if is_one count
      then continue (R.expire key window s') (λ _ s''. (ok (decide limit count (pos window)), s''))
      else (ok (decide limit count ttl), s'))

  unfoldable pub check_rate_limit :
      Bool → String → String → ℤ → ℕ → ℕ → Exec R.State RateLimitResult
  unfolding bucket_key count_request
  check_rate_limit connected scope identifier limit window now s =
      if connected
      then continue (bucket_key scope identifier window now, s)
          (λ key s'.
            catch (count_request key limit window s') (λ _ s''. (ok (unlimited limit), s'')))
      else (ok (unlimited limit), s)

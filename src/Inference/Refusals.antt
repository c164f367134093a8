-- ===== src/Inference/Refusals.antt =====
-- When `_enforce_rate_limits` of services/inference.py refuses a request.
use inference_control_plane.Prelude.{
  ℕ, zero, suc, ◌<>◌, String, Bool, true, false, ◌≡◌, ◌⊎◌, inl, inr, refl, Bool-cases,
}
use inference_control_plane.Prelude.Int.{ℤ}
use inference_control_plane.Python.{Exc, Result, ok, err, Raises}
use inference_control_plane.Python.Exec.{Exec, continue, catch}
use inference_control_plane.Python.Builtins.{Builtins, JsonCodec}
use inference_control_plane.Settings.{Settings}
use inference_control_plane.Redis.{Redis}
use inference_control_plane.RateLimiter.{RateLimitResult, bucket_key, check_rate_limit}
use inference_control_plane.Auth.{AuthContext}
use inference_control_plane.LlmClient.Payload.{py_str}
use inference_control_plane.LlmClient.Transport.{Transport, World, Retryer}
use inference_control_plane.Inference.State.{Readings}
use inference_control_plane.Inference.Handler.{
  Server, too_many, bad_gateway, raised, judge, enforce_rate_limits,
}

pub Raises-of :
    {A : Type 0} (P : Exc → Type 0) (r : Result A) → ((e : Exc) → r ≡ err e → P e) → Raises P r
Raises-of P (ok a) h = tt
Raises-of P (err e) h = h e refl

pub Raises-continue :
    {S A B : Type 0} (P : Exc → Type 0) (x : Result A × S) (f : A → Exec S B)
    → Raises P x.0
    → ((a : A) (s : S) → Raises P (f a s).0)
    → Raises P (continue x f).0
Raises-continue P (ok a, s) f h k = k a s
Raises-continue P (err e, s) f h k = h

pub Raises-mono :
    {A : Type 0} (P Q : Exc → Type 0) (r : Result A)
    → ((e : Exc) → P e → Q e)
    → Raises P r
    → Raises Q r
Raises-mono P Q (ok a) f h = tt
Raises-mono P Q (err e) f h = f e h

-- An exception that is answered by 502.
abbrev pub IsHidden : Exc → Type 0
IsHidden e = raised e ≡ bad_gateway

bucket_key-IsHidden :
    (scope identifier : String) (window now : ℕ)
    → Raises IsHidden (bucket_key scope identifier window now)
unfolding bucket_key
bucket_key-IsHidden scope identifier zero now = refl
bucket_key-IsHidden scope identifier (suc n) now = tt

-- The continuation runs on the value that there is.
Raises-continue_at :
    {S A B : Type 0} (P : Exc → Type 0) (x : Result A) (s : S) (f : A → Exec S B)
    → ((e : Exc) → IsHidden e → P e)
    → Raises IsHidden x
    → ((a : A) → x ≡ ok a → Raises P (f a s).0)
    → Raises P (continue (x, s) f).0
Raises-continue_at P (ok a) s f hide h k = k a refl
Raises-continue_at P (err e) s f hide h k = hide e h

Raises-catch_ok :
    {S A : Type 0} (P : Exc → Type 0) (x : Result A × S) (d : A)
    → Raises P (catch x (λ _ s. (ok d, s))).0
Raises-catch_ok P (ok a, s) d = tt
Raises-catch_ok P (err e, s) d = tt

module _ (b : Builtins) (J : JsonCodec) (R : Redis J.Text) (T : Transport)
    (Y : Retryer (World T)) where
  -- The answer of the limiter for the key, on the Redis of a server.
  abbrev pub key_check :
      AuthContext → Bool → Settings → Readings → R.State → Result RateLimitResult × R.State
  key_check auth connected settings at =
      check_rate_limit R connected "api_key" auth.api_key_hash auth.rate_limit_per_minute
        settings.rate_limit_window_seconds at.key_check

  -- The answer of the limiter for the user, on the Redis that the check of the key leaves.
  abbrev pub user_check :
      AuthContext → String → Bool → Settings → Readings → R.State → Result RateLimitResult × R.State
  user_check auth user_id connected settings at s =
      check_rate_limit R connected "user" (py_str b.repr auth.tenant_id <> ":" <> user_id)
        settings.user_rate_limit_per_minute settings.rate_limit_window_seconds at.user_check
        (key_check auth connected settings at s).1

  -- A refusal is the limiter's own for the key, or, if it admits the key, that for the user.
  abbrev pub IsRefusal : AuthContext → String → Bool → Settings → Readings → R.State → Exc → Type 0
  IsRefusal auth user_id connected settings at s e =
      ((k : RateLimitResult) × ((key_check auth connected settings at s).0 ≡ ok k)
        × (k.allowed ≡ false)
        × (e ≡ too_many "API key rate limit exceeded." k))
      ⊎ ((k : RateLimitResult) × (u : RateLimitResult) × ((key_check auth connected settings at s).0
            ≡ ok k)
          × (k.allowed ≡ true)
          × ((user_check auth user_id connected settings at s).0 ≡ ok u)
          × (u.allowed ≡ false)
          × (e ≡ too_many "User rate limit exceeded." u))

  -- A refusal of the rate limiter, or an exception that is answered by 502.
  abbrev pub IsKnown : AuthContext → String → Bool → Settings → Readings → R.State → Exc → Type 0
  IsKnown auth user_id connected settings at s e =
      (raised e ≡ bad_gateway) ⊎ IsRefusal auth user_id connected settings at s e

  check-IsHidden :
      (connected : Bool) (scope identifier : String) (limit : ℤ) (window now : ℕ) (s : R.State)
      → Raises IsHidden (check_rate_limit R connected scope identifier limit window now s).0
  unfolding check_rate_limit
  check-IsHidden true scope identifier limit window now s =
      Raises-continue IsHidden (bucket_key scope identifier window now, s) _
        (bucket_key-IsHidden scope identifier window now) (λ key s'. Raises-catch_ok IsHidden _ _)
  check-IsHidden false scope identifier limit window now s = tt

  -- What the two checks make of the request.
  judged-IsKnown :
      (auth : AuthContext) (user_id : String) (connected : Bool) (settings : Settings)
      (at : Readings) (s : R.State) (k u : RateLimitResult) (app : Server b J R T Y)
      → (key_check auth connected settings at s).0 ≡ ok k
      → (user_check auth user_id connected settings at s).0 ≡ ok u
      → Raises (IsKnown auth user_id connected settings at s) (judge b J R T Y k u app).0
  unfolding judge
  judged-IsKnown auth user_id connected settings at s k u app h g = elim (Bool-cases k.allowed) [
    | inr refused ↦ rw refused (inr (inl (k, h, refused, refl)))
    | inl allowed ↦ rw allowed (elim (Bool-cases u.allowed) [
      | inr refused ↦ rw refused (inr (inr (k, u, h, allowed, g, refused, refl)))
      | inl also ↦ rw also tt
    ])
  ]

  pub enforce-IsKnown :
      (auth : AuthContext) (user_id : String) (connected : Bool) (settings : Settings)
      (at : Readings) (app : Server b J R T Y)
      → Raises
          (IsKnown auth user_id connected settings at app.redis)
          (enforce_rate_limits b J R T Y auth user_id connected settings at app).0
  unfolding enforce_rate_limits
  enforce-IsKnown auth user_id connected settings at app =
      let s = app.redis in
      Raises-continue_at (IsKnown auth user_id connected settings at s)
        (key_check auth connected settings at s).0
        (record app { redis = (key_check auth connected settings at s).1 }) _ (λ e h. inl h)
        (check-IsHidden connected _ _ _ _ _ s)
        (λ k asked.
          Raises-continue_at (IsKnown auth user_id connected settings at s)
            (user_check auth user_id connected settings at s).0
            (record app { redis = (user_check auth user_id connected settings at s).1 }) _
            (λ e h. inl h) (check-IsHidden connected _ _ _ _ _ _)
            (λ u answered.
              judged-IsKnown auth user_id connected settings at s k u _ asked answered))

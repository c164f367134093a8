-- ===== src/LlmClient/Retry/Attempts.antt =====
-- How often the retry loop of services/llm_client.py calls the provider, what it returns, and what
-- it tells the circuit breaker.
use inference_control_plane.Prelude.{
  ℕ, zero, suc, String, Bool, true, false, ◌≡◌, ◌⊎◌, inl, inr, ◌≤◌, refl, sym, ap, ◌∙◌, arith,
  Bool-cases,
}
use inference_control_plane.Python.{Exc, Result, ok, err, is_retryable}
use inference_control_plane.Python.Exec.{Exec, continue, catch}
use inference_control_plane.LlmClient.Breaker.{is_allowed, record_success, record_failure}
use inference_control_plane.LlmClient.Transport.{Transport, World, Retryer, IsTenacity, attempted}
use inference_control_plane.LlmClient.Retry.{
  store, breaker, attempt, record_and_raise, request_with_retry,
}

-- `f` fails `n` times in a row, from the first state to the second, each time by an exception that
-- is retried.
pub data Fails {W : Type 0} (f : Exec W String) : ℕ → W → W → Type 0 where
  here : {w : W} → Fails f zero w w
  again :
      {n : ℕ} {w u v : W} (e : Exc)
      → f w ≡ (err e, u)
      → is_retryable e ≡ true
      → Fails f n u v
      → Fails f (suc n) w v

-- A result after which no further attempt is made: the last of those allowed, a text, or an
-- exception that is not retried.
abbrev pub Ends : ℕ → ℕ → Result String → Type 0
Ends k limit (ok _) = Unit {0}
Ends k limit (err e) = (k ≡ limit) ⊎ (is_retryable e ≡ false)

Ends-limit : (k : ℕ) (r : Result String) → Ends k k r
Ends-limit k (ok _) = tt
Ends-limit k (err _) = inl refl

Ends-suc : (k n : ℕ) (r : Result String) → Ends k n r → Ends (suc k) (suc n) r
Ends-suc k n (ok _) h = tt
Ends-suc k n (err _) (inl h) = inl (ap suc h)
Ends-suc k n (err _) (inr h) = inr h

attempted-zero :
    {W : Type 0} (p : Exc → Bool) (rest : Exec W String) (x : Result String × W)
    → attempted p zero rest x ≡ x
attempted-zero p rest (ok a, w) = refl
attempted-zero p rest (err e, w) = refl

module _ {W : Type 0} (R : Retryer W) (tenacity : IsTenacity R) (f : Exec W String) where
  abbrev Ran : ℕ → W → Type 0
  Ran limit w =
      (k : ℕ) × (u : W) × (k ≤ limit)
      × Fails f k w u
      × Ends k limit (f u).0
      × (R.run is_retryable (suc limit) f w ≡ f u)

  run-suc-Ran : (n : ℕ) (w u : W) (r : Result String) → f w ≡ (r, u) → Ran n u → Ran (suc n) w
  run-suc-Ran n w u (ok a) step rest = (
    0,
    w,
    omega arith,
    here,
    rw step tt,
    tenacity.run-suc is_retryable (suc n) f w
        ∙ ap (attempted is_retryable (suc n) (R.run is_retryable (suc n) f)) step
        ∙ sym step,
  )
  run-suc-Ran n w u (err e) step (k, v, le, fails, ends, eq) = elim (Bool-cases (is_retryable e)) [
    | inl retried ↦ (
      suc k,
      v,
      omega arith,
      again e step retried fails,
      Ends-suc k n (f v).0 ends,
      tenacity.run-suc is_retryable (suc n) f w
          ∙ ap (attempted is_retryable (suc n) (R.run is_retryable (suc n) f)) step
          ∙ rw retried eq,
    )
    | inr final ↦ (
      0,
      w,
      omega arith,
      here,
      rw step (inr final),
      tenacity.run-suc is_retryable (suc n) f w
          ∙ ap (attempted is_retryable (suc n) (R.run is_retryable (suc n) f)) step
          ∙ rw final (sym step),
    )
  ]

  -- The loop makes k + 1 attempts, at most `limit` + 1, and ends with the outcome of the last one.
  run-Ran : (limit : ℕ) (w : W) → Ran limit w
  run-Ran zero w = (
    0,
    w,
    omega arith,
    here,
    Ends-limit 0 (f w).0,
    tenacity.run-suc is_retryable 0 f w
        ∙ attempted-zero is_retryable (R.run is_retryable 0 f) (f w),
  )
  run-Ran (suc n) w = run-suc-Ran n w (f w).1 (f w).0 refl (run-Ran n (f w).1)

module _ (T : Transport) where
  -- What a call tells the breaker, once its last attempt is known.
  abbrev pub settle : ℕ → String → Result String × World T → Result String × World T
  settle later provider (ok text, w) =
      (ok text, store T provider (record_success (breaker T provider w)) w)
  settle later provider (err e, w) =
      (err e, store T provider (record_failure later (breaker T provider w)) w)

  -- The world in which the loop starts: `is_allowed` has been asked.
  abbrev pub asked : ℕ → String → World T → World T
  asked now provider w = store T provider (is_allowed now (breaker T provider w)).1 w

  module _ (provider : String) where
    abbrev succeed : Result String × World T → Result String × World T
    succeed x =
        continue x (λ text w. (ok text, store T provider (record_success (breaker T provider w)) w))

    succeed-err :
        (x : Result String × World T) (u : World T) (e : Exc)
        → succeed x ≡ (err e, u)
        → x ≡ (err e, u)
    succeed-err (ok a, w) u e h = absurd (cc (ap (λ (y : Result String × World T). y.0) h))
    succeed-err (err x, w) u e h = h

    Ends-succeed : (k n : ℕ) (x : Result String × World T) → Ends k n (succeed x).0 → Ends k n x.0
    Ends-succeed k n (ok a, w) h = h
    Ends-succeed k n (err e, w) h = h

    catch-succeed :
        (later : ℕ) (x : Result String × World T)
        → catch (succeed x) (record_and_raise T later provider) ≡ settle later provider x
    unfolding record_and_raise
    catch-succeed later (ok a, w) = refl
    catch-succeed later (err e, w) = refl

  module _ (provider : String) (f : Exec (World T) String) where
    attempt-err : (w u : World T) (e : Exc) → attempt T provider f w ≡ (err e, u) → f w ≡ (err e, u)
    unfolding attempt
    attempt-err w u e h = succeed-err provider (f w) u e h

    Fails-attempt : (k : ℕ) (w u : World T) → Fails (attempt T provider f) k w u → Fails f k w u
    Fails-attempt k w u here = here
    Fails-attempt k w u (again e step retried rest) =
        again e (attempt-err _ _ e step) retried (Fails-attempt _ _ _ rest)

    Ends-attempt : (k n : ℕ) (u : World T) → Ends k n (attempt T provider f u).0 → Ends k n (f u).0
    unfolding attempt
    Ends-attempt k n u h = Ends-succeed provider k n (f u) h

    -- If the breaker allows the call and the retryer is Tenacity's, the provider is asked k + 1
    -- times, at most `max_retries` + 1: k times it failed by an exception that is retried, and the
    -- last outcome is a text, an exception that is not retried, or that of the last attempt
    -- allowed. The call has this outcome, and tells the breaker once: a success, or one failure
    -- however many attempts were made.
    pub request_with_retry_lem :
        (R : Retryer (World T)) (max_retries now later : ℕ) (w : World T)
        → IsTenacity R
        → (is_allowed now (breaker T provider w)).0 ≡ true
        → (k : ℕ) × (u : World T) × (k ≤ max_retries)
          × Fails f k (asked now provider w) u
          × Ends k max_retries (f u).0
          × (request_with_retry T R max_retries now later provider f w
              ≡ settle later provider (f u))
    unfolding request_with_retry
    request_with_retry_lem R max_retries now later w tenacity allowed =
        let (k, u, le, fails, ends, eq) =
          run-Ran R tenacity (attempt T provider f) max_retries (asked now provider w) in
        (
          k,
          u,
          le,
          Fails-attempt k (asked now provider w) u fails,
          Ends-attempt k max_retries u ends,
          rw allowed (
              ap (λ x. catch x (record_and_raise T later provider)) eq
              ∙ unfold attempt in catch-succeed provider later (f u)),
        )

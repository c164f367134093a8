-- ===== src/LlmClient/Retry/Accounting.antt =====
-- What one call of `_request_with_retry` leaves in the circuit breaker of its provider.
use inference_control_plane.Prelude.{
  ◌⊎◌, ℕ, String, true, ◌≡◌, refl, sym, ap, ◌∙◌, arith, Bool-cases, inl, inr, if◌then◌else◌,
}
use inference_control_plane.Prelude.Dict.{insert, lookup-insert_self}
use inference_control_plane.Python.{Result, ok, err, is_err}
use inference_control_plane.Python.Exec.{Exec}
use inference_control_plane.Python.Json.{Json}
use inference_control_plane.LlmClient.Breaker.{
  CircuitBreaker, Breakers, get_circuit_breaker, is_allowed, record_success, record_failure,
}
use inference_control_plane.LlmClient.Transport.{HttpRequest, Transport, World, Retryer, IsTenacity}
use inference_control_plane.LlmClient.Retry.{breaker, execute, request_with_retry}
use inference_control_plane.LlmClient.Retry.Attempts.{
  Fails, here, again, asked, settle, request_with_retry_lem,
}

get-insert :
    (provider : String) (cb : CircuitBreaker) (bs : Breakers)
    → (get_circuit_breaker provider (insert provider cb bs)).0 ≡ cb
unfolding get_circuit_breaker
get-insert provider cb bs = rw (lookup-insert_self provider cb bs, get_circuit_breaker)

module _ (T : Transport) where
  -- An attempt at a provider touches no breaker.
  pub breakers-execute :
      (parse : String) (extract : Json → Result String) (request : HttpRequest) (w : World T)
      → (execute T parse extract request w).1.breakers ≡ w.breakers
  unfolding execute
  breakers-execute parse extract request w = ground arith

  module _ (provider : String) (f : Exec (World T) String) where
    breakers-Fails :
        (keeps : (w : World T) → (f w).1.breakers ≡ w.breakers) (k : ℕ) (w u : World T)
        → Fails f k w u
        → u.breakers ≡ w.breakers
    breakers-Fails keeps k w u here = refl
    breakers-Fails keeps k w u (again e step retried rest) =
        breakers-Fails keeps _ _ _ rest
        ∙ sym (ap (λ (x : Result String × World T). x.1.breakers) step)
        ∙ keeps w

    -- The breaker after a call that it let through, from its state at the start.
    abbrev pub told : ℕ → Result String → CircuitBreaker → CircuitBreaker
    told later (ok _) cb = record_success cb
    told later (err _) cb = record_failure later cb

    breaker-settle :
        (later : ℕ) (x : Result String × World T)
        → breaker T provider (settle T later provider x).1
          ≡ told later (settle T later provider x).0 (breaker T provider x.1)
    breaker-settle later (ok a, w) = get-insert provider _ w.breakers
    breaker-settle later (err e, w) = get-insert provider _ w.breakers

    -- If the retryer is Tenacity's and an attempt leaves the breakers alone, a call changes the
    -- breaker of its provider by one question, and then, if the answer was yes, by one success or
    -- one failure, as the call returns or raises. A refused call raises and asks the provider
    -- nothing.
    pub breaker-request_with_retry :
        (R : Retryer (World T)) (max_retries now later : ℕ) (w : World T)
        → IsTenacity R
        → ((w : World T) → (f w).1.breakers ≡ w.breakers)
        → let (result, after) = request_with_retry T R max_retries now later provider f w in
          let (allowed, cb) = is_allowed now (breaker T provider w) in
          (breaker T provider after ≡ (if allowed then told later result cb else cb))
          × ((allowed ≡ true) ⊎ (is_err result ≡ true) × (after.net ≡ w.net))
    breaker-request_with_retry R max_retries now later w tenacity keeps =
        let (allowed, cb) = is_allowed now (breaker T provider w) in
        elim (Bool-cases allowed) [
          | inl through ↦
              let (k, u, _, fails, _, eq) =
                request_with_retry_lem T provider f R max_retries now later w tenacity through in
              let kept : breaker T provider (f u).1 ≡ cb =
                ap (λ (bs : Breakers). (get_circuit_breaker provider bs).0)
                  (keeps u ∙ breakers-Fails keeps k (asked T now provider w) u fails)
                ∙ get-insert provider cb w.breakers in
              (
                rw (eq, through)
                    (breaker-settle later (f u)
                      ∙ ap (told later (settle T later provider (f u)).0) kept),
                inl through,
              )
          | inr refused ↦ (
            unfold request_with_retry in rw refused (get-insert provider cb w.breakers),
            unfold request_with_retry in rw refused (inr (refl, refl)),
          )
        ]

-- ===== src/RateLimiter/Decisions.antt =====
-- What one check of services/rate_limiter.py answers, whatever the server does.
use inference_control_plane.Prelude.{
  ℕ, suc, String, Bool, true, false, ◌≡◌, refl, arith, Bool-cases, inl, inr, if◌then◌else◌,
}
use inference_control_plane.Prelude.Int.{ℤ, pos, ◌≤ℤ◌}
use inference_control_plane.Python.{Result, ok, err}
use inference_control_plane.Python.Exec.{continue, catch}
use inference_control_plane.Redis.{Redis}
use inference_control_plane.RateLimiter.{
  RateLimitResult, decide, is_one, unlimited, count_request, check_rate_limit,
}

-- A refusal tells the client to wait a second at least and leaves no quota, an acceptance names no
-- delay.
pub record IsCoherent (r : RateLimitResult) : Type 0 where
  pub accepted : r.allowed ≡ true → r.retry_after_seconds ≡ pos 0
  pub delayed : r.allowed ≡ false → pos 1 ≤ℤ r.retry_after_seconds
  pub exhausted : r.allowed ≡ false → r.remaining ≡ pos 0

decide-IsCoherent : (limit count ttl : ℤ) → IsCoherent (decide limit count ttl)
unfolding decide
decide-IsCoherent limit count ttl = ground arith

unlimited-IsCoherent : (limit : ℤ) → IsCoherent (unlimited limit)
unlimited-IsCoherent limit = ground arith

abbrev Answers : {W : Type 0} → Result RateLimitResult × W → Type 0
Answers x = (r : RateLimitResult) × (x.0 ≡ ok r) × IsCoherent r

Answers-catch :
    {W : Type 0} (x : Result RateLimitResult × W) (limit : ℤ)
    → ((r : RateLimitResult) → x.0 ≡ ok r → IsCoherent r)
    → Answers (catch x (λ _ s. (ok (unlimited limit), s)))
Answers-catch (ok r, s) limit h = (r, refl, h r refl)
Answers-catch (err e, s) limit h = (unlimited limit, refl, unlimited-IsCoherent limit)

IsCoherent-of_eq :
    (d r : RateLimitResult)
    → IsCoherent d
    → ◌≡◌ {A = Result RateLimitResult} (ok d) (ok r)
    → IsCoherent r
IsCoherent-of_eq d r c h = ground arith

IsCoherent-of_ok :
    {W : Type 0} (x : Result (Unit {0}) × W) (d r : RateLimitResult)
    → IsCoherent d
    → (continue x (λ _ s. (ok d, s))).0 ≡ ok r
    → IsCoherent r
IsCoherent-of_ok (ok _, s) d r c h = ground arith
IsCoherent-of_ok (err e, s) d r c h = absurd (cc h)

module _ {Text : Type 0} (R : Redis Text) where
  count_request-IsCoherent :
      (key : String) (limit : ℤ) (window : ℕ) (s : R.State) (r : RateLimitResult)
      → (count_request R key limit window s).0 ≡ ok r
      → IsCoherent r
  unfolding count_request
  count_request-IsCoherent key limit window s r h = after_incr (R.incr_ttl key s) h
    where
      after_incr :
          (x : Result (ℤ × ℤ) × R.State)
          → (continue x (λ (count, ttl) s'.
              if is_one count
              then continue
                  (R.expire key window s')
                  (λ _ s''. (ok (decide limit count (pos window)), s''))
              else (ok (decide limit count ttl), s'))).0
            ≡ ok r
          → IsCoherent r
      after_incr (ok (count, ttl), s') p = elim (Bool-cases (is_one count)) [
        | inl one ↦
            IsCoherent-of_ok (R.expire key window s') (decide limit count (pos window)) r
              (decide-IsCoherent limit count (pos window)) (rw one at p)
        | inr more ↦
            IsCoherent-of_eq (decide limit count ttl) r (decide-IsCoherent limit count ttl)
              (rw more at p)
      ]
      after_incr (err e, s') p = absurd (cc p)

  -- With a window of at least a second a check never raises, whatever the server answers or
  -- raises, and its answer is coherent: an allowed request has no delay, and a refused one has a
  -- delay of at least a second and nothing remaining.
  pub check_rate_limit-IsCoherent :
      (connected : Bool) (scope identifier : String) (limit : ℤ) (n now : ℕ) (s : R.State)
      → (r : RateLimitResult) × ((check_rate_limit R connected scope identifier limit
            (suc n)
            now
            s).0
          ≡ ok r)
        × IsCoherent r
  unfolding check_rate_limit
  check_rate_limit-IsCoherent true scope identifier limit n now s =
      Answers-catch (count_request R _ limit (suc n) s) limit
        (count_request-IsCoherent _ limit (suc n) s)
  check_rate_limit-IsCoherent false scope identifier limit n now s =
      (unlimited limit, refl, unlimited-IsCoherent limit)

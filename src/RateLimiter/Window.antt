-- ===== src/RateLimiter/Window.antt =====
-- How many requests of one identifier services/rate_limiter.py admits in one window.
use Prim.Native.Nat.{min}
use inference_control_plane.Prelude.{
  ℕ, suc, ◌+◌, ◌/◌, ◌<>◌, show, String, true, List, [], ◌∷◌, ◌≡◌, All, length, leb, arith,
  if◌then◌else◌, eq_refl, ◌-◌, Bool-cases, inl, inr,
}
use inference_control_plane.Prelude.Int.{ℤ, pos}
use inference_control_plane.Python.{Result, ok, err}
use inference_control_plane.Python.Exec.{continue-ok}
use inference_control_plane.Redis.{Redis, IsReliable}
use inference_control_plane.RateLimiter.{
  RateLimitResult, decide, is_one, count_request, check_rate_limit,
}

module _ {Text : Type 0} (R : Redis Text) where
  -- 1 for an admitted request.
  abbrev pub admits : Result RateLimitResult → ℕ
  admits (ok r) = if r.allowed then 1 else 0
  admits (err _) = 0

  -- The number of admitted requests among those that arrive at the given times.
  unfoldable pub admitted : String → String → ℤ → ℕ → List ℕ → R.State → ℕ
  admitted scope identifier limit window [] s = 0
  admitted scope identifier limit window (now ∷ times) s =
      let (r, s') = check_rate_limit R true scope identifier limit window now s in
      admits r + admitted scope identifier limit window times s'

  module _ (reliable : IsReliable R) where
    open reliable use {count, count-incr, count-expire, incr_ttl_lem, expire_ok}

    module _ (key : String) (limit n : ℕ) where
      counted :
          (s : R.State)
          → (ttl : ℤ) × (s' : R.State) × (count_request R key (pos limit) (suc n) s
              ≡ (ok (decide (pos limit) (pos (count s key + 1)) ttl), s'))
            × (count s' key ≡ count s key + 1)
      unfolding count_request
      counted s = elim (Bool-cases (is_one (pos (count s key + 1)))) [
        | inl one ↦ (
          pos (suc n),
          (R.expire key (suc n) (reliable.incr s key)).1,
          rw (incr_ttl_lem key s, one)
              (continue-ok (R.expire key (suc n) (reliable.incr s key)) _ tt
                (expire_ok key (suc n) (reliable.incr s key))),
          rw (count-expire, count-incr, eq_refl),
        )
        | inr more ↦ (
          reliable.ttl s key,
          reliable.incr s key,
          rw (incr_ttl_lem key s, more),
          rw (count-incr, eq_refl),
        )
      ]

    abbrev pub key_of : String → String → ℕ → String
    key_of scope identifier bucket = "rate:" <> scope <> ":" <> identifier <> ":" <> show bucket

    check-count :
        (scope identifier : String) (limit n bucket now : ℕ) (s : R.State)
        → now / suc n ≡ bucket
        → let x = check_rate_limit R true scope identifier (pos limit) (suc n) now s in
          let key = key_of scope identifier bucket in
          (admits x.0 ≡ (if leb (count s key + 1) limit then 1 else 0))
          × (count x.1 key ≡ count s key + 1)
    unfolding check_rate_limit decide
    check-count scope identifier limit n bucket now s here =
        let (ttl, s', e, c) = counted (key_of scope identifier bucket) limit n s in
        rw (here, e) (ground arith, c)

    -- On a server that answers, with a limit that is not negative and a window of at least a
    -- second, of the requests of one identifier whose times lie in one window as many are admitted
    -- as arrive or as the limit leaves room for beyond those counted before, whichever is less.
    pub admitted_lem :
        (scope identifier : String) (limit n bucket : ℕ) (times : List ℕ) (s : R.State)
        → All (λ now. now / suc n ≡ bucket) times
        → admitted scope identifier (pos limit) (suc n) times s
          ≡ min (length times) (limit - count s (key_of scope identifier bucket))
    unfolding admitted
    admitted_lem scope identifier limit n bucket [] s h = omega arith
    admitted_lem scope identifier limit n bucket (now ∷ times) s (here, rest) =
        let s' = (check_rate_limit R true scope identifier (pos limit) (suc n) now s).1 in
        ground (
          arith,
          check-count scope identifier limit n bucket now s here,
          admitted_lem scope identifier limit n bucket times s' rest,
        )

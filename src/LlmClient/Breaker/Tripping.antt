-- ===== src/LlmClient/Breaker/Tripping.antt =====
-- When a circuit breaker of services/llm_client.py refuses, trips and recovers.
use inference_control_plane.Prelude.{
  ℕ, ◌+◌, ◌-◌, ◌≤◌, ◌<◌, ◌≡◌, ◌↔◌, refl, true, List, [], ◌∷◌, length, arith, leb, if◌then◌else◌,
}
use inference_control_plane.LlmClient.Breaker.{
  State, closed, opened, half_open, CircuitBreaker, init, record_failure, record_success,
  is_allowed,
}

-- Closed exactly below the threshold.
abbrev pub Agrees : State → ℕ → ℕ → Type 0
Agrees closed count threshold = count < threshold
Agrees opened count threshold = threshold ≤ count
Agrees half_open count threshold = threshold ≤ count

pub record IsValid (cb : CircuitBreaker) : Type 0 where
  pub positive : 0 < cb.failure_threshold
  pub agrees : Agrees cb.state cb.failure_count cb.failure_threshold

-- The calls that a breaker receives, each with the time that it reads.
pub data Event : Type 0 where
  failed : ℕ → Event
  succeeded : Event
  asked : ℕ → Event

unfoldable pub step : Event → CircuitBreaker → CircuitBreaker
step (failed now) cb = record_failure now cb
step succeeded cb = record_success cb
step (asked now) cb = (is_allowed now cb).1

unfoldable pub steps : List Event → CircuitBreaker → CircuitBreaker
steps [] cb = cb
steps (e ∷ es) cb = steps es (step e cb)

Agrees-failure :
    (s : State) (c t : ℕ) → Agrees s c t → Agrees (if leb t (c + 1) then opened else s) (c + 1) t
Agrees-failure closed c t h = ground arith
Agrees-failure opened c t h = ground arith
Agrees-failure half_open c t h = ground arith

Agrees-asked :
    (s : State) (now : ℕ) (cb : CircuitBreaker)
    → Agrees s cb.failure_count cb.failure_threshold
    → 0 < cb.failure_threshold
    → cb.state ≡ s
    → IsValid (is_allowed now cb).1
unfolding is_allowed
Agrees-asked closed now cb h p e = ground arith
Agrees-asked opened now cb h p e = ground arith
Agrees-asked half_open now cb h p e = ground arith

step-IsValid : (e : Event) (cb : CircuitBreaker) → IsValid cb → IsValid (step e cb)
unfolding step record_failure record_success
step-IsValid (failed now) cb v = record {
  positive = v.positive;
  agrees = Agrees-failure cb.state cb.failure_count cb.failure_threshold v.agrees;
}
step-IsValid succeeded cb v = record { positive = v.positive; agrees = v.positive }
step-IsValid (asked now) cb v = Agrees-asked cb.state now cb v.agrees v.positive refl

-- Any calls, in any order, keep a breaker valid: its threshold is positive, and it is closed
-- exactly while its count is below the threshold.
pub steps-IsValid : (es : List Event) (cb : CircuitBreaker) → IsValid cb → IsValid (steps es cb)
unfolding steps
steps-IsValid [] cb v = v
steps-IsValid (e ∷ es) cb v = steps-IsValid es (step e cb) (step-IsValid e cb v)

pub init-IsValid : IsValid init
init-IsValid = record { positive = omega arith; agrees = omega arith }

-- A run of failures, each at its time.
unfoldable pub failures : List ℕ → CircuitBreaker → CircuitBreaker
failures [] cb = cb
failures (now ∷ times) cb = failures times (record_failure now cb)

failures_opened :
    (times : List ℕ) (cb : CircuitBreaker) → cb.state ≡ opened → (failures times cb).state ≡ opened
unfolding failures record_failure
failures_opened [] cb h = h
failures_opened (now ∷ times) cb h = failures_opened times (record_failure now cb) (ground arith)

-- After a run of failures, a breaker that was closed with its count below the threshold is open if
-- the run brings the count to the threshold, and closed otherwise.
pub failures-state :
    (times : List ℕ) (cb : CircuitBreaker)
    → cb.state ≡ closed
    → cb.failure_count < cb.failure_threshold
    → (failures times cb).state
      ≡ (if leb cb.failure_threshold (cb.failure_count + length times) then opened else closed)
unfolding failures record_failure
failures-state [] cb h lt = ground arith
failures-state (now ∷ times) cb h lt = ground (
  arith,
  failures-state times (record_failure now cb),
  failures_opened times (record_failure now cb),
)

-- A valid open breaker allows a call exactly if more than the recovery timeout has passed since the
-- last failure. If a failure follows, it allows the next call exactly if more than the timeout has
-- passed since that failure, and if a success follows, it allows the next call.
pub probe_lem :
    (cb : CircuitBreaker) (now later after : ℕ)
    → IsValid cb
    → cb.state ≡ opened
    → let (allowed, probing) = is_allowed now cb in
      let failed_probe = record_failure later probing in
      ((allowed ≡ true) ↔ (cb.recovery_timeout < now - cb.last_failure_time))
      × (((is_allowed after failed_probe).0 ≡ true) ↔ (cb.recovery_timeout < after - later))
      × ((is_allowed after (record_success probing)).0 ≡ true)
unfolding is_allowed record_failure record_success
probe_lem cb now later after v h = ground arith

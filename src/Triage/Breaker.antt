-- ===== src/Triage/Breaker.antt =====
-- `CircuitBreaker` of agent/triage/circuit_breaker.py. The monotonic clock is a number that each call
-- is given; `check` answers `false` where the source raises `CircuitBreakerOpenError`.
use agentic_soc_triage_assis.Prelude.{
  [], true, false, ◌≡◌, ◌∷◌, ◌≤◌, ◌<◌, ◌+◌, ◌-◌, if◌then◌else◌, ℕ, Bool, List, ◌⊎◌, inl, inr, leb,
  ltb, arith, map, length,
}

pub data BreakerState : Type 0 where
  closed opened half_open : BreakerState

pub record Breaker : Type 0 where
  pub failure_threshold : ℕ
  pub reset_seconds : ℕ
  pub failures : ℕ
  pub last_failure_time : ℕ
  pub state : BreakerState

abbrev pub is_open : BreakerState → Bool
is_open opened = true
is_open _ = false

abbrev pub new_breaker : (failure_threshold reset_seconds : ℕ) → Breaker
new_breaker failure_threshold reset_seconds = record {
  failure_threshold = failure_threshold;
  reset_seconds = reset_seconds;
  failures = 0;
  last_failure_time = 0;
  state = closed;
}

unfoldable pub record_failure : (now : ℕ) → Breaker → Breaker
record_failure now b = record b {
  failures = b.failures + 1;
  last_failure_time = now;
  state = if leb b.failure_threshold (b.failures + 1) then opened else b.state;
}

unfoldable pub record_success : Breaker → Breaker
record_success b = record b { failures = 0; state = closed }

unfoldable pub check : (now : ℕ) → Breaker → Bool × Breaker
check now b =
    if is_open b.state
    then (if ltb b.reset_seconds (now - b.last_failure_time)
        then (true, record b { state = half_open })
        else (false, b))
    else (true, b)

-- One call of the breaker, at a time.
pub data Call : Type 0 where
  failing succeeding checking : Call

unfoldable pub after_call : Call → (now : ℕ) → Breaker → Breaker
unfolding record_failure record_success check
after_call failing now b = record_failure now b
after_call succeeding now b = record_success b
after_call checking now b = (check now b).1

unfoldable pub after_calls : List (Call × ℕ) → Breaker → Breaker
unfolding after_call
after_calls [] b = b
after_calls (call ∷ calls) b = after_calls calls (after_call call.0 call.1 b)

-- What holds of every breaker that has been used: below the threshold it is closed.
pub record IsSound (b : Breaker) : Type 0 where
  pub closed_below : b.failures < b.failure_threshold → b.state ≡ closed
  pub opened_with_failures : is_open b.state ≡ true → b.failure_threshold ≤ b.failures

after_call-IsSound :
    (call : Call) (now : ℕ) (b : Breaker) → IsSound b → IsSound (after_call call now b)
unfolding after_call record_failure record_success check
after_call-IsSound failing now b h = ground arith
after_call-IsSound succeeding now b h = ground arith
after_call-IsSound checking now b h = ground arith

-- After any sequence of calls from a sound breaker, the breaker is closed while it has counted fewer
-- failures than the threshold, and it is open only with at least as many.
pub after_calls-IsSound :
    (calls : List (Call × ℕ)) (b : Breaker) → IsSound b → IsSound (after_calls calls b)
unfolding after_calls
after_calls-IsSound [] b h = h
after_calls-IsSound (call ∷ calls) b h =
    after_calls-IsSound calls _ (after_call-IsSound call.0 call.1 b h)

-- Open, or still short of the threshold.
abbrev pub IsCounting : Breaker → Type 0
IsCounting b = (is_open b.state ≡ true) ⊎ (b.failures < b.failure_threshold)

abbrev pub failing_at : List ℕ → List (Call × ℕ)
failing_at times = map (λ (t : ℕ). (failing, t)) times

record_failure-IsCounting :
    (now : ℕ) (b : Breaker) → IsCounting b → IsCounting (record_failure now b)
unfolding record_failure
record_failure-IsCounting now b (inl open_before) = ground arith
record_failure-IsCounting now b (inr below) = ground arith

-- A breaker that is open or has counted fewer failures than the threshold is open after failures in a
-- row that take its count to the threshold, whatever the times at which they come.
pub failures-open :
    (times : List ℕ) (b : Breaker)
    → IsCounting b
    → b.failure_threshold ≤ b.failures + length times
    → is_open (after_calls (failing_at times) b).state ≡ true
unfolding after_calls after_call record_failure
failures-open [] b (inl open_before) enough = open_before
failures-open [] b (inr below) enough = absurd (omega arith)
failures-open (now ∷ times) b h enough =
    failures-open times (record_failure now b) (record_failure-IsCounting now b h) (omega arith)

-- ===== src/Breaker.antt =====
-- circuit_breaker.hpp and circuit_breaker.cpp. A method takes the instant that it reads from the
-- steady clock, in nanoseconds, and returns the breaker that it leaves behind; the mutex makes each
-- method one step.
pub mod Invariant
pub mod Transition
pub mod Trip
pub mod Trial
use aegis_proxy.Common.{ℕ, suc, ◌+◌, ◌*◌, Bool, true, false, List, [], ◌∷◌, ltb, if◌then◌else◌}
use aegis_proxy.Common.Int.{ℤ, reaches}

-- CLOSED, OPEN, HALF_OPEN, in the order of the enumeration.
pub data BreakerState : Type 0 where
  closed opened half_open : BreakerState

-- The counters start at 0 and are only incremented and reset, so they are natural numbers; the
-- thresholds are `int` arguments of the constructor.
pub record CircuitBreaker : Type 0 where
  pub state : BreakerState
  pub failure_threshold : ℤ
  pub success_threshold : ℤ
  pub cooldown_period : ℕ
  pub consecutive_failures : ℕ
  pub consecutive_successes : ℕ
  pub opened_at : ℕ
  pub half_open_trial_in_flight : Bool

unfoldable pub new : ℤ → ℤ → ℕ → CircuitBreaker
new failures successes cooldown = record {
  state = closed;
  failure_threshold = failures;
  success_threshold = successes;
  cooldown_period = cooldown;
  consecutive_failures = 0;
  consecutive_successes = 0;
  opened_at = 0;
  half_open_trial_in_flight = false;
}

-- Nanoseconds in one millisecond, the unit of the cooldown.
abbrev pub nanos : ℕ
nanos = 1000000

-- `now - opened_at_ < cooldown_period_`, read as `now < opened_at_ + cooldown_period_`.
abbrev pub cooling : ℕ → CircuitBreaker → Bool
cooling now b = ltb now (b.opened_at + b.cooldown_period * nanos)

allow_open : ℕ → CircuitBreaker → CircuitBreaker × Bool
allow_open now b = if cooling now b then (b, false) else (
  record b { state = half_open; consecutive_successes = 0; half_open_trial_in_flight = true },
  true,
)

allow_half_open : CircuitBreaker → CircuitBreaker × Bool
allow_half_open b =
    if b.half_open_trial_in_flight
    then (b, false)
    else (record b { half_open_trial_in_flight = true }, true)

allow_by : BreakerState → ℕ → CircuitBreaker → CircuitBreaker × Bool
unfolding allow_open allow_half_open
allow_by closed now b = (b, true)
allow_by opened now b = allow_open now b
allow_by half_open now b = allow_half_open b

unfoldable pub allow_request : ℕ → CircuitBreaker → CircuitBreaker × Bool
unfolding allow_by
allow_request now b = allow_by b.state now b

-- The end of a successful trial, before the threshold is read.
count_success : CircuitBreaker → CircuitBreaker
count_success b = record b {
  half_open_trial_in_flight = false;
  consecutive_successes = suc b.consecutive_successes;
}

close_on_threshold : CircuitBreaker → CircuitBreaker
close_on_threshold b =
    if reaches b.consecutive_successes b.success_threshold
    then record b { state = closed; consecutive_failures = 0; consecutive_successes = 0 }
    else b

success_by : BreakerState → CircuitBreaker → CircuitBreaker
unfolding count_success close_on_threshold
success_by closed b = record b { consecutive_failures = 0 }
success_by opened b = record b { consecutive_failures = 0 }
success_by half_open b = close_on_threshold (count_success b)

unfoldable pub record_success : CircuitBreaker → CircuitBreaker
unfolding success_by
record_success b = success_by b.state b

count_failure : CircuitBreaker → CircuitBreaker
count_failure b = record b { consecutive_failures = suc b.consecutive_failures }

open_on_threshold : ℕ → CircuitBreaker → CircuitBreaker
open_on_threshold now b =
    if reaches b.consecutive_failures b.failure_threshold
    then record b { state = opened; opened_at = now }
    else b

failure_by : BreakerState → ℕ → CircuitBreaker → CircuitBreaker
unfolding count_failure open_on_threshold
failure_by closed now b = open_on_threshold now (count_failure b)
failure_by opened now b = b
failure_by half_open now b = record b {
  half_open_trial_in_flight = false;
  state = opened;
  opened_at = now;
  consecutive_successes = 0;
}

unfoldable pub record_failure : ℕ → CircuitBreaker → CircuitBreaker
unfolding failure_by
record_failure now b = failure_by b.state now b

-- The calls that sessions make, in the order in which they take the mutex.
pub data Call : Type 0 where
  allows fails : ℕ → Call
  succeeds : Call

pub step : CircuitBreaker → Call → CircuitBreaker
step b (allows now) = (allow_request now b).0
step b (fails now) = record_failure now b
step b succeeds = record_success b

pub run : CircuitBreaker → List Call → CircuitBreaker
run b [] = b
run b (c ∷ cs) = run (step b c) cs

pub ruleset methods = (allow_request, record_success, record_failure)

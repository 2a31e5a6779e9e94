-- ===== src/Breaker/Invariant.antt =====
-- The state that circuit_breaker.cpp keeps: which counters are in use in which state, and how far
-- they go.
use aegis_proxy.Common.{◌-◌, ◌^◌, ℕ, suc, ◌≤◌, ◌<◌, ◌≡◌, refl, max, false, List, [], ◌∷◌, arith}
use aegis_proxy.Common.Int.{ℤ, pos_part, le→reaches}
use aegis_proxy.Breaker.{
  BreakerState, closed, opened, half_open, CircuitBreaker, new, allow_request, record_success,
  record_failure, allow_by, success_by, failure_by, Call, allows, fails, succeeds, step, run,
}

-- The fields that one state keeps within bounds.
abbrev pub InState : BreakerState → CircuitBreaker → Type 0
InState closed b =
    (b.half_open_trial_in_flight ≡ false)
    × (b.consecutive_successes ≡ 0)
    × (b.consecutive_failures < max 1 (pos_part b.failure_threshold))
InState opened b =
    (b.half_open_trial_in_flight ≡ false)
    × (b.consecutive_successes ≡ 0)
    × (b.consecutive_failures ≤ max 1 (pos_part b.failure_threshold))
InState half_open b =
    (b.consecutive_successes < max 1 (pos_part b.success_threshold))
    × (b.consecutive_failures ≤ max 1 (pos_part b.failure_threshold))

abbrev pub IsValid : CircuitBreaker → Type 0
IsValid b = InState b.state b

new-IsValid : (f s : ℤ) (c : ℕ) → IsValid (new f s c)
unfolding new
new-IsValid f s c = (refl, refl, omega arith)

module _ (b : CircuitBreaker) where
  allow_by-IsValid :
      (s : BreakerState) (now : ℕ) → b.state ≡ s → InState s b → IsValid (allow_by s now b).0
  unfolding allow_by
  allow_by-IsValid closed now e v = ground arith
  allow_by-IsValid opened now e v = ground arith
  allow_by-IsValid half_open now e v = ground arith

  success_by-IsValid : (s : BreakerState) → b.state ≡ s → InState s b → IsValid (success_by s b)
  unfolding success_by
  success_by-IsValid closed e v = ground arith
  success_by-IsValid opened e v = ground arith
  success_by-IsValid half_open e v =
      ground (arith, le→reaches (suc b.consecutive_successes) b.success_threshold)

  failure_by-IsValid :
      (s : BreakerState) (now : ℕ) → b.state ≡ s → InState s b → IsValid (failure_by s now b)
  unfolding failure_by
  failure_by-IsValid closed now e v =
      ground (arith, le→reaches (suc b.consecutive_failures) b.failure_threshold)
  failure_by-IsValid opened now e v = ground arith
  failure_by-IsValid half_open now e v = ground arith

  -- Every call keeps the invariant.
  pub step-IsValid : (c : Call) → IsValid b → IsValid (step b c)
  unfolding step allow_request record_success record_failure
  step-IsValid (allows now) v = allow_by-IsValid b.state now refl v
  step-IsValid (fails now) v = failure_by-IsValid b.state now refl v
  step-IsValid succeeds v = success_by-IsValid b.state refl v

pub run-IsValid : (b : CircuitBreaker) (cs : List Call) → IsValid b → IsValid (run b cs)
unfolding run
run-IsValid b [] v = v
run-IsValid b (c ∷ cs) v = run-IsValid (step b c) cs (step-IsValid b c v)

-- No history of calls breaks the invariant: in CLOSED and OPEN no trial is in flight and no trial
-- success is counted, a CLOSED breaker has fewer failures in a row than its threshold, a HALF_OPEN
-- one fewer successes, and nowhere do the failures pass the threshold (or 1, where it is less).
pub run-new-IsValid : (f s : ℤ) (c : ℕ) (cs : List Call) → IsValid (run (new f s c) cs)
run-new-IsValid f s c cs = run-IsValid (new f s c) cs (new-IsValid f s c)

abbrev pub int_max : ℕ
int_max = 2 ^ 31 - 1

-- What the next `++` on a counter stores: failures are counted in CLOSED, successes in HALF_OPEN.
abbrev pub next_count : CircuitBreaker → ℕ
next_count b = elim b.state [
  | closed ↦ suc b.consecutive_failures
  | opened ↦ 0
  | half_open ↦ suc b.consecutive_successes
]

pub step-thresholds :
    (b : CircuitBreaker) (c : Call)
    → ((step b c).failure_threshold ≡ b.failure_threshold)
      × ((step b c).success_threshold ≡ b.success_threshold)
      × ((step b c).cooldown_period ≡ b.cooldown_period)
unfolding step allow_request record_success record_failure
step-thresholds b (allows now) = ground arith
step-thresholds b (fails now) = ground arith
step-thresholds b succeeds = ground arith

pub run-thresholds :
    (b : CircuitBreaker) (cs : List Call)
    → ((run b cs).failure_threshold ≡ b.failure_threshold)
      × ((run b cs).success_threshold ≡ b.success_threshold)
      × ((run b cs).cooldown_period ≡ b.cooldown_period)
unfolding run
run-thresholds b [] = (refl, refl, refl)
run-thresholds b (c ∷ cs) = ground (arith, step-thresholds b c, run-thresholds (step b c) cs)

next_count-le-int_max :
    (b : CircuitBreaker)
    → IsValid b
    → pos_part b.failure_threshold ≤ int_max
    → pos_part b.success_threshold ≤ int_max
    → next_count b ≤ int_max
next_count-le-int_max b v f s = ground arith

-- With thresholds that are `int` values no `++` on a counter overflows, after any history of calls.
pub next_count-run :
    (f s : ℤ) (c : ℕ) (cs : List Call)
    → pos_part f ≤ int_max
    → pos_part s ≤ int_max
    → next_count (run (new f s c) cs) ≤ int_max
unfolding new
next_count-run f s c cs hf hs =
    let b = run (new f s c) cs in
    let (ef, es, _) = run-thresholds (new f s c) cs in
    next_count-le-int_max b (run-new-IsValid f s c cs) (rw ef hf) (rw es hs)

-- ===== src/Breaker/Transition.antt =====
-- The three-state machine that the comment in circuit_breaker.hpp describes, and the methods as
-- moves of it.
use aegis_proxy.Common.{
  ℕ, suc, ◌+◌, ◌*◌, ◌≤◌, ◌≡◌, refl, inl, inr, Bool, true, false, arith, ltb, not, Bool-cases,
}
use aegis_proxy.Common.Int.{reaches}
use aegis_proxy.Breaker.{
  BreakerState, closed, opened, half_open, CircuitBreaker, allow_request, record_success,
  record_failure, Call, allows, fails, succeeds, step, nanos, cooling, allow_by, success_by,
  failure_by,
}

-- What a client can tell of a breaker: when it opened, or whether its trial slot is taken.
pub data Mode : Type 0 where
  passing : Mode
  blocked_since : ℕ → Mode
  testing : Bool → Mode

abbrev mode_of : BreakerState → CircuitBreaker → Mode
mode_of closed b = passing
mode_of opened b = blocked_since b.opened_at
mode_of half_open b = testing b.half_open_trial_in_flight

abbrev pub mode : CircuitBreaker → Mode
mode b = mode_of b.state b

-- The moves of the machine. `cooldown` is in nanoseconds.
pub data Move (cooldown : ℕ) (m n : Mode) : Call → Type 0 where
  stay : (c : Call) → n ≡ m → Move cooldown m n c
  trip : (now : ℕ) → m ≡ passing → n ≡ blocked_since now → Move cooldown m n (fails now)
  probe :
      (since now : ℕ)
      → m ≡ blocked_since since
      → since + cooldown ≤ now
      → n ≡ testing true
      → Move cooldown m n (allows now)
  claim : (now : ℕ) → m ≡ testing false → n ≡ testing true → Move cooldown m n (allows now)
  settle : (busy : Bool) → m ≡ testing busy → n ≡ testing false → Move cooldown m n succeeds
  recover : (busy : Bool) → m ≡ testing busy → n ≡ passing → Move cooldown m n succeeds
  reopen :
      (busy : Bool) (now : ℕ)
      → m ≡ testing busy
      → n ≡ blocked_since now
      → Move cooldown m n (fails now)

-- Whether the machine lets a request through.
abbrev pub admits : ℕ → ℕ → Mode → Bool
admits cooldown now passing = true
admits cooldown now (blocked_since since) = not (ltb now (since + cooldown))
admits cooldown now (testing busy) = not busy

module _ (b : CircuitBreaker) where
  allow_by-Move :
      (s : BreakerState) (now : ℕ)
      → b.state ≡ s
      → Move (b.cooldown_period * nanos) (mode b) (mode (allow_by s now b).0) (allows now)
  unfolding allow_by
  allow_by-Move closed now e = stay (allows now) refl
  allow_by-Move opened now e = elim (Bool-cases (cooling now b)) [
    | inl early ↦ rw early (stay (allows now) refl)
    | inr late ↦ rw late (probe b.opened_at now (rw e) (ground arith) refl)
  ]
  allow_by-Move half_open now e = elim (Bool-cases b.half_open_trial_in_flight) [
    | inl busy ↦ rw busy (stay (allows now) refl)
    | inr idle ↦ rw idle (claim now (rw e) (rw e))
  ]

  success_by-Move :
      (s : BreakerState)
      → b.state ≡ s
      → Move (b.cooldown_period * nanos) (mode b) (mode (success_by s b)) succeeds
  unfolding success_by
  success_by-Move closed e = stay succeeds (rw e)
  success_by-Move opened e = stay succeeds (rw e)
  success_by-Move half_open e =
      elim (Bool-cases (reaches (suc b.consecutive_successes) b.success_threshold)) [
        | inl enough ↦ rw enough (recover b.half_open_trial_in_flight (rw e) refl)
        | inr few ↦ rw few (settle b.half_open_trial_in_flight (rw e) (rw e))
      ]

  failure_by-Move :
      (s : BreakerState) (now : ℕ)
      → b.state ≡ s
      → Move (b.cooldown_period * nanos) (mode b) (mode (failure_by s now b)) (fails now)
  unfolding failure_by
  failure_by-Move closed now e =
      elim (Bool-cases (reaches (suc b.consecutive_failures) b.failure_threshold)) [
        | inl enough ↦ rw enough (trip now (rw e) refl)
        | inr few ↦ rw few (stay (fails now) (rw e))
      ]
  failure_by-Move opened now e = stay (fails now) refl
  failure_by-Move half_open now e = reopen b.half_open_trial_in_flight now (rw e) refl

  -- Every call moves the breaker along an edge of the machine: it opens only on a failure, leaves
  -- OPEN only for the trial of a request that comes after the cooldown, and closes only from
  -- HALF_OPEN on a success; it never goes from CLOSED to HALF_OPEN or from OPEN to CLOSED.
  pub step-Move : (c : Call) → Move (b.cooldown_period * nanos) (mode b) (mode (step b c)) c
  unfolding step allow_request record_success record_failure
  step-Move (allows now) = allow_by-Move b.state now refl
  step-Move (fails now) = failure_by-Move b.state now refl
  step-Move succeeds = success_by-Move b.state refl

  allow_by-admits :
      (s : BreakerState) (now : ℕ)
      → b.state ≡ s
      → (allow_by s now b).1 ≡ admits (b.cooldown_period * nanos) now (mode_of s b)
  unfolding allow_by
  allow_by-admits closed now e = refl
  allow_by-admits opened now e = ground arith
  allow_by-admits half_open now e = ground arith

  -- allow_request lets a request through exactly where the machine does: in CLOSED, in OPEN once the
  -- cooldown is over, and in HALF_OPEN with the slot free.
  pub allow_request-admits :
      (now : ℕ) → (allow_request now b).1 ≡ admits (b.cooldown_period * nanos) now (mode b)
  unfolding allow_request
  allow_request-admits now = allow_by-admits b.state now refl

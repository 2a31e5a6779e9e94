-- ===== src/Breaker/Trial.antt =====
-- The cooldown and the trial slot: allow_request in circuit_breaker.cpp.
use aegis_proxy.Common.{
  ◌⊎◌, ℕ, suc, ◌+◌, ◌*◌, ◌≤◌, ◌<◌, ◌≡◌, refl, true, false, List, [], ◌∷◌, arith, length, All,
  if◌then◌else◌, ◌≢◌, inl, inr,
}
use native.Mathlib.Nat.{add-zero}
use aegis_proxy.Common.Int.{pos}
use aegis_proxy.Breaker.{
  closed, opened, half_open, CircuitBreaker, allow_request, record_success, record_failure, Call,
  allows, fails, succeeds, step, run, nanos,
}

-- Calls that come before an instant. A success reads no clock.
abbrev pub Before : ℕ → Call → Type 0
Before t (allows now) = now < t
Before t (fails now) = now < t
Before t succeeds = Unit

-- OPEN, since `since`, with the cooldown `wait`.
pub record Blocked (since wait : ℕ) (b : CircuitBreaker) : Type 0 where
  pub mode : b.state ≡ opened
  pub start : b.opened_at ≡ since
  pub period : b.cooldown_period ≡ wait

step-Blocked :
    (since wait : ℕ) (b : CircuitBreaker) (c : Call)
    → Blocked since wait b
    → Before (since + wait * nanos) c
    → Blocked since wait (step b c)
unfolding step allow_request record_success record_failure
step-Blocked since wait b (allows now) h t = ground arith
step-Blocked since wait b (fails now) h t = ground arith
step-Blocked since wait b succeeds h t = ground arith

run-Blocked :
    (since wait : ℕ) (b : CircuitBreaker) (cs : List Call)
    → Blocked since wait b
    → All (Before (since + wait * nanos)) cs
    → Blocked since wait (run b cs)
unfolding run
run-Blocked since wait b [] h t = h
run-Blocked since wait b (c ∷ cs) h t =
    run-Blocked since wait (step b c) cs (step-Blocked since wait b c h t.0) t.1

allow_request_cooling :
    (since wait now : ℕ) (b : CircuitBreaker)
    → Blocked since wait b
    → now < since + wait * nanos
    → allow_request now b ≡ (b, false)
unfolding allow_request
allow_request_cooling since wait now b h t = ground arith

-- An OPEN breaker stays OPEN for its whole cooldown, counted from the moment it opened, and refuses
-- every request, whatever calls arrive in that time: late failures and successes do not move the
-- end of the cooldown.
pub cooldown_refuses :
    (since wait now : ℕ) (b : CircuitBreaker) (cs : List Call)
    → Blocked since wait b
    → All (Before (since + wait * nanos)) cs
    → now < since + wait * nanos
    → Blocked since wait (run b cs) × (allow_request now (run b cs) ≡ (run b cs, false))
cooldown_refuses since wait now b cs h t e =
    let still = run-Blocked since wait b cs h t in
    (still, allow_request_cooling since wait now (run b cs) still e)

-- How many of the requests that ask at these instants, with no outcome reported between them, are
-- let through.
pub admissions : CircuitBreaker → List ℕ → ℕ
admissions b [] = 0
admissions b (now ∷ ts) =
    (if (allow_request now b).1 then 1 else 0) + admissions (allow_request now b).0 ts

-- HALF_OPEN with its trial in flight.
abbrev pub IsTesting : CircuitBreaker → Type 0
IsTesting b = (b.state ≡ half_open) × (b.half_open_trial_in_flight ≡ true)

allow_request_testing :
    (now : ℕ) (b : CircuitBreaker) → IsTesting b → allow_request now b ≡ (b, false)
unfolding allow_request
allow_request_testing now b h = ground arith

admissions_testing : (ts : List ℕ) (b : CircuitBreaker) → IsTesting b → admissions b ts ≡ 0
unfolding admissions
admissions_testing [] b h = refl
admissions_testing (now ∷ ts) b h =
    rw (allow_request_testing now b h) (omega (arith, admissions_testing ts b h))

-- A breaker that is not CLOSED either refuses and is left as it was, or takes its one trial.
allow_request_once :
    (now : ℕ) (b : CircuitBreaker)
    → b.state ≢ closed
    → (allow_request now b ≡ (b, false))
      ⊎ (((allow_request now b).1 ≡ true) × IsTesting (allow_request now b).0)
unfolding allow_request
allow_request_once now b h = ground arith

-- Of all the requests that ask while a breaker is OPEN or HALF_OPEN and before any outcome is
-- reported, at most one is let through, at whatever times they ask.
pub one_trial : (ts : List ℕ) (b : CircuitBreaker) → b.state ≢ closed → admissions b ts ≤ 1
unfolding admissions
one_trial [] b h = omega arith
one_trial (now ∷ ts) b h = elim (allow_request_once now b h) [
  | inl refused ↦ rw refused (omega (arith, one_trial ts b h))
  | inr (taken, testing) ↦
      rw taken (omega (arith, admissions_testing ts (allow_request now b).0 testing))
]

-- HALF_OPEN with the slot free and `done` trial successes counted of `pos t`.
pub record Probing (done t : ℕ) (b : CircuitBreaker) : Type 0 where
  pub mode : b.state ≡ half_open
  pub idle : b.half_open_trial_in_flight ≡ false
  pub count : b.consecutive_successes ≡ done
  pub goal : b.success_threshold ≡ pos t

-- One trial after another, each let through and each a success.
abbrev pub trials : List ℕ → List Call
trials [] = []
trials (now ∷ ts) = allows now ∷ succeeds ∷ trials ts

trial_counts :
    (done t now : ℕ) (b : CircuitBreaker)
    → Probing done t b
    → suc done < t
    → Probing (suc done) t (record_success (allow_request now b).0)
unfolding allow_request record_success
trial_counts done t now b p h = ground arith

last_trial :
    (done t now : ℕ) (b : CircuitBreaker)
    → Probing done t b
    → suc done ≡ t
    → let q = record_success (allow_request now b).0 in
      (q.state ≡ closed) × (q.consecutive_failures ≡ 0) × (q.consecutive_successes ≡ 0)
unfolding allow_request record_success
last_trial done t now b p h = ground arith

trials-Probing :
    (done t : ℕ) (ts : List ℕ) (b : CircuitBreaker)
    → Probing done t b
    → done + length ts < t
    → Probing (done + length ts) t (run b (trials ts))
unfolding run step
trials-Probing done t [] b p h = rw add-zero p
trials-Probing done t (now ∷ ts) b p h =
    let e : done + length (now ∷ ts) ≡ suc done + length ts = omega arith in
    rw e (
      trials-Probing (suc done) t ts (record_success (allow_request now b).0)
        (trial_counts done t now b p (omega arith)) (omega arith))

-- Trial after trial let through and successful, a HALF_OPEN breaker stays HALF_OPEN, with the
-- successes counted and the slot free, until they reach the threshold; the trial that reaches it
-- closes the breaker with both counters at 0.
pub trials_close :
    (done t : ℕ) (ts : List ℕ) (last : ℕ) (b : CircuitBreaker)
    → Probing done t b
    → done + length ts + 1 ≡ t
    → Probing (done + length ts) t (run b (trials ts))
      × ((step (step (run b (trials ts)) (allows last)) succeeds).state ≡ closed)
      × ((step (step (run b (trials ts)) (allows last)) succeeds).consecutive_failures ≡ 0)
      × ((step (step (run b (trials ts)) (allows last)) succeeds).consecutive_successes ≡ 0)
unfolding step
trials_close done t ts last b p h =
    let before = trials-Probing done t ts b p (omega arith) in
    let (shut, failures, successes) =
      last_trial (done + length ts) t last (run b (trials ts)) before (omega arith) in
    (before, shut, failures, successes)

-- The slot does not know whose outcome frees it. Once the cooldown of an OPEN breaker with a success
-- threshold above 1 is over, a trial is let through; the success of a request that was let through before the breaker opened, reported while that trial
-- is in flight, frees the slot, and a second trial is let through beside the first.
pub late_success_second_trial :
    (since wait goal first second : ℕ) (b : CircuitBreaker)
    → Blocked since wait b
    → b.success_threshold ≡ pos goal
    → 1 < goal
    → since + wait * nanos ≤ first
    → ((allow_request first b).1 ≡ true)
      × IsTesting (allow_request first b).0
      × ((allow_request second (record_success (allow_request first b).0)).1 ≡ true)
      × IsTesting (allow_request second (record_success (allow_request first b).0)).0
unfolding allow_request record_success
late_success_second_trial since wait goal first second b h e two late = ground arith

-- ===== src/Breaker/Trip.antt =====
-- How a CLOSED breaker opens: record_failure and record_success in circuit_breaker.cpp.
use aegis_proxy.Common.{
  ℕ, suc, ◌+◌, ◌<◌, ◌≡◌, refl, ap, ◌∙◌, List, [], ◌∷◌, ◌++◌, map, arith, length,
}
use native.Mathlib.Nat.{add-zero}
use aegis_proxy.Common.Int.{pos}
use aegis_proxy.Breaker.{
  closed, opened, CircuitBreaker, record_success, record_failure, Call, fails, succeeds, step, run,
}

-- A CLOSED breaker that has counted `k` failures in a row, with the threshold `t`.
pub record Counted (k t : ℕ) (b : CircuitBreaker) : Type 0 where
  pub mode : b.state ≡ closed
  pub count : b.consecutive_failures ≡ k
  pub limit : b.failure_threshold ≡ pos t

below_threshold :
    (k t now : ℕ) (b : CircuitBreaker)
    → Counted k t b
    → suc k < t
    → Counted (suc k) t (record_failure now b)
unfolding record_failure
below_threshold k t now b c h = ground arith

at_threshold :
    (k t now : ℕ) (b : CircuitBreaker)
    → Counted k t b
    → suc k ≡ t
    → ((record_failure now b).state ≡ opened) × ((record_failure now b).opened_at ≡ now)
unfolding record_failure
at_threshold k t now b c h = ground arith

after_success : (k t : ℕ) (b : CircuitBreaker) → Counted k t b → Counted 0 t (record_success b)
unfolding record_success
after_success k t b c = ground arith

late_failure : (now : ℕ) (b : CircuitBreaker) → b.state ≡ opened → record_failure now b ≡ b
unfolding record_failure
late_failure now b e = rw e

late_failures : (ts : List ℕ) (b : CircuitBreaker) → b.state ≡ opened → run b (map fails ts) ≡ b
unfolding run step
late_failures [] b e = refl
late_failures (now ∷ ts) b e =
    ap (λ q. run q (map fails ts)) (late_failure now b e) ∙ late_failures ts b e

pub run-append : (b : CircuitBreaker) (cs ds : List Call) → run b (cs ++ ds) ≡ run (run b cs) ds
unfolding run
run-append b [] ds = refl
run-append b (c ∷ cs) ds = run-append (step b c) cs ds

streak-Counted :
    (k t : ℕ) (ts : List ℕ) (b : CircuitBreaker)
    → Counted k t b
    → k + length ts < t
    → Counted (k + length ts) t (run b (map fails ts))
unfolding run step
streak-Counted k t [] b c h = rw add-zero c
streak-Counted k t (now ∷ ts) b c h =
    let e : k + length (now ∷ ts) ≡ suc k + length ts = omega arith in
    rw e (
      streak-Counted (suc k) t ts (record_failure now b) (below_threshold k t now b c (omega arith))
        (omega arith))

-- In a CLOSED breaker a success and then fewer failures than the threshold, with no success among
-- them, leave it CLOSED with just those failures counted, whatever was counted before.
pub success_resets :
    (k t : ℕ) (ts : List ℕ) (b : CircuitBreaker)
    → Counted k t b
    → length ts < t
    → Counted (length ts) t (run b (succeeds ∷ map fails ts))
unfolding run step
success_resets k t ts b c h =
    let reset = streak-Counted 0 t ts (record_success b) (after_success k t b c) (omega arith) in
    let e : 0 + length ts ≡ length ts = omega arith in rw e at reset

-- A CLOSED breaker with `k` failures counted opens at the failure that makes them the threshold, and
-- records the time of that failure; the failures that come after it do not restart the cooldown.
pub streak_trips :
    (k t : ℕ) (ts : List ℕ) (now : ℕ) (late : List ℕ) (b : CircuitBreaker)
    → Counted k t b
    → k + length ts + 1 ≡ t
    → ((run b (map fails ts ++ fails now ∷ map fails late)).state ≡ opened)
      × ((run b (map fails ts ++ fails now ∷ map fails late)).opened_at ≡ now)
unfolding run step
streak_trips k t ts now late b c h =
    let m = run b (map fails ts) in
    let before = streak-Counted k t ts b c (omega arith) in
    let opens = at_threshold (k + length ts) t now m before (omega arith) in
    rw (run-append b (map fails ts), late_failures late (record_failure now m) opens.0) opens

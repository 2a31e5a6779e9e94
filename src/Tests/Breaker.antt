-- ===== src/Tests/Breaker.antt =====
-- A breaker of circuit_breaker.cpp with both thresholds at 2 and a cooldown of 1 ms.
use aegis_proxy.Common.{◌*◌, ◌≤◌, ◌≡◌, refl, true, false, List, [], ◌∷◌, ◌++◌, map, arith, ◌≢◌}
use aegis_proxy.Common.Int.{pos}
use aegis_proxy.Breaker.{
  closed, opened, CircuitBreaker, new, allow_request, record_success, Call, allows, fails, succeeds,
  step, run, nanos,
}
use aegis_proxy.Breaker.Invariant.{IsValid, run-new-IsValid}
use aegis_proxy.Breaker.Transition.{mode, Move, step-Move}
use aegis_proxy.Breaker.Trip.{Counted, streak_trips}
use aegis_proxy.Breaker.Trial.{
  Blocked, cooldown_refuses, admissions, IsTesting, one_trial, late_success_second_trial,
}

abbrev breaker : CircuitBreaker
breaker = new (pos 2) (pos 3) 1

abbrev open_breaker : CircuitBreaker
open_breaker = record breaker { state = opened; opened_at = 100 }

abbrev history : List Call
history = fails 1 ∷ fails 2 ∷ allows 3 ∷ allows 2000000 ∷ succeeds ∷ []

run-new-IsValid_example : IsValid (run (new (pos 2) (pos 3) 1) history)
run-new-IsValid_example = run-new-IsValid (pos 2) (pos 3) 1 history

step-Move_example :
    Move
      (open_breaker.cooldown_period * nanos)
      (mode open_breaker)
      (mode (step open_breaker (allows 1000100)))
      (allows 1000100)
step-Move_example = step-Move open_breaker (allows 1000100)

breaker-Counted : Counted 0 2 breaker
unfolding new
breaker-Counted = record { mode = refl; count = refl; limit = refl }

streak_trips_example :
    ((run breaker (map fails (5 ∷ []) ++ fails 6 ∷ map fails (7 ∷ []))).state ≡ opened)
    × ((run breaker (map fails (5 ∷ []) ++ fails 6 ∷ map fails (7 ∷ []))).opened_at ≡ 6)
streak_trips_example = streak_trips 0 2 (5 ∷ []) 6 (7 ∷ []) breaker breaker-Counted refl

open-Blocked : Blocked 100 1 open_breaker
unfolding new
open-Blocked = record { mode = refl; start = refl; period = refl }

cooldown_refuses_example :
    Blocked 100 1 (run open_breaker (fails 200 ∷ succeeds ∷ allows 300 ∷ []))
    × (allow_request 1000099 (run open_breaker (fails 200 ∷ succeeds ∷ allows 300 ∷ []))
        ≡ (run open_breaker (fails 200 ∷ succeeds ∷ allows 300 ∷ []), false))
cooldown_refuses_example =
    cooldown_refuses 100 1 1000099 open_breaker (fails 200 ∷ succeeds ∷ allows 300 ∷ [])
      open-Blocked (omega arith, (tt, (omega arith, tt))) (omega arith)

opened_is_not_closed : opened ≢ closed
opened_is_not_closed e = cc

one_trial_example : admissions open_breaker (1000100 ∷ 1000200 ∷ []) ≤ 1
one_trial_example = one_trial (1000100 ∷ 1000200 ∷ []) open_breaker opened_is_not_closed

open_goal : open_breaker.success_threshold ≡ pos 3
unfolding new
open_goal = refl

late_success_second_trial_example :
    ((allow_request 1000100 open_breaker).1 ≡ true)
    × IsTesting (allow_request 1000100 open_breaker).0
    × ((allow_request 1000200 (record_success (allow_request 1000100 open_breaker).0)).1 ≡ true)
    × IsTesting (allow_request 1000200 (record_success (allow_request 1000100 open_breaker).0)).0
late_success_second_trial_example =
    late_success_second_trial 100 1 3 1000100 1000200 open_breaker open-Blocked open_goal
      (omega arith) (omega arith)

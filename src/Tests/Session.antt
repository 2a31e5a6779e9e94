-- ===== src/Tests/Session.antt =====
-- A client of handle_client in session.cpp, with two backends.
use aegis_proxy.Common.{
  ◌+◌, ◌*◌, ◌≤◌, ◌≢◌, ◌⊎◌, length, ◌≡◌, refl, true, [], ◌∷◌, some, none, arith,
}
use aegis_proxy.Common.Int.{pos}
use aegis_proxy.Text.{bytes, to_string}
use aegis_proxy.Hash.{hash_key}
use aegis_proxy.Run.{Run, ok, throw, at, update}
use aegis_proxy.Breaker
use aegis_proxy.Ring
use aegis_proxy.Ring.{contains}
use aegis_proxy.Pool
use aegis_proxy.Metrics
use aegis_proxy.Trace.{event_line}
use aegis_proxy.Session.World.{World, Env, log, show_breaker, report_failure, show_pool}
use aegis_proxy.Session.State.{State, new, answering, started, connected, client_read, backend_read}
use aegis_proxy.Session.Resume.{resume}
use aegis_proxy.Session.Progress.{PointBelow}
use aegis_proxy.Session.Sized.{Sized}
use aegis_proxy.Session.Finish.{Resumed, none_yet, again, endings_bounded}
use aegis_proxy.Session.Rank.{ends, leg_ends}
use aegis_proxy.Session.Refusal.{Why}
use aegis_proxy.Session.Refusal.Steps.{no_needless_503}
use aegis_proxy.Session.Handle.{loop}
use aegis_proxy.Session.Invariant.{IsFresh, OneSource}
use aegis_proxy.Session.Reach.{
  Reach, here, next, one_source, faithful_replay, no_second_try, IsUntried, is_forwarding,
}

abbrev config : Pool.BackendConfig
config = record { host = bytes "127.0.0.1"; port = bytes "9001"; min_pool_size = 0 }

abbrev breaker : Breaker.CircuitBreaker
breaker = Breaker.new (pos 2) (pos 2) 1000

abbrev world : World
world = record {
  ring = Ring.add_backend 1 (Ring.add_backend 0 (Ring.new 1));
  breakers = breaker ∷ breaker ∷ [];
  pool = Pool.new (config ∷ config ∷ []);
  metrics = Metrics.new 2;
  trace = [];
}

abbrev env : Env
env = record { asked_at = λ i. 5; failed_at = λ i. 6; what = λ e. [] }

abbrev result : Run (World × State) → World × State
result (ok r) = r
result (throw e) = (world, new [] [] 0)

abbrev start : State
start = new (bytes "10.0.0.1") (bytes "id") 3

-- The first backend refuses the connection, the second takes it, is handed a request and answers.
abbrev first : World × State
first = result (resume started env world start)

abbrev second : World × State
second = result (resume (connected none) env first.0 first.1)

abbrev socket : Pool.Socket
socket = record { handle = 7; is_open = true }

abbrev third : World × State
third = result (resume (connected (some socket)) env second.0 second.1)

abbrev fourth : World × State
fourth = result (resume (client_read (some (bytes "GET"))) env third.0 third.1)

abbrev fifth : World × State
fifth = result (resume (backend_read (some (bytes "HTTP"))) env fourth.0 fourth.1)

-- The five steps, and that a backend is relayed to at their end.
run_of_five : Reach (bytes "10.0.0.1") (bytes "id") 3 fifth.1 × (is_forwarding fifth.1.point ≡ true)
unfolding resume new Breaker.new Ring.new Ring.add_backend hash_key to_string event_line log
    Pool.new Pool.acquire_pooled Pool.count_active Metrics.new Breaker.allow_request
    Ring.get_backend_excluding at update Metrics.record_request_received Metrics.set_breaker_state
    loop show_breaker Pool.acquire_connected report_failure Metrics.record_backend_failure show_pool
    Pool.active_count Metrics.set_pool_active Pool.idle_count Metrics.set_pool_idle
run_of_five = (
  next (backend_read (some (bytes "HTTP"))) env fourth.0 fifth.0
      (next (client_read (some (bytes "GET"))) env third.0 fourth.0
        (next (connected (some socket)) env second.0 third.0
          (next (connected none) env first.0 second.0 (next started env world first.0 here refl)
            refl)
          refl)
        refl)
      refl,
  refl,
)

one_source_example : (fifth.1.sent ≡ []) ⊎ OneSource fifth.1.sent
one_source_example = one_source (bytes "10.0.0.1") (bytes "id") 3 fifth.1 run_of_five.0

faithful_replay_example : fifth.1.forwarded ≡ fifth.1.consumed
faithful_replay_example =
    faithful_replay (bytes "10.0.0.1") (bytes "id") 3 fifth.1 run_of_five.0 run_of_five.1

no_second_try_example :
    IsFresh fifth.1.excluded
    × (length fifth.1.excluded ≡ fifth.1.attempts)
    × (fifth.1.attempts ≤ fifth.1.max_attempts)
    × IsUntried fifth.1.point fifth.1.excluded
no_second_try_example = no_second_try (bytes "10.0.0.1") (bytes "id") 3 fifth.1 run_of_five.0

world-Sized : Sized 2 world
unfolding Ring.new Ring.add_backend hash_key to_string Pool.new Metrics.new Breaker.new
world-Sized = record {
  breakers = refl;
  pool = record { backends = refl; free = refl; active = refl };
  metrics = record { success = refl; failure = refl; breaker = refl; active = refl; idle = refl };
  ring = (omega arith, (omega arith, tt));
}

start_below : PointBelow 2 start.point
unfolding new
start_below = tt

-- The connection attempts end; the chunks that move do not.
three_endings : Resumed start 3 fifth.1
unfolding resume new Breaker.new Ring.new Ring.add_backend hash_key to_string event_line log
    Pool.new Pool.acquire_pooled Pool.count_active Metrics.new Breaker.allow_request
    Ring.get_backend_excluding at update Metrics.record_request_received Metrics.set_breaker_state
    loop show_breaker Pool.acquire_connected report_failure Metrics.record_backend_failure show_pool
    Pool.active_count Metrics.set_pool_active Pool.idle_count Metrics.set_pool_idle ends leg_ends
three_endings =
    again (backend_read (some (bytes "HTTP"))) env fourth.0 fifth.0
      (again (client_read (some (bytes "GET"))) env third.0 fourth.0
        (again (connected (some socket)) env second.0 third.0
          (again (connected none) env first.0 second.0
            (again started env world first.0 none_yet refl) refl)
          refl)
        refl)
      refl

endings_bounded_example : 3 ≤ 4 * 3 + 3
endings_bounded_example = endings_bounded (bytes "10.0.0.1") (bytes "id") 3 3 fifth.1 three_endings

-- No backend is on the ring.
abbrev bare : World
bare = record world { ring = Ring.new 1 }

abbrev given_up : World × State
given_up = result (resume started env bare start)

gives_up : resume started env bare start ≡ ok given_up
unfolding resume new Ring.new hash_key to_string event_line log Ring.get_backend_excluding
    Metrics.record_request_received loop Metrics.new Pool.new
gives_up = refl

is_answering : given_up.1.point ≡ answering
unfolding resume new Ring.new hash_key to_string event_line log Ring.get_backend_excluding
    Metrics.record_request_received loop Metrics.new Pool.new
is_answering = refl

not_yet : start.point ≢ answering
unfolding new
not_yet e = cc

no_needless_503_example : Why given_up.0 given_up.1
no_needless_503_example =
    no_needless_503 started env bare given_up.0 start given_up.1 gives_up not_yet is_answering

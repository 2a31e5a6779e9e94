-- ===== src/Session/World.antt =====
-- The objects that handle_client in session.cpp takes by reference, and the calls on them that it
-- makes in a fixed order. A breaker is written back at its index.
use aegis_proxy.Common.{ℕ, List, ◌∷◌}
use aegis_proxy.Text.{Bytes}
use aegis_proxy.Run.{Run, ok, Exception, ◌>>=◌, at, update}
use aegis_proxy.Breaker.{
  BreakerState, closed, opened, half_open, CircuitBreaker, record_success, record_failure,
}
use aegis_proxy.Ring.{HashRing}
use aegis_proxy.Pool.{ConnectionPool, active_count, idle_count}
use aegis_proxy.Metrics.{
  MetricsRegistry, record_backend_success, record_backend_failure, set_breaker_state,
  set_pool_active, set_pool_idle,
}
use aegis_proxy.Trace.{Fields, event_line}

-- `trace` holds the lines that TraceLogger printed on stderr, newest first.
pub record World : Type 0 where
  pub ring : HashRing
  pub breakers : List CircuitBreaker
  pub pool : ConnectionPool
  pub metrics : MetricsRegistry
  pub trace : List Bytes

-- What the machine reads while it runs: the steady clock, once where attempt `i` asks the breaker and
-- once where it reports a failure, and the text of an exception.
pub record Env : Type 0 where
  pub asked_at : ℕ → ℕ
  pub failed_at : ℕ → ℕ
  pub what : Exception → Bytes

-- `static_cast<int>(breaker.state())`.
abbrev pub state_code : BreakerState → ℕ
state_code closed = 0
state_code opened = 1
state_code half_open = 2

unfoldable pub log : Bytes → Bytes → Fields → World → World
log correlation_id name fields w = record w {
  trace = event_line correlation_id name fields ∷ w.trace;
}

-- `metrics.set_breaker_state(b, breaker.state())`.
unfoldable pub show_breaker : ℕ → World → Run World
show_breaker b w = do
  breaker ← at w.breakers b
  m ← set_breaker_state b (state_code breaker.state) w.metrics
  ok (record w { metrics = m })

-- The three calls that report a failed attempt.
unfoldable pub report_failure : ℕ → ℕ → World → Run World
unfolding show_breaker
report_failure b now w = do
  breakers ← update w.breakers b (record_failure now)
  m ← record_backend_failure b w.metrics
  show_breaker b (record w { breakers = breakers; metrics = m })

-- The three calls that report a success.
unfoldable pub report_success : ℕ → World → Run World
unfolding show_breaker
report_success b w = do
  breakers ← update w.breakers b record_success
  m ← record_backend_success b w.metrics
  show_breaker b (record w { breakers = breakers; metrics = m })

-- The two gauges of the pool.
unfoldable pub show_pool : ℕ → World → Run World
show_pool b w = do
  active ← active_count b w.pool
  m ← set_pool_active b active w.metrics
  idle ← idle_count b w.pool
  n ← set_pool_idle b idle m
  ok (record w { metrics = n })

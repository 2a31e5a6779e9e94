-- ===== src/Metrics.antt =====
-- metrics.hpp. The counters are `atomic<uint64_t>`; a gauge is an `atomic<int>`, kept as its 32 bits.
pub mod Render
use aegis_proxy.Common.{ℕ, ◌+◌, ◌%◌, ◌^◌, List, replicate}
use aegis_proxy.Run.{Run, ok, ◌>>=◌, update}

pub record MetricsRegistry : Type 0 where
  pub total_requests : ℕ
  pub rate_limited : ℕ
  pub fallback_503 : ℕ
  pub backend_success : List ℕ
  pub backend_failure : List ℕ
  pub breaker_state : List ℕ
  pub pool_active : List ℕ
  pub pool_idle : List ℕ

unfoldable pub new : ℕ → MetricsRegistry
new n = record {
  total_requests = 0;
  rate_limited = 0;
  fallback_503 = 0;
  backend_success = replicate n 0;
  backend_failure = replicate n 0;
  breaker_state = replicate n 0;
  pool_active = replicate n 0;
  pool_idle = replicate n 0;
}

-- `fetch_add(1)` on a 64-bit counter.
abbrev pub count_up : ℕ → ℕ
count_up n = (n + 1) % 2 ^ 64

unfoldable pub record_request_received : MetricsRegistry → MetricsRegistry
record_request_received m = record m { total_requests = count_up m.total_requests }

unfoldable pub record_rate_limited : MetricsRegistry → MetricsRegistry
record_rate_limited m = record m { rate_limited = count_up m.rate_limited }

unfoldable pub record_fallback_503 : MetricsRegistry → MetricsRegistry
record_fallback_503 m = record m { fallback_503 = count_up m.fallback_503 }

unfoldable pub record_backend_success : ℕ → MetricsRegistry → Run MetricsRegistry
record_backend_success b m = do
  counts ← update m.backend_success b count_up
  ok (record m { backend_success = counts })

unfoldable pub record_backend_failure : ℕ → MetricsRegistry → Run MetricsRegistry
record_backend_failure b m = do
  counts ← update m.backend_failure b count_up
  ok (record m { backend_failure = counts })

unfoldable pub set_breaker_state : ℕ → ℕ → MetricsRegistry → Run MetricsRegistry
set_breaker_state b state m = do
  states ← update m.breaker_state b (λ _. state)
  ok (record m { breaker_state = states })

unfoldable pub set_pool_active : ℕ → ℕ → MetricsRegistry → Run MetricsRegistry
set_pool_active b count m = do
  counts ← update m.pool_active b (λ _. count)
  ok (record m { pool_active = counts })

unfoldable pub set_pool_idle : ℕ → ℕ → MetricsRegistry → Run MetricsRegistry
set_pool_idle b count m = do
  counts ← update m.pool_idle b (λ _. count)
  ok (record m { pool_idle = counts })

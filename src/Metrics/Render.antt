-- ===== src/Metrics/Render.antt =====
-- render_prometheus in metrics.hpp.
pub mod Lines
use aegis_proxy.Common.{ℕ, ◌+◌, ◌-◌, ◌^◌, List, [], ◌∷◌, ◌++◌, ltb, if◌then◌else◌, length}
use aegis_proxy.Text.{Bytes, bytes, to_string}
use aegis_proxy.Metrics.{MetricsRegistry}

-- An `int` that is kept as its 32 bits, printed with its sign.
unfoldable pub int_text : ℕ → Bytes
int_text n = if ltb n (2 ^ 31) then to_string n else bytes "-" ++ to_string (2 ^ 32 - n)

-- One sample of a counter without labels.
pub sample : Bytes → ℕ → Bytes
sample name n = name ++ (bytes " " ++ (to_string n ++ bytes "\n"))

pub backend_sample : Bytes → ℕ → Bytes → Bytes
backend_sample name i text =
    name ++ (bytes "{backend=\"" ++ (to_string i ++ (bytes "\"} " ++ (text ++ bytes "\n"))))

-- A loop over the backends, from backend `i` on.
pub samples : Bytes → (ℕ → Bytes) → ℕ → List ℕ → Bytes
unfolding backend_sample
samples name show i [] = []
samples name show i (n ∷ ns) = backend_sample name i (show n) ++ samples name show (i + 1) ns

abbrev pub requests_head : Bytes
requests_head =
    bytes
      "# HELP aegis_requests_total Total requests accepted by the listener\n# TYPE aegis_requests_total counter\n"

abbrev pub rate_limited_head : Bytes
rate_limited_head =
    bytes
      "# HELP aegis_rate_limited_total Requests rejected with HTTP 429\n# TYPE aegis_rate_limited_total counter\n"

abbrev pub fallback_head : Bytes
fallback_head =
    bytes
      "# HELP aegis_fallback_503_total Requests exhausted all retry attempts\n# TYPE aegis_fallback_503_total counter\n"

abbrev pub success_head : Bytes
success_head =
    bytes
      "# HELP aegis_backend_success_total Successful relays per backend\n# TYPE aegis_backend_success_total counter\n"

abbrev pub failure_head : Bytes
failure_head =
    bytes
      "# HELP aegis_backend_failure_total Failed attempts per backend\n# TYPE aegis_backend_failure_total counter\n"

abbrev pub breaker_head : Bytes
breaker_head =
    bytes
      "# HELP aegis_breaker_state Circuit breaker state per backend (0=CLOSED, 1=OPEN, 2=HALF_OPEN)\n# TYPE aegis_breaker_state gauge\n"

abbrev pub active_head : Bytes
active_head =
    bytes
      "# HELP aegis_pool_active_connections Checked-out connections per backend\n# TYPE aegis_pool_active_connections gauge\n"

abbrev pub idle_head : Bytes
idle_head =
    bytes
      "# HELP aegis_pool_idle_connections Idle (pooled, warm) connections per backend\n# TYPE aegis_pool_idle_connections gauge\n"

pub counters_text : MetricsRegistry → Bytes
unfolding sample
counters_text m =
    requests_head
    ++ (sample (bytes "aegis_requests_total") m.total_requests
        ++ (rate_limited_head
            ++ (sample (bytes "aegis_rate_limited_total") m.rate_limited
                ++ (fallback_head ++ sample (bytes "aegis_fallback_503_total") m.fallback_503))))

pub backends_text : MetricsRegistry → Bytes
unfolding samples int_text
backends_text m =
    success_head
    ++ (samples (bytes "aegis_backend_success_total") to_string 0 m.backend_success
        ++ (failure_head
            ++ (samples (bytes "aegis_backend_failure_total") to_string 0 m.backend_failure
                ++ (breaker_head
                    ++ (samples (bytes "aegis_breaker_state") int_text 0 m.breaker_state
                        ++ (active_head
                            ++ (samples (bytes "aegis_pool_active_connections") int_text 0
                                  m.pool_active
                                ++ (idle_head
                                    ++ samples (bytes "aegis_pool_idle_connections") int_text 0
                                        m.pool_idle))))))))

unfoldable pub render_prometheus : MetricsRegistry → Bytes
unfolding counters_text backends_text
render_prometheus m = counters_text m ++ backends_text m

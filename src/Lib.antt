-- ===== src/Lib.antt =====
-- Aegis is a TCP proxy that spreads clients over backends: it picks a backend on a consistent-hash
-- ring, asks that backend's circuit breaker, takes a socket from the connection pool, relays bytes
-- both ways, and tries another backend as long as the client was sent nothing.
--
-- The parts, their files, and the code they stand for:
--   * Breaker: CircuitBreaker in circuit_breaker.hpp and circuit_breaker.cpp. `allow_request`,
--     `record_success` and `record_failure` are the methods; each takes the clock's reading. `step`
--     and `run` are histories of calls.
--   * Hash and Ring: HashRing in hash_ring.hpp and hash_ring.cpp. Hash is `hash_key`; Ring holds the
--     map as the list of its entries in order, and `add_backend`, `remove_backend`, `get_backend`,
--     `get_backend_excluding`, `backend_count` and `vnode_count`.
--   * Pool: ConnectionPool in connection_pool.hpp and connection_pool.cpp. `acquire` is in two parts,
--     `acquire_pooled` before the connection is made and `acquire_connected` behind it. `warm_up` gives
--     the lines that it prints on stderr beside the pool.
--   * RateLimiter: RateLimiter in rate_limiter.hpp and rate_limiter.cpp, the buckets of the clients in
--     their shards. The arithmetic of `double` is the argument `Arithmetic`; the laws that a property
--     relies on are `Ordered` in RateLimiter/Tokens and `Exact` in RateLimiter/Burst, which hold for
--     numbers that are not NaN and, for `Exact`, for whole numbers below 2^53.
--   * Metrics: MetricsRegistry in metrics.hpp, the counters and gauges; Metrics/Render is
--     `render_prometheus`.
--   * Trace: CorrelationId::generate and TraceLogger::event in tracer.hpp; Trace/Grammar is how a log
--     tool picks the lines on stderr and reads them. What warm_up prints there comes before them.
--   * Session: handle_client, relay, send_status and RequestBuffer in session.cpp. A session is a
--     `State`; `resume` runs it from one `co_await` to the next on the shared objects, the `World`.
--     Session/Handle has the rounds of the loop, Session/Resume what follows each suspension. Below
--     Session, each folder with proofs is named for what it follows through the rounds and the
--     suspensions: the invariant, the sizes, the pool's counters (Accounts), the connections
--     (Ownership), the lines on stderr (Journal), the totals, and the rank, which says how far a
--     session is from its end. Session/Framing is how a client reads a response.
--   * Server: the shared objects and the sessions of main.cpp. `boot` is what main builds, `accept` a
--     round of listen, `reap` a round of reap_loop, and `Reachable` every server that these and the
--     sessions' resumptions lead to, in any order, once `warm_up` has run.
--   * Process: the coroutines of main.cpp. `run` is run, `listen` and `metrics_listen` are rounds of the
--     two listeners and `listen_throws` and `metrics_listen_throws` what an exception does to them;
--     `send_429` and `serve_metrics` answer and drain a connection. `Step` resumes one coroutine.
--   * Main: main in main.cpp up to io_context.run: `stoi` and `listen_port` read the command line,
--     `setting` the environment, `open_ports` is the two acceptors, `start` the whole, with its three
--     ways to end.
--   * Common, Text, Run: lists, options and tests on the native numbers, byte texts, and calls that
--     may throw.
--   * Tests: the properties at concrete inputs.
--
-- How they interact: a session calls the ring, the breakers, the pool and the metrics by reference.
-- Each call between two suspensions runs without interruption; between two suspensions the shared
-- objects may become any others, which stands for all the other sessions. In Server the other sessions
-- are there: the process has one thread, so that they interleave at their suspensions only.
--
-- Bounds and fuel. The loop of handle_client runs on the rounds that are left, `max_attempts` less
-- `attempts`, which is the condition of the loop. The walk of get_backend_excluding runs on the size
-- of the ring, since the code visits each entry at most once. Hashes are 64-bit words with the
-- reduction modulo 2^64 written out, counters are reduced modulo 2^64 and gauges modulo 2^32. The
-- counters of a breaker are natural numbers. `std::to_string` runs on the number and one more.
--
-- `std::stoi` reads the range of a 32-bit `int`, ports are taken modulo 2^16.
--
-- Not modelled: asio and the sockets, which are what a read, a write, an accept or a connection attempt
-- reports; what a cancelled read or write still delivers is left open. Mutexes and atomics, which make
-- a method one step. `double` and `std::stod`, which are arguments. What warm_up, reap_loop and main
-- print on stdout, and what main prints where it fails. The signal handler, which stops the process
-- between two steps. Exceptions of the allocator.
pub mod Breaker
pub mod Common
pub mod Hash
pub mod Main
pub mod Metrics
pub mod Pool
pub mod Process
pub mod RateLimiter
pub mod Ring
pub mod Run
pub mod Server
pub mod Session
pub mod Tests
pub mod Text
pub mod Trace

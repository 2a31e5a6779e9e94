-- ===== src/Server.antt =====
-- main.cpp: what the process builds, what it does with a connection that it accepts, and the sessions
-- that run beside each other on one set of shared objects.
pub mod Sums
pub mod Books
pub mod Total
pub mod Clients
pub mod Totals
pub mod Finish
pub mod Ownership
pub mod Journal
use aegis_proxy.Common.{
  ℕ, zero, suc, ◌+◌, ◌*◌, ◌≡◌, Bool, true, false, List, [], ◌∷◌, Option, none, some, length,
  get_elem?, set, replicate,
}
use aegis_proxy.Common.Int.{pos}
use aegis_proxy.Text.{Bytes, bytes}
use aegis_proxy.Run.{Run, ok}
use aegis_proxy.Breaker
use aegis_proxy.Ring
use aegis_proxy.Ring.{HashRing, add_backend}
use aegis_proxy.Pool
use aegis_proxy.Pool.{BackendConfig, ConnectionPool, warm_up, Socket}
use aegis_proxy.Metrics
use aegis_proxy.Metrics.{record_rate_limited}
use aegis_proxy.Trace.{generate}
use aegis_proxy.RateLimiter.{Arithmetic, RateLimiter, allow, reap_idle}
use aegis_proxy.Session.World.{World, Env, log}
use aegis_proxy.Session.Status.{status_text}
use aegis_proxy.Session.State.{State, new, Event}
use aegis_proxy.Session.Handle.{field}
use aegis_proxy.Session.Resume.{resume}

-- The loop that puts the backends on the ring, `k` of them left from backend `i` on.
pub add_backends : ℕ → ℕ → HashRing → HashRing
add_backends i zero ring = ring
add_backends i (suc k) ring = add_backends (i + 1) k (add_backend i ring)

-- The objects that main builds for its backends, and that all sessions share.
unfoldable pub boot : List BackendConfig → World
unfolding add_backends
boot backends = record {
  ring = add_backends 0 (length backends) (Ring.new 500);
  breakers = replicate (length backends) (Breaker.new (pos 5) (pos 2) 5000);
  pool = Pool.new backends;
  metrics = Metrics.new (length backends);
  trace = [];
}

-- The default of the last parameter of handle_client.
abbrev pub default_attempts : ℕ
default_attempts = 3

-- Five minutes in nanoseconds.
abbrev pub idle_threshold : ℕ
idle_threshold = 300 * 1000000000

-- The coroutines of handle_client that were spawned, newest first, the counter of the ids, and the
-- lines that warm_up printed on stderr before anything else was printed there, newest first.
pub record Server (A : Type 0) : Type 0 where
  pub limiter : RateLimiter A
  pub counter : ℕ
  pub world : World
  pub sessions : List State
  pub warnings : List Bytes

-- What send_429 writes.
abbrev pub too_many_requests : Bytes
too_many_requests = status_text 429 (bytes "Too Many Requests") (bytes "Rate limit exceeded\n")

module _ {A : Type 0} ⦃number : Arithmetic A⦄ where
  -- The limiter refused the client: the 429 response is the second component.
  unfoldable pub reject : Bytes → Bytes → Server A → Server A × Option Bytes
  reject correlation_id client_key srv = (
    record srv {
      world =
          log correlation_id (bytes "rate_limited") (field (bytes "client") client_key)
            (record srv.world { metrics = record_rate_limited srv.world.metrics });
    },
    some too_many_requests,
  )

  unfoldable pub spawn : Bytes → Bytes → Server A → Server A × Option Bytes
  spawn correlation_id client_key srv = (
    record srv { sessions = new client_key correlation_id default_attempts ∷ srv.sessions },
    none,
  )

  -- One round of listen, for a connection with this remote address; none where asio reports an error.
  unfoldable pub accept : Option Bytes → ℕ → ℕ → Server A → Server A × Option Bytes
  unfolding reject spawn
  accept none now_ms now srv =
      let (correlation_id, counter) = generate now_ms srv.counter in
      (
        record srv {
          counter = counter;
          world = log correlation_id (bytes "remote_endpoint_failed") [] srv.world;
        },
        none,
      )
  accept (some client_key) now_ms now srv =
      let (correlation_id, counter) = generate now_ms srv.counter in
      let (limiter, allowed) = allow client_key now srv.limiter in
      let asked : Server A = record srv { counter = counter; limiter = limiter } in
      elim allowed [
        | true ↦ spawn correlation_id client_key asked
        | false ↦ reject correlation_id client_key asked
      ]

  -- One round of reap_loop.
  unfoldable pub reap : ℕ → Server A → Server A
  reap now srv = record srv { limiter = (reap_idle idle_threshold now srv.limiter).0 }

  -- The server once run has warmed the pool, and what it does from then on: listen accepts, reap_loop
  -- reaps, and any session is resumed, in any order.
  pub data Reachable (backends : List BackendConfig) : Server A → Type 0 where
    warmed :
        (limiter : RateLimiter A) (answers : ℕ → ℕ → Option Socket) (errors : ℕ → ℕ → Bytes)
        (p : ConnectionPool) (lines : List Bytes)
        → warm_up answers errors (boot backends).pool ≡ ok (p, lines)
        → Reachable backends (record {
          limiter = limiter;
          counter = 0;
          world = record (boot backends) { pool = p };
          sessions = [];
          warnings = lines;
        })
    accepts :
        (remote : Option Bytes) (now_ms now : ℕ) (srv : Server A)
        → Reachable backends srv
        → Reachable backends (accept remote now_ms now srv).0
    reaps : (now : ℕ) (srv : Server A) → Reachable backends srv → Reachable backends (reap now srv)
    resumes :
        (i : ℕ) (event : Event) (env : Env) (srv : Server A) (s t : State) (w : World)
        → Reachable backends srv
        → get_elem? srv.sessions i ≡ some s
        → resume event env srv.world s ≡ ok (w, t)
        → Reachable backends (record srv { world = w; sessions = set srv.sessions i t })

-- ===== src/Tests/Server.antt =====
-- A server of main.cpp with two backends, one socket warmed for each, and one client.
use aegis_proxy.Common.{
  ℕ, ◌+◌, ◌≤◌, ◌%◌, ◌^◌, ◌≡◌, refl, true, List, [], ◌∷◌, Option, none, some, arith, get_elem?, set,
  length, map, ◌==◌, if◌then◌else◌,
}
use aegis_proxy.Text.{Bytes, bytes}
use aegis_proxy.Hash.{hash_key}
use aegis_proxy.Run.{ok, at, update}
use aegis_proxy.Pool.{
  BackendConfig, ConnectionPool, Socket, int_word, warm_up, warm_up_line, acquire, release,
  decrement,
}
use aegis_proxy.Pool
use aegis_proxy.Pool.Accounting.{counter}
use aegis_proxy.Pool.Recycle.{release_then_acquire}
use aegis_proxy.RateLimiter
use aegis_proxy.RateLimiter.{Arithmetic, RateLimiter, allow}
use aegis_proxy.Trace.{generate}
use aegis_proxy.Session.World.{World, Env}
use aegis_proxy.Session.State.{State, started, new}
use aegis_proxy.Session.Resume.{resume}
use aegis_proxy.Server.{Server, boot, accept, default_attempts, Reachable, warmed, accepts}
use aegis_proxy.Server.Books.{held_by, active_counters_balance}
use aegis_proxy.Pool.Stock.{in_free}
use aegis_proxy.Server.Ownership.{had_by, granted, sockets_owned}
use aegis_proxy.Server.Journal.{Plain, stderr, log_reads_back}
use aegis_proxy.Trace.Grammar.{read_log, grep}
use aegis_proxy.Trace.ReadBack.{Entry, said, written}
use aegis_proxy.Server.Sums.{sum_of}
use aegis_proxy.Server.Totals.{refusals_of, begun_of, totals_tally}
use aegis_proxy.Server.Total.{no_exception_escapes}
use aegis_proxy.Server.Finish.{Finishes, can_finish}
use aegis_proxy.Session.Rank.{rank}
use aegis_proxy.Tests.RateLimiter.{whole}

abbrev pub backends : List BackendConfig
backends =
    record { host = bytes "127.0.0.1"; port = bytes "9001"; min_pool_size = 1 }
    ∷ record { host = bytes "127.0.0.1"; port = bytes "9002"; min_pool_size = 1 }
    ∷ []

abbrev pub socket : ℕ → Socket
socket n = record { handle = n; is_open = true }

abbrev pub answers : ℕ → ℕ → Option Socket
answers b n = some (socket b)

abbrev pub warm : ConnectionPool
warm = record {
  backends = backends;
  free_sockets = (socket 0 ∷ []) ∷ (socket 1 ∷ []) ∷ [];
  active_counts = 0 ∷ 0 ∷ [];
}

abbrev pub errors : ℕ → ℕ → Bytes
errors b n = bytes "connect: Connection refused"

pub is_warm : warm_up answers errors (boot backends).pool ≡ ok (warm, [])
unfolding warm_up boot Pool.new at update
is_warm = refl

abbrev pub limiter : RateLimiter ℕ
limiter = RateLimiter.new 10 20 64

abbrev ready : Server ℕ
ready = record {
  limiter = limiter;
  counter = 0;
  world = record (boot backends) { pool = warm };
  sessions = [];
  warnings = [];
}

ready-Reachable : Reachable ⦃number = whole⦄ backends ready
ready-Reachable = warmed limiter answers errors warm [] is_warm

abbrev pub key : Bytes
key = bytes "10.0.0.1"

abbrev serving : Server ℕ
serving = (accept ⦃number = whole⦄ (some key) 5 6 ready).0

serving-Reachable : Reachable ⦃number = whole⦄ backends serving
serving-Reachable = accepts (some key) 5 6 ready ready-Reachable

abbrev client : State
client = new key (generate 5 0).0 default_attempts

is_serving : get_elem? serving.sessions 0 ≡ some client
unfolding accept allow RateLimiter.new hash_key RateLimiter.shard_index
is_serving = refl

abbrev pub env : Env
env = record { asked_at = λ i. 5; failed_at = λ i. 6; what = λ e. [] }

active_counters_balance_example :
    counter 1 serving.world.pool.active_counts ≡ held_by serving.sessions 1 % int_word
active_counters_balance_example =
    active_counters_balance ⦃number = whole⦄ backends serving serving-Reachable 1

no_exception_escapes_example :
    (r : World × State) × (resume started env serving.world client ≡ ok r)
no_exception_escapes_example =
    no_exception_escapes ⦃number = whole⦄ backends serving 0 client started env serving-Reachable
      is_serving

abbrev given : ConnectionPool
given = record warm {
  free_sockets = set warm.free_sockets 1 (socket 9 ∷ socket 1 ∷ []);
  active_counts = set warm.active_counts 1 (decrement 0);
}

release_then_acquire_example :
    (release 1 (socket 9) true warm ≡ ok given) × (acquire 1 none given ≡ ok (socket 9, warm))
release_then_acquire_example =
    release_then_acquire 1 0 (socket 1 ∷ []) (socket 9) none warm refl refl (omega arith)
      (omega arith) (omega arith) refl

totals_tally_example :
    (serving.world.metrics.fallback_503 ≡ sum_of refusals_of serving.sessions % 2 ^ 64)
    × (serving.world.metrics.total_requests ≡ sum_of begun_of serving.sessions % 2 ^ 64)
totals_tally_example = totals_tally ⦃number = whole⦄ backends serving serving-Reachable

can_finish_example : Finishes ⦃number = whole⦄ backends 0 (rank client) serving
can_finish_example =
    can_finish ⦃number = whole⦄ backends env serving 0 client serving-Reachable is_serving

sockets_owned_example :
    in_free 1 serving.world.pool.free_sockets + had_by 1 serving.sessions
    ≤ granted ⦃number = whole⦄ 1 backends serving serving-Reachable
sockets_owned_example = sockets_owned ⦃number = whole⦄ 1 backends serving serving-Reachable

-- The second backend is down when the pool is warmed.
abbrev half_answers : ℕ → ℕ → Option Socket
half_answers b n = if b == 0 then some (socket b) else none

abbrev half_warm : ConnectionPool
half_warm = record warm { free_sockets = (socket 0 ∷ []) ∷ [] ∷ [] }

abbrev warning : Bytes
warning = bytes "[pool] warm-up connect failed for 127.0.0.1:9002 -> connect: Connection refused\n"

is_half_warm : warm_up half_answers errors (boot backends).pool ≡ ok (half_warm, warning ∷ [])
unfolding warm_up warm_up_line boot Pool.new at update
is_half_warm = refl

abbrev half_ready : Server ℕ
half_ready = record ready {
  world = record (boot backends) { pool = half_warm };
  warnings = warning ∷ [];
}

half_ready-Reachable : Reachable ⦃number = whole⦄ backends half_ready
half_ready-Reachable = warmed limiter half_answers errors half_warm (warning ∷ []) is_half_warm

-- Behind a connection whose remote address is not known.
abbrev unknown : Server ℕ
unknown = (accept ⦃number = whole⦄ none 5 7 half_ready).0

unknown-Reachable : Reachable ⦃number = whole⦄ backends unknown
unknown-Reachable = accepts none 5 7 half_ready half_ready-Reachable

unknown-Plain : Plain ⦃number = whole⦄ backends unknown unknown-Reachable
unfolding Plain unknown-Reachable half_ready-Reachable
unknown-Plain = (ground arith, λ b k. ground arith)

log_reads_back_example :
    (es : List Entry) × (length es ≡ length unknown.world.trace)
    × (grep (bytes "cid=") (stderr unknown) ≡ written es)
    × (read_log (grep (bytes "cid=") (stderr unknown)) ≡ some (map said es))
log_reads_back_example =
    log_reads_back ⦃number = whole⦄ backends unknown unknown-Reachable unknown-Plain

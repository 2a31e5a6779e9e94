-- ===== src/Session/Handle.antt =====
-- handle_client in session.cpp, from one `co_await` to the next.
use aegis_proxy.Common.{Bool, ℕ, zero, suc, ◌+◌, ◌-◌, true, false, [], ◌∷◌, none, some}
use aegis_proxy.Text.{Bytes, bytes, to_string}
use aegis_proxy.Run.{Run, ok, throw, Exception, ◌>>=◌, at, update}
use aegis_proxy.Breaker.{allow_request}
use aegis_proxy.Ring.{get_backend_excluding}
use aegis_proxy.Pool.{Socket, acquire_pooled}
use aegis_proxy.Metrics.{record_fallback_503}
use aegis_proxy.Trace.{Fields}
use aegis_proxy.Session.World.{World, Env, log, show_breaker, report_failure, show_pool}
use aegis_proxy.Session.Relay.{begin}
use aegis_proxy.Session.Status.{unavailable}
use aegis_proxy.Session.State.{connecting, replaying, relaying, answering, status, State}

abbrev pub Result : Type 0
Result = Run (World × State)

abbrev pub Retry : Type 0
Retry = World → State → Result

abbrev pub field : Bytes → Bytes → Fields
field k v = (k, v) ∷ []

abbrev pub two_fields : Bytes → Bytes → Bytes → Bytes → Fields
two_fields k v l u = (k, v) ∷ (l, u) ∷ []

abbrev pub trace : Bytes → Fields → State → World → World
trace name fs s w = log s.correlation_id name fs w

-- `excluded.insert(b); ++attempts;`.
abbrev pub exclude : ℕ → State → State
exclude b s = record s { excluded = b ∷ s.excluded; attempts = s.attempts + 1 }

-- Behind the loop.
unfoldable pub give_up : World → State → Result
give_up w s = ok (
  trace (bytes "fallback_503") (field (bytes "attempts") (to_string s.attempts)) s
      (record w { metrics = record_fallback_503 w.metrics }),
  record s { point = answering; sent = status unavailable ∷ s.sent },
)

unfoldable pub start_relay : ℕ → Socket → World → State → Result
start_relay b socket w s = ok (w, record s { point = relaying b socket begin })

-- With a socket in hand: the gauges, then the replay of what the client already sent, or the relay.
unfoldable pub selected : ℕ → Socket → World → State → Result
unfolding start_relay
selected b socket w s = do
  shown ← show_pool b (
      trace (bytes "backend_selected")
        (two_fields (bytes "backend") (to_string b) (bytes "attempt") (to_string (s.attempts + 1)))
        s w)
  let fresh : State = record s { forwarded = s.req_buf.contents }
  elim s.req_buf.contents [
    | [] ↦ start_relay b socket shown fresh
    | _ ∷ _ ↦ ok (shown, record fresh { point = replaying b socket })
  ]

-- The handler of an exception of acquire.
unfoldable pub connect_failed : ℕ → Exception → Retry → Env → World → State → Result
connect_failed b e retry env w s = do
  reported ← report_failure b (env.failed_at s.attempts) (
      trace (bytes "connect_failed")
        (two_fields (bytes "backend") (to_string b) (bytes "error") (env.what e)) s w)
  retry reported (exclude b s)

unfoldable pub attempt : ℕ → Retry → Env → World → State → Result
unfolding selected connect_failed
attempt b retry env w s = elim (acquire_pooled b w.pool) [
  | throw e ↦ connect_failed b e retry env w s
  | ok (pooled, p) ↦ elim pooled [
    | none ↦ ok (record w { pool = p }, record s { point = connecting b })
    | some socket ↦ selected b socket (record w { pool = p }) s
  ]
]

-- The breaker's state goes to the gauge, and the breaker is asked.
unfoldable pub ask : ℕ → ℕ → World → Run (Bool × World)
ask b now w = do
  shown ← show_breaker b w
  breaker ← at shown.breakers b
  breakers ← update shown.breakers b (λ _. (allow_request now breaker).0)
  ok ((allow_request now breaker).1, record shown { breakers = breakers })

-- One round of the loop, for the backend that the ring gave.
unfoldable pub consider : ℕ → Retry → Env → World → State → Result
unfolding attempt ask
consider b retry env w s = do
  (allowed, asked) ← ask b (env.asked_at s.attempts) w
  elim allowed [
    | true ↦ attempt b retry env asked s
    | false ↦
        retry
          (trace (bytes "breaker_skip")
            (two_fields (bytes "backend") (to_string b) (bytes "reason")
              (bytes "open_or_trial_busy"))
            s asked)
          (exclude b s)
  ]

-- `while (attempts < max_attempts)`, with the rounds that are left.
unfoldable pub loop : ℕ → Env → World → State → Result
unfolding give_up consider
loop zero env w s = give_up w s
loop (suc rounds) env w s = elim (get_backend_excluding s.client_key s.excluded w.ring) [
  | none ↦
      give_up (trace (bytes "ring_exhausted") (field (bytes "attempts") (to_string s.attempts)) s w)
        s
  | some b ↦ consider b (loop rounds env) env w s
]

abbrev pub next_round : Env → World → State → Result
next_round env w s = loop (s.max_attempts - s.attempts) env w s

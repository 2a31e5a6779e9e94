-- ===== src/Server/Clients.antt =====
-- The clients that main.cpp accepts.
use aegis_proxy.Common.{
  ℕ, suc, ◌≡◌, ◌⊎◌, true, false, List, [], Option, none, some, arith, inl, inr, Bool-cases, All,
  All-set, All-get_elem?, All-map, length,
}
use aegis_proxy.Text.{Bytes}
use aegis_proxy.Pool.{BackendConfig}
use aegis_proxy.Metrics.{count_up, record_rate_limited}
use aegis_proxy.RateLimiter.{Arithmetic, allow}
use aegis_proxy.Session.World.{log}
use aegis_proxy.Session.State.{State}
use aegis_proxy.Session.Invariant.{OneSource}
use aegis_proxy.Session.Reach.{Reach, here, next, one_source, is_forwarding, faithful_replay}
use aegis_proxy.Server.{
  Server, accept, reject, spawn, reap, default_attempts, too_many_requests, Reachable, warmed,
  accepts, reaps, resumes,
}

-- A session that handle_client can be in, for some client and some id.
abbrev IsSession : State → Type 0
IsSession s = (key : Bytes) × (id : Bytes) × Reach key id default_attempts s

module _ {A : Type 0} ⦃number : Arithmetic A⦄ where
  accept-IsSession :
      (remote : Option Bytes) (now_ms now : ℕ) (srv : Server A)
      → All IsSession srv.sessions
      → All IsSession (accept remote now_ms now srv).0.sessions
  unfolding accept reject spawn
  accept-IsSession none now_ms now srv h = h
  accept-IsSession (some key) now_ms now srv h = elim (Bool-cases (allow key now srv.limiter).1) [
    | inl allowed ↦ rw (allowed, accept) (((_, _, here), h))
    | inr refused ↦ rw (refused, accept) h
  ]

  Reachable-IsSession :
      (backends : List BackendConfig) (srv : Server A)
      → Reachable backends srv
      → All IsSession srv.sessions
  unfolding reap
  Reachable-IsSession backends srv (warmed limiter answers errors p lines e) = tt
  Reachable-IsSession backends srv (accepts remote now_ms now before r) =
      accept-IsSession remote now_ms now before (Reachable-IsSession backends before r)
  Reachable-IsSession backends srv (reaps now before r) = Reachable-IsSession backends before r
  Reachable-IsSession backends srv (resumes i event env before s t w r at_i e) =
      let h = Reachable-IsSession backends before r in
      let (key, id, reached) = All-get_elem? IsSession i s before.sessions at_i h in
      All-set IsSession i t before.sessions (key, id, next event env before.world w reached e) h

  -- In a running server each client is answered by one source only, the 503 response or a single
  -- backend, and whichever backend a session is forwarding to was handed all that its client sent, in
  -- order, however the sessions are interleaved.
  pub every_client :
      (backends : List BackendConfig) (srv : Server A)
      → Reachable backends srv
      → All
          (λ s.
            ((s.sent ≡ []) ⊎ OneSource s.sent)
            × (is_forwarding s.point ≡ true → s.forwarded ≡ s.consumed))
          srv.sessions
  every_client backends srv r =
      All-map IsSession srv.sessions
        (λ s h.
          let (key, id, reached) = h in
          (
            one_source key id default_attempts s reached,
            λ e. faithful_replay key id default_attempts s reached e,
          ))
        (Reachable-IsSession backends srv r)

  -- A client that the limiter refuses gets the 429 response, is counted as rate limited and starts no
  -- session; a client that it allows starts one session and gets no response yet, and the metrics stay
  -- as they are. Either way the limiter is the one that allow leaves, and the ring, the breakers and
  -- the pool are left alone.
  pub accept_lem :
      (key : Bytes) (now_ms now : ℕ) (srv : Server A)
      → let answer = allow key now srv.limiter in
        let after = accept (some key) now_ms now srv in
        (after.0.limiter ≡ answer.0)
        × (after.0.world.pool ≡ srv.world.pool)
        × (after.0.world.ring ≡ srv.world.ring)
        × (after.0.world.breakers ≡ srv.world.breakers)
        × ((answer.1 ≡ false
              → (after.1 ≡ some too_many_requests)
                × (after.0.world.metrics.rate_limited ≡ count_up srv.world.metrics.rate_limited)
                × (after.0.sessions ≡ srv.sessions))
            × (answer.1 ≡ true
                → (after.1 ≡ none)
                  × (after.0.world.metrics ≡ srv.world.metrics)
                  × (length after.0.sessions ≡ suc (length srv.sessions))))
  unfolding accept reject spawn log record_rate_limited
  accept_lem key now_ms now srv = ground arith

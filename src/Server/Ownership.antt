-- ===== src/Server/Ownership.antt =====
-- The connections that the sessions and the free lists of one server have.
use aegis_proxy.Common.{
  ℕ, ◌+◌, ◌-◌, ◌≤◌, ◌≡◌, refl, List, Option, none, some, arith, inl, inr, Bool-cases,
}
use aegis_proxy.Text.{Bytes}
use aegis_proxy.Run.{Ensures-ok}
use aegis_proxy.Pool.{BackendConfig, warm_up}
use aegis_proxy.Pool.Stock.{in_free}
use aegis_proxy.Pool.Origin.{answered_all, warm_up-AtMost}
use aegis_proxy.RateLimiter.{Arithmetic, allow}
use aegis_proxy.Session.World.{log}
use aegis_proxy.Session.State.{State, new}
use aegis_proxy.Session.Resume.{resume}
use aegis_proxy.Session.Ownership.{has, Owned}
use aegis_proxy.Session.Ownership.Steps.{brings, resume-Owned}
use aegis_proxy.Server.Sums.{sum_of, sum_of_others, sum_of_one, sum_of-set}
use aegis_proxy.Server.{
  Server, boot, accept, reject, spawn, reap, Reachable, warmed, accepts, reaps, resumes,
}

-- How many of these sessions have a connection.
abbrev pub had_by : ℕ → List State → ℕ
had_by h ss = sum_of (λ s. has h s.point) ss

-- How often the server has a connection.
abbrev pub places : {A : Type 0} → ℕ → Server A → ℕ
places h srv = in_free h srv.world.pool.free_sockets + had_by h srv.sessions

module _ {A : Type 0} ⦃number : Arithmetic A⦄ where
  -- How often the network answered with a connection: to warm_up, and to the sessions.
  unfoldable pub granted :
      (h : ℕ) (backends : List BackendConfig) (srv : Server A) → Reachable backends srv → ℕ
  granted h backends srv (warmed limiter answers errors p lines e) =
      answered_all h answers 0 backends
  granted h backends srv (accepts remote now_ms now before r) = granted h backends before r
  granted h backends srv (reaps now before r) = granted h backends before r
  granted h backends srv (resumes i event env before s t w r at_i e) =
      granted h backends before r + brings h event

  accept-places :
      (h : ℕ) (remote : Option Bytes) (now_ms now : ℕ) (srv : Server A)
      → places h (accept remote now_ms now srv).0 ≡ places h srv
  unfolding accept reject spawn log sum_of new
  accept-places h none now_ms now srv = refl
  accept-places h (some key) now_ms now srv = elim (Bool-cases (allow key now srv.limiter).1) [
    | inl allowed ↦ rw (allowed, accept) (omega arith)
    | inr refused ↦ rw (refused, accept) refl
  ]

  -- In every server that main's objects can become, a connection stands in the free lists of the pool and
  -- in the replays and relays of the sessions, all places counted, at most as often as the network
  -- answered with it: a connection that it gave once is never in two of these places.
  pub sockets_owned :
      (h : ℕ) (backends : List BackendConfig) (srv : Server A) (r : Reachable backends srv)
      → in_free h srv.world.pool.free_sockets + had_by h srv.sessions ≤ granted h backends srv r
  unfolding boot sum_of reap granted
  sockets_owned h backends srv (warmed limiter answers errors p lines e) = omega (
    arith,
    Ensures-ok (λ q. in_free h q.0.free_sockets ≤ answered_all h answers 0 backends)
        (warm_up answers errors (boot backends).pool) (warm_up-AtMost h backends answers errors) e,
  )
  sockets_owned h backends srv (accepts remote now_ms now before r) =
      omega (arith, accept-places h remote now_ms now before, sockets_owned h backends before r)
  sockets_owned h backends srv (reaps now before r) = sockets_owned h backends before r
  sockets_owned h backends srv (resumes i event env before s t w r at_i e) =
      let f : State → ℕ = λ s. has h s.point in
      let k = granted h backends before r + brings h event in
      let others = sum_of_others f before.sessions i in
      let ih = sockets_owned h backends before r in
      let apart = sum_of_one f before.sessions i s at_i in
      let moved =
        Ensures-ok (Owned h (k - others)) (resume event env before.world s)
          (resume-Owned h (k - others) env event before.world s (omega (arith, ih, apart))) e in
      omega (arith, ih, apart, moved, sum_of-set f before.sessions i s t at_i)

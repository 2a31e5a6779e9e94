-- ===== src/Server/Totals.antt =====
-- The totals of the metrics page of a server against what its sessions did.
use aegis_proxy.Common.{
  ℕ, ◌%◌, ◌^◌, ◌≡◌, refl, ap, List, Option, none, some, arith, inl, inr, Bool-cases, get_elem?, set,
}
use aegis_proxy.Text.{Bytes}
use aegis_proxy.Run.{ok, Ensures-ok}
use aegis_proxy.Pool.{BackendConfig}
use aegis_proxy.Metrics
use aegis_proxy.Metrics.{count_up, record_rate_limited}
use aegis_proxy.RateLimiter.{Arithmetic, allow}
use aegis_proxy.Session.World.{World, Env, log}
use aegis_proxy.Session.State.{State, Event, new}
use aegis_proxy.Session.Resume.{resume}
use aegis_proxy.Session.Totals.{statuses, begun, Totals, Done}
use aegis_proxy.Session.Totals.Steps.{resume-Done}
use aegis_proxy.Server.Sums.{sum_of, sum_of_others, sum_of_one, sum_of-set}
use aegis_proxy.Server.{
  Server, boot, accept, reject, spawn, reap, Reachable, warmed, accepts, reaps, resumes,
}

-- How many 503 responses a session handed out, and whether it has started.
abbrev pub refusals_of : State → ℕ
refusals_of s = statuses s.sent

abbrev pub begun_of : State → ℕ
begun_of s = begun s.point

-- The totals of the page, the total of refused clients being `z`.
abbrev pub Tally : {A : Type 0} → ℕ → Server A → Type 0
Tally z srv =
    Totals (sum_of refusals_of srv.sessions) (sum_of begun_of srv.sessions) z srv.world.metrics

module _ {A : Type 0} (before : Server A) (i : ℕ) (event : Event) (env : Env) (s t : State)
    (w : World) (at_i : get_elem? before.sessions i ≡ some s)
    (e : resume event env before.world s ≡ ok (w, t)) where
  pub resume-Tally :
      (z : ℕ)
      → Tally z before
      → Tally z (record before { world = w; sessions = set before.sessions i t })
  resume-Tally z h =
      let x = sum_of_others refusals_of before.sessions i in
      let y = sum_of_others begun_of before.sessions i in
      let mine : Done x y z (before.world, s) = (
        rw (sum_of_one refusals_of before.sessions i s at_i) at h.0,
        rw (sum_of_one begun_of before.sessions i s at_i) at h.1,
        h.2,
      ) in
      let (fallbacks, requests, refused) =
        Ensures-ok (Done x y z) (resume event env before.world s)
          (resume-Done x y z env event before.world s mine) e in
      (
        rw (sum_of-set refusals_of before.sessions i s t at_i) fallbacks,
        rw (sum_of-set begun_of before.sessions i s t at_i) requests,
        refused,
      )

module _ {A : Type 0} ⦃number : Arithmetic A⦄ where
  -- How the connections change the totals, by whether the client was refused.
  pub accept-Tally :
      (z : ℕ) (remote : Option Bytes) (now_ms now : ℕ) (srv : Server A)
      → Tally z srv
      → Tally
          (elim (accept remote now_ms now srv).1 [ none ↦ z | some text ↦ count_up z ])
          (accept remote now_ms now srv).0
  unfolding accept reject spawn log sum_of new record_rate_limited
  accept-Tally z none now_ms now srv h = h
  accept-Tally z (some key) now_ms now srv h = elim (Bool-cases (allow key now srv.limiter).1) [
    | inl allowed ↦ rw (allowed, accept) ((rw h.0 (omega arith), rw h.1 (omega arith), h.2))
    | inr refused ↦ rw (refused, accept) (h.0, h.1, ap count_up h.2)
  ]

  -- In every server that main's objects can become, the total of fallbacks is the number of 503
  -- responses that were handed to clients, and the total of requests is the number of sessions that
  -- have started, both modulo 2^64.
  pub totals_tally :
      (backends : List BackendConfig) (srv : Server A)
      → Reachable backends srv
      → (srv.world.metrics.fallback_503 ≡ sum_of refusals_of srv.sessions % 2 ^ 64)
        × (srv.world.metrics.total_requests ≡ sum_of begun_of srv.sessions % 2 ^ 64)
  unfolding boot sum_of reap Metrics.new
  totals_tally backends srv (warmed limiter answers errors p lines e) = (omega arith, omega arith)
  totals_tally backends srv (accepts remote now_ms now before r) =
      let (x, y) = totals_tally backends before r in
      let (fallbacks, requests, _) =
        accept-Tally before.world.metrics.rate_limited remote now_ms now before (x, y, refl) in
      (fallbacks, requests)
  totals_tally backends srv (reaps now before r) = totals_tally backends before r
  totals_tally backends srv (resumes i event env before s t w r at_i e) =
      let (x, y) = totals_tally backends before r in
      let (fallbacks, requests, _) =
        resume-Tally before i event env s t w at_i e before.world.metrics.rate_limited
          (x, y, refl) in
      (fallbacks, requests)

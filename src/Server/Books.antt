-- ===== src/Server/Books.antt =====
-- The active counters of the pool and the sessions of one server.
use aegis_proxy.Common.{ℕ, ◌%◌, ◌≡◌, refl, List, Option, none, some, arith, inl, inr, Bool-cases}
use aegis_proxy.Text.{Bytes}
use aegis_proxy.Run.{Ensures-ok}
use aegis_proxy.Pool.{BackendConfig, int_word, warm_up}
use aegis_proxy.Pool.Accounting.{Owed, counter}
use aegis_proxy.Pool.WarmUp.{warm_up-Owed}
use aegis_proxy.RateLimiter.{Arithmetic, allow}
use aegis_proxy.Session.World.{log}
use aegis_proxy.Session.State.{State, new}
use aegis_proxy.Session.Resume.{resume}
use aegis_proxy.Session.Accounts.{holds, with_point, Paid}
use aegis_proxy.Session.Accounts.Steps.{resume-Paid}
use aegis_proxy.Server.Sums.{sum_of, sum_of_others, sum_of_one, sum_of-set}
use aegis_proxy.Server.{
  Server, boot, accept, reject, spawn, reap, Reachable, warmed, accepts, reaps, resumes,
}

-- The sockets of a backend that these sessions hold.
abbrev pub held_by : List State → ℕ → ℕ
held_by ss c = sum_of (λ s. holds s.point c) ss

-- The counters are what the sessions hold.
abbrev Balanced : {A : Type 0} → Server A → Type 0
Balanced srv = Owed (held_by srv.sessions) srv.world.pool

module _ {A : Type 0} ⦃number : Arithmetic A⦄ where
  accept-Balanced :
      (remote : Option Bytes) (now_ms now : ℕ) (srv : Server A)
      → Balanced srv
      → Balanced (accept remote now_ms now srv).0
  unfolding accept reject spawn log sum_of new
  accept-Balanced none now_ms now srv h = h
  accept-Balanced (some key) now_ms now srv h = elim (Bool-cases (allow key now srv.limiter).1) [
    | inl allowed ↦ rw (allowed, accept) (λ c. rw (h c) (omega arith))
    | inr refused ↦ rw (refused, accept) h
  ]

  -- In every server that main's objects can become, however many sessions run and in whatever order
  -- they are resumed, the active counter of each backend is, in 32 bits, the number of sockets of that
  -- backend that the sessions hold.
  pub active_counters_balance :
      (backends : List BackendConfig) (srv : Server A)
      → Reachable backends srv
      → (c : ℕ) → counter c srv.world.pool.active_counts ≡ held_by srv.sessions c % int_word
  unfolding boot sum_of reap
  active_counters_balance backends srv (warmed limiter answers errors p lines e) =
      Ensures-ok (λ w. Owed (λ _. 0) w.0) (warm_up answers errors (boot backends).pool)
        (warm_up-Owed backends answers errors) e
  active_counters_balance backends srv (accepts remote now_ms now before r) =
      accept-Balanced remote now_ms now before (active_counters_balance backends before r)
  active_counters_balance backends srv (reaps now before r) =
      active_counters_balance backends before r
  active_counters_balance backends srv (resumes i event env before s t w r at_i e) =
      let ih = active_counters_balance backends before r in
      let base : ℕ → ℕ = λ c. sum_of_others (λ s. holds s.point c) before.sessions i in
      let mine : Owed (with_point base s.point) before.world.pool =
        λ c. rw (ih c, sum_of_one (λ s. holds s.point c) before.sessions i s at_i) refl in
      let paid =
        Ensures-ok (Paid base) (resume event env before.world s)
          (resume-Paid base env event before.world s mine) e in
      λ c. rw (sum_of-set (λ s. holds s.point c) before.sessions i s t at_i) (paid c)

-- ===== src/Session/Totals.antt =====
-- The totals of metrics.hpp through the rounds of handle_client in session.cpp: total_requests_,
-- fallback_503_ and rate_limited_.
pub mod Rounds
pub mod Steps
use aegis_proxy.Common.{
  ℕ, zero, suc, ◌+◌, ◌-◌, ◌%◌, ◌^◌, ◌≡◌, refl, sym, ◌∙◌, true, false, List, [], ◌∷◌, Option, none,
  some, arith, inl, inr, Bool-cases, Option-cases,
}
use aegis_proxy.Text.{Bytes, bytes, to_string}
use aegis_proxy.Run.{
  Run, ok, ◌>>=◌, Exception, at, update, Ensures, Ensures-bind, Ensures-map, Ensures-ok, Run-cases,
}
use aegis_proxy.Breaker.{allow_request, record_success, record_failure}
use aegis_proxy.Pool.{Socket, acquire_pooled, active_count, idle_count}
use aegis_proxy.Metrics.{
  MetricsRegistry, count_up, record_fallback_503, record_backend_success, record_backend_failure,
  set_breaker_state, set_pool_active, set_pool_idle,
}
use aegis_proxy.Ring.{get_backend_excluding}
use aegis_proxy.Session.World.{
  World, Env, log, state_code, show_breaker, report_failure, report_success, show_pool,
}
use aegis_proxy.Session.State.{
  Point, created, connecting, replaying, Output, from_backend, status, State,
}
use aegis_proxy.Session.Handle.{
  Retry, trace, field, two_fields, exclude, give_up, start_relay, selected, connect_failed, attempt,
  ask, consider, loop, next_round,
}

-- How many statuses were handed to a client.
abbrev pub statuses : List Output → ℕ
statuses [] = 0
statuses (from_backend b chunk ∷ rest) = statuses rest
statuses (status text ∷ rest) = suc (statuses rest)

-- Whether a session has started.
abbrev pub begun : Point → ℕ
begun created = 0
begun _ = 1

-- The totals, for `x` statuses and `y` started sessions; no session writes the third one.
abbrev pub Totals : ℕ → ℕ → ℕ → MetricsRegistry → Type 0
Totals x y z m =
    (m.fallback_503 ≡ x % 2 ^ 64) × (m.total_requests ≡ y % 2 ^ 64) × (m.rate_limited ≡ z)

-- The totals with a session that has started, besides the other ones.
abbrev pub Told : ℕ → ℕ → ℕ → World → State → Type 0
Told x y z w s = Totals (x + statuses s.sent) (y + 1) z w.metrics

abbrev pub Done : ℕ → ℕ → ℕ → World × State → Type 0
Done x y z r = Totals (x + statuses r.1.sent) (y + begun r.1.point) z r.0.metrics

abbrev pub SameTotals : MetricsRegistry → MetricsRegistry → Type 0
SameTotals m n =
    (n.fallback_503 ≡ m.fallback_503)
    × (n.total_requests ≡ m.total_requests)
    × (n.rate_limited ≡ m.rate_limited)

module _ (b : ℕ) (m : MetricsRegistry) where
  set_breaker_state-SameTotals : (code : ℕ) → Ensures (SameTotals m) (set_breaker_state b code m)
  unfolding set_breaker_state
  set_breaker_state-SameTotals code =
      Ensures-bind _ (update m.breaker_state b (λ _. code)) _ (λ states _. (refl, refl, refl))

  set_pool_active-SameTotals : (n : ℕ) → Ensures (SameTotals m) (set_pool_active b n m)
  unfolding set_pool_active
  set_pool_active-SameTotals n =
      Ensures-bind _ (update m.pool_active b (λ _. n)) _ (λ counts _. (refl, refl, refl))

  set_pool_idle-SameTotals : (n : ℕ) → Ensures (SameTotals m) (set_pool_idle b n m)
  unfolding set_pool_idle
  set_pool_idle-SameTotals n =
      Ensures-bind _ (update m.pool_idle b (λ _. n)) _ (λ counts _. (refl, refl, refl))

  record_backend_success-SameTotals : Ensures (SameTotals m) (record_backend_success b m)
  unfolding record_backend_success
  record_backend_success-SameTotals =
      Ensures-bind _ (update m.backend_success b count_up) _ (λ counts _. (refl, refl, refl))

  record_backend_failure-SameTotals : Ensures (SameTotals m) (record_backend_failure b m)
  unfolding record_backend_failure
  record_backend_failure-SameTotals =
      Ensures-bind _ (update m.backend_failure b count_up) _ (λ counts _. (refl, refl, refl))

SameTotals-trans : (m n o : MetricsRegistry) → SameTotals m n → SameTotals n o → SameTotals m o
SameTotals-trans m n o p q = (q.0 ∙ p.0, q.1 ∙ p.1, q.2 ∙ p.2)

abbrev pub SameTold : World → World → Type 0
SameTold w v = SameTotals w.metrics v.metrics

module _ (b : ℕ) (w : World) where
  show_breaker-SameTold : Ensures (SameTold w) (show_breaker b w)
  unfolding show_breaker
  show_breaker-SameTold = Ensures-bind _ (at w.breakers b) _ (λ breaker _.
      let code = state_code breaker.state in
      Ensures-bind _ (set_breaker_state b code w.metrics) _ (λ m e.
        Ensures-ok _ (set_breaker_state b code w.metrics)
          (set_breaker_state-SameTotals b w.metrics code) e))

  pub show_pool-SameTold : Ensures (SameTold w) (show_pool b w)
  unfolding show_pool
  show_pool-SameTold = Ensures-bind _ (active_count b w.pool) _ (λ active _.
      Ensures-bind _ (set_pool_active b active w.metrics) _ (λ m e.
        Ensures-bind _ (idle_count b w.pool) _ (λ idle _.
          Ensures-bind _ (set_pool_idle b idle m) _ (λ n f.
            SameTotals-trans w.metrics m n
              (Ensures-ok _ (set_pool_active b active w.metrics)
                (set_pool_active-SameTotals b w.metrics active) e)
              (Ensures-ok _ (set_pool_idle b idle m) (set_pool_idle-SameTotals b m idle) f)))))

module _ (b : ℕ) (w : World) where
  -- The gauge at the end of a report keeps the totals that the count before it kept.
  shown_after : (v : World) → SameTold w v → Ensures (SameTold w) (show_breaker b v)
  shown_after v same =
      Ensures-map (SameTold v) (SameTold w) (show_breaker b v)
        (λ u. SameTotals-trans w.metrics v.metrics u.metrics same) (show_breaker-SameTold b v)

  pub report_failure-SameTold : (now : ℕ) → Ensures (SameTold w) (report_failure b now w)
  unfolding report_failure
  report_failure-SameTold now =
      Ensures-bind _ (update w.breakers b (record_failure now)) _ (λ breakers _.
        Ensures-bind _ (record_backend_failure b w.metrics) _ (λ m e.
          shown_after (record w { breakers = breakers; metrics = m })
            (Ensures-ok _ (record_backend_failure b w.metrics)
              (record_backend_failure-SameTotals b w.metrics) e)))

  pub report_success-SameTold : Ensures (SameTold w) (report_success b w)
  unfolding report_success
  report_success-SameTold = Ensures-bind _ (update w.breakers b record_success) _ (λ breakers _.
      Ensures-bind _ (record_backend_success b w.metrics) _ (λ m e.
        shown_after (record w { breakers = breakers; metrics = m })
          (Ensures-ok _ (record_backend_success b w.metrics)
            (record_backend_success-SameTotals b w.metrics) e)))

  pub ask-SameTold : (now : ℕ) → Ensures (λ r. SameTold w r.1) (ask b now w)
  unfolding ask
  ask-SameTold now = Ensures-bind _ (show_breaker b w) _ (λ shown e.
      Ensures-bind _ (at shown.breakers b) _ (λ breaker _.
        Ensures-bind _ (update shown.breakers b (λ _. (allow_request now breaker).0)) _
          (λ breakers _. Ensures-ok (SameTold w) (show_breaker b w) (show_breaker-SameTold b w) e)))

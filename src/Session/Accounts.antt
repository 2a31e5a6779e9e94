-- ===== src/Session/Accounts.antt =====
-- The sockets that the sessions of session.cpp hold, and the active counters of the pool in
-- connection_pool.cpp, through the rounds of handle_client.
pub mod Steps
use aegis_proxy.Common.{
  ℕ, zero, suc, ◌+◌, ◌-◌, ◌%◌, ◌≡◌, refl, sym, subst, Bool, true, false, List, [], ◌∷◌, Option,
  none, some, arith, ◌==◌, inl, inr, Bool-cases, Option-cases, if◌then◌else◌, length,
}
use aegis_proxy.Text.{Bytes, bytes, to_string}
use aegis_proxy.Run.{
  Run, ok, ◌>>=◌, Exception, at, update, Ensures, Ensures-bind, Ensures-if, Ensures-ok, Run-cases,
}
use aegis_proxy.Breaker.{allow_request, record_success, record_failure}
use aegis_proxy.Pool.{
  ConnectionPool, Socket, int_word, acquire_pooled, acquire_connected, release, active_count,
  idle_count,
}
use aegis_proxy.Pool.Accounting.{
  Owed, one_more, checked_out, acquire_pooled-Owed, acquire_connected-Owed, release-Owed,
}
use aegis_proxy.Metrics.{
  record_backend_success, record_backend_failure, set_breaker_state, set_pool_active, set_pool_idle,
}
use aegis_proxy.Ring.{get_backend_excluding}
use aegis_proxy.Session.World.{
  World, Env, log, state_code, show_breaker, report_failure, report_success, show_pool,
}
use aegis_proxy.Session.State.{
  Point, created, connecting, replaying, relaying, answering, draining, finished, State,
}
use aegis_proxy.Session.Handle.{
  Retry, trace, field, two_fields, exclude, give_up, start_relay, selected, connect_failed, attempt,
  ask, consider, loop, next_round,
}

-- The sockets of a backend that a session at a point holds.
abbrev pub holds : Point → ℕ → ℕ
holds (replaying b socket) c = if b == c then 1 else 0
holds (relaying b socket r) c = if b == c then 1 else 0
holds _ c = 0

-- The sockets of the other sessions and of one at this point.
abbrev pub with_point : (ℕ → ℕ) → Point → ℕ → ℕ
with_point base p c = base c + holds p c

-- The counters agree behind a resumption.
abbrev pub Paid : (ℕ → ℕ) → World × State → Type 0
Paid base r = Owed (with_point base r.1.point) r.0.pool

-- A call that leaves the pool as it was, and prints nothing.
abbrev pub Quiet : World → World → Type 0
Quiet w v = (v.pool ≡ w.pool) × (v.trace ≡ w.trace)

module _ (b : ℕ) (w : World) where
  pub show_breaker-Quiet : Ensures (Quiet w) (show_breaker b w)
  unfolding show_breaker
  show_breaker-Quiet = Ensures-bind _ (at w.breakers b) _ (λ breaker _.
      Ensures-bind _ (set_breaker_state b (state_code breaker.state) w.metrics) _
        (λ m _. (refl, refl)))

  pub show_pool-Quiet : Ensures (Quiet w) (show_pool b w)
  unfolding show_pool
  show_pool-Quiet = Ensures-bind _ (active_count b w.pool) _ (λ active _.
      Ensures-bind _ (set_pool_active b active w.metrics) _ (λ m _.
        Ensures-bind _ (idle_count b w.pool) _
          (λ idle _. Ensures-bind _ (set_pool_idle b idle m) _ (λ n _. (refl, refl)))))

module _ (b : ℕ) (w : World) where
  pub report_failure-Quiet : (now : ℕ) → Ensures (Quiet w) (report_failure b now w)
  unfolding report_failure
  report_failure-Quiet now =
      Ensures-bind _ (update w.breakers b (record_failure now)) _ (λ breakers _.
        Ensures-bind _ (record_backend_failure b w.metrics) _
          (λ m _. show_breaker-Quiet b (record w { breakers = breakers; metrics = m })))

  pub report_success-Quiet : Ensures (Quiet w) (report_success b w)
  unfolding report_success
  report_success-Quiet = Ensures-bind _ (update w.breakers b record_success) _ (λ breakers _.
      Ensures-bind _ (record_backend_success b w.metrics) _
        (λ m _. show_breaker-Quiet b (record w { breakers = breakers; metrics = m })))

  pub ask-Quiet : (now : ℕ) → Ensures (λ r. Quiet w r.1) (ask b now w)
  unfolding ask
  ask-Quiet now = Ensures-bind _ (show_breaker b w) _ (λ shown e.
      Ensures-bind _ (at shown.breakers b) _ (λ breaker _.
        Ensures-bind _ (update shown.breakers b (λ _. (allow_request now breaker).0)) _
          (λ breakers _. Ensures-ok (Quiet w) (show_breaker b w) (show_breaker-Quiet b w) e)))

-- What holds of the pool holds behind a quiet call.
pub Quiet-then :
    (Q : ConnectionPool → Type 0) {B : Type 0} (P : B → Type 0) (w : World) (m : Run World)
    (f : World → Run B)
    → Ensures (Quiet w) m
    → Q w.pool
    → ((v : World) → Q v.pool → Ensures P (f v))
    → Ensures P (m >>= f)
Quiet-then Q P w m f same o k =
    Ensures-bind P m f (λ v e. k v (subst Q (sym (Ensures-ok (Quiet w) m same e).0) o))

module _ (base : ℕ → ℕ) where
  pub give_up-Paid : (w : World) (s : State) → Owed base w.pool → Ensures (Paid base) (give_up w s)
  unfolding give_up log
  give_up-Paid w s o = λ c. rw (o c) (ground arith)

  replay_or_relay-Paid :
      (b : ℕ) (socket : Socket) (w : World) (s : State) (contents : Bytes)
      → Owed (one_more b base) w.pool
      → Ensures (Paid base) (elim contents [
        | [] ↦ start_relay b socket w s
        | _ ∷ _ ↦ ok (w, record s { point = replaying b socket })
      ])
  unfolding start_relay
  replay_or_relay-Paid b socket w s [] o = o
  replay_or_relay-Paid b socket w s (x ∷ xs) o = o

  pub selected-Paid :
      (b : ℕ) (socket : Socket) (w : World) (s : State)
      → Owed (one_more b base) w.pool
      → Ensures (Paid base) (selected b socket w s)
  unfolding selected log
  selected-Paid b socket w s o =
      let logged : World =
        trace (bytes "backend_selected")
          (two_fields (bytes "backend") (to_string b) (bytes "attempt")
            (to_string (s.attempts + 1)))
          s w in
      Quiet-then (Owed (one_more b base)) (Paid base) logged (show_pool b logged) _
        (show_pool-Quiet b logged) o
        (λ shown owed.
          replay_or_relay-Paid b socket shown (record s { forwarded = s.req_buf.contents })
            s.req_buf.contents owed)

  -- What a round does next agrees with the counters, whatever the shared objects have become.
  abbrev pub RetryPaid : Retry → Type 0
  RetryPaid retry = (w : World) (s : State) → Owed base w.pool → Ensures (Paid base) (retry w s)

  module _ (b : ℕ) (retry : Retry) (env : Env) (keep : RetryPaid retry) (s : State) where
    pub connect_failed-Paid :
        (e : Exception) (w : World)
        → Owed base w.pool
        → Ensures (Paid base) (connect_failed b e retry env w s)
    unfolding connect_failed log
    connect_failed-Paid e w o =
        let logged : World =
          trace (bytes "connect_failed")
            (two_fields (bytes "backend") (to_string b) (bytes "error") (env.what e)) s w in
        Quiet-then (Owed base) (Paid base) logged
          (report_failure b (env.failed_at s.attempts) logged) _
          (report_failure-Quiet b logged (env.failed_at s.attempts)) o
          (λ reported paid. keep reported (exclude b s) paid)

    attempt-Paid : (w : World) → Owed base w.pool → Ensures (Paid base) (attempt b retry env w s)
    unfolding attempt
    attempt-Paid w o = elim (Run-cases (acquire_pooled b w.pool)) [
      | inr (e, thrown) ↦ rw (thrown, attempt) (connect_failed-Paid e w o)
      | inl ((pooled, p), taken) ↦
          let owed =
            Ensures-ok _ (acquire_pooled b w.pool) (acquire_pooled-Owed base b w.pool o) taken in
          elim (Option-cases pooled) [
            | inl none_free ↦
                rw (taken, attempt, none_free)
                  (let free = rw none_free at owed in λ c. rw (free c) (omega arith))
            | inr (socket, got) ↦
                rw (taken, attempt, got)
                  (selected-Paid b socket (record w { pool = p }) s (rw got at owed))
          ]
    ]

    consider-Paid : (w : World) → Owed base w.pool → Ensures (Paid base) (consider b retry env w s)
    unfolding consider log
    consider-Paid w o = elim (Run-cases (ask b (env.asked_at s.attempts) w)) [
      | inr (e, thrown) ↦ rw (thrown, consider) tt
      | inl ((allowed, asked), got) ↦
          let same =
            Ensures-ok _ (ask b (env.asked_at s.attempts) w)
              (ask-Quiet b w (env.asked_at s.attempts)) got in
          let owed = subst (Owed base) (sym same.0) o in
          elim (Bool-cases allowed) [
            | inl go_on ↦ rw (got, consider, go_on) (attempt-Paid asked owed)
            | inr refused ↦ rw (got, consider, refused) (keep _ _ owed)
          ]
    ]

  loop-Paid :
      (rounds : ℕ) (env : Env) (w : World) (s : State)
      → Owed base w.pool
      → Ensures (Paid base) (loop rounds env w s)
  unfolding loop log
  loop-Paid zero env w s o = give_up-Paid w s o
  loop-Paid (suc rounds) env w s o =
      elim (Option-cases (get_backend_excluding s.client_key s.excluded w.ring)) [
        | inl exhausted ↦
            rw (exhausted, loop)
              (give_up-Paid
                (trace (bytes "ring_exhausted") (field (bytes "attempts") (to_string s.attempts)) s
                  w)
                s o)
        | inr (b, chosen) ↦
            rw (chosen, loop)
              (consider-Paid b (loop rounds env) env (λ v t p. loop-Paid rounds env v t p) s w o)
      ]

  pub next_round-Paid :
      (env : Env) (w : World) (s : State)
      → Owed base w.pool
      → Ensures (Paid base) (next_round env w s)
  next_round-Paid env w s o = loop-Paid (s.max_attempts - s.attempts) env w s o

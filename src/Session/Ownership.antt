-- ===== src/Session/Ownership.antt =====
-- The connections that the sessions of session.cpp and the free lists of connection_pool.cpp have,
-- through the rounds of handle_client.
pub mod Steps
use aegis_proxy.Common.{
  ℕ, zero, suc, ◌+◌, ◌-◌, ◌≤◌, ◌≡◌, refl, sym, subst, Bool, true, false, List, [], ◌∷◌, Option,
  none, some, arith, ◌==◌, inl, inr, Bool-cases, Option-cases, if◌then◌else◌, length,
}
use aegis_proxy.Text.{Bytes, bytes, to_string}
use aegis_proxy.Run.{Run, ok, ◌>>=◌, Exception, Ensures, Ensures-bind, Ensures-ok, Run-cases}
use aegis_proxy.Pool.{ConnectionPool, Socket, acquire_pooled}
use aegis_proxy.Pool.Stock.{one, one_of, in_free, Stock, acquire_pooled-Stock}
use aegis_proxy.Ring.{get_backend_excluding}
use aegis_proxy.Session.World.{World, Env, log, report_failure, show_pool}
use aegis_proxy.Session.State.{Point, replaying, relaying, State}
use aegis_proxy.Session.Handle.{
  Retry, trace, field, two_fields, exclude, give_up, start_relay, selected, connect_failed, attempt,
  ask, consider, loop, next_round,
}
use aegis_proxy.Session.Accounts.{Quiet-then, ask-Quiet, report_failure-Quiet, show_pool-Quiet}

-- Whether a session at a point holds this connection.
abbrev pub has : ℕ → Point → ℕ
has h (replaying b socket) = one h socket
has h (relaying b socket r) = one h socket
has h _ = 0

module _ (h k : ℕ) where
  -- A resumption leaves at most `k` times this connection in the free lists and the session.
  abbrev pub Owned : World × State → Type 0
  Owned r = Stock h k (has h r.1.point) r.0.pool

  pub give_up-Owned : (w : World) (s : State) → Stock h k 0 w.pool → Ensures Owned (give_up w s)
  unfolding give_up log
  give_up-Owned w s o = o

  replay_or_relay-Owned :
      (b : ℕ) (socket : Socket) (w : World) (s : State) (contents : Bytes)
      → Stock h k (one h socket) w.pool
      → Ensures Owned (elim contents [
        | [] ↦ start_relay b socket w s
        | _ ∷ _ ↦ ok (w, record s { point = replaying b socket })
      ])
  unfolding start_relay
  replay_or_relay-Owned b socket w s [] o = o
  replay_or_relay-Owned b socket w s (x ∷ xs) o = o

  pub selected-Owned :
      (b : ℕ) (socket : Socket) (w : World) (s : State)
      → Stock h k (one h socket) w.pool
      → Ensures Owned (selected b socket w s)
  unfolding selected log
  selected-Owned b socket w s o =
      let logged : World =
        trace (bytes "backend_selected")
          (two_fields (bytes "backend") (to_string b) (bytes "attempt")
            (to_string (s.attempts + 1)))
          s w in
      Quiet-then (Stock h k (one h socket)) Owned logged (show_pool b logged) _
        (show_pool-Quiet b logged) o
        (λ shown owed.
          replay_or_relay-Owned b socket shown (record s { forwarded = s.req_buf.contents })
            s.req_buf.contents owed)

  -- What a round does next keeps this bound, whatever the shared objects have become.
  abbrev pub RetryOwned : Retry → Type 0
  RetryOwned retry = (w : World) (s : State) → Stock h k 0 w.pool → Ensures Owned (retry w s)

  module _ (b : ℕ) (retry : Retry) (env : Env) (keep : RetryOwned retry) (s : State) where
    pub connect_failed-Owned :
        (e : Exception) (w : World)
        → Stock h k 0 w.pool
        → Ensures Owned (connect_failed b e retry env w s)
    unfolding connect_failed log
    connect_failed-Owned e w o =
        let logged : World =
          trace (bytes "connect_failed")
            (two_fields (bytes "backend") (to_string b) (bytes "error") (env.what e)) s w in
        Quiet-then (Stock h k 0) Owned logged (report_failure b (env.failed_at s.attempts) logged) _
          (report_failure-Quiet b logged (env.failed_at s.attempts)) o
          (λ reported paid. keep reported (exclude b s) paid)

    attempt-Owned : (w : World) → Stock h k 0 w.pool → Ensures Owned (attempt b retry env w s)
    unfolding attempt
    attempt-Owned w o = elim (Run-cases (acquire_pooled b w.pool)) [
      | inr (e, thrown) ↦ rw (thrown, attempt) (connect_failed-Owned e w o)
      | inl ((pooled, p), taken) ↦
          let owed =
            Ensures-ok _ (acquire_pooled b w.pool) (acquire_pooled-Stock h k b w.pool o) taken in
          elim (Option-cases pooled) [
            | inl none_free ↦ rw (taken, attempt, none_free) (rw none_free at owed)
            | inr (socket, got) ↦
                rw (taken, attempt, got)
                  (selected-Owned b socket (record w { pool = p }) s (rw got at owed))
          ]
    ]

    consider-Owned : (w : World) → Stock h k 0 w.pool → Ensures Owned (consider b retry env w s)
    unfolding consider log
    consider-Owned w o = elim (Run-cases (ask b (env.asked_at s.attempts) w)) [
      | inr (e, thrown) ↦ rw (thrown, consider) tt
      | inl ((allowed, asked), got) ↦
          let same =
            Ensures-ok _ (ask b (env.asked_at s.attempts) w)
              (ask-Quiet b w (env.asked_at s.attempts)) got in
          let owed = subst (Stock h k 0) (sym same.0) o in
          elim (Bool-cases allowed) [
            | inl go_on ↦ rw (got, consider, go_on) (attempt-Owned asked owed)
            | inr refused ↦ rw (got, consider, refused) (keep _ _ owed)
          ]
    ]

  loop-Owned :
      (rounds : ℕ) (env : Env) (w : World) (s : State)
      → Stock h k 0 w.pool
      → Ensures Owned (loop rounds env w s)
  unfolding loop log
  loop-Owned zero env w s o = give_up-Owned w s o
  loop-Owned (suc rounds) env w s o =
      elim (Option-cases (get_backend_excluding s.client_key s.excluded w.ring)) [
        | inl exhausted ↦
            rw (exhausted, loop)
              (give_up-Owned
                (trace (bytes "ring_exhausted") (field (bytes "attempts") (to_string s.attempts)) s
                  w)
                s o)
        | inr (b, chosen) ↦
            rw (chosen, loop)
              (consider-Owned b (loop rounds env) env (λ v t p. loop-Owned rounds env v t p) s w o)
      ]

  pub next_round-Owned :
      (env : Env) (w : World) (s : State) → Stock h k 0 w.pool → Ensures Owned (next_round env w s)
  next_round-Owned env w s o = loop-Owned (s.max_attempts - s.attempts) env w s o

-- ===== src/Session/Ownership/Steps.antt =====
-- What follows each suspension of handle_client in session.cpp, and the connections that it moves.
use aegis_proxy.Common.{ℕ, ◌+◌, ◌≡◌, refl, Bool, true, false, Option, arith, inl, inr, Bool-cases}
use aegis_proxy.Text.{bytes, to_string}
use aegis_proxy.Run.{Ensures, Ensures-bind, Ensures-if, Ensures-ok, Run-cases}
use aegis_proxy.Pool.{Socket, acquire_connected, release}
use aegis_proxy.Pool.Stock.{one, one_of, Stock, acquire_connected-Stock, release-Stock}
use aegis_proxy.Session.World.{World, Env, log, report_failure, report_success, show_pool}
use aegis_proxy.Session.Relay.{Relay, after_read, after_write, is_over}
use aegis_proxy.Session.State.{
  Point, created, connecting, replaying, relaying, answering, draining, State, Event, started,
  connected, replayed, client_read, backend_wrote, backend_read, client_wrote, status_written,
  drained,
}
use aegis_proxy.Session.Legs.{on_reading, on_writing}
use aegis_proxy.Session.Handle.{trace, field, exclude, next_round, start_relay}
use aegis_proxy.Session.Resume.{
  start, finish_connect, replay_failed, no_response, responded, relay_done, moved, capture, deliver,
  mark_started, relay_event, resume_at, resume,
}
use aegis_proxy.Session.Accounts.{
  report_failure-Quiet, report_success-Quiet, show_pool-Quiet, Quiet-then,
}
use aegis_proxy.Session.Ownership.{
  has, Owned, give_up-Owned, selected-Owned, connect_failed-Owned, next_round-Owned,
}

-- How often an event brings a connection.
abbrev pub brings : ℕ → Event → ℕ
brings h (connected answer) = one_of h answer
brings h _ = 0

module _ (h k : ℕ) (env : Env) where
  start-Owned : (w : World) (s : State) → Stock h k 0 w.pool → Ensures (Owned h k) (start env w s)
  unfolding start log
  start-Owned w s o = next_round-Owned h k env _ s o

  finish_connect-Owned :
      (b : ℕ) (answer : Option Socket) (w : World) (s : State)
      → Stock h k (one_of h answer) w.pool
      → Ensures (Owned h k) (finish_connect b answer env w s)
  unfolding finish_connect
  finish_connect-Owned b answer w s o = elim (Run-cases (acquire_connected b answer w.pool)) [
    | inr (e, thrown) ↦
        rw (thrown, finish_connect)
          (connect_failed-Owned h k b (next_round env) env (λ v t p. next_round-Owned h k env v t p)
            s e w (omega arith))
    | inl ((socket, p), taken) ↦
        rw (taken, finish_connect)
          (selected-Owned h k b socket (record w { pool = p }) s
            (Ensures-ok _ (acquire_connected b answer w.pool)
              (acquire_connected-Stock h k b answer w.pool o) taken))
  ]

  replay_failed-Owned :
      (b : ℕ) (socket : Socket) (w : World) (s : State)
      → Stock h k (one h socket) w.pool
      → Ensures (Owned h k) (replay_failed b socket env w s)
  unfolding replay_failed log
  replay_failed-Owned b socket w s o =
      let logged : World =
        trace (bytes "replay_failed") (field (bytes "backend") (to_string b)) s w in
      Quiet-then (Stock h k (one h socket)) (Owned h k) logged
        (report_failure b (env.failed_at s.attempts) logged) _
        (report_failure-Quiet b logged (env.failed_at s.attempts)) o
        (λ reported owed. Ensures-bind (Owned h k) (release b socket false reported.pool) _ (λ p e.
          next_round-Owned h k env (record reported { pool = p }) (exclude b s)
            (Ensures-ok (Stock h k 0) (release b socket false reported.pool)
              (release-Stock h k b socket false reported.pool owed) e)))

  no_response-Owned :
      (b : ℕ) (w : World) (s : State)
      → Stock h k 0 w.pool
      → Ensures (Owned h k) (no_response b env w s)
  unfolding no_response log
  no_response-Owned b w s o =
      Quiet-then (Stock h k 0) (Owned h k) w (report_failure b (env.failed_at s.attempts) w) _
        (report_failure-Quiet b w (env.failed_at s.attempts)) o
        (λ reported owed.
          Ensures-if (Owned h k) s.req_buf.capped _ _
            (λ full. give_up-Owned h k _ (exclude b s) owed)
            (λ fits. next_round-Owned h k env _ (exclude b s) owed))

  responded-Owned :
      (b : ℕ) (w : World) (s : State) → Stock h k 0 w.pool → Ensures (Owned h k) (responded b w s)
  unfolding responded log
  responded-Owned b w s o =
      Quiet-then (Stock h k 0) (Owned h k) w (report_success b w) _ (report_success-Quiet b w) o
        (λ reported owed. owed)

  relay_done-Owned :
      (b : ℕ) (socket : Socket) (got : Bool) (w : World) (s : State)
      → Stock h k (one h socket) w.pool
      → Ensures (Owned h k) (relay_done b socket got env w s)
  unfolding relay_done
  relay_done-Owned b socket got w s o =
      Ensures-bind (Owned h k) (release b socket false w.pool) _ (λ p e.
        let owed : Stock h k 0 p =
          Ensures-ok (Stock h k 0) (release b socket false w.pool)
            (release-Stock h k b socket false w.pool o) e in
        Quiet-then (Stock h k 0) (Owned h k) (record w { pool = p })
          (show_pool b (record w { pool = p })) _ (show_pool-Quiet b (record w { pool = p })) owed
          (λ shown still.
            Ensures-if (Owned h k) got _ _ (λ _. responded-Owned b shown s still)
              (λ _. no_response-Owned b shown s still)))

  moved-Owned :
      (b : ℕ) (socket : Socket) (r : Relay) (w : World) (s : State)
      → Stock h k (one h socket) w.pool
      → Ensures (Owned h k) (moved b socket r env w s)
  unfolding moved
  moved-Owned b socket r w s o = elim (Bool-cases (is_over r)) [
    | inl over ↦ rw (over, moved) (relay_done-Owned b socket r.response_started w s o)
    | inr on ↦ rw (on, moved) o
  ]

  relay_event-Owned :
      (b : ℕ) (socket : Socket) (r : Relay) (event : Event) (w : World) (s : State)
      → Stock h k (one h socket) w.pool
      → Owned h k (w, s)
      → Ensures (Owned h k) (relay_event b socket r event env w s)
  unfolding relay_event
  relay_event-Owned b socket r (client_read chunk) w s o stay =
      on_reading (Owned h k) r.up _ _
        (moved-Owned b socket (record r { up = after_read chunk }) w (capture chunk s) o) stay
  relay_event-Owned b socket r (backend_wrote fine) w s o stay =
      on_writing (Owned h k) r.up _ _
        (moved-Owned b socket (record r { up = after_write fine }) w s o) stay
  relay_event-Owned b socket r (backend_read chunk) w s o stay =
      on_reading (Owned h k) r.down _ _
        (moved-Owned b socket (record (mark_started chunk r) { down = after_read chunk }) w
          (deliver b chunk s) o)
        stay
  relay_event-Owned b socket r (client_wrote fine) w s o stay =
      on_writing (Owned h k) r.down _ _
        (moved-Owned b socket (record r { down = after_write fine }) w s o) stay
  relay_event-Owned b socket r started w s o stay = stay
  relay_event-Owned b socket r _ w s o stay = stay

  resume_at-Owned :
      (p : Point) (event : Event) (w : World) (s : State)
      → s.point ≡ p
      → Stock h k (has h p + brings h event) w.pool
      → Owned h k (w, s)
      → Ensures (Owned h k) (resume_at p event env w s)
  unfolding resume_at start_relay
  resume_at-Owned created started w s e o stay = start-Owned w s (omega arith)
  resume_at-Owned (connecting b) (connected answer) w s e o stay =
      finish_connect-Owned b answer w s (omega arith)
  resume_at-Owned (replaying b socket) (replayed true) w s e o stay = omega arith
  resume_at-Owned (replaying b socket) (replayed false) w s e o stay =
      replay_failed-Owned b socket w s (omega arith)
  resume_at-Owned (relaying b socket r) event w s e o stay =
      relay_event-Owned b socket r event w s (omega arith) stay
  resume_at-Owned answering (status_written fine) w s e o stay = omega arith
  resume_at-Owned draining (drained true) w s e o stay = stay
  resume_at-Owned draining (drained false) w s e o stay = omega arith
  resume_at-Owned _ _ w s e o stay = stay

  -- The connections of the free lists and of a session are, behind a resumption of it, those before
  -- and the one that the event brought.
  pub resume-Owned :
      (event : Event) (w : World) (s : State)
      → Stock h k (has h s.point + brings h event) w.pool
      → Ensures (Owned h k) (resume event env w s)
  unfolding resume
  resume-Owned event w s o = resume_at-Owned s.point event w s refl o (omega arith)

-- ===== src/Session/Accounts/Steps.antt =====
-- What follows each suspension of handle_client in session.cpp, and the counters of the pool.
use aegis_proxy.Common.{ℕ, ◌+◌, ◌≡◌, refl, Bool, true, false, Option, arith, inl, inr, Bool-cases}
use aegis_proxy.Text.{bytes, to_string}
use aegis_proxy.Run.{Ensures, Ensures-bind, Ensures-if, Ensures-ok, Run-cases}
use aegis_proxy.Pool.{Socket, acquire_connected, release}
use aegis_proxy.Pool.Accounting.{Owed, one_more, acquire_connected-Owed, release-Owed}
use aegis_proxy.Session.World.{World, Env, log, report_failure, report_success, show_pool}
use aegis_proxy.Session.Relay.{Relay, after_read, after_write, is_over}
use aegis_proxy.Session.State.{
  Point, created, connecting, replaying, relaying, answering, draining, State, Event, started,
  connected, replayed, client_read, backend_wrote, backend_read, client_wrote, status_written,
  drained,
}
use aegis_proxy.Session.Legs.{on_reading, on_writing}
use aegis_proxy.Session.Handle.{trace, field, exclude, next_round, start_relay}
use aegis_proxy.Session.Resume.{
  start, finish_connect, replay_failed, no_response, responded, relay_done, moved, capture, deliver,
  mark_started, relay_event, resume_at, resume,
}
use aegis_proxy.Session.Accounts.{
  with_point, Paid, report_failure-Quiet, report_success-Quiet, show_pool-Quiet, Quiet-then,
  give_up-Paid, selected-Paid, connect_failed-Paid, next_round-Paid,
}

module _ (base : ℕ → ℕ) (env : Env) where
  nothing_held : (w : World) → Owed base w.pool → Owed (λ c. base c + 0) w.pool
  nothing_held w o c = rw (o c) (omega arith)

  -- A session that holds nothing adds nothing.
  none_held : (w : World) → Owed (λ c. base c + 0) w.pool → Owed base w.pool
  none_held w o c = rw (o c) (omega arith)

  start-Paid : (w : World) (s : State) → Owed base w.pool → Ensures (Paid base) (start env w s)
  unfolding start log
  start-Paid w s o = next_round-Paid base env _ s o

  finish_connect-Paid :
      (b : ℕ) (answer : Option Socket) (w : World) (s : State)
      → Owed base w.pool
      → Ensures (Paid base) (finish_connect b answer env w s)
  unfolding finish_connect
  finish_connect-Paid b answer w s o = elim (Run-cases (acquire_connected b answer w.pool)) [
    | inr (e, thrown) ↦
        rw (thrown, finish_connect)
          (connect_failed-Paid base b (next_round env) env (λ v t p. next_round-Paid base env v t p)
            s e w o)
    | inl ((socket, p), taken) ↦
        rw (taken, finish_connect)
          (selected-Paid base b socket (record w { pool = p }) s
            (Ensures-ok _ (acquire_connected b answer w.pool)
              (acquire_connected-Owed base b answer w.pool o) taken))
  ]

  replay_failed-Paid :
      (b : ℕ) (socket : Socket) (w : World) (s : State)
      → Owed (one_more b base) w.pool
      → Ensures (Paid base) (replay_failed b socket env w s)
  unfolding replay_failed log
  replay_failed-Paid b socket w s o =
      let logged : World =
        trace (bytes "replay_failed") (field (bytes "backend") (to_string b)) s w in
      Quiet-then (Owed (one_more b base)) (Paid base) logged
        (report_failure b (env.failed_at s.attempts) logged) _
        (report_failure-Quiet b logged (env.failed_at s.attempts)) o
        (λ reported owed. Ensures-bind (Paid base) (release b socket false reported.pool) _ (λ p e.
          next_round-Paid base env (record reported { pool = p }) (exclude b s)
            (Ensures-ok (Owed base) (release b socket false reported.pool)
              (release-Owed base b socket false reported.pool owed) e)))

  no_response-Paid :
      (b : ℕ) (w : World) (s : State)
      → Owed base w.pool
      → Ensures (Paid base) (no_response b env w s)
  unfolding no_response log
  no_response-Paid b w s o =
      Quiet-then (Owed base) (Paid base) w (report_failure b (env.failed_at s.attempts) w) _
        (report_failure-Quiet b w (env.failed_at s.attempts)) o
        (λ reported owed.
          Ensures-if (Paid base) s.req_buf.capped _ _
            (λ full. give_up-Paid base _ (exclude b s) owed)
            (λ fits. next_round-Paid base env _ (exclude b s) owed))

  responded-Paid :
      (b : ℕ) (w : World) (s : State) → Owed base w.pool → Ensures (Paid base) (responded b w s)
  unfolding responded log
  responded-Paid b w s o =
      Quiet-then (Owed base) (Paid base) w (report_success b w) _ (report_success-Quiet b w) o
        (λ reported owed. nothing_held reported owed)

  relay_done-Paid :
      (b : ℕ) (socket : Socket) (got : Bool) (w : World) (s : State)
      → Owed (one_more b base) w.pool
      → Ensures (Paid base) (relay_done b socket got env w s)
  unfolding relay_done
  relay_done-Paid b socket got w s o =
      Ensures-bind (Paid base) (release b socket false w.pool) _ (λ p e.
        let owed : Owed base p =
          Ensures-ok (Owed base) (release b socket false w.pool)
            (release-Owed base b socket false w.pool o) e in
        Quiet-then (Owed base) (Paid base) (record w { pool = p })
          (show_pool b (record w { pool = p })) _ (show_pool-Quiet b (record w { pool = p })) owed
          (λ shown still.
            Ensures-if (Paid base) got _ _ (λ _. responded-Paid b shown s still)
              (λ _. no_response-Paid b shown s still)))

  moved-Paid :
      (b : ℕ) (socket : Socket) (r : Relay) (w : World) (s : State)
      → Owed (one_more b base) w.pool
      → Ensures (Paid base) (moved b socket r env w s)
  unfolding moved
  moved-Paid b socket r w s o = elim (Bool-cases (is_over r)) [
    | inl over ↦ rw (over, moved) (relay_done-Paid b socket r.response_started w s o)
    | inr on ↦ rw (on, moved) o
  ]

  relay_event-Paid :
      (b : ℕ) (socket : Socket) (r : Relay) (event : Event) (w : World) (s : State)
      → Owed (one_more b base) w.pool
      → Paid base (w, s)
      → Ensures (Paid base) (relay_event b socket r event env w s)
  unfolding relay_event
  relay_event-Paid b socket r (client_read chunk) w s o stay =
      on_reading (Paid base) r.up _ _
        (moved-Paid b socket (record r { up = after_read chunk }) w (capture chunk s) o) stay
  relay_event-Paid b socket r (backend_wrote fine) w s o stay =
      on_writing (Paid base) r.up _ _
        (moved-Paid b socket (record r { up = after_write fine }) w s o) stay
  relay_event-Paid b socket r (backend_read chunk) w s o stay =
      on_reading (Paid base) r.down _ _
        (moved-Paid b socket (record (mark_started chunk r) { down = after_read chunk }) w
          (deliver b chunk s) o)
        stay
  relay_event-Paid b socket r (client_wrote fine) w s o stay =
      on_writing (Paid base) r.down _ _
        (moved-Paid b socket (record r { down = after_write fine }) w s o) stay
  relay_event-Paid b socket r started w s o stay = stay
  relay_event-Paid b socket r _ w s o stay = stay

  resume_at-Paid :
      (p : Point) (event : Event) (w : World) (s : State)
      → s.point ≡ p
      → Owed (with_point base p) w.pool
      → Paid base (w, s)
      → Ensures (Paid base) (resume_at p event env w s)
  unfolding resume_at start_relay
  resume_at-Paid created started w s e o stay = start-Paid w s (none_held w o)
  resume_at-Paid (connecting b) (connected answer) w s e o stay =
      finish_connect-Paid b answer w s (none_held w o)
  resume_at-Paid (replaying b socket) (replayed true) w s e o stay = o
  resume_at-Paid (replaying b socket) (replayed false) w s e o stay =
      replay_failed-Paid b socket w s o
  resume_at-Paid (relaying b socket r) event w s e o stay =
      relay_event-Paid b socket r event w s o stay
  resume_at-Paid answering (status_written fine) w s e o stay = o
  resume_at-Paid draining (drained true) w s e o stay = stay
  resume_at-Paid draining (drained false) w s e o stay = o
  resume_at-Paid _ _ w s e o stay = stay

  -- Where the counters of the pool are the sockets that a session and the others hold, they still are
  -- behind a resumption of that session.
  pub resume-Paid :
      (event : Event) (w : World) (s : State)
      → Owed (with_point base s.point) w.pool
      → Ensures (Paid base) (resume event env w s)
  unfolding resume
  resume-Paid event w s o = resume_at-Paid s.point event w s refl o o

-- ===== src/Session/Journal/Steps.antt =====
-- What follows each suspension of handle_client in session.cpp, and the lines that it prints.
use aegis_proxy.Common.{
  ℕ, Bool, true, false, Option, arith, inl, inr, Bool-cases, length, none, some,
}
use aegis_proxy.Text.{Bytes, bytes, to_string}
use aegis_proxy.Run.{Ensures, Ensures-bind, Ensures-if, Run-cases}
use aegis_proxy.Pool.{Socket, acquire_connected, release}
use aegis_proxy.Session.World.{World, Env, report_failure, report_success, show_pool}
use aegis_proxy.Session.Relay.{Relay, after_read, after_write, is_over}
use aegis_proxy.Session.State.{
  Point, created, connecting, replaying, relaying, answering, draining, State, Event, started,
  connected, replayed, client_read, backend_wrote, backend_read, client_wrote, status_written,
  drained,
}
use aegis_proxy.Session.Legs.{on_reading, on_writing}
use aegis_proxy.Session.Handle.{trace, field, exclude, next_round, start_relay}
use aegis_proxy.Session.Resume.{
  start, finish_connect, replay_failed, no_response, responded, relay_done, moved, capture, deliver,
  mark_started, relay_event, resume_at, resume,
}
use aegis_proxy.Session.Accounts.{report_failure-Quiet, report_success-Quiet, show_pool-Quiet}
use aegis_proxy.Session.Journal.{
  Told, Terse, Quiet-told, log-Readable, one_number, give_up-Told, selected-Told,
  connect_failed-Told, next_round-Told,
}

module _ (env : Env) (terse : Terse env) where
  start-Told : (w : World) (s : State) → Told (w, s) → Ensures Told (start env w s)
  unfolding start
  start-Told w s t = next_round-Told env _ s terse (
    log-Readable s.correlation_id (bytes "request_received") (field (bytes "client") s.client_key) w
        t.1.0 (ground arith) ((ground arith, ground arith, t.1.1), tt) t.0,
    t.1,
  )

  finish_connect-Told :
      (b : ℕ) (answer : Option Socket) (w : World) (s : State)
      → Told (w, s)
      → Ensures Told (finish_connect b answer env w s)
  unfolding finish_connect
  finish_connect-Told b answer w s t = elim (Run-cases (acquire_connected b answer w.pool)) [
    | inr (e, thrown) ↦
        rw (thrown, finish_connect)
          (connect_failed-Told b (next_round env) env terse (λ v u. next_round-Told env v u terse) s
            e w t)
    | inl ((socket, p), taken) ↦
        rw (taken, finish_connect) (selected-Told b socket (record w { pool = p }) s t)
  ]

  replay_failed-Told :
      (b : ℕ) (socket : Socket) (w : World) (s : State)
      → Told (w, s)
      → Ensures Told (replay_failed b socket env w s)
  unfolding replay_failed
  replay_failed-Told b socket w s t =
      let logged : World =
        trace (bytes "replay_failed") (field (bytes "backend") (to_string b)) s w in
      Quiet-told Told logged (report_failure b (env.failed_at s.attempts) logged) _
        (report_failure-Quiet b logged (env.failed_at s.attempts))
        (one_number (bytes "replay_failed") (bytes "backend") b w s (ground arith) (ground arith) t)
        (λ reported r.
          Ensures-bind Told (release b socket false reported.pool) _ (λ p e.
            next_round-Told env (record reported { pool = p }) (exclude b s) terse (r, t.1)))

  no_response-Told :
      (b : ℕ) (w : World) (s : State) → Told (w, s) → Ensures Told (no_response b env w s)
  unfolding no_response
  no_response-Told b w s t =
      Quiet-told Told w (report_failure b (env.failed_at s.attempts) w) _
        (report_failure-Quiet b w (env.failed_at s.attempts)) t.0
        (λ reported r.
          let logged =
            one_number (bytes "backend_failed_no_response") (bytes "backend") b reported s
              (ground arith) (ground arith) (r, t.1) in
          Ensures-if Told s.req_buf.capped _ _
            (λ full. give_up-Told _ (exclude b s) (
              one_number (bytes "retry_abandoned_buffer_capped") (bytes "buffered_bytes")
                  (length s.req_buf.contents) _ s (ground arith) (ground arith) (logged, t.1),
              t.1,
            ))
            (λ fits. next_round-Told env _ (exclude b s) terse (logged, t.1)))

  responded-Told : (b : ℕ) (w : World) (s : State) → Told (w, s) → Ensures Told (responded b w s)
  unfolding responded
  responded-Told b w s t =
      Quiet-told Told w (report_success b w) _ (report_success-Quiet b w) t.0 (λ reported r. (
        one_number (bytes "request_succeeded") (bytes "backend") b reported s (ground arith)
            (ground arith) (r, t.1),
        t.1,
      ))

  relay_done-Told :
      (b : ℕ) (socket : Socket) (got : Bool) (w : World) (s : State)
      → Told (w, s)
      → Ensures Told (relay_done b socket got env w s)
  unfolding relay_done
  relay_done-Told b socket got w s t = Ensures-bind Told (release b socket false w.pool) _ (λ p e.
      Quiet-told Told (record w { pool = p }) (show_pool b (record w { pool = p })) _
        (show_pool-Quiet b (record w { pool = p })) t.0
        (λ shown r.
          Ensures-if Told got _ _ (λ _. responded-Told b shown s (r, t.1))
            (λ _. no_response-Told b shown s (r, t.1))))

  moved-Told :
      (b : ℕ) (socket : Socket) (r : Relay) (w : World) (s : State)
      → Told (w, s)
      → Ensures Told (moved b socket r env w s)
  unfolding moved
  moved-Told b socket r w s t = elim (Bool-cases (is_over r)) [
    | inl over ↦ rw (over, moved) (relay_done-Told b socket r.response_started w s t)
    | inr on ↦ rw (on, moved) t
  ]

  capture-Told :
      (chunk : Option Bytes) (w : World) (s : State) → Told (w, s) → Told (w, capture chunk s)
  unfolding capture
  capture-Told none w s t = t
  capture-Told (some chunk) w s t = t

  deliver-Told :
      (b : ℕ) (chunk : Option Bytes) (w : World) (s : State)
      → Told (w, s)
      → Told (w, deliver b chunk s)
  unfolding deliver
  deliver-Told b none w s t = t
  deliver-Told b (some chunk) w s t = t

  relay_event-Told :
      (b : ℕ) (socket : Socket) (r : Relay) (event : Event) (w : World) (s : State)
      → Told (w, s)
      → Ensures Told (relay_event b socket r event env w s)
  unfolding relay_event
  relay_event-Told b socket r (client_read chunk) w s t =
      on_reading Told r.up _ _
        (moved-Told b socket (record r { up = after_read chunk }) w (capture chunk s)
          (capture-Told chunk w s t))
        t
  relay_event-Told b socket r (backend_wrote fine) w s t =
      on_writing Told r.up _ _ (moved-Told b socket (record r { up = after_write fine }) w s t) t
  relay_event-Told b socket r (backend_read chunk) w s t =
      on_reading Told r.down _ _
        (moved-Told b socket (record (mark_started chunk r) { down = after_read chunk }) w
          (deliver b chunk s) (deliver-Told b chunk w s t))
        t
  relay_event-Told b socket r (client_wrote fine) w s t =
      on_writing Told r.down _ _ (moved-Told b socket (record r { down = after_write fine }) w s t)
        t
  relay_event-Told b socket r _ w s t = t

  resume_at-Told :
      (p : Point) (event : Event) (w : World) (s : State)
      → Told (w, s)
      → Ensures Told (resume_at p event env w s)
  unfolding resume_at start_relay
  resume_at-Told created started w s t = start-Told w s t
  resume_at-Told (connecting b) (connected answer) w s t = finish_connect-Told b answer w s t
  resume_at-Told (replaying b socket) (replayed true) w s t = t
  resume_at-Told (replaying b socket) (replayed false) w s t = replay_failed-Told b socket w s t
  resume_at-Told (relaying b socket r) event w s t = relay_event-Told b socket r event w s t
  resume_at-Told answering (status_written fine) w s t = t
  resume_at-Told draining (drained true) w s t = t
  resume_at-Told draining (drained false) w s t = t
  resume_at-Told _ _ w s t = t

  -- A resumption prints lines that can be read, if the session and the exceptions have texts of one
  -- word.
  pub resume-Told :
      (event : Event) (w : World) (s : State) → Told (w, s) → Ensures Told (resume event env w s)
  unfolding resume
  resume-Told event w s t = resume_at-Told s.point event w s t

-- ===== src/Session/Totals/Steps.antt =====
-- What follows each suspension of handle_client in session.cpp, and the totals of metrics.hpp.
use aegis_proxy.Common.{
  ℕ, ◌+◌, ◌≡◌, refl, Bool, true, false, Option, none, some, arith, inl, inr, Bool-cases,
}
use aegis_proxy.Text.{Bytes, bytes, to_string}
use aegis_proxy.Run.{Ensures, Ensures-bind, Ensures-if, Run-cases}
use aegis_proxy.Pool.{Socket, acquire_connected, release}
use aegis_proxy.Metrics.{record_request_received}
use aegis_proxy.Session.World.{World, Env, log, report_failure, report_success, show_pool}
use aegis_proxy.Session.Relay.{Relay, after_read, after_write, is_over}
use aegis_proxy.Session.State.{
  Point, created, connecting, replaying, relaying, answering, draining, State, Event, started,
  connected, replayed, client_read, backend_wrote, backend_read, client_wrote, status_written,
  drained,
}
use aegis_proxy.Session.Legs.{on_reading, on_writing}
use aegis_proxy.Session.Handle.{trace, field, exclude, next_round, start_relay}
use aegis_proxy.Session.Resume.{
  start, finish_connect, replay_failed, no_response, responded, relay_done, moved, capture, deliver,
  mark_started, relay_event, resume_at, resume,
}
use aegis_proxy.Session.Totals.{
  statuses, begun, Totals, Told, Done, report_failure-SameTold, report_success-SameTold,
  show_pool-SameTold,
}
use aegis_proxy.Session.Totals.Rounds.{
  Told-then, give_up-Done, selected-Done, connect_failed-Done, next_round-Done,
}

module _ (x y z : ℕ) (env : Env) where
  start-Done :
      (w : World) (s : State)
      → Totals (x + statuses s.sent) (y + 0) z w.metrics
      → Ensures (Done x y z) (start env w s)
  unfolding start log record_request_received
  start-Done w s t = next_round-Done x y z env _ s (t.0, rw t.1 (omega arith), t.2)

  finish_connect-Done :
      (b : ℕ) (answer : Option Socket) (w : World) (s : State)
      → Told x y z w s
      → Ensures (Done x y z) (finish_connect b answer env w s)
  unfolding finish_connect
  finish_connect-Done b answer w s t = elim (Run-cases (acquire_connected b answer w.pool)) [
    | inr (e, thrown) ↦
        rw (thrown, finish_connect)
          (connect_failed-Done x y z b (next_round env) env
            (λ v u p. next_round-Done x y z env v u p) s e w t)
    | inl ((socket, p), taken) ↦
        rw (taken, finish_connect) (selected-Done x y z b socket (record w { pool = p }) s t)
  ]

  replay_failed-Done :
      (b : ℕ) (socket : Socket) (w : World) (s : State)
      → Told x y z w s
      → Ensures (Done x y z) (replay_failed b socket env w s)
  unfolding replay_failed log
  replay_failed-Done b socket w s t =
      let logged : World =
        trace (bytes "replay_failed") (field (bytes "backend") (to_string b)) s w in
      Told-then x y z (Done x y z) logged s (report_failure b (env.failed_at s.attempts) logged) _
        (report_failure-SameTold b logged (env.failed_at s.attempts)) t
        (λ reported told.
          Ensures-bind (Done x y z) (release b socket false reported.pool) _
            (λ p e. next_round-Done x y z env (record reported { pool = p }) (exclude b s) told))

  no_response-Done :
      (b : ℕ) (w : World) (s : State)
      → Told x y z w s
      → Ensures (Done x y z) (no_response b env w s)
  unfolding no_response log
  no_response-Done b w s t =
      Told-then x y z (Done x y z) w s (report_failure b (env.failed_at s.attempts) w) _
        (report_failure-SameTold b w (env.failed_at s.attempts)) t
        (λ reported told.
          Ensures-if (Done x y z) s.req_buf.capped _ _
            (λ full. give_up-Done x y z _ (exclude b s) told)
            (λ fits. next_round-Done x y z env _ (exclude b s) told))

  responded-Done :
      (b : ℕ) (w : World) (s : State) → Told x y z w s → Ensures (Done x y z) (responded b w s)
  unfolding responded log
  responded-Done b w s t =
      Told-then x y z (Done x y z) w s (report_success b w) _ (report_success-SameTold b w) t
        (λ reported told. told)

  relay_done-Done :
      (b : ℕ) (socket : Socket) (got : Bool) (w : World) (s : State)
      → Told x y z w s
      → Ensures (Done x y z) (relay_done b socket got env w s)
  unfolding relay_done
  relay_done-Done b socket got w s t =
      Ensures-bind (Done x y z) (release b socket false w.pool) _ (λ p e.
        Told-then x y z (Done x y z) (record w { pool = p }) s (show_pool b (record w { pool = p }))
          _ (show_pool-SameTold b (record w { pool = p })) t
          (λ shown told.
            Ensures-if (Done x y z) got _ _ (λ _. responded-Done b shown s told)
              (λ _. no_response-Done b shown s told)))

  moved-Done :
      (b : ℕ) (socket : Socket) (r : Relay) (w : World) (s : State)
      → Told x y z w s
      → Ensures (Done x y z) (moved b socket r env w s)
  unfolding moved
  moved-Done b socket r w s t = elim (Bool-cases (is_over r)) [
    | inl over ↦ rw (over, moved) (relay_done-Done b socket r.response_started w s t)
    | inr on ↦ rw (on, moved) t
  ]

  capture-Told :
      (chunk : Option Bytes) (w : World) (s : State)
      → Told x y z w s
      → Told x y z w (capture chunk s)
  unfolding capture
  capture-Told none w s t = t
  capture-Told (some chunk) w s t = t

  deliver-Told :
      (b : ℕ) (chunk : Option Bytes) (w : World) (s : State)
      → Told x y z w s
      → Told x y z w (deliver b chunk s)
  unfolding deliver
  deliver-Told b none w s t = t
  deliver-Told b (some chunk) w s t = t

  relay_event-Done :
      (b : ℕ) (socket : Socket) (r : Relay) (event : Event) (w : World) (s : State)
      → Told x y z w s
      → Done x y z (w, s)
      → Ensures (Done x y z) (relay_event b socket r event env w s)
  unfolding relay_event
  relay_event-Done b socket r (client_read chunk) w s t stay =
      on_reading (Done x y z) r.up _ _
        (moved-Done b socket (record r { up = after_read chunk }) w (capture chunk s)
          (capture-Told chunk w s t))
        stay
  relay_event-Done b socket r (backend_wrote fine) w s t stay =
      on_writing (Done x y z) r.up _ _
        (moved-Done b socket (record r { up = after_write fine }) w s t) stay
  relay_event-Done b socket r (backend_read chunk) w s t stay =
      on_reading (Done x y z) r.down _ _
        (moved-Done b socket (record (mark_started chunk r) { down = after_read chunk }) w
          (deliver b chunk s) (deliver-Told b chunk w s t))
        stay
  relay_event-Done b socket r (client_wrote fine) w s t stay =
      on_writing (Done x y z) r.down _ _
        (moved-Done b socket (record r { down = after_write fine }) w s t) stay
  relay_event-Done b socket r started w s t stay = stay
  relay_event-Done b socket r _ w s t stay = stay

  resume_at-Done :
      (p : Point) (event : Event) (w : World) (s : State)
      → s.point ≡ p
      → Totals (x + statuses s.sent) (y + begun p) z w.metrics
      → Done x y z (w, s)
      → Ensures (Done x y z) (resume_at p event env w s)
  unfolding resume_at start_relay
  resume_at-Done created started w s e t stay = start-Done w s t
  resume_at-Done (connecting b) (connected answer) w s e t stay = finish_connect-Done b answer w s t
  resume_at-Done (replaying b socket) (replayed true) w s e t stay = t
  resume_at-Done (replaying b socket) (replayed false) w s e t stay =
      replay_failed-Done b socket w s t
  resume_at-Done (relaying b socket r) event w s e t stay =
      relay_event-Done b socket r event w s t stay
  resume_at-Done answering (status_written fine) w s e t stay = t
  resume_at-Done draining (drained true) w s e t stay = stay
  resume_at-Done draining (drained false) w s e t stay = t
  resume_at-Done _ _ w s e t stay = stay

  -- Where the totals count a session and the others, they still do behind a resumption of it.
  pub resume-Done :
      (event : Event) (w : World) (s : State)
      → Done x y z (w, s)
      → Ensures (Done x y z) (resume event env w s)
  unfolding resume
  resume-Done event w s t = resume_at-Done s.point event w s refl t t

-- ===== src/Session/Refusal/Steps.antt =====
-- What follows each suspension of handle_client in session.cpp, and why it gives a client up.
use aegis_proxy.Common.{ℕ, ◌≡◌, ◌≢◌, refl, subst, Bool, true, false, Option, inl, inr, Bool-cases}
use aegis_proxy.Run.{ok, Ensures, Ensures-bind, Ensures-if, Ensures-ok, Run-cases}
use aegis_proxy.Text.{bytes, to_string}
use aegis_proxy.Pool.{Socket, acquire_connected, release}
use aegis_proxy.Session.World.{World, Env, report_failure, report_success, show_pool}
use aegis_proxy.Session.Relay.{Relay, after_read, after_write, is_over}
use aegis_proxy.Session.State.{
  Point, created, connecting, replaying, relaying, answering, draining, State, Event, started,
  connected, replayed, client_read, backend_wrote, backend_read, client_wrote, status_written,
  drained,
}
use aegis_proxy.Session.Legs.{on_reading, on_writing}
use aegis_proxy.Session.Handle.{trace, field, exclude, start_relay, next_round}
use aegis_proxy.Session.Resume.{
  start, finish_connect, replay_failed, no_response, responded, relay_done, moved, capture, deliver,
  mark_started, relay_event, resume_at, resume,
}
use aegis_proxy.Session.Refusal.{Why, WhyAt, Excused}
use aegis_proxy.Session.Refusal.Rounds.{
  give_up-Excused, selected-Excused, connect_failed-Excused, next_round-Excused,
}

module _ (b : ℕ) (env : Env) where
  finish_connect-Excused :
      (answer : Option Socket) (w : World) (s : State)
      → Ensures Excused (finish_connect b answer env w s)
  unfolding finish_connect
  finish_connect-Excused answer w s = elim (Run-cases (acquire_connected b answer w.pool)) [
    | inr (e, thrown) ↦
        rw (thrown, finish_connect)
          (connect_failed-Excused b (next_round env) env s
            (λ w'. next_round-Excused env w' (exclude b s)) e w)
    | inl ((socket, p), got) ↦
        rw (got, finish_connect) (selected-Excused b socket (record w { pool = p }) s)
  ]

  replay_failed-Excused :
      (socket : Socket) (w : World) (s : State) → Ensures Excused (replay_failed b socket env w s)
  unfolding replay_failed
  replay_failed-Excused socket w s =
      Ensures-bind Excused
        (report_failure b (env.failed_at s.attempts)
          (trace (bytes "replay_failed") (field (bytes "backend") (to_string b)) s w))
        _
        (λ reported _.
          Ensures-bind Excused (release b socket false reported.pool) _
            (λ p _. next_round-Excused env (record reported { pool = p }) (exclude b s)))

  no_response-Excused : (w : World) (s : State) → Ensures Excused (no_response b env w s)
  unfolding no_response
  no_response-Excused w s =
      Ensures-bind Excused (report_failure b (env.failed_at s.attempts) w) _ (λ reported _.
        Ensures-if Excused s.req_buf.capped _ _
          (λ full. give_up-Excused _ (exclude b s) (inr (inr full)))
          (λ fits. next_round-Excused env _ (exclude b s)))

  relay_done-Excused :
      (socket : Socket) (began : Bool) (w : World) (s : State)
      → Ensures Excused (relay_done b socket began env w s)
  unfolding relay_done responded
  relay_done-Excused socket began w s =
      Ensures-bind Excused (release b socket false w.pool) _ (λ p _.
        Ensures-bind Excused (show_pool b (record w { pool = p })) _ (λ shown _.
          Ensures-if Excused began _ _
            (λ _. Ensures-bind Excused (report_success b shown) _ (λ reported _. tt))
            (λ _. no_response-Excused shown s)))

  moved-Excused :
      (socket : Socket) (r : Relay) (w : World) (s : State)
      → Ensures Excused (moved b socket r env w s)
  unfolding moved
  moved-Excused socket r w s = elim (Bool-cases (is_over r)) [
    | inl over ↦ rw (over, moved) (relay_done-Excused socket r.response_started w s)
    | inr on ↦ rw (on, moved) tt
  ]

module _ (env : Env) (w : World) (s : State) (stay : Excused (w, s)) where
  relay_event-Excused :
      (b : ℕ) (socket : Socket) (r : Relay) (event : Event)
      → Ensures Excused (relay_event b socket r event env w s)
  unfolding relay_event
  relay_event-Excused b socket r (client_read chunk) =
      on_reading Excused r.up _ _
        (moved-Excused b env socket (record r { up = after_read chunk }) w (capture chunk s)) stay
  relay_event-Excused b socket r (backend_wrote fine) =
      on_writing Excused r.up _ _
        (moved-Excused b env socket (record r { up = after_write fine }) w s) stay
  relay_event-Excused b socket r (backend_read chunk) =
      on_reading Excused r.down _ _
        (moved-Excused b env socket (record (mark_started chunk r) { down = after_read chunk }) w
          (deliver b chunk s))
        stay
  relay_event-Excused b socket r (client_wrote fine) =
      on_writing Excused r.down _ _
        (moved-Excused b env socket (record r { down = after_write fine }) w s) stay
  relay_event-Excused b socket r started = stay
  relay_event-Excused b socket r _ = stay

  resume_at-Excused : (p : Point) (event : Event) → Ensures Excused (resume_at p event env w s)
  unfolding resume_at start start_relay
  resume_at-Excused created started = next_round-Excused env _ s
  resume_at-Excused (connecting b) (connected answer) = finish_connect-Excused b env answer w s
  resume_at-Excused (replaying b socket) (replayed true) = tt
  resume_at-Excused (replaying b socket) (replayed false) = replay_failed-Excused b env socket w s
  resume_at-Excused (relaying b socket r) event = relay_event-Excused b socket r event
  resume_at-Excused answering (status_written fine) = tt
  resume_at-Excused draining (drained true) = stay
  resume_at-Excused draining (drained false) = tt
  resume_at-Excused _ _ = stay

elsewhere : (p : Point) (w : World) (s : State) → p ≢ answering → WhyAt p w s
elsewhere answering w s n = absurd (n refl)
elsewhere _ w s n = tt

-- A client is given up, and answered with the 503 response, only if as many backends were tried as
-- there are attempts, or every backend on the ring was tried, or what the client sent no longer fits
-- the buffer from which a retry would be sent.
pub no_needless_503 :
    (event : Event) (env : Env) (w v : World) (s t : State)
    → resume event env w s ≡ ok (v, t)
    → s.point ≢ answering
    → t.point ≡ answering
    → Why v t
unfolding resume
no_needless_503 event env w v s t e before after =
    let why =
      Ensures-ok Excused (resume event env w s)
        (resume_at-Excused env w s (elsewhere s.point w s before) s.point event) e in
    subst (λ p. WhyAt p v t) after why

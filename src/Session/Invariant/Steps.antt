-- ===== src/Session/Invariant/Steps.antt =====
-- What follows each suspension of handle_client in session.cpp, and the invariant.
use aegis_proxy.Common.{
  ℕ, ◌≡◌, refl, subst, true, false, [], Option, none, some, arith, All, inl, inr, Bool-cases,
}
use aegis_proxy.Run.{Ensures, Ensures-bind, Ensures-if, Run-cases}
use aegis_proxy.Text.{Bytes, bytes, to_string}
use aegis_proxy.Pool.{Socket, acquire_connected, release}
use aegis_proxy.Session.World.{World, Env, report_failure, report_success, show_pool}
use aegis_proxy.Session.Buffer.{append}
use aegis_proxy.Session.Relay.{Relay, Leg, after_read, after_write, is_over}
use aegis_proxy.Session.State.{
  Point, created, connecting, replaying, relaying, answering, draining, State, Event, started,
  connected, replayed, client_read, backend_wrote, backend_read, client_wrote, status_written,
  drained,
}
use aegis_proxy.Session.Legs.{on_reading, on_writing}
use aegis_proxy.Session.Handle.{trace, field, exclude, start_relay, next_round}
use aegis_proxy.Session.Resume.{
  start, finish_connect, replay_failed, no_response, responded, relay_done, moved, capture, deliver,
  mark_started, relay_event, resume_at, resume,
}
use aegis_proxy.Session.Invariant.{Tried, Head, Trying, IsFrom, Live, Offered, Captured, At, Inv}
use aegis_proxy.Session.Invariant.Rounds.{
  Keeps, give_up-Inv, exclude-Head, selected-Inv, connect_failed-Inv, next_round-Inv,
}

start-Inv : (env : Env) (w : World) (s : State) → Head s → Ensures Keeps (start env w s)
unfolding start
start-Inv env w s h = next_round-Inv env _ s h

start_relay-Inv :
    (b : ℕ) (socket : Socket) (w : World) (s : State)
    → At (replaying b socket) s
    → Ensures Keeps (start_relay b socket w s)
unfolding start_relay
start_relay-Inv b socket w s a = ground arith

module _ (b : ℕ) (env : Env) (s : State) where
  finish_connect-Inv :
      (answer : Option Socket) (w : World)
      → Trying b s
      → Ensures Keeps (finish_connect b answer env w s)
  unfolding finish_connect
  finish_connect-Inv answer w t = elim (Run-cases (acquire_connected b answer w.pool)) [
    | inr (e, thrown) ↦
        rw (thrown, finish_connect)
          (connect_failed-Inv b (next_round env) env s t
            (λ w'. next_round-Inv env w' (exclude b s) (exclude-Head b s t)) e w)
    | inl ((socket, p), got) ↦
        rw (got, finish_connect) (selected-Inv b socket (record w { pool = p }) s t)
  ]

  replay_failed-Inv :
      (socket : Socket) (w : World) → Trying b s → Ensures Keeps (replay_failed b socket env w s)
  unfolding replay_failed
  replay_failed-Inv socket w t =
      Ensures-bind Keeps
        (report_failure b (env.failed_at s.attempts)
          (trace (bytes "replay_failed") (field (bytes "backend") (to_string b)) s w))
        _
        (λ reported _. Ensures-bind Keeps (release b socket false reported.pool) _ (λ p _.
          next_round-Inv env (record reported { pool = p }) (exclude b s) (exclude-Head b s t)))

  exclude-Tried : (r : Relay) → Live b r s → Tried (exclude b s)
  exclude-Tried r l = ground arith

  exclude-Live :
      (r : Relay) → Live b r s → s.sent ≡ [] → s.req_buf.capped ≡ false → Head (exclude b s)
  exclude-Live r l q fits = record {
    tried = exclude-Tried r l;
    quiet = q;
    whole = fits;
    captured = subst (λ t. Captured t s) fits l.captured;
  }

  no_response-Inv :
      (r : Relay) (w : World) → Live b r s → s.sent ≡ [] → Ensures Keeps (no_response b env w s)
  unfolding no_response
  no_response-Inv r w l q =
      Ensures-bind Keeps (report_failure b (env.failed_at s.attempts) w) _ (λ reported _.
        Ensures-if Keeps s.req_buf.capped _ _
          (λ full. give_up-Inv _ (exclude b s) (exclude-Tried r l) q)
          (λ fits. next_round-Inv env _ (exclude b s) (exclude-Live r l q fits)))

  responded-Inv :
      (r : Relay) (w : World) → Live b r s → All (IsFrom b) s.sent → Ensures Keeps (responded b w s)
  unfolding responded
  responded-Inv r w l o =
      Ensures-bind Keeps (report_success b w) _ (λ reported _. (ground arith, inr (b, o)))

  relay_done-Inv :
      (socket : Socket) (r : Relay) (w : World)
      → Live b r s
      → Ensures Keeps (relay_done b socket r.response_started env w s)
  unfolding relay_done
  relay_done-Inv socket r w l = Ensures-bind Keeps (release b socket false w.pool) _ (λ p _.
      Ensures-bind Keeps (show_pool b (record w { pool = p })) _ (λ shown _.
        Ensures-if Keeps r.response_started _ _
          (λ began. responded-Inv r shown l (subst (λ t. Offered t b s.sent) began l.output))
          (λ silent. no_response-Inv r shown l (subst (λ t. Offered t b s.sent) silent l.output))))

  moved-Inv :
      (socket : Socket) (r : Relay) (w : World)
      → Live b r s
      → Ensures Keeps (moved b socket r env w s)
  unfolding moved
  moved-Inv socket r w l = elim (Bool-cases (is_over r)) [
    | inl over ↦ rw (over, moved) (relay_done-Inv socket r w l)
    | inr on ↦ rw (on, moved) (ground arith)
  ]

  capture-Live :
      (r q : Relay) (chunk : Option Bytes)
      → q.response_started ≡ r.response_started
      → Live b r s
      → Live b q (capture chunk s)
  unfolding capture append
  capture-Live r q none e l = ground arith
  capture-Live r q (some chunk) e l = ground arith

  deliver-Live :
      (r : Relay) (chunk : Option Bytes) (leg : Leg)
      → Live b r s
      → Live b (record (mark_started chunk r) { down = leg }) (deliver b chunk s)
  unfolding deliver
  deliver-Live r none leg l = ground arith
  deliver-Live r (some chunk) leg l = ground arith

module _ (b : ℕ) (socket : Socket) (r : Relay) (env : Env) (w : World) (s : State) where
  relay_event-Inv :
      (event : Event) → Live b r s → Inv s → Ensures Keeps (relay_event b socket r event env w s)
  unfolding relay_event
  relay_event-Inv (client_read chunk) l stay =
      let q : Relay = record r { up = after_read chunk } in
      on_reading Keeps r.up _ _
        (moved-Inv b env (capture chunk s) socket q w (capture-Live b env s r q chunk refl l)) stay
  relay_event-Inv (backend_wrote fine) l stay =
      on_writing Keeps r.up _ _
        (moved-Inv b env s socket (record r { up = after_write fine }) w (ground arith)) stay
  relay_event-Inv (backend_read chunk) l stay =
      on_reading Keeps r.down _ _
        (moved-Inv b env (deliver b chunk s) socket
          (record (mark_started chunk r) { down = after_read chunk }) w
          (deliver-Live b env s r chunk (after_read chunk) l))
        stay
  relay_event-Inv (client_wrote fine) l stay =
      on_writing Keeps r.down _ _
        (moved-Inv b env s socket (record r { down = after_write fine }) w (ground arith)) stay
  relay_event-Inv started l stay = stay
  relay_event-Inv _ l stay = stay

module _ (env : Env) (w : World) (s : State) (inv : Inv s) where
  resume_at-Inv :
      (p : Point) (event : Event) → s.point ≡ p → At p s → Ensures Keeps (resume_at p event env w s)
  unfolding resume_at
  resume_at-Inv created started e a = start-Inv env w s a
  resume_at-Inv (connecting b) (connected answer) e a = finish_connect-Inv b env s answer w a
  resume_at-Inv (replaying b socket) (replayed true) e a = start_relay-Inv b socket w s a
  resume_at-Inv (replaying b socket) (replayed false) e a = replay_failed-Inv b env s socket w a.0
  resume_at-Inv (relaying b socket r) event e a = relay_event-Inv b socket r env w s event a inv
  resume_at-Inv answering (status_written fine) e a = (ground arith, a.1)
  resume_at-Inv draining (drained true) e a = inv
  resume_at-Inv draining (drained false) e a = (ground arith, inl a.1)
  resume_at-Inv _ _ e a = inv

-- Whatever a resumption does that does not throw, it keeps the invariant.
pub resume-Inv :
    (event : Event) (env : Env) (w : World) (s : State)
    → Inv s
    → Ensures Keeps (resume event env w s)
unfolding resume
resume-Inv event env w s inv = resume_at-Inv env w s inv s.point event refl inv

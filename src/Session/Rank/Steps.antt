-- ===== src/Session/Rank/Steps.antt =====
-- What follows each suspension of handle_client in session.cpp, and how far it leaves the session from
-- its end.
use aegis_proxy.Common.{
  ℕ, ◌+◌, ◌-◌, ◌*◌, ◌≤◌, ◌≡◌, refl, Bool, true, false, Option, none, some, arith, inl, inr,
  Bool-cases, if◌then◌else◌,
}
use aegis_proxy.Run.{ok, Ensures, Ensures-bind, Ensures-map, Ensures-if, Run-cases}
use aegis_proxy.Text.{Bytes, bytes, to_string}
use aegis_proxy.Pool.{Socket, acquire_connected, release}
use aegis_proxy.Session.World.{World, Env, report_failure, report_success, show_pool}
use aegis_proxy.Session.Relay.{Relay, Leg, reading, writing, returned, is_over}
use aegis_proxy.Session.State.{
  Point, created, connecting, replaying, relaying, answering, draining, State, Event, started,
  connected, replayed, client_read, backend_wrote, backend_read, client_wrote, status_written,
  drained,
}
use aegis_proxy.Session.Handle.{Result, trace, field, exclude, start_relay, next_round}
use aegis_proxy.Session.Resume.{
  start, finish_connect, replay_failed, no_response, responded, relay_done, moved, capture, deliver,
  relay_event, resume_at, resume,
}
use aegis_proxy.Session.Rank.{leg_ends, ends, still, rank_at, rank, Awake, Within}
use aegis_proxy.Session.Rank.Rounds.{
  behind, Within-weaken, give_up-Within, selected-Within, connect_failed-Within, next_round-Within,
}

-- A resumption brought the session nearer to its end by `d` at least.
abbrev pub Falls : ℕ → ℕ → World × State → Type 0
Falls d k r = (rank r.1 + d ≤ k) × Awake r.1.point

abbrev pub ending : Point → Event → ℕ
ending p event = if ends p event then 1 else 0

Within-Falls : (j d k : ℕ) (m : Result) → j + d ≤ k → Ensures (Within j) m → Ensures (Falls d k) m
Within-Falls j d k m h e = Ensures-map (Within j) (Falls d k) m (λ r p. (omega arith, p.1)) e

module _ (b : ℕ) (env : Env) (s : State) where
  finish_connect-Within :
      (answer : Option Socket) (w : World)
      → Ensures (Within (4 * behind s + 5)) (finish_connect b answer env w s)
  unfolding finish_connect
  finish_connect-Within answer w = elim (Run-cases (acquire_connected b answer w.pool)) [
    | inr (e, thrown) ↦
        rw (thrown, finish_connect)
          (Within-weaken (4 * behind s + 2) (4 * behind s + 5) _ (omega arith) (
            connect_failed-Within b (next_round env) env s
              (λ w'. next_round-Within env w' (exclude b s)) e w))
    | inl ((socket, p), got) ↦
        rw (got, finish_connect) (selected-Within b socket (record w { pool = p }) s)
  ]

  replay_failed-Within :
      (socket : Socket) (w : World)
      → Ensures (Within (4 * behind s + 2)) (replay_failed b socket env w s)
  unfolding replay_failed
  replay_failed-Within socket w =
      Ensures-bind _
        (report_failure b (env.failed_at s.attempts)
          (trace (bytes "replay_failed") (field (bytes "backend") (to_string b)) s w))
        _
        (λ reported _.
          Ensures-bind _ (release b socket false reported.pool) _
            (λ p _. next_round-Within env (record reported { pool = p }) (exclude b s)))

  no_response-Within : (w : World) → Ensures (Within (4 * behind s + 2)) (no_response b env w s)
  unfolding no_response
  no_response-Within w =
      Ensures-bind _ (report_failure b (env.failed_at s.attempts) w) _ (λ reported _.
        Ensures-if _ s.req_buf.capped _ _
          (λ full. give_up-Within (4 * behind s + 2) _ (exclude b s) (omega arith))
          (λ fits. next_round-Within env _ (exclude b s)))

  responded-Within : (w : World) → Ensures (Within (4 * behind s + 2)) (responded b w s)
  unfolding responded
  responded-Within w = Ensures-bind _ (report_success b w) _ (λ reported _. (omega arith, tt))

  relay_done-Within :
      (socket : Socket) (began : Bool) (w : World)
      → Ensures (Within (4 * behind s + 2)) (relay_done b socket began env w s)
  unfolding relay_done
  relay_done-Within socket began w = Ensures-bind _ (release b socket false w.pool) _ (λ p _.
      Ensures-bind _ (show_pool b (record w { pool = p })) _ (λ shown _.
        Ensures-if _ began _ _ (λ _. responded-Within shown) (λ _. no_response-Within shown)))

  moved-Within :
      (socket : Socket) (r : Relay) (w : World)
      → Ensures (Within (4 * behind s + 2 + still r.up + still r.down)) (moved b socket r env w s)
  unfolding moved
  moved-Within socket r w = elim (Bool-cases (is_over r)) [
    | inl over ↦
        rw (over, moved)
          (Within-weaken (4 * behind s + 2) (4 * behind s + 2 + still r.up + still r.down) _
            (omega arith) (relay_done-Within socket r.response_started w))
    | inr on ↦ rw (on, moved) (omega arith, on)
  ]

module _ (env : Env) (w : World) (s : State) where
  abbrev here : Point → ℕ
  here p = rank_at (s.max_attempts - s.attempts) (behind s) p

  unchanged : (p : Point) → s.point ≡ p → Awake p → Ensures (Falls 0 (here p)) (ok (w, s))
  unchanged p e a = (rw e (omega arith), rw e a)

  module _ (b : ℕ) (socket : Socket) where
    -- The relay that moved has returned, or goes on.
    relay_ended :
        (t : State) (r : Relay) (k : ℕ)
        → 4 * behind t + 2 + still r.up + still r.down + 1 ≤ k
        → Ensures (Falls 1 k) (moved b socket r env w t)
    relay_ended t r k h =
        Within-Falls (4 * behind t + 2 + still r.up + still r.down) 1 k _ h
          (moved-Within b env t socket r w)

    relay_moved :
        (t : State) (r : Relay) (k : ℕ)
        → 4 * behind t + 2 + still r.up + still r.down ≤ k
        → Ensures (Falls 0 k) (moved b socket r env w t)
    relay_moved t r k h =
        Within-Falls (4 * behind t + 2 + still r.up + still r.down) 0 k _ (omega arith)
          (moved-Within b env t socket r w)

    abbrev RelayFalls : Relay → Event → Type 0
    RelayFalls r event =
        s.point ≡ relaying b socket r
        → is_over r ≡ false
        → Ensures (Falls (ending (relaying b socket r) event) (here (relaying b socket r)))
            (relay_event b socket r event env w s)

    abbrev legs : Leg → Leg → Bool → Relay
    legs up down began = record { up = up; down = down; response_started = began }

    up_Falls :
        (up down : Leg) (began : Bool) (chunk : Option Bytes)
        → RelayFalls (legs up down began) (client_read chunk)
    unfolding relay_event capture ends leg_ends
    up_Falls reading down began none e a =
        relay_ended s (legs returned down began)
          (here (relaying b socket (legs reading down began))) (omega arith)
    up_Falls reading down began (some chunk) e a =
        relay_moved (capture (some chunk) s) (legs writing down began)
          (here (relaying b socket (legs reading down began))) (omega arith)
    up_Falls writing down began none e a = unchanged _ e a
    up_Falls writing down began (some chunk) e a = unchanged _ e a
    up_Falls returned down began none e a = unchanged _ e a
    up_Falls returned down began (some chunk) e a = unchanged _ e a

    up_write_Falls :
        (up down : Leg) (began fine : Bool) → RelayFalls (legs up down began) (backend_wrote fine)
    unfolding relay_event ends leg_ends
    up_write_Falls writing down began false e a =
        relay_ended s (legs returned down began)
          (here (relaying b socket (legs writing down began))) (omega arith)
    up_write_Falls writing down began true e a =
        relay_moved s (legs reading down began) (here (relaying b socket (legs writing down began)))
          (omega arith)
    up_write_Falls reading down began true e a = unchanged _ e a
    up_write_Falls reading down began false e a = unchanged _ e a
    up_write_Falls returned down began true e a = unchanged _ e a
    up_write_Falls returned down began false e a = unchanged _ e a

    down_Falls :
        (up down : Leg) (began : Bool) (chunk : Option Bytes)
        → RelayFalls (legs up down began) (backend_read chunk)
    unfolding relay_event deliver ends leg_ends
    down_Falls up reading began none e a =
        relay_ended s (legs up returned began) (here (relaying b socket (legs up reading began)))
          (omega arith)
    down_Falls up reading began (some chunk) e a =
        relay_moved (deliver b (some chunk) s) (legs up writing true)
          (here (relaying b socket (legs up reading began))) (omega arith)
    down_Falls up writing began none e a = unchanged _ e a
    down_Falls up writing began (some chunk) e a = unchanged _ e a
    down_Falls up returned began none e a = unchanged _ e a
    down_Falls up returned began (some chunk) e a = unchanged _ e a

    down_write_Falls :
        (up down : Leg) (began fine : Bool) → RelayFalls (legs up down began) (client_wrote fine)
    unfolding relay_event ends leg_ends
    down_write_Falls up writing began false e a =
        relay_ended s (legs up returned began) (here (relaying b socket (legs up writing began)))
          (omega arith)
    down_write_Falls up writing began true e a =
        relay_moved s (legs up reading began) (here (relaying b socket (legs up writing began)))
          (omega arith)
    down_write_Falls up reading began true e a = unchanged _ e a
    down_write_Falls up reading began false e a = unchanged _ e a
    down_write_Falls up returned began true e a = unchanged _ e a
    down_write_Falls up returned began false e a = unchanged _ e a

    relay_Falls : (r : Relay) (event : Event) → RelayFalls r event
    unfolding relay_event ends leg_ends
    relay_Falls r (client_read chunk) e a = up_Falls r.up r.down r.response_started chunk e a
    relay_Falls r (backend_wrote fine) e a = up_write_Falls r.up r.down r.response_started fine e a
    relay_Falls r (backend_read chunk) e a = down_Falls r.up r.down r.response_started chunk e a
    relay_Falls r (client_wrote fine) e a = down_write_Falls r.up r.down r.response_started fine e a
    relay_Falls r started e a = unchanged (relaying b socket r) e a
    relay_Falls r _ e a = unchanged (relaying b socket r) e a

  resume_at-Falls :
      (p : Point) (event : Event)
      → s.point ≡ p
      → Awake p
      → Ensures (Falls (ending p event) (here p)) (resume_at p event env w s)
  unfolding resume_at start start_relay ends
  resume_at-Falls created started e a =
      Within-Falls (4 * (s.max_attempts - s.attempts) + 2) 1 (here created) _ (omega arith)
        (next_round-Within env _ s)
  resume_at-Falls (connecting b) (connected answer) e a =
      Within-Falls (4 * behind s + 5) 1 (here (connecting b)) _ (omega arith)
        (finish_connect-Within b env s answer w)
  resume_at-Falls (replaying b socket) (replayed true) e a = (omega arith, refl)
  resume_at-Falls (replaying b socket) (replayed false) e a =
      Within-Falls (4 * behind s + 2) 1 (here (replaying b socket)) _ (omega arith)
        (replay_failed-Within b env s socket w)
  resume_at-Falls (relaying b socket r) event e a = relay_Falls b socket r event e a
  resume_at-Falls answering (status_written fine) e a = (omega arith, tt)
  resume_at-Falls draining (drained true) e a = unchanged draining e a
  resume_at-Falls draining (drained false) e a = (omega arith, tt)
  resume_at-Falls p _ e a = unchanged p e a

-- Every resumption of a suspended session leaves it suspended or finished, and no farther from its
-- end; if the operation ended, nearer.
pub resume-Falls :
    (event : Event) (env : Env) (w : World) (s : State)
    → Awake s.point
    → Ensures (Falls (ending s.point event) (rank s)) (resume event env w s)
unfolding resume
resume-Falls event env w s a = resume_at-Falls env w s s.point event refl a

-- ===== src/Session/Progress/Steps.antt =====
-- What follows each suspension of handle_client in session.cpp, and its exceptions.
use aegis_proxy.Common.{ℕ, ◌<◌, ◌≡◌, Bool, true, false, Option, arith, inl, inr, Bool-cases, length}
use aegis_proxy.Text.{bytes, to_string}
use aegis_proxy.Run.{ok, Total, Total-bind, Total-if, Total-ok, Run-cases, Ensures-ok}
use aegis_proxy.Pool.{ConnectionPool, Socket, acquire_connected, release}
use aegis_proxy.Metrics.{record_request_received}
use aegis_proxy.Session.World.{World, Env, log, report_failure, report_success, show_pool}
use aegis_proxy.Session.Relay.{
  Relay, Leg, reading, writing, returned, after_read, after_write, is_over,
}
use aegis_proxy.Session.State.{
  Point, created, connecting, replaying, relaying, answering, draining, State, Event, started,
  connected, replayed, client_read, backend_wrote, backend_read, client_wrote, status_written,
  drained,
}
use aegis_proxy.Session.Handle.{Result, trace, field, exclude, start_relay, next_round}
use aegis_proxy.Session.Resume.{
  start, finish_connect, replay_failed, no_response, responded, relay_done, moved, capture, deliver,
  mark_started, relay_event, resume_at, resume,
}
use aegis_proxy.Session.Sized.{
  Sized, PoolSized, report_failure-Sized, report_success-Sized, show_pool-Sized, release-Sized,
  acquire_connected-Sized,
}
use aegis_proxy.Session.Progress.{
  PointBelow, Good, give_up-Good, traced, selected-Good, connect_failed-Good, next_round-Good,
}

with_pool :
    (n : ℕ) (w : World) (p : ConnectionPool)
    → Sized n w
    → PoolSized n p
    → Sized n (record w { pool = p })
with_pool n w p z q = record { breakers = z.breakers; pool = q; metrics = z.metrics; ring = z.ring }

module _ (n b : ℕ) (lt : b < n) (env : Env) (s : State) where
  finish_connect-Good :
      (answer : Option Socket) (w : World)
      → Sized n w
      → Total (Good n) (finish_connect b answer env w s)
  unfolding finish_connect
  finish_connect-Good answer w z = elim (Run-cases (acquire_connected b answer w.pool)) [
    | inr (e, thrown) ↦
        rw (thrown, finish_connect)
          (connect_failed-Good n b lt (next_round env) env s
            (λ w' z'. next_round-Good n env w' (exclude b s) z') e w z)
    | inl ((socket, p), got) ↦
        let q =
          Ensures-ok (λ r. PoolSized n r.1) (acquire_connected b answer w.pool)
            (acquire_connected-Sized n b lt answer w.pool z.pool) got in
        rw (got, finish_connect)
          (selected-Good n b lt socket (record w { pool = p }) s (with_pool n w p z q))
  ]

  replay_failed-Good :
      (socket : Socket) (w : World) → Sized n w → Total (Good n) (replay_failed b socket env w s)
  unfolding replay_failed
  replay_failed-Good socket w z =
      let fs = field (bytes "backend") (to_string b) in
      let line = trace (bytes "replay_failed") fs s w in
      Total-bind (Good n) (Sized n) (report_failure b (env.failed_at s.attempts) line) _
        (report_failure-Sized n b lt (env.failed_at s.attempts) line
          (traced n b lt (bytes "replay_failed") fs s w z))
        (λ reported r.
          Total-bind (Good n) (PoolSized n) (release b socket false reported.pool) _
            (release-Sized n b lt socket false reported.pool r.pool)
            (λ p q.
              next_round-Good n env (record reported { pool = p }) (exclude b s)
                (with_pool n reported p r q)))

  no_response-Good : (w : World) → Sized n w → Total (Good n) (no_response b env w s)
  unfolding no_response
  no_response-Good w z =
      let fs = field (bytes "backend") (to_string b) in
      let gs = field (bytes "buffered_bytes") (to_string (length s.req_buf.contents)) in
      Total-bind (Good n) (Sized n) (report_failure b (env.failed_at s.attempts) w) _
        (report_failure-Sized n b lt (env.failed_at s.attempts) w z)
        (λ reported r.
          let logged = trace (bytes "backend_failed_no_response") fs s reported in
          let l = traced n b lt (bytes "backend_failed_no_response") fs s reported r in
          Total-if (Good n) s.req_buf.capped _ _
            (give_up-Good n (trace (bytes "retry_abandoned_buffer_capped") gs s logged)
              (exclude b s) (traced n b lt (bytes "retry_abandoned_buffer_capped") gs s logged l))
            (next_round-Good n env logged (exclude b s) l))

  responded-Good : (w : World) → Sized n w → Total (Good n) (responded b w s)
  unfolding responded
  responded-Good w z =
      Total-bind (Good n) (Sized n) (report_success b w) _ (report_success-Sized n b lt w z)
        (λ reported r. (
          traced n b lt (bytes "request_succeeded") (field (bytes "backend") (to_string b)) s
              reported r,
          tt,
        ))

  relay_done-Good :
      (socket : Socket) (began : Bool) (w : World)
      → Sized n w
      → Total (Good n) (relay_done b socket began env w s)
  unfolding relay_done
  relay_done-Good socket began w z =
      Total-bind (Good n) (PoolSized n) (release b socket false w.pool) _
        (release-Sized n b lt socket false w.pool z.pool)
        (λ p q.
          Total-bind (Good n) (Sized n) (show_pool b (record w { pool = p })) _
            (show_pool-Sized n b lt (record w { pool = p }) (with_pool n w p z q))
            (λ shown r.
              Total-if (Good n) began _ _ (responded-Good shown r) (no_response-Good shown r)))

  moved-Good :
      (socket : Socket) (r : Relay) (w : World)
      → Sized n w
      → Total (Good n) (moved b socket r env w s)
  unfolding moved
  moved-Good socket r w z = elim (Bool-cases (is_over r)) [
    | inl over ↦ rw (over, moved) (relay_done-Good socket r.response_started w z)
    | inr on ↦ rw (on, moved) (z, lt)
  ]

  on_reading :
      (leg : Leg) (m k : Result)
      → Total (Good n) m
      → Total (Good n) k
      → Total (Good n) (elim leg [ reading ↦ m | writing ↦ k | returned ↦ k ])
  on_reading reading m k p q = p
  on_reading writing m k p q = q
  on_reading returned m k p q = q

  on_writing :
      (leg : Leg) (m k : Result)
      → Total (Good n) m
      → Total (Good n) k
      → Total (Good n) (elim leg [ writing ↦ m | reading ↦ k | returned ↦ k ])
  on_writing reading m k p q = q
  on_writing writing m k p q = p
  on_writing returned m k p q = q

module _ (n : ℕ) (env : Env) (w : World) (s : State) (z : Sized n w)
    (stay : PointBelow n s.point) where
  relay_event-Good :
      (b : ℕ) (socket : Socket) (r : Relay) (event : Event)
      → b < n
      → Total (Good n) (relay_event b socket r event env w s)
  unfolding relay_event
  relay_event-Good b socket r (client_read chunk) lt =
      on_reading n b lt env s r.up _ _
        (moved-Good n b lt env (capture chunk s) socket (record r { up = after_read chunk }) w z)
        (z, stay)
  relay_event-Good b socket r (backend_wrote fine) lt =
      on_writing n b lt env s r.up _ _
        (moved-Good n b lt env s socket (record r { up = after_write fine }) w z) (z, stay)
  relay_event-Good b socket r (backend_read chunk) lt =
      on_reading n b lt env s r.down _ _
        (moved-Good n b lt env (deliver b chunk s) socket
          (record (mark_started chunk r) { down = after_read chunk }) w z)
        (z, stay)
  relay_event-Good b socket r (client_wrote fine) lt =
      on_writing n b lt env s r.down _ _
        (moved-Good n b lt env s socket (record r { down = after_write fine }) w z) (z, stay)
  relay_event-Good b socket r started lt = (z, stay)
  relay_event-Good b socket r _ lt = (z, stay)

  start-Good : Total (Good n) (start env w s)
  unfolding start log record_request_received
  start-Good = next_round-Good n env _ s (ground arith)

  resume_at-Good :
      (p : Point) (event : Event) → PointBelow n p → Total (Good n) (resume_at p event env w s)
  unfolding resume_at start_relay
  resume_at-Good created started lt = start-Good
  resume_at-Good (connecting b) (connected answer) lt = finish_connect-Good n b lt env s answer w z
  resume_at-Good (replaying b socket) (replayed true) lt = (z, lt)
  resume_at-Good (replaying b socket) (replayed false) lt =
      replay_failed-Good n b lt env s socket w z
  resume_at-Good (relaying b socket r) event lt = relay_event-Good b socket r event lt
  resume_at-Good answering (status_written fine) lt = (z, tt)
  resume_at-Good draining (drained true) lt = (z, stay)
  resume_at-Good draining (drained false) lt = (z, tt)
  resume_at-Good _ _ lt = (z, stay)

-- On shared objects with one entry for each of `n` backends, and a ring and a session that name only
-- those, every resumption ends without an exception, at a point that names only those, and leaves
-- shared objects of the same size.
pub resume_total :
    (n : ℕ) (event : Event) (env : Env) (w : World) (s : State)
    → Sized n w
    → PointBelow n s.point
    → (r : World × State) × (resume event env w s ≡ ok r) × Good n r
unfolding resume
resume_total n event env w s z lt =
    Total-ok (Good n) (resume_at s.point event env w s)
      (resume_at-Good n env w s z lt s.point event lt)

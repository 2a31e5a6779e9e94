-- ===== src/Session/Resume.antt =====
-- handle_client in session.cpp: what each operation that it waits for does when it ends.
use aegis_proxy.Common.{ℕ, Bool, true, false, ◌∷◌, ◌++◌, Option, none, some, if◌then◌else◌, length}
use aegis_proxy.Text.{Bytes, bytes, to_string}
use aegis_proxy.Run.{ok, throw, ◌>>=◌}
use aegis_proxy.Pool.{Socket, acquire_connected, release}
use aegis_proxy.Metrics.{record_request_received}
use aegis_proxy.Session.World.{World, Env, report_failure, report_success, show_pool}
use aegis_proxy.Session.Buffer.{append}
use aegis_proxy.Session.Relay.{Relay, reading, writing, returned, after_read, after_write, is_over}
use aegis_proxy.Session.State.{
  Point, created, connecting, replaying, relaying, answering, draining, finished, from_backend,
  State, Event, started, connected, replayed, client_read, backend_wrote, backend_read,
  client_wrote, status_written, drained,
}
use aegis_proxy.Session.Handle.{
  Result, field, trace, exclude, give_up, start_relay, selected, connect_failed, next_round,
}

unfoldable pub start : Env → World → State → Result
start env w s =
    next_round env
      (record (trace (bytes "request_received") (field (bytes "client") s.client_key) s w) {
        metrics = record_request_received w.metrics;
      })
      s

unfoldable pub finish_connect : ℕ → Option Socket → Env → World → State → Result
finish_connect b answer env w s = elim (acquire_connected b answer w.pool) [
  | throw e ↦ connect_failed b e (next_round env) env w s
  | ok (socket, p) ↦ selected b socket (record w { pool = p }) s
]

unfoldable pub replay_failed : ℕ → Socket → Env → World → State → Result
replay_failed b socket env w s = do
  reported ←
      report_failure b (env.failed_at s.attempts)
        (trace (bytes "replay_failed") (field (bytes "backend") (to_string b)) s w)
  p ← release b socket false reported.pool
  next_round env (record reported { pool = p }) (exclude b s)

-- The backend sent nothing: count the attempt as failed, and go on unless the buffer was capped.
unfoldable pub no_response : ℕ → Env → World → State → Result
no_response b env w s = do
  reported ← report_failure b (env.failed_at s.attempts) w
  let logged : World =
      trace (bytes "backend_failed_no_response") (field (bytes "backend") (to_string b)) s reported
  let next : State = exclude b s
  if s.req_buf.capped
      then give_up
          (trace (bytes "retry_abandoned_buffer_capped")
            (field (bytes "buffered_bytes") (to_string (length s.req_buf.contents))) s logged)
          next
      else next_round env logged next

unfoldable pub responded : ℕ → World → State → Result
responded b w s = do
  reported ← report_success b w
  ok (
    trace (bytes "request_succeeded") (field (bytes "backend") (to_string b)) s reported,
    record s { point = finished },
  )

-- Behind the two relays.
unfoldable pub relay_done : ℕ → Socket → Bool → Env → World → State → Result
unfolding no_response responded
relay_done b socket got_any_response env w s = do
  p ← release b socket false w.pool
  shown ← show_pool b (record w { pool = p })
  if got_any_response then responded b shown s else no_response b env shown s

-- One of the two relays moved.
unfoldable pub moved : ℕ → Socket → Relay → Env → World → State → Result
unfolding relay_done
moved b socket r env w s = elim (is_over r) [
  | true ↦ relay_done b socket r.response_started env w s
  | false ↦ ok (w, record s { point = relaying b socket r })
]

-- A chunk from the client is captured and handed to the backend.
unfoldable pub capture : Option Bytes → State → State
capture none s = s
capture (some chunk) s = record s {
  req_buf = append chunk s.req_buf;
  consumed = s.consumed ++ chunk;
  forwarded = s.forwarded ++ chunk;
}

-- A chunk from the backend is handed to the client.
unfoldable pub deliver : ℕ → Option Bytes → State → State
deliver b none s = s
deliver b (some chunk) s = record s { sent = from_backend b chunk ∷ s.sent }

abbrev pub mark_started : Option Bytes → Relay → Relay
mark_started none r = r
mark_started (some chunk) r = record r { response_started = true }

-- An event that the relays do not wait for changes nothing.
unfoldable pub relay_event : ℕ → Socket → Relay → Event → Env → World → State → Result
unfolding moved capture deliver
relay_event b socket r (client_read chunk) env w s = elim r.up [
  | reading ↦ moved b socket (record r { up = after_read chunk }) env w (capture chunk s)
  | writing ↦ ok (w, s)
  | returned ↦ ok (w, s)
]
relay_event b socket r (backend_wrote fine) env w s = elim r.up [
  | writing ↦ moved b socket (record r { up = after_write fine }) env w s
  | reading ↦ ok (w, s)
  | returned ↦ ok (w, s)
]
relay_event b socket r (backend_read chunk) env w s = elim r.down [
  | reading ↦
      moved b socket (record (mark_started chunk r) { down = after_read chunk }) env w
        (deliver b chunk s)
  | writing ↦ ok (w, s)
  | returned ↦ ok (w, s)
]
relay_event b socket r (client_wrote fine) env w s = elim r.down [
  | writing ↦ moved b socket (record r { down = after_write fine }) env w s
  | reading ↦ ok (w, s)
  | returned ↦ ok (w, s)
]
relay_event b socket r _ env w s = ok (w, s)

-- The status is written, well or not, and sending is shut down.
abbrev pub status_sent : World → State → Result
status_sent w s = ok (w, record s { point = draining })

-- What the client still sends is read and dropped, up to its end or an error.
abbrev pub drain : Bool → World → State → Result
drain more w s = ok (w, if more then s else record s { point = finished })

-- The session at a point, resumed by an event; an event that it does not wait for changes nothing.
unfoldable pub resume_at : Point → Event → Env → World → State → Result
unfolding start finish_connect replay_failed relay_event
resume_at created started env w s = start env w s
resume_at (connecting b) (connected answer) env w s = finish_connect b answer env w s
resume_at (replaying b socket) (replayed fine) env w s = elim fine [
  | true ↦ start_relay b socket w s
  | false ↦ replay_failed b socket env w s
]
resume_at (relaying b socket r) event env w s = relay_event b socket r event env w s
resume_at answering (status_written fine) env w s = status_sent w s
resume_at draining (drained more) env w s = drain more w s
resume_at _ _ env w s = ok (w, s)

unfoldable pub resume : Event → Env → World → State → Result
unfolding resume_at
resume event env w s = resume_at s.point event env w s

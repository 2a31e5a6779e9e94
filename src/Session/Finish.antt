-- ===== src/Session/Finish.antt =====
-- How handle_client in session.cpp comes to its end, whatever other coroutines do to the shared
-- objects while it waits.
use aegis_proxy.Common.{ℕ, ◌+◌, ◌*◌, ◌≤◌, ◌≡◌, refl, ◌⊎◌, inl, inr, Bool, true, false, none, arith}
use aegis_proxy.Text.{Bytes}
use aegis_proxy.Run.{ok, Ensures-ok}
use aegis_proxy.Pool.{Socket}
use aegis_proxy.Session.World.{World, Env}
use aegis_proxy.Session.Relay.{Leg, reading, writing, returned}
use aegis_proxy.Session.State.{
  Point, created, connecting, replaying, relaying, answering, draining, finished, State, new, Event,
  started, connected, replayed, client_read, backend_wrote, backend_read, client_wrote,
  status_written, drained,
}
use aegis_proxy.Session.Resume.{resume}
use aegis_proxy.Session.Rank.{rank, Awake, ends, leg_ends}
use aegis_proxy.Session.Rank.Steps.{Falls, ending, resume-Falls}

-- A session after any number of resumptions, each on any shared objects; `n` operations have ended.
pub data Resumed (s : State) : ℕ → State → Type 0 where
  none_yet : Resumed s 0 s
  again :
      {n : ℕ} {t u : State} (event : Event) (env : Env) (w v : World)
      → Resumed s n t
      → resume event env w t ≡ ok (v, u)
      → Resumed s (n + ending t.point event) u

Resumed-Falls :
    (s : State) {n : ℕ} {t : State}
    → Awake s.point
    → Resumed s n t
    → (rank t + n ≤ rank s) × Awake t.point
Resumed-Falls s a none_yet = (omega arith, a)
Resumed-Falls s a (again {n} {t} {u} event env w v r e) =
    let (near, awake) = Resumed-Falls s a r in
    let (nearer, still_awake) =
      Ensures-ok (Falls (ending t.point event) (rank t)) (resume event env w t)
        (resume-Falls event env w t awake) e in
    (omega arith, still_awake)

-- However often a client is resumed and whatever the shared objects are by then, at most
-- `4 * max_attempts + 3` of its operations end: all others move one more chunk of bytes.
pub endings_bounded :
    (key id : Bytes) (limit n : ℕ) (t : State) → Resumed (new key id limit) n t → n ≤ 4 * limit + 3
unfolding new
endings_bounded key id limit n t r =
    let (near, _) = Resumed-Falls (new key id limit) tt r in omega arith

-- What ends the operation that a point waits for: a failure, or the end of the stream.
abbrev closing_leg : Leg → Event → Event → Event → Event
closing_leg reading read write other = read
closing_leg writing read write other = write
closing_leg returned read write other = other

abbrev pub closing : Point → Event
closing created = started
closing (connecting b) = connected none
closing (replaying b socket) = replayed false
closing (relaying b socket r) =
    closing_leg r.up (client_read none) (backend_wrote false)
      (closing_leg r.down (backend_read none) (client_wrote false) started)
closing answering = status_written true
closing draining = drained false
closing finished = started

closing_relay :
    (b : ℕ) (socket : Socket) (up down : Leg) (began : Bool)
    → let p = relaying b socket (record { up = up; down = down; response_started = began }) in
      Awake p → ends p (closing p) ≡ true
unfolding ends leg_ends
closing_relay b socket reading down began a = refl
closing_relay b socket writing down began a = refl
closing_relay b socket returned reading began a = refl
closing_relay b socket returned writing began a = refl
closing_relay b socket returned returned began a = cc

-- A session that has not finished waits for an operation that ends.
pub closing-ends : (p : Point) → Awake p → (p ≡ finished) ⊎ (ends p (closing p) ≡ true)
unfolding ends
closing-ends created a = inr refl
closing-ends (connecting b) a = inr refl
closing-ends (replaying b socket) a = inr refl
closing-ends (relaying b socket r) a = inr (closing_relay b socket r.up r.down r.response_started a)
closing-ends answering a = inr refl
closing-ends draining a = inr refl
closing-ends finished a = inl refl

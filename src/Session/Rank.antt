-- ===== src/Session/Rank.antt =====
-- How far a session of handle_client in session.cpp is from its end: the attempts that are left, and
-- the operations that still have to end in the attempt that is under way.
pub mod Rounds
pub mod Steps
use aegis_proxy.Common.{ℕ, zero, suc, ◌+◌, ◌-◌, ◌*◌, ◌≤◌, ◌≡◌, Bool, true, false, not, none, some}
use aegis_proxy.Session.Relay.{Leg, reading, writing, returned, Relay, is_over}
use aegis_proxy.Session.State.{
  Point, created, connecting, replaying, relaying, answering, draining, finished, State, Event,
  started, connected, replayed, client_read, backend_wrote, backend_read, client_wrote,
  status_written, drained,
}
use aegis_proxy.Session.World.{World}

abbrev pub is_reading : Leg → Bool
is_reading reading = true
is_reading writing = false
is_reading returned = false

abbrev pub is_writing : Leg → Bool
is_writing reading = false
is_writing writing = true
is_writing returned = false

-- Whether an operation of a relay ends the relay: a read or a write under way reports an error.
unfoldable pub leg_ends : Relay → Event → Bool
leg_ends r (client_read none) = is_reading r.up
leg_ends r (backend_wrote false) = is_writing r.up
leg_ends r (backend_read none) = is_reading r.down
leg_ends r (client_wrote false) = is_writing r.down
leg_ends r _ = false

-- Whether a point waits for this event, and the event is not one more chunk that moved.
unfoldable pub ends : Point → Event → Bool
unfolding leg_ends
ends created started = true
ends (connecting b) (connected answer) = true
ends (replaying b socket) (replayed fine) = true
ends (relaying b socket r) event = leg_ends r event
ends answering (status_written fine) = true
ends draining (drained more) = not more
ends _ _ = false

abbrev pub still : Leg → ℕ
still reading = 1
still writing = 1
still returned = 0

-- `left` rounds of the loop are left, and one less once this attempt has failed.
abbrev pub rank_at : ℕ → ℕ → Point → ℕ
rank_at left behind created = 4 * left + 3
rank_at left behind (connecting b) = 4 * behind + 6
rank_at left behind (replaying b socket) = 4 * behind + 5
rank_at left behind (relaying b socket r) = 4 * behind + 2 + still r.up + still r.down
rank_at left behind answering = 2
rank_at left behind draining = 1
rank_at left behind finished = 0

abbrev pub rank : State → ℕ
rank s = rank_at (s.max_attempts - s.attempts) (s.max_attempts - (s.attempts + 1)) s.point

-- A session whose relays have both returned is not suspended.
abbrev pub Awake : Point → Type 0
Awake (relaying b socket r) = is_over r ≡ false
Awake _ = Unit {0}

abbrev pub Within : ℕ → World × State → Type 0
Within k r = (rank r.1 ≤ k) × Awake r.1.point

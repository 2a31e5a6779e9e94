-- ===== src/Session/Reach.antt =====
-- Every state that handle_client in session.cpp reaches, whatever its sockets do and whatever other
-- coroutines do to the shared objects while it waits.
use aegis_proxy.Common.{ℕ, ◌≤◌, ◌≡◌, ◌⊎◌, inl, inr, Bool, true, false, List, [], arith, length}
use aegis_proxy.Text.{Bytes}
use aegis_proxy.Run.{ok, Ensures-ok}
use aegis_proxy.Ring.{contains}
use aegis_proxy.Session.World.{World, Env}
use aegis_proxy.Session.State.{
  Point, created, connecting, replaying, relaying, answering, draining, finished, Output, State,
  new, Event,
}
use aegis_proxy.Session.Resume.{resume}
use aegis_proxy.Session.Invariant.{IsFresh, Tried, Offered, OneSource, At, Inv}
use aegis_proxy.Session.Invariant.Rounds.{Keeps}
use aegis_proxy.Session.Invariant.Steps.{resume-Inv}

-- Between two resumptions the shared objects may become any others.
pub data Reach (key id : Bytes) (limit : ℕ) : State → Type 0 where
  here : Reach key id limit (new key id limit)
  next :
      {s t : State} (event : Event) (env : Env) (w v : World)
      → Reach key id limit s
      → resume event env w s ≡ ok (v, t)
      → Reach key id limit t

module _ (key id : Bytes) (limit : ℕ) where
  new-Inv : Inv (new key id limit)
  unfolding new
  new-Inv = ground arith

  pub Reach-Inv : {s : State} → Reach key id limit s → Inv s
  Reach-Inv here = new-Inv
  Reach-Inv (next {s} {t} event env w v r e) =
      Ensures-ok Keeps (resume event env w s) (resume-Inv event env w s (Reach-Inv r)) e

At-Tried : (p : Point) (s : State) → At p s → Tried s
At-Tried created s a = a.tried
At-Tried (connecting b) s a = a.head.tried
At-Tried (replaying b socket) s a = a.0.head.tried
At-Tried (relaying b socket r) s a = a.tried
At-Tried answering s a = a.0
At-Tried draining s a = a.0
At-Tried finished s a = a.0

-- The backend of the attempt that is under way, if there is one, is not excluded.
abbrev pub IsUntried : Point → List ℕ → Type 0
IsUntried (connecting b) excluded = contains excluded b ≡ false
IsUntried (replaying b socket) excluded = contains excluded b ≡ false
IsUntried (relaying b socket r) excluded = contains excluded b ≡ false
IsUntried _ excluded = Unit {0}

At-IsUntried : (p : Point) (s : State) → At p s → IsUntried p s.excluded
At-IsUntried (connecting b) s a = a.free
At-IsUntried (replaying b socket) s a = a.0.free
At-IsUntried (relaying b socket r) s a = a.free
At-IsUntried _ s a = tt

-- Whether a backend is being handed the client's bytes.
abbrev pub is_forwarding : Point → Bool
is_forwarding (replaying b socket) = true
is_forwarding (relaying b socket r) = true
is_forwarding _ = false

At-faithful : (p : Point) (s : State) → At p s → is_forwarding p ≡ true → s.forwarded ≡ s.consumed
At-faithful (replaying c socket) s a e = a.1
At-faithful (relaying c socket r) s a e = a.faithful
At-faithful _ s a e = cc

Offered-OneSource :
    (started : Bool) (b : ℕ) (sent : List Output)
    → Offered started b sent
    → (sent ≡ []) ⊎ OneSource sent
Offered-OneSource false b sent o = inl o
Offered-OneSource true b sent o = inr (inr (b, o))

At-OneSource : (p : Point) (s : State) → At p s → (s.sent ≡ []) ⊎ OneSource s.sent
At-OneSource created s a = inl a.quiet
At-OneSource (connecting b) s a = inl a.head.quiet
At-OneSource (replaying b socket) s a = inl a.0.head.quiet
At-OneSource (relaying b socket r) s a = Offered-OneSource r.response_started b s.sent a.output
At-OneSource answering s a = inr (inl a.1)
At-OneSource draining s a = inr (inl a.1)
At-OneSource finished s a = inr a.1

module _ (key id : Bytes) (limit : ℕ) (s : State) (reached : Reach key id limit s) where
  -- What the client was handed so far is nothing, or the one 503 response, or bytes of a single
  -- backend: a 503 never follows a backend's bytes, and two backends never answer one client.
  pub one_source : (s.sent ≡ []) ⊎ OneSource s.sent
  one_source = At-OneSource s.point s (Reach-Inv key id limit reached)

  -- While a backend is in use, what it was handed is all that was read from the client, in order: a
  -- retry replays the request whole, and a request that outgrew the buffer is never replayed in part.
  pub faithful_replay : is_forwarding s.point ≡ true → s.forwarded ≡ s.consumed
  faithful_replay = At-faithful s.point s (Reach-Inv key id limit reached)

  -- At every suspension and at the end of a session, the attempts are counted by the excluded
  -- backends, all different and at most `max_attempts`, and the backend in use, if there is one, is
  -- none of them: no backend is tried twice for one client.
  pub no_second_try :
      IsFresh s.excluded
      × (length s.excluded ≡ s.attempts)
      × (s.attempts ≤ s.max_attempts)
      × IsUntried s.point s.excluded
  no_second_try =
      let inv = Reach-Inv key id limit reached in
      let t = At-Tried s.point s inv in (t.fresh, t.counted, t.room, At-IsUntried s.point s inv)

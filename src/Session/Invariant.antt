-- ===== src/Session/Invariant.antt =====
-- What handle_client in session.cpp keeps true between suspensions: what it has tried, what it has
-- captured of the request, and what it has handed to the client.
pub mod Rounds
pub mod Steps
use aegis_proxy.Common.{
  ℕ, suc, ◌+◌, ◌≤◌, ◌<◌, ◌≡◌, refl, ◌⊎◌, Bool, true, false, List, [], ◌∷◌, All, length,
}
use aegis_proxy.Ring.{contains}
use aegis_proxy.Session.Relay.{Relay}
use aegis_proxy.Session.Status.{unavailable}
use aegis_proxy.Session.State.{
  Point, created, connecting, replaying, relaying, answering, draining, finished, Output,
  from_backend, status, State,
}

-- No backend stands twice in the list.
abbrev pub IsFresh : List ℕ → Type 0
IsFresh [] = Unit {0}
IsFresh (b ∷ bs) = (contains bs b ≡ false) × IsFresh bs

-- Each attempt so far excluded one backend, all of them different.
pub record Tried (s : State) : Type 0 where
  pub fresh : IsFresh s.excluded
  pub counted : length s.excluded ≡ s.attempts
  pub room : s.attempts ≤ s.max_attempts

-- Where the loop begins a round.
pub record Head (s : State) : Type 0 where
  pub tried : Tried s
  pub quiet : s.sent ≡ []
  pub whole : s.req_buf.capped ≡ false
  pub captured : s.req_buf.contents ≡ s.consumed

-- While an attempt with `b` is under way.
pub record Trying (b : ℕ) (s : State) : Type 0 where
  pub head : Head s
  pub free : contains s.excluded b ≡ false
  pub below : s.attempts < s.max_attempts

abbrev pub IsFrom : ℕ → Output → Type 0
IsFrom b (from_backend c chunk) = b ≡ c
IsFrom b (status text) = ⊥

-- What the client may have been handed by `b`, before and after its response began.
abbrev pub Offered : Bool → ℕ → List Output → Type 0
Offered false b sent = sent ≡ []
Offered true b sent = All (IsFrom b) sent

abbrev pub Captured : Bool → State → Type 0
Captured true s = Unit {0}
Captured false s = s.req_buf.contents ≡ s.consumed

pub record Live (b : ℕ) (r : Relay) (s : State) : Type 0 where
  pub tried : Tried s
  pub free : contains s.excluded b ≡ false
  pub below : s.attempts < s.max_attempts
  pub faithful : s.forwarded ≡ s.consumed
  pub captured : Captured s.req_buf.capped s
  pub output : Offered r.response_started b s.sent

-- The client gets the one status, or bytes of one backend.
abbrev pub OneSource : List Output → Type 0
OneSource sent = (sent ≡ status unavailable ∷ []) ⊎ ((b : ℕ) × All (IsFrom b) sent)

abbrev pub At : Point → State → Type 0
At created s = Head s
At (connecting b) s = Trying b s
At (replaying b socket) s = Trying b s × (s.forwarded ≡ s.consumed)
At (relaying b socket r) s = Live b r s
At answering s = Tried s × (s.sent ≡ status unavailable ∷ [])
At draining s = Tried s × (s.sent ≡ status unavailable ∷ [])
At finished s = Tried s × OneSource s.sent

abbrev pub Inv : State → Type 0
Inv s = At s.point s

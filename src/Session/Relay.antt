-- ===== src/Session/Relay.antt =====
-- The two relays of session.cpp that run side by side under `||`. The first to return cancels the
-- other, and the wait is over when both have returned; what a cancelled read or write still delivers
-- is left open, so that it may also succeed.
use aegis_proxy.Common.{Bool, true, false, Option, none, some, ◌&&◌}

-- Where one relay stands.
pub data Leg : Type 0 where
  reading writing returned : Leg

pub record Relay : Type 0 where
  pub up : Leg
  pub down : Leg
  pub response_started : Bool

abbrev pub begin : Relay
begin = record { up = reading; down = reading; response_started = false }

-- The end of a read: with an error the relay returns, else it goes on to write.
abbrev pub after_read {ℓ} : {A : Type ℓ} → Option A → Leg
after_read none = returned
after_read (some chunk) = writing

-- The end of a write: with an error the relay returns, else it reads again.
abbrev pub after_write : Bool → Leg
after_write true = reading
after_write false = returned

abbrev pub is_returned : Leg → Bool
is_returned returned = true
is_returned reading = false
is_returned writing = false

abbrev pub is_over : Relay → Bool
is_over r = is_returned r.up && is_returned r.down

-- ===== src/Session/Legs.antt =====
-- The two places of relay in session.cpp where a leg is resumed: behind its read, and behind its write.
use aegis_proxy.Run.{Ensures}
use aegis_proxy.Session.World.{World}
use aegis_proxy.Session.Relay.{Leg, reading, writing, returned}
use aegis_proxy.Session.State.{State}
use aegis_proxy.Session.Handle.{Result}

module _ (P : World × State → Type 0) where
  pub on_reading :
      (leg : Leg) (m k : Result)
      → Ensures P m
      → Ensures P k
      → Ensures P (elim leg [ reading ↦ m | writing ↦ k | returned ↦ k ])
  on_reading reading m k p q = p
  on_reading writing m k p q = q
  on_reading returned m k p q = q

  pub on_writing :
      (leg : Leg) (m k : Result)
      → Ensures P m
      → Ensures P k
      → Ensures P (elim leg [ writing ↦ m | reading ↦ k | returned ↦ k ])
  on_writing reading m k p q = q
  on_writing writing m k p q = p
  on_writing returned m k p q = q

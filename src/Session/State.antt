-- ===== src/Session/State.antt =====
-- The local variables of handle_client in session.cpp, the point where it is suspended, and what may
-- resume it.
use aegis_proxy.Common.{ℕ, Bool, List, [], Option}
use aegis_proxy.Text.{Bytes}
use aegis_proxy.Pool.{Socket}
use aegis_proxy.Session.Buffer.{RequestBuffer, empty_buffer}
use aegis_proxy.Session.Relay.{Relay}

-- The `co_await` at which the coroutine stands, with the backend and the socket in use.
pub data Point : Type 0 where
  created : Point
  connecting : ℕ → Point
  replaying : ℕ → Socket → Point
  relaying : ℕ → Socket → Relay → Point
  answering draining finished : Point

-- Bytes that are handed to the client's socket: a backend's, or the text of a status.
pub data Output : Type 0 where
  from_backend : ℕ → Bytes → Output
  status : Bytes → Output

-- The last three fields record the traffic and are read by no code: all that was read from the client,
-- what was handed to the backend in use, and what was handed to the client, newest first.
pub record State : Type 0 where
  pub client_key : Bytes
  pub correlation_id : Bytes
  pub max_attempts : ℕ
  pub excluded : List ℕ
  pub req_buf : RequestBuffer
  pub attempts : ℕ
  pub point : Point
  pub consumed : Bytes
  pub forwarded : Bytes
  pub sent : List Output

unfoldable pub new : Bytes → Bytes → ℕ → State
new client_key correlation_id max_attempts = record {
  client_key = client_key;
  correlation_id = correlation_id;
  max_attempts = max_attempts;
  excluded = [];
  req_buf = empty_buffer;
  attempts = 0;
  point = Point.created;
  consumed = [];
  forwarded = [];
  sent = [];
}

-- What an asynchronous operation of the session ends with; a `Bool` tells whether there was no error,
-- and after the status whether the client sent more.
pub data Event : Type 0 where
  started : Event
  connected : Option Socket → Event
  replayed : Bool → Event
  client_read : Option Bytes → Event
  backend_wrote : Bool → Event
  backend_read : Option Bytes → Event
  client_wrote : Bool → Event
  status_written : Bool → Event
  drained : Bool → Event

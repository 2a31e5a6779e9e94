-- ===== src/Main.antt =====
-- main in main.cpp up to io_context.run: the command line, the environment, and how the process comes
-- up or does not. What the system answers when a port is opened is an argument, as are `std::stod` and
-- the numbers of type `double`.
pub mod Ports
pub mod Outcomes
pub mod Start
use aegis_proxy.Common.{
  ℕ, zero, suc, ◌+◌, ◌-◌, ◌%◌, ◌^◌, Bool, true, false, ◌||◌, ◌&&◌, List, [], ◌∷◌, Option, none,
  some, ltb, leb, ◌==◌, if◌then◌else◌,
}
use aegis_proxy.Common.Int.{ℤ, pos, negsuc}
use aegis_proxy.Text.{Bytes, bytes}
use aegis_proxy.Text.Decimal.{leading, value}
use aegis_proxy.Pool.{BackendConfig}
use aegis_proxy.RateLimiter
use aegis_proxy.RateLimiter.{RateLimiter}
use aegis_proxy.Session.World.{World}
use aegis_proxy.Server.{boot}

-- `isspace`.
abbrev is_space : ℕ → Bool
is_space c = c == 32 || (leb 9 c && leb c 13)

unfoldable skip_spaces : Bytes → Bytes
skip_spaces [] = []
skip_spaces (c ∷ cs) = if is_space c then skip_spaces cs else c ∷ cs

abbrev negate : ℕ → ℤ
negate zero = pos 0
negate (suc n) = negsuc n

-- Digits as an `int`; none where there are none, or where the number is out of range.
unfoldable positive : Bytes → Option ℤ
positive [] = none
positive (d ∷ ds) = if ltb (value (d ∷ ds)) (2 ^ 31) then some (pos (value (d ∷ ds))) else none

unfoldable negative : Bytes → Option ℤ
negative [] = none
negative (d ∷ ds) = if leb (value (d ∷ ds)) (2 ^ 31) then some (negate (value (d ∷ ds))) else none

unfoldable signed : Bytes → Option ℤ
unfolding positive negative
signed [] = none
signed (c ∷ cs) =
    if c == 45
    then negative (leading cs)
    else if c == 43
    then positive (leading cs)
    else positive (leading (c ∷ cs))

-- `std::stoi`, none where it throws: what follows the digits is not looked at.
unfoldable pub stoi : Bytes → Option ℤ
unfolding skip_spaces signed
stoi text = signed (skip_spaces text)

abbrev pub short_word : ℕ
short_word = 2 ^ 16

-- `static_cast<unsigned short>`.
abbrev pub to_short : ℤ → ℕ
to_short (pos n) = n % short_word
to_short (negsuc n) = short_word - 1 - n % short_word

-- The port of the proxy, by the arguments of the command line.
unfoldable pub listen_port : List Bytes → Option ℕ
unfolding stoi
listen_port [] = some 8080
listen_port (argument ∷ _) = elim (stoi argument) [ none ↦ none | some z ↦ some (to_short z) ]

abbrev pub metrics_port : ℕ → ℕ
metrics_port port = (port + 1) % short_word

abbrev pub backend : Bytes → BackendConfig
backend port = record { host = bytes "127.0.0.1"; port = port; min_pool_size = 4 }

abbrev pub backends : List BackendConfig
backends = backend (bytes "9001") ∷ backend (bytes "9002") ∷ backend (bytes "9003") ∷ []

-- The command line and the two variables of the environment.
pub record Command : Type 0 where
  pub arguments : List Bytes
  pub rate_limit_rps : Option Bytes
  pub rate_limit_burst : Option Bytes

-- An exception leaves main, or main returns 1, or both ports are open and io_context.run begins.
pub data Outcome (A : Type 0) : Type 0 where
  terminated returned_1 : Outcome A
  runs : (port metrics : ℕ) (limiter : RateLimiter A) (world : World) → Outcome A

-- A variable of the environment, or the default.
abbrev pub setting : {A : Type 0} → (Bytes → Option A) → A → Option Bytes → Option A
setting stod default none = some default
setting stod default (some text) = stod text

module _ {A : Type 0} (stod : Bytes → Option A) (ten twenty : A) (opens : ℕ → Bool) where
  -- The acceptors.
  unfoldable pub open_ports : ℕ → RateLimiter A → World → Outcome A
  open_ports port limiter world =
      if opens port
      then (if opens (metrics_port port)
          then runs port (metrics_port port) limiter world
          else returned_1)
      else returned_1

  -- The `try` block.
  unfoldable pub set_up : ℕ → Command → Outcome A
  unfolding open_ports
  set_up port command = elim (setting stod ten command.rate_limit_rps) [
    | none ↦ returned_1
    | some rate ↦ elim (setting stod twenty command.rate_limit_burst) [
      | none ↦ returned_1
      | some capacity ↦ open_ports port (RateLimiter.new rate capacity 64) (boot backends)
    ]
  ]

  unfoldable pub start : Command → Outcome A
  unfolding listen_port set_up
  start command = elim (listen_port command.arguments) [
    | none ↦ terminated
    | some port ↦ set_up port command
  ]

-- ===== src/Tests/Main.antt =====
-- Command lines of main.cpp.
use aegis_proxy.Common.{
  ℕ, ◌+◌, ◌%◌, ◌^◌, ◌≡◌, refl, Bool, true, [], ◌∷◌, Option, none, some, ltb, ltb, if◌then◌else◌,
}
use aegis_proxy.Text.{Bytes, bytes, to_string}
use aegis_proxy.Text.Decimal.{leading, value}
use aegis_proxy.Run.{ok}
use aegis_proxy.RateLimiter
use aegis_proxy.Server.{boot}
use aegis_proxy.Process.{Process, run}
use aegis_proxy.Main.{listen_port, backends, Command, terminated, runs, open_ports, set_up, start}
use aegis_proxy.Main.Ports.{start-decimal}
use aegis_proxy.Main.Outcomes.{Explained, start_lem}
use aegis_proxy.Main.Start.{Listens, main-Listens}
use aegis_proxy.Tests.RateLimiter.{whole}
use aegis_proxy.Tests.Server.{answers, errors}

abbrev stod : Bytes → Option ℕ
stod text = some (value text)

abbrev free : ℕ → Bool
free port = true

abbrev command : Command
command = record {
  arguments = to_string 65535 ∷ [];
  rate_limit_rps = none;
  rate_limit_burst = none;
}

-- The last port leaves the metrics at port 0, which is any free port.
last_port : start stod 10 20 free command ≡ runs 65535 0 (RateLimiter.new 10 20 64) (boot backends)
unfolding start listen_port set_up open_ports to_string leading value
last_port = refl

-- A number that is no port is taken modulo 2^16, a sign and spaces are passed over, and a text without digits is not read.
ports_read :
    (listen_port (bytes "70000" ∷ []) ≡ some 4464)
    × (listen_port (bytes " -1x" ∷ []) ≡ some 65535)
    × (listen_port (bytes "http" ∷ []) ≡ none)
unfolding listen_port leading value
ports_read = (refl, refl, refl)

start-decimal_example : start stod 10 20 free command ≡ (
    if ltb 65535 (2 ^ 31)
    then runs (65535 % 2 ^ 16) ((65535 + 1) % 2 ^ 16) (RateLimiter.new 10 20 64) (boot backends)
    else terminated)
start-decimal_example = start-decimal stod 10 20 free 65535 [] refl refl

start_lem_example : Explained stod 10 20 free command (start stod 10 20 free command)
start_lem_example = start_lem stod 10 20 free command

main-Listens_example :
    (p : Process ℕ) × (run answers errors (RateLimiter.new 10 20 64) (boot backends) ≡ ok p)
    × Listens ⦃number = whole⦄ backends p
main-Listens_example =
    main-Listens ⦃number = whole⦄ stod 10 20 free command 65535 0 (RateLimiter.new 10 20 64)
      (boot backends) answers errors last_port

-- ===== src/Main/Outcomes.antt =====
-- How main in main.cpp ends, or begins to run.
use aegis_proxy.Common.{
  ℕ, ◌≡◌, ◌≢◌, refl, ◌⊎◌, inl, inr, Bool, true, false, Option, none, some, arith, Bool-cases,
  Option-cases,
}
use aegis_proxy.Text.{Bytes}
use aegis_proxy.RateLimiter
use aegis_proxy.RateLimiter.{RateLimiter}
use aegis_proxy.Server.{boot}
use aegis_proxy.Main.{
  listen_port, metrics_port, backends, Command, Outcome, terminated, returned_1, runs, setting,
  open_ports, set_up, start,
}

module _ {A : Type 0} (stod : Bytes → Option A) (ten twenty : A) (opens : ℕ → Bool) where
  -- What each outcome of main tells of the command line, the environment and the ports.
  abbrev pub Explained : Command → Outcome A → Type 0
  Explained command terminated = listen_port command.arguments ≡ none
  Explained command returned_1 =
      (port : ℕ) × (listen_port command.arguments ≡ some port)
      × ((setting stod ten command.rate_limit_rps ≡ none)
          ⊎ (setting stod twenty command.rate_limit_burst ≡ none)
          ⊎ (opens port ≡ false)
          ⊎ (opens (metrics_port port) ≡ false))
  Explained command (runs port metrics limiter world) =
      (listen_port command.arguments ≡ some port)
      × (opens port ≡ true)
      × (opens metrics ≡ true)
      × (port ≢ metrics)
      × (world ≡ boot backends)
      × (limiter ≡ RateLimiter.new limiter.refill_rate_per_sec limiter.capacity 64)
      × (setting stod ten command.rate_limit_rps ≡ some limiter.refill_rate_per_sec)
      × (setting stod twenty command.rate_limit_burst ≡ some limiter.capacity)

  module _ (port : ℕ) (command : Command) (reads : listen_port command.arguments ≡ some port) where
    open_ports-Explained :
        (rate capacity : A)
        → setting stod ten command.rate_limit_rps ≡ some rate
        → setting stod twenty command.rate_limit_burst ≡ some capacity
        → Explained command (
            open_ports stod ten twenty opens port
              (RateLimiter.new rate capacity 64)
              (boot backends))
    unfolding open_ports RateLimiter.new
    open_ports-Explained rate capacity e f = elim (Bool-cases (opens port)) [
      | inr shut ↦ rw (shut, open_ports) (port, reads, inr (inr (inl shut)))
      | inl listens ↦ elim (Bool-cases (opens (metrics_port port))) [
        | inr shut ↦ rw (listens, shut, open_ports) (port, reads, inr (inr (inr shut)))
        | inl also ↦
            rw (listens, also, open_ports)
              (reads, listens, also, λ same. omega arith, refl, refl, e, f)
      ]
    ]

    set_up-Explained : Explained command (set_up stod ten twenty opens port command)
    unfolding set_up
    set_up-Explained = elim (Option-cases (setting stod ten command.rate_limit_rps)) [
      | inl bad ↦ rw (bad, set_up) (port, reads, inl bad)
      | inr (rate, e) ↦ elim (Option-cases (setting stod twenty command.rate_limit_burst)) [
        | inl bad ↦ rw (e, bad, set_up) (port, reads, inr (inl bad))
        | inr (capacity, f) ↦ rw (e, f, set_up) (open_ports-Explained rate capacity e f)
      ]
    ]

  -- Whatever the command line, the environment and the ports: an exception leaves main exactly where
  -- the port is not read, main returns 1 where a variable is not read or a port is not opened, and
  -- else it runs, with both ports open, which are different ones, and the objects of `boot`.
  pub start_lem : (command : Command) → Explained command (start stod ten twenty opens command)
  unfolding start
  start_lem command = elim (Option-cases (listen_port command.arguments)) [
    | inl unread ↦ rw (unread, start) unread
    | inr (port, reads) ↦ rw (reads, start) (set_up-Explained port command reads)
  ]

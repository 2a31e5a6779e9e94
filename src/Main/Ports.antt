-- ===== src/Main/Ports.antt =====
-- The argument of main.cpp's command line that names the port, and the port of the metrics.
use aegis_proxy.Common.{
  ℕ, ◌+◌, ◌%◌, ◌^◌, ◌≡◌, refl, ap, sym, ◌∙◌, inl, inr, Bool, true, false, ◌&&◌, ◌||◌, List, ◌∷◌,
  Option, none, some, arith, All, ltb, leb, ◌==◌, if◌then◌else◌, Bool-cases,
}
use aegis_proxy.Common.Int.{ℤ, pos}
use aegis_proxy.Text.{Bytes, to_string}
use aegis_proxy.Text.Decimal.{
  IsDigit, to_string-digits, value, value-to_string, leading, leading-digits, to_string-cons,
}
use aegis_proxy.RateLimiter
use aegis_proxy.RateLimiter.{RateLimiter}
use aegis_proxy.Server.{boot}
use aegis_proxy.Main.{
  skip_spaces, positive, signed, stoi, listen_port, backends, Command, terminated, runs, open_ports,
  set_up, start,
}

to_int : ℕ → Option ℤ
to_int n = if ltb n (2 ^ 31) then some (pos n) else none

-- A text that begins with a digit has no spaces and no sign to pass over.
stoi-digit : (c : ℕ) (cs : Bytes) → IsDigit c → stoi (c ∷ cs) ≡ positive (leading (c ∷ cs))
unfolding stoi skip_spaces signed
stoi-digit c cs d =
    let no_space : c == 32 || (leb 9 c && leb c 13) ≡ false = ground arith in
    let no_minus : c == 45 ≡ false = ground arith in
    let no_plus : c == 43 ≡ false = ground arith in rw (no_space, no_minus, no_plus) refl

stoi-digits : (c : ℕ) (cs : Bytes) → All IsDigit (c ∷ cs) → stoi (c ∷ cs) ≡ to_int (value (c ∷ cs))
unfolding positive to_int
stoi-digits c cs a = rw (stoi-digit c cs a.0, leading-digits (c ∷ cs) a) refl

stoi-to_string : (n : ℕ) → stoi (to_string n) ≡ to_int n
stoi-to_string n =
    let (c, cs, e) = to_string-cons n in
    let digits : All IsDigit (c ∷ cs) = rw e at (to_string-digits n) in
    rw e (stoi-digits c cs digits) ∙ ap to_int (ap value (sym e) ∙ value-to_string n)

listen_port-to_string :
    (n : ℕ) (rest : List Bytes)
    → listen_port (to_string n ∷ rest) ≡ (if ltb n (2 ^ 31) then some (n % 2 ^ 16) else none)
unfolding to_int listen_port
listen_port-to_string n rest =
    let e = stoi-to_string n in
    elim (Bool-cases (ltb n (2 ^ 31))) [
      | inl fits ↦ rw (e, listen_port, fits) refl
      | inr large ↦ rw (e, listen_port, large) refl
    ]

module _ {A : Type 0} (stod : Bytes → Option A) (ten twenty : A) (opens : ℕ → Bool) where
  -- How a decimal number on the command line, the two ports that it stands for being free and no variable set, brings the
  -- process up: the number itself is the port below 2^16, the metrics are on the next port, and both
  -- are taken modulo 2^16, so that no range is checked but that of `int`, past which main terminates.
  pub start-decimal :
      (n : ℕ) (rest : List Bytes)
      → opens (n % 2 ^ 16) ≡ true
      → opens ((n + 1) % 2 ^ 16) ≡ true
      → let command : Command = record {
        arguments = to_string n ∷ rest;
        rate_limit_rps = none;
        rate_limit_burst = none;
      } in
        start stod ten twenty opens command ≡ (
          if ltb n (2 ^ 31)
          then runs (n % 2 ^ 16) ((n + 1) % 2 ^ 16) (RateLimiter.new ten twenty 64) (boot backends)
          else terminated)
  unfolding start set_up open_ports
  start-decimal n rest free free_next = elim (Bool-cases (ltb n (2 ^ 31))) [
    | inl fits ↦
        let next : (n % 2 ^ 16 + 1) % 2 ^ 16 ≡ (n + 1) % 2 ^ 16 = omega arith in
        rw (listen_port-to_string n rest, start, fits, free, next, free_next) refl
    | inr large ↦ rw (listen_port-to_string n rest, start, large) refl
  ]

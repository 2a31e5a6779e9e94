-- ===== src/Process/Refines.antt =====
-- The process of main.cpp, whose server is one of the servers of Server.
use aegis_proxy.Common.{ℕ, ◌≡◌, List, Option}
use aegis_proxy.Text.{Bytes}
use aegis_proxy.Run.{ok, Ensures, Ensures-bind, Ensures-ok}
use aegis_proxy.Pool.{BackendConfig, Socket, warm_up}
use aegis_proxy.RateLimiter.{Arithmetic, RateLimiter}
use aegis_proxy.Server.{boot, Reachable, warmed, accepts, reaps, resumes}
use aegis_proxy.Process.{
  Process, run, listen, listen_throws, metrics_listen, metrics_listen_throws, Step, arrives,
  accept_throws, scraped, scrape_throws, timer, session, rejection, scrape, Later, at_once, after,
}

module _ {A : Type 0} ⦃number : Arithmetic A⦄ (backends : List BackendConfig) where
  run-Reachable :
      (answers : ℕ → ℕ → Option Socket) (errors : ℕ → ℕ → Bytes) (limiter : RateLimiter A)
      → Ensures (λ p. Reachable backends p.server) (run answers errors limiter (boot backends))
  unfolding run
  run-Reachable answers errors limiter =
      Ensures-bind _ (warm_up answers errors (boot backends).pool) _
        (λ p e. warmed limiter answers errors p.0 p.1 e)

  Step-Reachable :
      (p q : Process A) → Reachable backends p.server → Step p q → Reachable backends q.server
  unfolding listen listen_throws metrics_listen metrics_listen_throws
  Step-Reachable p q r (arrives remote now_ms now on) = accepts remote now_ms now p.server r
  Step-Reachable p q r (accept_throws on) = r
  Step-Reachable p q r (scraped on) = r
  Step-Reachable p q r (scrape_throws on) = r
  Step-Reachable p q r (timer now) = reaps now p.server r
  Step-Reachable p q r (session i event env s t w at_i e) =
      resumes i event env p.server s t w r at_i e
  Step-Reachable p q r (rejection i e f at_i) = r
  Step-Reachable p q r (scrape i e f at_i) = r

  pub Later-Reachable :
      (p q : Process A) → Reachable backends p.server → Later p q → Reachable backends q.server
  Later-Reachable p q r at_once = r
  Later-Reachable p q r (after {q = m} l step) = Step-Reachable m q (Later-Reachable p m r l) step

  -- Whatever the process does once its pool is warmed, in any order, keeps its server among the
  -- servers of Server.
  pub run-Later-Reachable :
      (answers : ℕ → ℕ → Option Socket) (errors : ℕ → ℕ → Bytes) (limiter : RateLimiter A)
      (p q : Process A)
      → run answers errors limiter (boot backends) ≡ ok p
      → Later p q
      → Reachable backends q.server
  run-Later-Reachable answers errors limiter p q e l =
      Later-Reachable p q
        (Ensures-ok (λ p. Reachable backends p.server) (run answers errors limiter (boot backends))
          (run-Reachable answers errors limiter) e)
        l

-- ===== src/Process/Listener.antt =====
-- listen in main.cpp once an exception has left it: nothing catches it.
use aegis_proxy.Common.{◌≡◌, refl, ◌∙◌, false, length, length-set}
use aegis_proxy.RateLimiter.{Arithmetic}
use aegis_proxy.Server.{reap}
use aegis_proxy.Process.{
  Process, listen_throws, metrics_listen, metrics_listen_throws, Step, arrives, accept_throws,
  scraped, scrape_throws, timer, session, rejection, scrape, Later, at_once, after,
}

-- A process that does not listen, and what it once had counted of connections.
abbrev pub Deaf : {A : Type 0} → Process A → Process A → Type 0
Deaf p q =
    (q.listening ≡ false)
    × (q.server.counter ≡ p.server.counter)
    × (length q.server.sessions ≡ length p.server.sessions)
    × (length q.rejections ≡ length p.rejections)

module _ {A : Type 0} ⦃number : Arithmetic A⦄ where
  Step-Deaf : (p q r : Process A) → Deaf p q → Step q r → Deaf p r
  unfolding listen_throws metrics_listen metrics_listen_throws reap
  Step-Deaf p q r d (arrives remote now_ms now on) = let off = d.0 in cc
  Step-Deaf p q r d (accept_throws on) = let off = d.0 in cc
  Step-Deaf p q r d (scraped on) = d
  Step-Deaf p q r d (scrape_throws on) = d
  Step-Deaf p q r d (timer now) = d
  Step-Deaf p q r d (session i event env s t w at_i e) =
      (d.0, d.1, length-set q.server.sessions i t ∙ d.2, d.3)
  Step-Deaf p q r d (rejection i e f at_i) = (d.0, d.1, d.2, length-set q.rejections i _ ∙ d.3)
  Step-Deaf p q r d (scrape i e f at_i) = d

  -- Once an exception of async_accept or set_option has left listen, no connection gets an id, a
  -- session or a 429 response any more, whatever else the process does.
  pub never_listens_again : (p q : Process A) → Later (listen_throws p) q → Deaf p q
  unfolding listen_throws
  never_listens_again p q at_once = (refl, refl, refl, refl)
  never_listens_again p q (after {q = m} l step) = Step-Deaf p m q (never_listens_again p m l) step

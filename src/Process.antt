-- ===== src/Process.antt =====
-- main.cpp: the coroutines that run spawns beside the sessions, until signals stop the process. asio
-- spawns them detached, so that an exception ends the coroutine that it escapes from and nothing else.
pub mod Refines
pub mod Listener
pub mod Rejections
pub mod Scrapes
use aegis_proxy.Common.{
  ℕ, ◌≡◌, Bool, true, false, List, [], ◌∷◌, ◌++◌, Option, none, some, length, get_elem?, set,
}
use aegis_proxy.Text.{Bytes, bytes, to_string}
use aegis_proxy.Run.{Run, ok, ◌>>=◌}
use aegis_proxy.Pool.{Socket, warm_up}
use aegis_proxy.Metrics.{MetricsRegistry}
use aegis_proxy.Metrics.Render.{render_prometheus}
use aegis_proxy.RateLimiter.{Arithmetic, RateLimiter}
use aegis_proxy.Session.World.{World, Env}
use aegis_proxy.Session.Status.{response_text}
use aegis_proxy.Session.State.{State, Event}
use aegis_proxy.Session.Resume.{resume}
use aegis_proxy.Server.{Server, too_many_requests, accept, reap}

-- How a coroutine stands that answers and then drains its socket.
pub data Phase : Type 0 where
  writing draining closed : Phase

pub record Farewell : Type 0 where
  pub response : Bytes
  pub phase : Phase

-- The end of a write, well or not, and of a read: whether it brought bytes.
pub data Ended : Type 0 where
  written : Ended
  was_read : Bool → Ended

abbrev pub after_phase : Ended → Phase → Phase
after_phase written writing = draining
after_phase (was_read false) draining = closed
after_phase (was_read true) draining = draining
after_phase _ phase = phase

unfoldable pub hear : Ended → Farewell → Farewell
hear e f = record f { phase = after_phase e f.phase }

-- send_429 up to its first suspension; `hear` is the rest of it.
abbrev pub send_429 : Bytes → Farewell
send_429 response = record { response = response; phase = writing }

-- serve_metrics waits for the request, whose text it does not look at, and then answers.
pub data Scrape : Type 0 where
  waiting : Scrape
  replying : Farewell → Scrape

unfoldable pub metrics_text : MetricsRegistry → Bytes
metrics_text m =
    response_text 200 (bytes "OK") (bytes "text/plain; version=0.0.4") (render_prometheus m)

unfoldable pub serve_metrics : Ended → MetricsRegistry → Scrape → Scrape
unfolding hear metrics_text
serve_metrics (was_read more) m waiting =
    replying (record { response = metrics_text m; phase = writing })
serve_metrics written m waiting = waiting
serve_metrics e m (replying f) = replying (hear e f)

-- Whether listen and metrics_listen still run, and the coroutines of send_429 and serve_metrics,
-- newest first.
pub record Process (A : Type 0) : Type 0 where
  pub server : Server A
  pub listening : Bool
  pub scraping : Bool
  pub rejections : List Farewell
  pub scrapes : List Scrape

-- run: the pool is warmed, then the loops start.
unfoldable pub run :
    {A : Type 0}
    → (ℕ → ℕ → Option Socket)
    → (ℕ → ℕ → Bytes)
    → RateLimiter A
    → World
    → Run (Process A)
run answers errors limiter world = do
  (p, lines) ← warm_up answers errors world.pool
  ok (record {
    server = record {
      limiter = limiter;
      counter = 0;
      world = record world { pool = p };
      sessions = [];
      warnings = lines;
    };
    listening = true;
    scraping = true;
    rejections = [];
    scrapes = [];
  })

abbrev pub spawn_429 : Option Bytes → List Farewell → List Farewell
spawn_429 none rejections = rejections
spawn_429 (some response) rejections = send_429 response ∷ rejections

module _ {A : Type 0} where
  -- An exception of async_accept or set_option leaves listen, and run behind it.
  unfoldable pub listen_throws : Process A → Process A
  listen_throws p = record p { listening = false }

  -- A round of metrics_listen.
  unfoldable pub metrics_listen : Process A → Process A
  metrics_listen p = record p { scrapes = waiting ∷ p.scrapes }

  unfoldable pub metrics_listen_throws : Process A → Process A
  metrics_listen_throws p = record p { scraping = false }

module _ {A : Type 0} ⦃number : Arithmetic A⦄ where
  -- A round of listen.
  unfoldable pub listen : Option Bytes → ℕ → ℕ → Process A → Process A
  unfolding accept
  listen remote now_ms now p =
      let (server, reply) = accept remote now_ms now p.server in
      record p { server = server; rejections = spawn_429 reply p.rejections }

  -- What happens next: the io_context resumes one coroutine whose operation has ended.
  pub data Step (p : Process A) : Process A → Type 0 where
    arrives :
        (remote : Option Bytes) (now_ms now : ℕ)
        → p.listening ≡ true
        → Step p (listen remote now_ms now p)
    accept_throws : p.listening ≡ true → Step p (listen_throws p)
    scraped : p.scraping ≡ true → Step p (metrics_listen p)
    scrape_throws : p.scraping ≡ true → Step p (metrics_listen_throws p)
    timer : (now : ℕ) → Step p (record p { server = reap now p.server })
    session :
        (i : ℕ) (event : Event) (env : Env) (s t : State) (w : World)
        → get_elem? p.server.sessions i ≡ some s
        → resume event env p.server.world s ≡ ok (w, t)
        → Step p (record p {
          server = record p.server { world = w; sessions = set p.server.sessions i t };
        })
    rejection :
        (i : ℕ) (e : Ended) (f : Farewell)
        → get_elem? p.rejections i ≡ some f
        → Step p (record p { rejections = set p.rejections i (hear e f) })
    scrape :
        (i : ℕ) (e : Ended) (f : Scrape)
        → get_elem? p.scrapes i ≡ some f
        → Step p (record p { scrapes = set p.scrapes i (serve_metrics e p.server.world.metrics f) })

  -- Everything that a process may become.
  pub data Later (p : Process A) : Process A → Type 0 where
    at_once : Later p p
    after : {q r : Process A} → Later p q → Step q r → Later p r

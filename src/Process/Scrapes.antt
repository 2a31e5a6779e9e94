-- ===== src/Process/Scrapes.antt =====
-- serve_metrics in main.cpp: what a connection to the metrics port is answered.
use aegis_proxy.Common.{◌≡◌, [], some, arith, All, All-set, All-map, All-get_elem?, length}
use aegis_proxy.Text.{Bytes, bytes}
use aegis_proxy.Metrics.{MetricsRegistry}
use aegis_proxy.Metrics.Render.{render_prometheus}
use aegis_proxy.RateLimiter.{Arithmetic}
use aegis_proxy.Session.Framing.{body_of, declared_length, response_read_back}
use aegis_proxy.Process.{
  Ended, written, was_read, hear, Scrape, waiting, replying, metrics_text, serve_metrics, Process,
  Step, listen, listen_throws, metrics_listen, metrics_listen_throws, arrives, accept_throws,
  scraped, scrape_throws, timer, session, rejection, scrape, Later, at_once, after,
}

metrics_read_back :
    (m : MetricsRegistry)
    → (body_of (metrics_text m) ≡ some (render_prometheus m))
      × (declared_length (metrics_text m) ≡ some (length (render_prometheus m)))
unfolding metrics_text
metrics_read_back m =
    response_read_back 200 (bytes "OK") (bytes "text/plain; version=0.0.4") (render_prometheus m)
      (ground arith) (ground arith)

module _ {A : Type 0} ⦃number : Arithmetic A⦄ (p : Process A) where
  -- The page of a moment that lies between `p` and `q` in what the process does, framed so that a
  -- client reads it whole.
  abbrev pub Snapshot : Process A → Bytes → Type 0
  Snapshot q response =
      (m : Process A) × Later p m
      × Later m q
      × (body_of response ≡ some (render_prometheus m.server.world.metrics))
      × (declared_length response ≡ some (length (render_prometheus m.server.world.metrics)))

  abbrev pub Answered : Process A → Scrape → Type 0
  Answered q waiting = Unit {0}
  Answered q (replying f) = Snapshot q f.response

  Answered-later : (q r : Process A) → Step q r → (f : Scrape) → Answered q f → Answered r f
  Answered-later q r step waiting a = tt
  Answered-later q r step (replying f) (m, before, since, body, size) =
      (m, before, after since step, body, size)

  serve_metrics-Answered :
      (m : Process A) (e : Ended) (f : Scrape)
      → Later p m
      → Answered m f
      → Answered m (serve_metrics e m.server.world.metrics f)
  unfolding serve_metrics hear
  serve_metrics-Answered m (was_read more) waiting l a =
      let (body, size) = metrics_read_back m.server.world.metrics in (m, l, at_once, body, size)
  serve_metrics-Answered m written waiting l a = a
  serve_metrics-Answered m (was_read more) (replying f) l a = a
  serve_metrics-Answered m written (replying f) l a = a

  -- What a step leaves of the connections to the metrics port, as they stood before it.
  Step-scrapes :
      (q r : Process A)
      → Later p q
      → Step q r
      → All (Answered q) q.scrapes
      → All (Answered q) r.scrapes
  unfolding listen listen_throws metrics_listen metrics_listen_throws
  Step-scrapes q r l (arrives remote now_ms now on) a = a
  Step-scrapes q r l (accept_throws on) a = a
  Step-scrapes q r l (scraped on) a = (tt, a)
  Step-scrapes q r l (scrape_throws on) a = a
  Step-scrapes q r l (timer now) a = a
  Step-scrapes q r l (session i event env s t w at_i e) a = a
  Step-scrapes q r l (rejection i e f at_i) a = a
  Step-scrapes q r l (scrape i e f at_i) a =
      All-set (Answered q) i (serve_metrics e q.server.world.metrics f) q.scrapes
        (serve_metrics-Answered q e f l (All-get_elem? (Answered q) i f q.scrapes at_i a)) a

  Later-Answered :
      (q : Process A) → All (Answered p) p.scrapes → Later p q → All (Answered q) q.scrapes
  Later-Answered q a at_once = a
  Later-Answered q a (after {q = m} l step) =
      All-map (Answered m) q.scrapes (Answered-later m q step)
        (Step-scrapes m q l step (Later-Answered m a l))

module _ {A : Type 0} ⦃number : Arithmetic A⦄ where
  -- From a process without open connections to the metrics port on, each connection to it that is
  -- answered is sent the page of one moment that the process went through between then and now: a
  -- client that reads the response up to the declared size gets the text that render_prometheus gives
  -- of that moment's registry.
  pub snapshots : (p q : Process A) → p.scrapes ≡ [] → Later p q → All (Answered p q) q.scrapes
  snapshots p q e l = Later-Answered p q (rw e tt) l

-- ===== src/Tests/Process.antt =====
-- A process of main.cpp with the two backends of Tests/Server.
use aegis_proxy.Common.{ℕ, ◌%◌, ◌^◌, ◌≤◌, ◌≡◌, refl, true, [], ◌∷◌, some, arith, All, length}
use aegis_proxy.Text.{bytes}
use aegis_proxy.Hash.{hash_key}
use aegis_proxy.Run.{ok}
use aegis_proxy.Pool.{Warming, warm_up}
use aegis_proxy.Pool
use aegis_proxy.Pool.Idle.{idle, connections, warm_up_lem}
use aegis_proxy.RateLimiter
use aegis_proxy.RateLimiter.{RateLimiter, allow}
use aegis_proxy.Session.Status.{response_text}
use aegis_proxy.Session.Framing.{body_of, declared_length, response_read_back}
use aegis_proxy.Server.{boot, accept}
use aegis_proxy.Process.{
  Process, run, listen, listen_throws, metrics_listen, was_read, waiting, serve_metrics, arrives,
  scraped, scrape, Later, at_once, after,
}
use aegis_proxy.Process.Listener.{Deaf, never_listens_again}
use aegis_proxy.Process.Rejections.{AllRefused, refused_since, admitted_since, refusals_tally}
use aegis_proxy.Process.Scrapes.{Answered, snapshots}
use aegis_proxy.Tests.RateLimiter.{whole}
use aegis_proxy.Tests.Server.{backends, answers, errors, warm, is_warm, key}

-- No client has a token.
abbrev limiter : RateLimiter ℕ
limiter = RateLimiter.new 10 0 64

abbrev begun : Process ℕ
begun = record {
  server = record {
    limiter = limiter;
    counter = 0;
    world = record (boot backends) { pool = warm };
    sessions = [];
    warnings = [];
  };
  listening = true;
  scraping = true;
  rejections = [];
  scrapes = [];
}

is_begun : run answers errors limiter (boot backends) ≡ ok begun
unfolding run
is_begun = rw is_warm refl

-- A client is refused, and the metrics port is asked.
abbrev refused : Process ℕ
refused = listen ⦃number = whole⦄ (some key) 5 6 begun

abbrev asked : Process ℕ
asked = metrics_listen refused

abbrev answered : Process ℕ
answered = record asked {
  scrapes = serve_metrics (was_read true) asked.server.world.metrics waiting ∷ [];
}

three_steps : Later ⦃number = whole⦄ begun answered
unfolding listen metrics_listen accept allow RateLimiter.new RateLimiter.shard_index hash_key
three_steps =
    after (after (after at_once (arrives (some key) 5 6 refl)) (scraped refl))
      (scrape 0 (was_read true) waiting refl)

refusals_tally_example :
    (length answered.rejections ≡ refused_since ⦃number = whole⦄ begun answered three_steps)
    × AllRefused answered.rejections
    × (length answered.server.sessions ≡ admitted_since ⦃number = whole⦄ begun answered three_steps)
    × (answered.server.world.metrics.rate_limited
        ≡ refused_since ⦃number = whole⦄ begun answered three_steps % 2 ^ 64)
refusals_tally_example =
    refusals_tally ⦃number = whole⦄ backends answers errors limiter begun answered is_begun
      three_steps

snapshots_example : All (Answered ⦃number = whole⦄ begun answered) answered.scrapes
snapshots_example = snapshots ⦃number = whole⦄ begun answered refl three_steps

deaf_and_scraped :
    Later ⦃number = whole⦄ (listen_throws refused) (metrics_listen (listen_throws refused))
unfolding listen_throws listen accept allow RateLimiter.new RateLimiter.shard_index hash_key
deaf_and_scraped = after at_once (scraped refl)

never_listens_again_example : Deaf refused (metrics_listen (listen_throws refused))
never_listens_again_example =
    never_listens_again ⦃number = whole⦄ refused (metrics_listen (listen_throws refused))
      deaf_and_scraped

response_read_back_example :
    (body_of (response_text 503 (bytes "Gone") (bytes "text/plain") (bytes "a\r\n\r\nb"))
      ≡ some (bytes "a\r\n\r\nb"))
    × (declared_length (response_text 503 (bytes "Gone") (bytes "text/plain") (bytes "a\r\n\r\nb"))
        ≡ some (length (bytes "a\r\n\r\nb")))
response_read_back_example =
    response_read_back 503 (bytes "Gone") (bytes "text/plain") (bytes "a\r\n\r\nb") (ground arith)
      (ground arith)

warm_up_lem_example :
    (w : Warming) × (warm_up answers errors (Pool.new backends) ≡ ok w)
    × (w.0.backends ≡ backends)
    × (idle 0 w.0.free_sockets ≡ connections (answers 0) 1)
    × (idle 0 w.0.free_sockets ≤ 1)
warm_up_lem_example =
    warm_up_lem backends answers errors 0
      (record { host = bytes "127.0.0.1"; port = bytes "9001"; min_pool_size = 1 }) refl

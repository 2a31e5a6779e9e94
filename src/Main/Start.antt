-- ===== src/Main/Start.antt =====
-- From main in main.cpp to the process that listens.
use aegis_proxy.Common.{ℕ, ◌≡◌, refl, subst, Bool, true, List, [], Option}
use aegis_proxy.Text.{Bytes}
use aegis_proxy.Run.{ok}
use aegis_proxy.Pool.{BackendConfig, Warming, Socket, warm_up}
use aegis_proxy.Pool.Idle.{warm_up-returns}
use aegis_proxy.RateLimiter.{Arithmetic, RateLimiter}
use aegis_proxy.Session.World.{World}
use aegis_proxy.Server.{boot, Reachable, warmed}
use aegis_proxy.Process.{Process, run}
use aegis_proxy.Main.{backends, Command, runs, start}
use aegis_proxy.Main.Outcomes.{Explained, start_lem}

boot_warms :
    (configs : List BackendConfig) (answers : ℕ → ℕ → Option Socket) (errors : ℕ → ℕ → Bytes)
    → (w : Warming) × (warm_up answers errors (boot configs).pool ≡ ok w)
unfolding boot
boot_warms configs answers errors = warm_up-returns configs answers errors

module _ {A : Type 0} ⦃number : Arithmetic A⦄ where
  -- A process that listens on both ports and has no connection yet.
  pub record Listens (configs : List BackendConfig) (p : Process A) : Type 0 where
    pub listening : p.listening ≡ true
    pub scraping : p.scraping ≡ true
    pub sessions : p.server.sessions ≡ []
    pub rejections : p.rejections ≡ []
    pub scrapes : p.scrapes ≡ []
    pub reachable : Reachable configs p.server

  run-boot :
      (configs : List BackendConfig) (answers : ℕ → ℕ → Option Socket) (errors : ℕ → ℕ → Bytes)
      (limiter : RateLimiter A)
      → (p : Process A) × (run answers errors limiter (boot configs) ≡ ok p) × Listens configs p
  unfolding run
  run-boot configs answers errors limiter =
      let (w, returns) = boot_warms configs answers errors in
      let p : Process A = record {
        server = record {
          limiter = limiter;
          counter = 0;
          world = record (boot configs) { pool = w.0 };
          sessions = [];
          warnings = w.1;
        };
        listening = true;
        scraping = true;
        rejections = [];
        scrapes = [];
      } in
      (
        p,
        rw returns refl,
        record {
          listening = refl;
          scraping = refl;
          sessions = refl;
          rejections = refl;
          scrapes = refl;
          reachable = warmed limiter answers errors w.0 w.1 returns;
        },
      )

  -- Where main runs, the warm-up returns whatever the backends answer, and the process then listens.
  pub main-Listens :
      (stod : Bytes → Option A) (ten twenty : A) (opens : ℕ → Bool) (command : Command)
      (port metrics : ℕ) (limiter : RateLimiter A) (world : World) (answers : ℕ → ℕ → Option Socket)
      (errors : ℕ → ℕ → Bytes)
      → start stod ten twenty opens command ≡ runs port metrics limiter world
      → (p : Process A) × (run answers errors limiter world ≡ ok p) × Listens backends p
  main-Listens stod ten twenty opens command port metrics limiter world answers errors e =
      let why =
        subst (Explained stod ten twenty opens command) e
          (start_lem stod ten twenty opens command) in
      let made : world ≡ boot backends = why.4 in rw made (run-boot backends answers errors limiter)

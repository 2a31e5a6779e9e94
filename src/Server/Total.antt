-- ===== src/Server/Total.antt =====
-- The sizes of the objects that main.cpp builds, and the exceptions of its sessions.
use aegis_proxy.Common.{
  ℕ, zero, suc, ◌+◌, ◌≤◌, ◌≡◌, refl, sym, ◌∙◌, List, [], ◌∷◌, Option, none, some, arith, inl, inr,
  Bool-cases, get_elem?, length, All, All-set, All-get_elem?, map, length-replicate,
}
use aegis_proxy.Text.{Bytes}
use aegis_proxy.Run.{ok, update, update-length, Ensures, Ensures-ok}
use aegis_proxy.Ring
use aegis_proxy.Ring.{Entries, HashRing, put, add_vnodes, add_backend, vnode_hash}
use aegis_proxy.Ring.Below.{Below, add_backend-Below}
use aegis_proxy.Pool
use aegis_proxy.Pool.WarmUp.{warm_up-keeps_pool}
use aegis_proxy.Pool.{
  BackendConfig, ConnectionPool, Socket, connect, warm_backend, warm_backends, warm_up,
}
use aegis_proxy.Metrics
use aegis_proxy.RateLimiter.{Arithmetic, allow}
use aegis_proxy.Session.World.{World, Env, log}
use aegis_proxy.Session.State.{State, Event, new}
use aegis_proxy.Session.Resume.{resume}
use aegis_proxy.Session.Sized.{Sized, PoolSized}
use aegis_proxy.Session.Progress.{PointBelow, Good}
use aegis_proxy.Session.Progress.Steps.{resume_total}
use aegis_proxy.Server.{
  Server, add_backends, boot, accept, reject, spawn, reap, Reachable, warmed, accepts, reaps,
  resumes,
}

module _ (n : ℕ) where
  add_backends-Below :
      (i k : ℕ) (s : HashRing) → i + k ≤ n → Below n s.ring → Below n (add_backends i k s).ring
  unfolding add_backends
  add_backends-Below i zero s l a = a
  add_backends-Below i (suc k) s l a =
      add_backends-Below (i + 1) k (add_backend i s) (omega arith)
        (add_backend-Below n i s (omega arith) a)

  warm_up-PoolSized :
      (answers : ℕ → ℕ → Option Socket) (errors : ℕ → ℕ → Bytes) (p : ConnectionPool)
      → PoolSized n p
      → Ensures (λ w. PoolSized n w.0) (warm_up answers errors p)
  warm_up-PoolSized = warm_up-keeps_pool (PoolSized n) (λ b socket p lists e z. record {
    backends = z.backends;
    free =
        Ensures-ok _ (update p.free_sockets b (λ free. socket ∷ free))
          (update-length p.free_sockets b (λ free. socket ∷ free)) e
        ∙ z.free;
    active = z.active;
  })

length-map : {A B : Type 0} (f : A → B) (xs : List A) → length (map f xs) ≡ length xs
length-map f [] = refl
length-map f (x ∷ xs) = omega (arith, length-map f xs)

boot-Sized : (backends : List BackendConfig) → Sized (length backends) (boot backends)
unfolding boot Ring.new Pool.new Metrics.new
boot-Sized backends =
    let n = length backends in
    record {
      breakers = length-replicate n _;
      pool = record {
        backends = refl;
        free = length-map _ backends;
        active = length-map _ backends;
      };
      metrics = record {
        success = length-replicate n 0;
        failure = length-replicate n 0;
        breaker = length-replicate n 0;
        active = length-replicate n 0;
        idle = length-replicate n 0;
      };
      ring = add_backends-Below n 0 n (Ring.new 500) (omega arith) tt;
    }

-- Every shared object has its size, and every session names backends that exist.
record Steady {A : Type 0} (n : ℕ) (srv : Server A) : Type 0 where
  sized : Sized n srv.world
  points : All (λ s. PointBelow n s.point) srv.sessions

module _ {A : Type 0} ⦃number : Arithmetic A⦄ where
  accept-Steady :
      (n : ℕ) (remote : Option Bytes) (now_ms now : ℕ) (srv : Server A)
      → Steady n srv
      → Steady n (accept remote now_ms now srv).0
  unfolding accept reject spawn log new Metrics.record_rate_limited
  accept-Steady n none now_ms now srv h = record {
    sized = record {
      breakers = h.sized.breakers;
      pool = h.sized.pool;
      metrics = h.sized.metrics;
      ring = h.sized.ring;
    };
    points = h.points;
  }
  accept-Steady n (some key) now_ms now srv h = elim (Bool-cases (allow key now srv.limiter).1) [
    | inl allowed ↦ rw (allowed, accept) (record { sized = h.sized; points = (tt, h.points) })
    | inr refused ↦
        rw (refused, accept)
          (record {
            sized = record {
              breakers = h.sized.breakers;
              pool = h.sized.pool;
              metrics = record {
                success = h.sized.metrics.success;
                failure = h.sized.metrics.failure;
                breaker = h.sized.metrics.breaker;
                active = h.sized.metrics.active;
                idle = h.sized.metrics.idle;
              };
              ring = h.sized.ring;
            };
            points = h.points;
          })
  ]

  Reachable-Steady :
      (backends : List BackendConfig) (srv : Server A)
      → Reachable backends srv
      → Steady (length backends) srv
  unfolding boot reap
  Reachable-Steady backends srv (warmed limiter answers errors p lines e) =
      let n = length backends in
      let z = boot-Sized backends in
      record {
        sized = record {
          breakers = z.breakers;
          pool =
              Ensures-ok (λ w. PoolSized n w.0) (warm_up answers errors (boot backends).pool)
                (warm_up-PoolSized n answers errors (boot backends).pool z.pool) e;
          metrics = z.metrics;
          ring = z.ring;
        };
        points = tt;
      }
  Reachable-Steady backends srv (accepts remote now_ms now before r) =
      accept-Steady (length backends) remote now_ms now before (Reachable-Steady backends before r)
  Reachable-Steady backends srv (reaps now before r) =
      let h = Reachable-Steady backends before r in record { sized = h.sized; points = h.points }
  Reachable-Steady backends srv (resumes i event env before s t w r at_i e) =
      let n = length backends in
      let h = Reachable-Steady backends before r in
      let stay = All-get_elem? (λ s. PointBelow n s.point) i s before.sessions at_i h.points in
      let (result, e', good) = resume_total n event env before.world s h.sized stay in
      let now_good = Ensures-ok (Good n) (ok result) good (sym e' ∙ e) in
      record {
        sized = now_good.0;
        points = All-set (λ s. PointBelow n s.point) i t before.sessions now_good.1 h.points;
      }

  -- In every server that main's objects can become, every session can be resumed by every event and
  -- ends at its next suspension: no `at` is out of range and no exception escapes from the coroutine.
  pub no_exception_escapes :
      (backends : List BackendConfig) (srv : Server A) (i : ℕ) (s : State) (event : Event)
      (env : Env)
      → Reachable backends srv
      → get_elem? srv.sessions i ≡ some s
      → (r : World × State) × (resume event env srv.world s ≡ ok r)
  no_exception_escapes backends srv i s event env reachable at_i =
      let h = Reachable-Steady backends srv reachable in
      let stay =
        All-get_elem? (λ s. PointBelow (length backends) s.point) i s srv.sessions at_i h.points in
      let (result, e, _) = resume_total (length backends) event env srv.world s h.sized stay in
      (result, e)

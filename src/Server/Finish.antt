-- ===== src/Server/Finish.antt =====
-- How the sessions of main.cpp's server come to their ends beside each other.
use aegis_proxy.Common.{
  ℕ, zero, suc, ◌+◌, ◌≤◌, ◌≡◌, refl, inl, inr, true, [], ◌∷◌, List, Option, none, some, arith,
  Bool-cases, All, All-set, All-get_elem?, get_elem?, set,
}
use aegis_proxy.Text.{Bytes}
use aegis_proxy.Run.{ok, Ensures-ok}
use aegis_proxy.Pool.{BackendConfig}
use aegis_proxy.RateLimiter.{Arithmetic, allow}
use aegis_proxy.Session.World.{World, Env}
use aegis_proxy.Session.State.{finished, State, new, Event}
use aegis_proxy.Session.Resume.{resume}
use aegis_proxy.Session.Rank.{rank, Awake, ends}
use aegis_proxy.Session.Rank.Steps.{Falls, ending, resume-Falls}
use aegis_proxy.Session.Finish.{closing, closing-ends}
use aegis_proxy.Server.{
  Server, accept, reject, spawn, reap, Reachable, warmed, accepts, reaps, resumes,
}
use aegis_proxy.Server.Total.{no_exception_escapes}

get_elem?-set :
    {A : Type 0} (xs : List A) (i : ℕ) (x y : A)
    → get_elem? xs i ≡ some x
    → get_elem? (set xs i y) i ≡ some y
get_elem?-set [] i x y e = cc
get_elem?-set (z ∷ xs) zero x y e = refl
get_elem?-set (z ∷ xs) (suc i) x y e = get_elem?-set xs i x y e

abbrev AllAwake : List State → Type 0
AllAwake = All (λ s. Awake s.point)

module _ {A : Type 0} ⦃number : Arithmetic A⦄ where
  -- `n` resumptions of session `i`, and of no other.
  pub data Drives (i : ℕ) : ℕ → Server A → Server A → Type 0 where
    rest : {srv : Server A} → Drives i 0 srv srv
    drive :
        {n : ℕ} {after : Server A} (event : Event) (env : Env) (srv : Server A) (s t : State)
        (w : World)
        → get_elem? srv.sessions i ≡ some s
        → resume event env srv.world s ≡ ok (w, t)
        → Drives i n (record srv { world = w; sessions = set srv.sessions i t }) after
        → Drives i (suc n) srv after

  accept-Awake :
      (remote : Option Bytes) (now_ms now : ℕ) (srv : Server A)
      → AllAwake srv.sessions
      → AllAwake (accept remote now_ms now srv).0.sessions
  unfolding accept reject spawn new
  accept-Awake none now_ms now srv a = a
  accept-Awake (some key) now_ms now srv a = elim (Bool-cases (allow key now srv.limiter).1) [
    | inl allowed ↦ rw (allowed, accept) (tt, a)
    | inr refused ↦ rw (refused, accept) a
  ]

  module _ (backends : List BackendConfig) where
    Reachable-Awake : (srv : Server A) → Reachable backends srv → AllAwake srv.sessions
    unfolding reap
    Reachable-Awake srv (warmed limiter answers errors p lines e) = tt
    Reachable-Awake srv (accepts remote now_ms now before r) =
        accept-Awake remote now_ms now before (Reachable-Awake before r)
    Reachable-Awake srv (reaps now before r) = Reachable-Awake before r
    Reachable-Awake srv (resumes i event env before s t w r at_i e) =
        let a = Reachable-Awake before r in
        let stay = All-get_elem? (λ s. Awake s.point) i s before.sessions at_i a in
        let fell =
          Ensures-ok (Falls (ending s.point event) (rank s)) (resume event env before.world s)
            (resume-Falls event env before.world s stay) e in
        All-set (λ s. Awake s.point) i t before.sessions fell.1 a

    -- Within `k` resumptions, each of which ends the operation that the session waits for.
    abbrev pub Finishes : ℕ → ℕ → Server A → Type 0
    Finishes i k srv =
        (n : ℕ) × (after : Server A) × (t : State) × (n ≤ k)
        × Drives i n srv after
        × Reachable backends after
        × (get_elem? after.sessions i ≡ some t)
        × (t.point ≡ finished)

    suspended :
        (srv : Server A) (i : ℕ) (s : State)
        → Reachable backends srv
        → get_elem? srv.sessions i ≡ some s
        → Awake s.point
    suspended srv i s reachable at_i =
        All-get_elem? (λ s. Awake s.point) i s srv.sessions at_i (Reachable-Awake srv reachable)

    -- One resumption that ends the operation under way.
    ends_one :
        (env : Env) (srv : Server A) (i : ℕ) (s : State)
        → Reachable backends srv
        → get_elem? srv.sessions i ≡ some s
        → ends s.point (closing s.point) ≡ true
        → (w : World) × (t : State) × (resume (closing s.point) env srv.world s ≡ ok (w, t))
          × (rank t + 1 ≤ rank s)
    ends_one env srv i s reachable at_i waits =
        let event = closing s.point in
        let ((w, t), e) = no_exception_escapes backends srv i s event env reachable at_i in
        let fell =
          Ensures-ok (Falls (ending s.point event) (rank s)) (resume event env srv.world s)
            (resume-Falls event env srv.world s (suspended srv i s reachable at_i)) e in
        (w, t, e, rw waits at fell.0)

    module _ (env : Env) (i : ℕ) where
      Finishes-within :
          (k : ℕ) (srv : Server A) (s : State)
          → Reachable backends srv
          → get_elem? srv.sessions i ≡ some s
          → rank s ≤ k
          → Finishes i k srv
      Finishes-within zero srv s reachable at_i near =
          elim (closing-ends s.point (suspended srv i s reachable at_i)) [
            | inl over ↦ (0, srv, s, omega arith, rest, reachable, at_i, over)
            | inr waits ↦
                let (_, _, _, nearer) = ends_one env srv i s reachable at_i waits in
                absurd (omega arith)
          ]
      Finishes-within (suc k) srv s reachable at_i near =
          elim (closing-ends s.point (suspended srv i s reachable at_i)) [
            | inl over ↦ (0, srv, s, omega arith, rest, reachable, at_i, over)
            | inr waits ↦
                let (w, t, e, nearer) = ends_one env srv i s reachable at_i waits in
                let event = closing s.point in
                let (n, after, u, few, driven, reachable', at_end, over) =
                  Finishes-within k (record srv { world = w; sessions = set srv.sessions i t }) t
                    (resumes i event env srv s t w reachable at_i e)
                    (get_elem?-set srv.sessions i s t at_i) (omega arith) in
                (
                  suc n,
                  after,
                  u,
                  omega arith,
                  drive event env srv s t w at_i e driven,
                  reachable',
                  at_end,
                  over,
                )
          ]

    -- No session is ever stuck: in every reachable server, any session can be resumed to its end
    -- with no help of the other ones, in no more resumptions than its rank.
    pub can_finish :
        (env : Env) (srv : Server A) (i : ℕ) (s : State)
        → Reachable backends srv
        → get_elem? srv.sessions i ≡ some s
        → Finishes i (rank s) srv
    can_finish env srv i s reachable at_i =
        Finishes-within env i (rank s) srv s reachable at_i (omega arith)

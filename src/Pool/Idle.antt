-- ===== src/Pool/Idle.antt =====
-- How many sockets warm_up in connection_pool.cpp leaves in the free lists.
use aegis_proxy.Common.{
  ℕ, zero, suc, ◌+◌, ◌≤◌, ◌<◌, ◌≡◌, refl, ap, ◌∙◌, true, false, List, [], ◌∷◌, Option, none, some,
  arith, inl, inr, ◌==◌, if◌then◌else◌, Option-cases, length, get_elem?, map,
}
use aegis_proxy.Text.{Bytes}
use aegis_proxy.Run.{
  ok, throw, network, update, Total, Total-bind, Total-map, Total-ok, at-get_elem?, in_range,
}
use aegis_proxy.Pool.{
  BackendConfig, ConnectionPool, Socket, new, connect, warm_backend, warm_backends, warm_up,
  warm_up_line, Warming,
}

-- The size of a backend's free list.
pub idle : ℕ → List (List Socket) → ℕ
idle b [] = 0
idle zero (free ∷ lists) = length free
idle (suc b) (free ∷ lists) = idle b lists

-- How many of `k` connection attempts succeed.
pub connections : (ℕ → Option Socket) → ℕ → ℕ
connections answers zero = 0
connections answers (suc k) =
    connections answers k + elim (answers k) [ none ↦ 0 | some socket ↦ 1 ]

update-idle :
    (b c : ℕ) (socket : Socket) (lists : List (List Socket))
    → b < length lists
    → Total
        (λ after.
          (length after ≡ length lists) × (idle c after ≡ idle c lists + (if b == c then 1 else 0)))
        (update lists b (λ free. socket ∷ free))
unfolding update idle
update-idle b c socket [] h = absurd (omega arith)
update-idle zero zero socket (free ∷ lists) h = (refl, omega arith)
update-idle zero (suc c) socket (free ∷ lists) h = (refl, ground arith)
update-idle (suc b) zero socket (free ∷ lists) h =
    Total-bind _ _ (update lists b (λ free. socket ∷ free)) _
      (update-idle b 0 socket lists (omega arith)) (λ after e. (ap suc e.0, ground arith))
update-idle (suc b) (suc c) socket (free ∷ lists) h =
    Total-bind _ _ (update lists b (λ free. socket ∷ free)) _
      (update-idle b c socket lists (omega arith)) (λ after e. (ap suc e.0, ground arith))

-- What a loop of warm_up left behind, if it put `n` sockets into the list of backend `c`.
abbrev Warmed : ConnectionPool → ℕ → ℕ → ConnectionPool → Type 0
Warmed p c n q =
    (q.backends ≡ p.backends)
    × (length q.free_sockets ≡ length p.free_sockets)
    × (idle c q.free_sockets ≡ idle c p.free_sockets + n)

connect-ok :
    (b : ℕ) (answer : Option Socket) (p : ConnectionPool)
    → b < length p.backends
    → connect b answer p ≡ elim answer [ none ↦ throw network | some socket ↦ ok socket ]
unfolding connect
connect-ok b answer p h =
    let (c, e) = in_range p.backends b h in rw (at-get_elem? p.backends b c e) refl

module _ (c : ℕ) where
  warm_backend-Warmed :
      (config : BackendConfig) (b k : ℕ) (answers : ℕ → Option Socket) (errors : ℕ → Bytes)
      (w : Warming)
      → b < length w.0.backends
      → b < length w.0.free_sockets
      → Total
          (λ v. Warmed w.0 c (if b == c then connections answers k else 0) v.0)
          (warm_backend config b k answers errors w)
  unfolding warm_backend connections
  warm_backend-Warmed config b zero answers errors w h l = (refl, refl, ground arith)
  warm_backend-Warmed config b (suc k) answers errors w h l = elim (Option-cases (answers k)) [
    | inl refused ↦
        let noted : Warming = (w.0, warm_up_line config (errors k) ∷ w.1) in
        rw (connect-ok b (answers k) w.0 h, warm_backend, refused)
          (Total-map (λ v. Warmed w.0 c (if b == c then connections answers k else 0) v.0) _
            (warm_backend config b k answers errors noted) (λ v r. (r.0, r.1, ground arith))
            (warm_backend-Warmed config b k answers errors noted h l))
    | inr (socket, made) ↦
        let (lists, pushed, (size, more)) =
          Total-ok _ (update w.0.free_sockets b (λ free. socket ∷ free))
            (update-idle b c socket w.0.free_sockets l) in
        let q : Warming = (record w.0 { free_sockets = lists }, w.1) in
        rw (connect-ok b (answers k) w.0 h, warm_backend, made, pushed)
          (Total-map (λ v. Warmed q.0 c (if b == c then connections answers k else 0) v.0) _
            (warm_backend config b k answers errors q) (λ v r. (r.0, r.1 ∙ size, ground arith))
            (warm_backend-Warmed config b k answers errors q h (omega arith)))
  ]

  -- What the outer loop puts into the list of backend `c`, from backend `b` on.
  planned : ℕ → List BackendConfig → (ℕ → ℕ → Option Socket) → ℕ
  planned b [] answers = 0
  planned b (config ∷ configs) answers =
      (if b == c then connections (answers b) config.min_pool_size else 0)
      + planned (b + 1) configs answers

  warm_backends-Warmed :
      (b : ℕ) (configs : List BackendConfig) (answers : ℕ → ℕ → Option Socket)
      (errors : ℕ → ℕ → Bytes) (w : Warming)
      → b + length configs ≤ length w.0.backends
      → b + length configs ≤ length w.0.free_sockets
      → Total
          (λ v. Warmed w.0 c (planned b configs answers) v.0)
          (warm_backends b configs answers errors w)
  unfolding warm_backends planned
  warm_backends-Warmed b [] answers errors w h l = (refl, refl, omega arith)
  warm_backends-Warmed b (config ∷ configs) answers errors w h l =
      let n = if b == c then connections (answers b) config.min_pool_size else 0 in
      Total-bind _ (λ v. Warmed w.0 c n v.0)
        (warm_backend config b config.min_pool_size (answers b) (errors b) w) _
        (warm_backend-Warmed config b config.min_pool_size (answers b) (errors b) w (omega arith)
          (omega arith))
        (λ q first.
          Total-map (λ v. Warmed q.0 c (planned (b + 1) configs answers) v.0) _
            (warm_backends (b + 1) configs answers errors q)
            (λ v r. (r.0 ∙ first.0, r.1 ∙ first.1, omega (arith, r.2, first.2)))
            (warm_backends-Warmed (b + 1) configs answers errors q
              (omega (arith, ap length first.0)) (omega (arith, first.1))))

  planned_before :
      (b : ℕ) (configs : List BackendConfig) (answers : ℕ → ℕ → Option Socket)
      → c < b
      → planned b configs answers ≡ 0
  unfolding planned
  planned_before b [] answers h = refl
  planned_before b (config ∷ configs) answers h =
      ground (arith, planned_before (b + 1) configs answers (omega arith))

  planned_at :
      (i b : ℕ) (configs : List BackendConfig) (answers : ℕ → ℕ → Option Socket)
      (config : BackendConfig)
      → get_elem? configs i ≡ some config
      → c ≡ b + i
      → planned b configs answers ≡ connections (answers c) config.min_pool_size
  unfolding planned
  planned_at i b [] answers config e f = cc
  planned_at zero b (other ∷ configs) answers config e f =
      let here : b ≡ c = omega arith in
      let same : b == c ≡ true = ground arith in
      let rest = planned_before (b + 1) configs answers (omega arith) in
      rw (same, rest, here) (let it : other ≡ config = cc in rw it (omega arith))
  planned_at (suc i) b (other ∷ configs) answers config e f =
      let past : b == c ≡ false = ground arith in
      rw (past, planned_at i (b + 1) configs answers config e (omega arith)) (omega arith)

connections-le : (answers : ℕ → Option Socket) (k : ℕ) → connections answers k ≤ k
unfolding connections
connections-le answers zero = omega arith
connections-le answers (suc k) = ground (arith, connections-le answers k)

idle-new : (c : ℕ) (backends : List BackendConfig) → idle c (map (λ _. []) backends) ≡ 0
unfolding idle
idle-new c [] = refl
idle-new zero (config ∷ backends) = refl
idle-new (suc c) (config ∷ backends) = idle-new c backends

length-free : (backends : List BackendConfig) → length (new backends).free_sockets ≡ length backends
unfolding new
length-free [] = refl
length-free (config ∷ backends) = ap suc (length-free backends)

-- Whatever the network answers, warm_up of a new pool returns, and leaves in the free list of each
-- backend as many sockets as its connection attempts gave, at most its `min_pool_size`.
pub warm_up_lem :
    (backends : List BackendConfig) (answers : ℕ → ℕ → Option Socket) (errors : ℕ → ℕ → Bytes)
    (b : ℕ) (config : BackendConfig)
    → get_elem? backends b ≡ some config
    → (w : Warming) × (warm_up answers errors (new backends) ≡ ok w)
      × (w.0.backends ≡ backends)
      × (idle b w.0.free_sockets ≡ connections (answers b) config.min_pool_size)
      × (idle b w.0.free_sockets ≤ config.min_pool_size)
unfolding warm_up new
warm_up_lem backends answers errors b config e =
    let (w, returns, (same, _, filled)) =
      Total-ok (λ v. Warmed (new backends) b (planned b 0 backends answers) v.0)
        (warm_backends 0 backends answers errors (new backends, []))
        (warm_backends-Warmed b 0 backends answers errors (new backends, []) (omega arith)
          (omega (arith, length-free backends))) in
    let size = planned_at b b 0 backends answers config e (omega arith) in
    let exact : idle b w.0.free_sockets ≡ connections (answers b) config.min_pool_size =
      omega (arith, filled, size, idle-new b backends) in
    (w, returns, same, exact, omega (arith, connections-le (answers b) config.min_pool_size))

-- The whole of warm_up returns, for no backends too.
pub warm_up-returns :
    (backends : List BackendConfig) (answers : ℕ → ℕ → Option Socket) (errors : ℕ → ℕ → Bytes)
    → (w : Warming) × (warm_up answers errors (new backends) ≡ ok w)
unfolding warm_up new
warm_up-returns backends answers errors =
    let (w, returns, _) =
      Total-ok (λ v. Warmed (new backends) 0 (planned 0 0 backends answers) v.0)
        (warm_backends 0 backends answers errors (new backends, []))
        (warm_backends-Warmed 0 0 backends answers errors (new backends, []) (omega arith)
          (omega (arith, length-free backends))) in
    (w, returns)

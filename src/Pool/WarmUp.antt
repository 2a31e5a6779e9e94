-- ===== src/Pool/WarmUp.antt =====
-- What warm_up in connection_pool.cpp leaves as it was, and the lines that it prints.
use aegis_proxy.Common.{
  ℕ, zero, suc, ◌+◌, ◌≡◌, refl, List, [], ◌∷◌, Option, arith, inl, inr, map, ◌++◌, All, false,
}
use mathlib.Core.List.{append_assoc}
use aegis_proxy.Text.{Bytes, bytes}
use aegis_proxy.Trace.Grammar.{Free, Free-append, begins}
use aegis_proxy.Run.{ok, update, Ensures, Ensures-bind, Ensures-ok, Run-cases}
use aegis_proxy.Pool.{
  BackendConfig, ConnectionPool, Socket, new, connect, warm_backend, warm_backends, warm_up,
  warm_up_line, Warming,
}
use aegis_proxy.Pool.Accounting.{Owed, counter}

-- What holds while a pool is warmed, if a socket that is pushed and a line that is printed keep it.
module _ (answers : ℕ → ℕ → Option Socket) (errors : ℕ → ℕ → Bytes) (C : BackendConfig → Type 0)
    (Q : Warming → Type 0)
    (push : (b : ℕ) (socket : Socket) (w : Warming) (lists : List (List Socket))
      → update w.0.free_sockets b (λ free. socket ∷ free) ≡ ok lists
      → Q w
      → Q (record w.0 { free_sockets = lists }, w.1))
    (print : (c : BackendConfig) (b k : ℕ) (w : Warming)
      → C c
      → Q w
      → Q (w.0, warm_up_line c (errors b k) ∷ w.1)) where
  warm_backend-keeps :
      (c : BackendConfig) (b k : ℕ) (w : Warming)
      → C c
      → Q w
      → Ensures Q (warm_backend c b k (answers b) (errors b) w)
  unfolding warm_backend
  warm_backend-keeps c b zero w known h = h
  warm_backend-keeps c b (suc k) w known h = elim (Run-cases (connect b (answers b k) w.0)) [
    | inr (e, thrown) ↦
        rw (thrown, warm_backend) (warm_backend-keeps c b k _ known (print c b k w known h))
    | inl (socket, made) ↦ elim (Run-cases (update w.0.free_sockets b (λ free. socket ∷ free))) [
      | inr (e, outside) ↦ rw (made, warm_backend, outside) tt
      | inl (lists, pushed) ↦
          rw (made, warm_backend, pushed)
            (warm_backend-keeps c b k (record w.0 { free_sockets = lists }, w.1) known
              (push b socket w lists pushed h))
    ]
  ]

  warm_backends-keeps :
      (b : ℕ) (cs : List BackendConfig) (w : Warming)
      → All C cs
      → Q w
      → Ensures Q (warm_backends b cs answers errors w)
  unfolding warm_backends
  warm_backends-keeps b [] w known h = h
  warm_backends-keeps b (c ∷ cs) w known h =
      Ensures-bind Q (warm_backend c b c.min_pool_size (answers b) (errors b) w) _ (λ v e.
        warm_backends-keeps (b + 1) cs v known.1 (
          Ensures-ok Q (warm_backend c b c.min_pool_size (answers b) (errors b) w)
            (warm_backend-keeps c b c.min_pool_size w known.0 h) e))

  pub warm_up-keeps :
      (p : ConnectionPool) → All C p.backends → Q (p, []) → Ensures Q (warm_up answers errors p)
  unfolding warm_up
  warm_up-keeps p known h = warm_backends-keeps 0 p.backends (p, []) known h

any_config : (cs : List BackendConfig) → All (λ _. Unit {0}) cs
any_config [] = tt
any_config (c ∷ cs) = (tt, any_config cs)

-- What holds of a pool, if pushing a socket keeps it.
pub warm_up-keeps_pool :
    (Q : ConnectionPool → Type 0)
    → ((b : ℕ) (socket : Socket) (p : ConnectionPool) (lists : List (List Socket))
        → update p.free_sockets b (λ free. socket ∷ free) ≡ ok lists
        → Q p
        → Q (record p { free_sockets = lists }))
    → (answers : ℕ → ℕ → Option Socket) (errors : ℕ → ℕ → Bytes) (p : ConnectionPool) → Q p
    → Ensures (λ w. Q w.0) (warm_up answers errors p)
warm_up-keeps_pool Q push answers errors p h =
    warm_up-keeps answers errors (λ _. Unit {0}) (λ w. Q w.0)
      (λ b socket w lists e q. push b socket w.0 lists e q) (λ c b k w known q. q) p
      (any_config p.backends) h

counter-map : (c : ℕ) (cs : List BackendConfig) → counter c (map (λ _. 0) cs) ≡ 0
counter-map c [] = refl
counter-map zero (d ∷ cs) = refl
counter-map (suc c) (d ∷ cs) = counter-map c cs

pub warm_up-Owed :
    (backends : List BackendConfig) (answers : ℕ → ℕ → Option Socket) (errors : ℕ → ℕ → Bytes)
    → Ensures (λ w. Owed (λ _. 0) w.0) (warm_up answers errors (new backends))
unfolding new
warm_up-Owed backends answers errors =
    warm_up-keeps_pool (Owed (λ _. 0)) (λ b socket p lists e h. h) answers errors (new backends)
      (λ c. rw (counter-map c backends) (omega arith))

-- No line break.
abbrev pub Unbroken : Bytes → Type 0
Unbroken = Free 10

-- A line of its own that does not begin as the lines of the trace do.
abbrev pub IsWarning : Bytes → Type 0
IsWarning text =
    (line : Bytes) × Unbroken line
    × (begins (bytes "cid=") line ≡ false)
    × (text ≡ line ++ (10 ∷ []))

warm_up_line-IsWarning :
    (c : BackendConfig) (error : Bytes)
    → Unbroken c.host
    → Unbroken c.port
    → Unbroken error
    → IsWarning (warm_up_line c error)
unfolding warm_up_line begins
warm_up_line-IsWarning c error host port why = (
  bytes "[pool] warm-up connect failed for "
      ++ (c.host ++ (bytes ":" ++ (c.port ++ (bytes " -> " ++ error)))),
  Free-append 10 (bytes "[pool] warm-up connect failed for ") _ (ground arith) (
      Free-append 10 c.host _ host (
        Free-append 10 (bytes ":") _ (ground arith)
          (Free-append 10 c.port _ port (Free-append 10 (bytes " -> ") error (ground arith) why)))),
  refl,
  simp append_assoc,
)

pub warm_up-IsWarning :
    (backends : List BackendConfig) (answers : ℕ → ℕ → Option Socket) (errors : ℕ → ℕ → Bytes)
    → All (λ c. Unbroken c.host × Unbroken c.port) backends
    → ((b k : ℕ) → Unbroken (errors b k))
    → Ensures (λ w. All IsWarning w.1) (warm_up answers errors (new backends))
unfolding new
warm_up-IsWarning backends answers errors named plain =
    warm_up-keeps answers errors (λ c. Unbroken c.host × Unbroken c.port) (λ w. All IsWarning w.1)
      (λ b socket w lists e q. q)
      (λ c b k w known q. (warm_up_line-IsWarning c (errors b k) known.0 known.1 (plain b k), q))
      (new backends) named tt

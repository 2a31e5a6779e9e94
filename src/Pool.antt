-- ===== src/Pool.antt =====
-- connection_pool.hpp and connection_pool.cpp. What the network answers to `connect` is an argument:
-- a connected socket, or none where resolving, connecting or setting the option throws. A method
-- between two suspensions is one step, under the backend's mutex where the code takes it.
pub mod Accounting
pub mod WarmUp
pub mod Idle
pub mod Stock
pub mod Origin
pub mod Recycle
use aegis_proxy.Common.{
  ℕ, zero, suc, ◌+◌, ◌-◌, ◌%◌, ◌^◌, Bool, ◌||◌, not, List, [], ◌∷◌, ◌++◌, Option, none, some,
  if◌then◌else◌, length, map,
}
use aegis_proxy.Text.{Bytes, bytes}
use aegis_proxy.Run.{Run, ok, throw, network, ◌>>=◌, at, update}

pub record BackendConfig : Type 0 where
  pub host : Bytes
  pub port : Bytes
  pub min_pool_size : ℕ

-- An asio socket: which connection it is, and `is_open()`.
pub record Socket : Type 0 where
  pub handle : ℕ
  pub is_open : Bool

-- The head of a free list is the back of the deque. An active counter is an `atomic<int>`, kept as its
-- 32 bits.
pub record ConnectionPool : Type 0 where
  pub backends : List BackendConfig
  pub free_sockets : List (List Socket)
  pub active_counts : List ℕ

abbrev pub int_word : ℕ
int_word = 2 ^ 32

unfoldable pub new : List BackendConfig → ConnectionPool
new backends = record {
  backends = backends;
  free_sockets = map (λ _. []) backends;
  active_counts = map (λ _. 0) backends;
}

-- `fetch_add(1)` and `fetch_sub(1)`.
abbrev pub increment : ℕ → ℕ
increment n = (n + 1) % int_word

abbrev pub decrement : ℕ → ℕ
decrement n = (n + int_word - 1) % int_word

unfoldable pub connect : ℕ → Option Socket → ConnectionPool → Run Socket
connect b answer p = do
  _ ← at p.backends b
  elim answer [ none ↦ throw network | some socket ↦ ok socket ]

-- The count that acquire adds before it returns a socket.
unfoldable pub count_active : ℕ → ConnectionPool → Run ConnectionPool
count_active b p = do
  counts ← update p.active_counts b increment
  ok (record p { active_counts = counts })

-- acquire up to the point where it connects: a pooled socket, or none where the free list is empty.
unfoldable pub take_pooled : ℕ → List Socket → ConnectionPool → Run (Option Socket × ConnectionPool)
unfolding count_active
take_pooled b [] p = ok (none, p)
take_pooled b (socket ∷ rest) p = do
  lists ← update p.free_sockets b (λ _. rest)
  q ← count_active b (record p { free_sockets = lists })
  ok (some socket, q)

unfoldable pub acquire_pooled : ℕ → ConnectionPool → Run (Option Socket × ConnectionPool)
unfolding take_pooled
acquire_pooled b p = do free ← at p.free_sockets b; take_pooled b free p

-- The rest of acquire, once the network has answered.
unfoldable pub acquire_connected :
    ℕ → Option Socket → ConnectionPool → Run (Socket × ConnectionPool)
unfolding connect count_active
acquire_connected b answer p = do socket ← connect b answer p; q ← count_active b p; ok (socket, q)

-- acquire as a whole, where nothing else runs while it connects.
unfoldable pub acquire : ℕ → Option Socket → ConnectionPool → Run (Socket × ConnectionPool)
unfolding acquire_pooled acquire_connected
acquire b answer p = do
  (pooled, q) ← acquire_pooled b p
  elim pooled [ some socket ↦ ok (socket, q) | none ↦ acquire_connected b answer q ]

unfoldable pub release : ℕ → Socket → Bool → ConnectionPool → Run ConnectionPool
release b socket healthy p = do
  counts ← update p.active_counts b decrement
  let q : ConnectionPool = record p { active_counts = counts }
  if not healthy || not socket.is_open then ok q else do
    lists ← update q.free_sockets b (λ free. socket ∷ free)
    ok (record q { free_sockets = lists })

unfoldable pub active_count : ℕ → ConnectionPool → Run ℕ
active_count b p = at p.active_counts b

-- The cast of the size to `int`.
unfoldable pub idle_count : ℕ → ConnectionPool → Run ℕ
idle_count b p = do free ← at p.free_sockets b; ok (length free % int_word)

unfoldable pub backend_config : ℕ → ConnectionPool → Run BackendConfig
backend_config b p = at p.backends b

unfoldable pub backend_count : ConnectionPool → ℕ
backend_count p = length p.backends

-- What warm_up prints on stderr where it cannot connect.
unfoldable pub warm_up_line : BackendConfig → Bytes → Bytes
warm_up_line c error =
    bytes "[pool] warm-up connect failed for "
    ++ (c.host ++ (bytes ":" ++ (c.port ++ (bytes " -> " ++ (error ++ bytes "\n")))))

-- The pool and the lines on stderr, newest first, while it is warmed.
abbrev pub Warming : Type 0
Warming = ConnectionPool × List Bytes

-- The inner loop of warm_up, `k` connections left: a failure is logged and passed over.
pub warm_backend : BackendConfig → ℕ → ℕ → (ℕ → Option Socket) → (ℕ → Bytes) → Warming → Run Warming
unfolding warm_up_line
warm_backend c b zero answers errors w = ok w
warm_backend c b (suc k) answers errors w = elim (connect b (answers k) w.0) [
  | throw _ ↦ warm_backend c b k answers errors (w.0, warm_up_line c (errors k) ∷ w.1)
  | ok socket ↦ elim (update w.0.free_sockets b (λ free. socket ∷ free)) [
    | throw e ↦ throw e
    | ok lists ↦ warm_backend c b k answers errors (record w.0 { free_sockets = lists }, w.1)
  ]
]

-- The outer loop, over the configurations from backend `b` on.
pub warm_backends :
    ℕ → List BackendConfig → (ℕ → ℕ → Option Socket) → (ℕ → ℕ → Bytes) → Warming → Run Warming
warm_backends b [] answers errors w = ok w
warm_backends b (c ∷ cs) answers errors w = do
  v ← warm_backend c b c.min_pool_size (answers b) (errors b) w
  warm_backends (b + 1) cs answers errors v

-- `answers b k` and `errors b k` are what the network answers to an attempt, and what the exception
-- says where it fails.
unfoldable pub warm_up : (ℕ → ℕ → Option Socket) → (ℕ → ℕ → Bytes) → ConnectionPool → Run Warming
unfolding connect warm_backend warm_backends
warm_up answers errors p = warm_backends 0 p.backends answers errors (p, [])

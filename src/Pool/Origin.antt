-- ===== src/Pool/Origin.antt =====
-- How often warm_up in connection_pool.cpp puts a connection into the free lists.
use aegis_proxy.Common.{
  ℕ, zero, suc, ◌+◌, ◌≤◌, ◌≡◌, refl, List, [], ◌∷◌, Option, arith, inl, inr, map,
}
use aegis_proxy.Text.{Bytes}
use aegis_proxy.Run.{update, Ensures, Ensures-bind, Ensures-ok, Run-cases}
use aegis_proxy.Pool.{
  BackendConfig, ConnectionPool, Socket, new, connect, warm_backend, warm_backends, warm_up,
  warm_up_line, Warming,
}
use aegis_proxy.Pool.Stock.{one, one_of, in_free, in_list, update-push, connect-answer}

-- How often `k` answers of the network are this connection.
unfoldable pub answered : ℕ → (ℕ → Option Socket) → ℕ → ℕ
answered h answers zero = 0
answered h answers (suc k) = one_of h (answers k) + answered h answers k

-- How often the answers to the attempts of warm_up are, from backend `b` on.
unfoldable pub answered_all : ℕ → (ℕ → ℕ → Option Socket) → ℕ → List BackendConfig → ℕ
unfolding answered
answered_all h answers b [] = 0
answered_all h answers b (c ∷ cs) =
    answered h (answers b) c.min_pool_size + answered_all h answers (b + 1) cs

module _ (h : ℕ) where
  in_free-empty : (cs : List BackendConfig) → in_free h (map (λ _. []) cs) ≡ 0
  unfolding in_free in_list
  in_free-empty [] = refl
  in_free-empty (c ∷ cs) = omega (arith, in_free-empty cs)

  -- The free lists hold this connection at most `m` times.
  abbrev AtMost : ℕ → ConnectionPool → Type 0
  AtMost m p = in_free h p.free_sockets ≤ m

  warm_backend-AtMost :
      (c : BackendConfig) (b k m : ℕ) (answers : ℕ → Option Socket) (errors : ℕ → Bytes)
      (w : Warming)
      → in_free h w.0.free_sockets + answered h answers k ≤ m
      → Ensures (λ v. AtMost m v.0) (warm_backend c b k answers errors w)
  unfolding warm_backend answered
  warm_backend-AtMost c b zero m answers errors w a = omega arith
  warm_backend-AtMost c b (suc k) m answers errors w a =
      elim (Run-cases (connect b (answers k) w.0)) [
        | inr (e, thrown) ↦
            rw (thrown, warm_backend)
              (warm_backend-AtMost c b k m answers errors (w.0, warm_up_line c (errors k) ∷ w.1)
                (omega arith))
        | inl (socket, made) ↦
            elim (Run-cases (update w.0.free_sockets b (λ free. socket ∷ free))) [
              | inr (e, outside) ↦ rw (made, warm_backend, outside) tt
              | inl (lists, pushed) ↦
                  let one_more =
                    Ensures-ok
                      (λ after. in_free h after ≡ in_free h w.0.free_sockets + one h socket)
                      (update w.0.free_sockets b (λ free. socket ∷ free))
                      (update-push h b socket w.0.free_sockets) pushed in
                  let same =
                    Ensures-ok (λ socket. one h socket ≡ one_of h (answers k))
                      (connect b (answers k) w.0) (connect-answer h b (answers k) w.0) made in
                  rw (made, warm_backend, pushed)
                    (warm_backend-AtMost c b k m answers errors
                      (record w.0 { free_sockets = lists }, w.1) (omega (arith, one_more, same)))
            ]
      ]

  warm_backends-AtMost :
      (b : ℕ) (cs : List BackendConfig) (m : ℕ) (answers : ℕ → ℕ → Option Socket)
      (errors : ℕ → ℕ → Bytes) (w : Warming)
      → in_free h w.0.free_sockets + answered_all h answers b cs ≤ m
      → Ensures (λ v. AtMost m v.0) (warm_backends b cs answers errors w)
  unfolding warm_backends answered_all
  warm_backends-AtMost b [] m answers errors w a = omega arith
  warm_backends-AtMost b (c ∷ cs) m answers errors w a =
      let n = in_free h w.0.free_sockets + answered h (answers b) c.min_pool_size in
      Ensures-bind _ (warm_backend c b c.min_pool_size (answers b) (errors b) w) _ (λ v e.
        let warmed =
          Ensures-ok (λ v. AtMost n v.0) (warm_backend c b c.min_pool_size (answers b) (errors b) w)
            (warm_backend-AtMost c b c.min_pool_size n (answers b) (errors b) w (omega arith)) e in
        warm_backends-AtMost (b + 1) cs m answers errors v (omega (arith, warmed)))

  -- The free lists hold a connection, once the pool is warmed, at most as often as the network answered
  -- with it.
  pub warm_up-AtMost :
      (backends : List BackendConfig) (answers : ℕ → ℕ → Option Socket) (errors : ℕ → ℕ → Bytes)
      → Ensures
          (λ w. AtMost (answered_all h answers 0 backends) w.0)
          (warm_up answers errors (new backends))
  unfolding warm_up new
  warm_up-AtMost backends answers errors =
      warm_backends-AtMost 0 backends (answered_all h answers 0 backends) answers errors
        (new backends, []) (omega (arith, in_free-empty backends))

-- ===== src/Pool/Stock.antt =====
-- Where the sockets of connection_pool.cpp are: how often a connection stands in the free lists.
use aegis_proxy.Common.{
  ℕ, zero, suc, ◌+◌, ◌≤◌, ◌≡◌, refl, Bool, not, ◌||◌, List, [], ◌∷◌, Option, none, some, arith,
  ◌==◌, if◌then◌else◌,
}
use aegis_proxy.Run.{ok, at, update, Ensures, Ensures-bind, Ensures-if, Ensures-ok}
use aegis_proxy.Pool.{
  ConnectionPool, Socket, acquire_pooled, acquire_connected, take_pooled, count_active, connect,
  release, increment, decrement,
}

-- Whether a socket is this connection.
abbrev pub one : ℕ → Socket → ℕ
one h socket = if socket.handle == h then 1 else 0

abbrev pub one_of : ℕ → Option Socket → ℕ
one_of h none = 0
one_of h (some socket) = one h socket

unfoldable pub in_list : ℕ → List Socket → ℕ
in_list h [] = 0
in_list h (socket ∷ free) = one h socket + in_list h free

unfoldable pub in_free : ℕ → List (List Socket) → ℕ
in_free h [] = 0
in_free h (free ∷ lists) = in_list h free + in_free h lists

module _ (h : ℕ) where
  update-pop :
      (b : ℕ) (socket : Socket) (rest : List Socket) (lists : List (List Socket))
      → at lists b ≡ ok (socket ∷ rest)
      → Ensures
          (λ after. in_free h after + one h socket ≡ in_free h lists)
          (update lists b (λ _. rest))
  unfolding at update in_free in_list
  update-pop b socket rest [] e = tt
  update-pop zero socket rest (free ∷ lists) e =
      let top : free ≡ socket ∷ rest = cc in rw top (omega arith)
  update-pop (suc b) socket rest (free ∷ lists) e =
      Ensures-bind _ (update lists b (λ _. rest)) _ (λ after u.
        let ih =
          Ensures-ok (λ after. in_free h after + one h socket ≡ in_free h lists)
            (update lists b (λ _. rest)) (update-pop b socket rest lists e) u in
        omega (arith, ih))

  pub update-push :
      (b : ℕ) (socket : Socket) (lists : List (List Socket))
      → Ensures
          (λ after. in_free h after ≡ in_free h lists + one h socket)
          (update lists b (λ free. socket ∷ free))
  unfolding update in_free in_list
  update-push b socket [] = tt
  update-push zero socket (free ∷ lists) = omega arith
  update-push (suc b) socket (free ∷ lists) =
      Ensures-bind _ (update lists b (λ free. socket ∷ free)) _ (λ after u.
        let ih =
          Ensures-ok (λ after. in_free h after ≡ in_free h lists + one h socket)
            (update lists b (λ free. socket ∷ free)) (update-push b socket lists) u in
        omega (arith, ih))

  pub connect-answer :
      (b : ℕ) (answer : Option Socket) (p : ConnectionPool)
      → Ensures (λ socket. one h socket ≡ one_of h answer) (connect b answer p)
  unfolding connect
  connect-answer b none p = Ensures-bind _ (at p.backends b) _ (λ config _. tt)
  connect-answer b (some socket) p = Ensures-bind _ (at p.backends b) _ (λ config _. refl)

  module _ (k : ℕ) where
    -- The free lists and `n` sockets more are at most `k` times this connection.
    abbrev pub Stock : ℕ → ConnectionPool → Type 0
    Stock n p = in_free h p.free_sockets + n ≤ k

    count_active-Stock :
        (b n : ℕ) (p : ConnectionPool) → Stock n p → Ensures (Stock n) (count_active b p)
    unfolding count_active
    count_active-Stock b n p s =
        Ensures-bind _ (update p.active_counts b increment) _ (λ counts e. s)

    take_pooled-Stock :
        (b : ℕ) (free : List Socket) (p : ConnectionPool)
        → at p.free_sockets b ≡ ok free
        → Stock 0 p
        → Ensures (λ r. Stock (one_of h r.0) r.1) (take_pooled b free p)
    unfolding take_pooled
    take_pooled-Stock b [] p e s = s
    take_pooled-Stock b (socket ∷ rest) p e s =
        Ensures-bind _ (update p.free_sockets b (λ _. rest)) _ (λ lists u.
          let popped =
            Ensures-ok (λ after. in_free h after + one h socket ≡ in_free h p.free_sockets)
              (update p.free_sockets b (λ _. rest)) (update-pop b socket rest p.free_sockets e) u in
          let q : ConnectionPool = record p { free_sockets = lists } in
          Ensures-bind _ (count_active b q) _ (λ r f.
            Ensures-ok (Stock (one h socket)) (count_active b q)
              (count_active-Stock b (one h socket) q (omega (arith, popped))) f))

    pub acquire_pooled-Stock :
        (b : ℕ) (p : ConnectionPool)
        → Stock 0 p
        → Ensures (λ r. Stock (one_of h r.0) r.1) (acquire_pooled b p)
    unfolding acquire_pooled
    acquire_pooled-Stock b p s =
        Ensures-bind _ (at p.free_sockets b) _ (λ free e. take_pooled-Stock b free p e s)

    pub acquire_connected-Stock :
        (b : ℕ) (answer : Option Socket) (p : ConnectionPool)
        → Stock (one_of h answer) p
        → Ensures (λ r. Stock (one h r.0) r.1) (acquire_connected b answer p)
    unfolding acquire_connected
    acquire_connected-Stock b answer p s = Ensures-bind _ (connect b answer p) _ (λ socket e.
        let same =
          Ensures-ok (λ socket. one h socket ≡ one_of h answer) (connect b answer p)
            (connect-answer b answer p) e in
        Ensures-bind _ (count_active b p) _ (λ q f.
          Ensures-ok (Stock (one h socket)) (count_active b p)
            (count_active-Stock b (one h socket) p (omega (arith, same))) f))

    -- A released socket goes back to its list or is dropped.
    pub release-Stock :
        (b : ℕ) (socket : Socket) (healthy : Bool) (p : ConnectionPool)
        → Stock (one h socket) p
        → Ensures (Stock 0) (release b socket healthy p)
    unfolding release
    release-Stock b socket healthy p s =
        Ensures-bind _ (update p.active_counts b decrement) _ (λ counts e.
          Ensures-if _ (not healthy || not socket.is_open) _ _ (λ _. omega arith)
            (λ _. Ensures-bind _ (update p.free_sockets b (λ free. socket ∷ free)) _ (λ lists u.
              let pushed =
                Ensures-ok (λ after. in_free h after ≡ in_free h p.free_sockets + one h socket)
                  (update p.free_sockets b (λ free. socket ∷ free))
                  (update-push b socket p.free_sockets) u in
              omega (arith, pushed))))

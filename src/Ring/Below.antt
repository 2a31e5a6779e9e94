-- ===== src/Ring/Below.antt =====
-- The backends that the ring of hash_ring.cpp names, when one is added.
use aegis_proxy.Common.{ℕ, zero, suc, ◌+◌, ◌<◌, [], ◌∷◌, inl, inr, Bool-cases, All, ltb, ◌==◌}
use aegis_proxy.Ring.{Entries, HashRing, put, contains, add_vnodes, add_backend, vnode_hash}

module _ (n : ℕ) where
  abbrev pub Below : Entries → Type 0
  Below r = All (λ e. e.1 < n) r

  put-Below : (h b : ℕ) (r : Entries) → b < n → Below r → Below (put h b r)
  unfolding put
  put-Below h b [] l a = (l, tt)
  put-Below h b ((k, c) ∷ r) l a = elim (Bool-cases (ltb h k)) [
    | inl before ↦ rw before (l, a)
    | inr later ↦ rw later (elim (Bool-cases (h == k)) [
      | inl same ↦ rw same (l, a.1)
      | inr beyond ↦ rw beyond (a.0, put-Below h b r l a.1)
    ])
  ]

  add_vnodes-Below : (b v k : ℕ) (r : Entries) → b < n → Below r → Below (add_vnodes b v k r)
  unfolding add_vnodes
  add_vnodes-Below b v zero r l a = a
  add_vnodes-Below b v (suc k) r l a =
      add_vnodes-Below b (v + 1) k (put (vnode_hash b v) b r) l (put-Below (vnode_hash b v) b r l a)

  pub add_backend-Below :
      (b : ℕ) (s : HashRing) → b < n → Below s.ring → Below (add_backend b s).ring
  unfolding add_backend
  add_backend-Below b s l a = elim (Bool-cases (contains s.active_backends b)) [
    | inl present ↦ rw present a
    | inr absent ↦ rw absent (add_vnodes-Below b 0 s.num_vnodes_per_backend s.ring l a)
  ]

-- ===== src/Ring/Vnodes.antt =====
-- What the loops of add_backend and remove_backend in hash_ring.cpp do to the map.
use aegis_proxy.Common.{
  ℕ, zero, suc, ◌+◌, ◌≤◌, ◌<◌, ◌≡◌, refl, Bool, true, false, ◌||◌, none, some, arith, inl, inr,
  ◌==◌, if◌then◌else◌, Bool-cases,
}
use aegis_proxy.Ring.{Entries, put, erase, vnode_hash, add_vnodes, remove_vnodes}
use aegis_proxy.Ring.Entries.{IsSorted, find, put-IsSorted, erase-IsSorted, find-put, find-erase}

-- Whether one of the vnodes `v`, …, `v + k - 1` of a backend stands at `q`.
pub stands_at : ℕ → ℕ → ℕ → ℕ → Bool
stands_at b v zero q = false
stands_at b v (suc k) q = (vnode_hash b v == q) || stands_at b (v + 1) k q

module _ (b : ℕ) where
  pub add_vnodes-IsSorted : (v k : ℕ) (r : Entries) → IsSorted r → IsSorted (add_vnodes b v k r)
  unfolding add_vnodes
  add_vnodes-IsSorted v zero r s = s
  add_vnodes-IsSorted v (suc k) r s =
      add_vnodes-IsSorted (v + 1) k (put (vnode_hash b v) b r) (put-IsSorted (vnode_hash b v) b r s)

  pub remove_vnodes-IsSorted :
      (v k : ℕ) (r : Entries) → IsSorted r → IsSorted (remove_vnodes b v k r)
  unfolding remove_vnodes
  remove_vnodes-IsSorted v zero r s = s
  remove_vnodes-IsSorted v (suc k) r s =
      remove_vnodes-IsSorted (v + 1) k (erase (vnode_hash b v) r)
        (erase-IsSorted (vnode_hash b v) r s)

  pub find-add_vnodes :
      (v k q : ℕ) (r : Entries)
      → find q (add_vnodes b v k r) ≡ (if stands_at b v k q then some b else find q r)
  unfolding add_vnodes stands_at
  find-add_vnodes v zero q r = refl
  find-add_vnodes v (suc k) q r = ground (
    arith,
    find-add_vnodes (v + 1) k q (put (vnode_hash b v) b r),
    find-put q (vnode_hash b v) b r,
  )

  pub find-remove_vnodes :
      (v k q : ℕ) (r : Entries)
      → find q (remove_vnodes b v k r) ≡ (if stands_at b v k q then none else find q r)
  unfolding remove_vnodes stands_at
  find-remove_vnodes v zero q r = refl
  find-remove_vnodes v (suc k) q r = ground (
    arith,
    find-remove_vnodes (v + 1) k q (erase (vnode_hash b v) r),
    find-erase q (vnode_hash b v) r,
  )

  pub stands_at-vnode : (v k w : ℕ) → v ≤ w → w < v + k → stands_at b v k (vnode_hash b w) ≡ true
  unfolding stands_at
  stands_at-vnode v zero w h l = absurd (omega arith)
  stands_at-vnode v (suc k) w h l = ground (arith, stands_at-vnode (v + 1) k w)

  pub vnode-stands_at :
      (v k q : ℕ)
      → stands_at b v k q ≡ true
      → (w : ℕ) × (v ≤ w) × (w < v + k) × (q ≡ vnode_hash b w)
  unfolding stands_at
  vnode-stands_at v zero q h = absurd (ground arith)
  vnode-stands_at v (suc k) q h = elim (Bool-cases (vnode_hash b v == q)) [
    | inl here ↦ (v, omega arith, omega arith, ground arith)
    | inr there ↦
        let (w, lo, hi, at) = vnode-stands_at (v + 1) k q (ground arith) in
        (w, omega arith, omega arith, at)
  ]

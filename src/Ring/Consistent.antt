-- ===== src/Ring/Consistent.antt =====
-- The state that HashRing in hash_ring.cpp keeps: the map holds the vnodes of the active backends and
-- nothing else.
use aegis_proxy.Common.{
  ℕ, ◌<◌, ◌≡◌, true, false, List, [], ◌∷◌, none, some, arith, All, inl, inr, ◌==◌, if◌then◌else◌,
  Bool-cases,
}
use aegis_proxy.Hash.{word}
use aegis_proxy.Hash.Bound.{hash_key-lt-word}
use aegis_proxy.Ring.{
  vnode_key, Entries, contains, discard, HashRing, new, vnode_hash, add_vnodes, add_backend,
  remove_vnodes, remove_backend,
}
use aegis_proxy.Ring.Entries.{IsSorted, Above-IsSorted, find, find-Above}
use aegis_proxy.Ring.Vnodes.{
  stands_at, add_vnodes-IsSorted, remove_vnodes-IsSorted, find-add_vnodes, find-remove_vnodes,
  stands_at-vnode, vnode-stands_at,
}

-- `q` is where a vnode of an active backend stands.
abbrev pub Known : HashRing → ℕ → ℕ → Type 0
Known s q c =
    (contains s.active_backends c ≡ true) × (stands_at c 0 s.num_vnodes_per_backend q ≡ true)

pub record Consistent (s : HashRing) : Type 0 where
  pub sorted : IsSorted s.ring
  pub owned :
      (c v : ℕ)
      → contains s.active_backends c ≡ true
      → v < s.num_vnodes_per_backend
      → find (vnode_hash c v) s.ring ≡ some c
  pub known : (q c : ℕ) → find q s.ring ≡ some c → Known s q c

-- None of the vnodes of `b` falls on a vnode that is in the ring.
abbrev pub NoCollision : ℕ → HashRing → Type 0
NoCollision b s = (v : ℕ) → v < s.num_vnodes_per_backend → find (vnode_hash b v) s.ring ≡ none

pub new-Consistent : (vnodes : ℕ) → Consistent (new vnodes)
unfolding new find contains
new-Consistent vnodes = record { sorted = tt; owned = λ c v a l. cc; known = λ q c e. cc }

pub contains-discard :
    (a c : ℕ) (xs : List ℕ) → contains (discard a xs) c ≡ (if a == c then false else contains xs c)
unfolding contains discard
contains-discard a c [] = ground arith
contains-discard a c (x ∷ xs) = ground (arith, contains-discard a c xs)

-- A vnode of `b` stands on no entry, so no entry is where a vnode of `b` stands.
pub apart :
    (b : ℕ) (s : HashRing) (q c : ℕ)
    → NoCollision b s
    → find q s.ring ≡ some c
    → stands_at b 0 s.num_vnodes_per_backend q ≡ false
apart b s q c free e = elim (Bool-cases (stands_at b 0 s.num_vnodes_per_backend q)) [
  | inr no_vnode ↦ no_vnode
  | inl vnode ↦
      let (v, lo, hi, at) = vnode-stands_at b 0 s.num_vnodes_per_backend q vnode in
      let none_here = free v (omega arith) in let here = rw at at e in cc
]

module _ (b : ℕ) (s : HashRing) (ok : Consistent s) where
  abbrev rounds : ℕ
  rounds = s.num_vnodes_per_backend

  -- The ring with the vnodes of an inactive backend added.
  abbrev grown : HashRing
  grown = record s { ring = add_vnodes b 0 rounds s.ring; active_backends = b ∷ s.active_backends }

  grown-owned :
      NoCollision b s
      → (c v : ℕ) → contains (b ∷ s.active_backends) c ≡ true
      → v < rounds
      → find (vnode_hash c v) (add_vnodes b 0 rounds s.ring) ≡ some c
  unfolding contains
  grown-owned free c v a l =
      rw (find-add_vnodes b 0 rounds (vnode_hash c v) s.ring) (elim (Bool-cases (b == c)) [
        | inl same ↦ ground (arith, stands_at-vnode b 0 rounds v)
        | inr other ↦ ground (arith, ok.owned c v, apart b s (vnode_hash c v) c free)
      ])

  grown-Known : (q c : ℕ) → find q (add_vnodes b 0 rounds s.ring) ≡ some c → Known grown q c
  unfolding contains
  grown-Known q c e =
      let e' = rw (find-add_vnodes b 0 rounds q s.ring) at e in ground (arith, ok.known q c)

  -- Adding a backend whose vnodes collide with none in the ring keeps a consistent ring consistent.
  pub add_backend-Consistent : NoCollision b s → Consistent (add_backend b s)
  unfolding add_backend
  add_backend-Consistent free = elim (Bool-cases (contains s.active_backends b)) [
    | inl present ↦ rw present ok
    | inr absent ↦ rw absent (record {
      sorted = add_vnodes-IsSorted b 0 rounds s.ring ok.sorted;
      owned = grown-owned free;
      known = grown-Known;
    })
  ]

  -- An entry where a vnode of an active backend stands is that backend's.
  pub owner :
      (q c : ℕ)
      → contains s.active_backends b ≡ true
      → find q s.ring ≡ some c
      → stands_at b 0 rounds q ≡ true
      → b ≡ c
  owner q c present e vnode =
      let (v, lo, hi, at) = vnode-stands_at b 0 rounds q vnode in
      let mine = ok.owned b v present (omega arith) in let here = rw at at e in cc

  abbrev shrunk : HashRing
  shrunk = record s {
    ring = remove_vnodes b 0 rounds s.ring;
    active_backends = discard b s.active_backends;
  }

  shrunk-owned :
      contains s.active_backends b ≡ true
      → (c v : ℕ) → contains (discard b s.active_backends) c ≡ true
      → v < rounds
      → find (vnode_hash c v) (remove_vnodes b 0 rounds s.ring) ≡ some c
  shrunk-owned present c v a l = rw (find-remove_vnodes b 0 rounds (vnode_hash c v) s.ring) (
      ground (
        arith,
        ok.owned c v,
        owner (vnode_hash c v) c present,
        contains-discard b c s.active_backends,
      ))

  shrunk-Known : (q c : ℕ) → find q (remove_vnodes b 0 rounds s.ring) ≡ some c → Known shrunk q c
  shrunk-Known q c e =
      let e' = rw (find-remove_vnodes b 0 rounds q s.ring) at e in
      ground (arith, ok.known q c, contains-discard b c s.active_backends)

  -- Removing a backend, active or not, keeps a consistent ring consistent.
  pub remove_backend-Consistent : Consistent (remove_backend b s)
  unfolding remove_backend
  remove_backend-Consistent = elim (Bool-cases (contains s.active_backends b)) [
    | inr absent ↦ rw absent ok
    | inl present ↦ rw present (record {
      sorted = remove_vnodes-IsSorted b 0 rounds s.ring ok.sorted;
      owned = shrunk-owned present;
      known = shrunk-Known;
    })
  ]

-- The keys of a consistent ring are 64-bit words.
keys_below :
    (bound : ℕ) (r : Entries)
    → IsSorted r
    → ((q c : ℕ) → find q r ≡ some c → q < bound)
    → All (λ e. e.0 < bound) r
unfolding find
keys_below bound [] s h = tt
keys_below bound ((k, c) ∷ r) s h = (
  h k c (ground arith),
  keys_below bound r (Above-IsSorted k r s) (λ q d e. h q d (ground (arith, find-Above q k r s))),
)

pub Consistent-InWord : (s : HashRing) → Consistent s → All (λ e. e.0 < word) s.ring
unfolding vnode_hash
Consistent-InWord s ok = keys_below word s.ring ok.sorted (λ q c e.
    let (v, lo, hi, at) = vnode-stands_at c 0 s.num_vnodes_per_backend q (ok.known q c e).1 in
    rw at (hash_key-lt-word (vnode_key c v)))

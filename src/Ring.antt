-- ===== src/Ring.antt =====
-- hash_ring.hpp and hash_ring.cpp. The `std::map` is the list of its entries, the vnode's hash and
-- the backend's index, in the order of iteration; an iterator is a position in that list.
pub mod Entries
pub mod Keys
pub mod Lookup
pub mod Nearest
pub mod Live
pub mod Below
pub mod Vnodes
pub mod Consistent
pub mod Reshuffle
pub mod Fleet
use aegis_proxy.Common.{
  ℕ, zero, suc, ◌+◌, Bool, true, false, ◌||◌, not, List, [], ◌∷◌, ◌++◌, Option, none, some, ltb,
  ◌==◌, if◌then◌else◌, length, get_elem?,
}
use aegis_proxy.Text.{Bytes, bytes, to_string}
use aegis_proxy.Hash.{hash_key}

abbrev pub Entries : Type 0
Entries = List (ℕ × ℕ)

-- `ring_[h] = backend`.
pub put : ℕ → ℕ → Entries → Entries
put h b [] = (h, b) ∷ []
put h b ((k, c) ∷ r) =
    let rest = put h b r in
    if ltb h k then (h, b) ∷ (k, c) ∷ r else if h == k then (k, b) ∷ r else (k, c) ∷ rest

-- `ring_.erase(h)`.
pub erase : ℕ → Entries → Entries
erase h [] = []
erase h ((k, c) ∷ r) = if h == k then erase h r else (k, c) ∷ erase h r

-- `count` of an `std::unordered_set`.
unfoldable pub contains : List ℕ → ℕ → Bool
contains [] a = false
contains (x ∷ xs) a = (x == a) || contains xs a

pub discard : ℕ → List ℕ → List ℕ
discard a [] = []
discard a (x ∷ xs) = if x == a then discard a xs else x ∷ discard a xs

pub record HashRing : Type 0 where
  pub num_vnodes_per_backend : ℕ
  pub ring : Entries
  pub active_backends : List ℕ

unfoldable pub new : ℕ → HashRing
new vnodes = record { num_vnodes_per_backend = vnodes; ring = []; active_backends = [] }

unfoldable pub vnode_key : ℕ → ℕ → Bytes
vnode_key backend vnode = to_string backend ++ (bytes "#" ++ to_string vnode)

-- Where vnode `v` of a backend stands.
unfoldable pub vnode_hash : ℕ → ℕ → ℕ
unfolding vnode_key
vnode_hash backend vnode = hash_key (vnode_key backend vnode)

-- The loop of add_backend, with `k` rounds left from vnode `v` on.
pub add_vnodes : ℕ → ℕ → ℕ → Entries → Entries
add_vnodes b v zero r = r
add_vnodes b v (suc k) r = add_vnodes b (v + 1) k (put (vnode_hash b v) b r)

unfoldable pub add_backend : ℕ → HashRing → HashRing
unfolding contains put vnode_hash add_vnodes
add_backend b s = if contains s.active_backends b then s else record s {
  ring = add_vnodes b 0 s.num_vnodes_per_backend s.ring;
  active_backends = b ∷ s.active_backends;
}

pub remove_vnodes : ℕ → ℕ → ℕ → Entries → Entries
remove_vnodes b v zero r = r
remove_vnodes b v (suc k) r = remove_vnodes b (v + 1) k (erase (vnode_hash b v) r)

unfoldable pub remove_backend : ℕ → HashRing → HashRing
unfolding contains discard erase vnode_hash remove_vnodes
remove_backend b s = if not (contains s.active_backends b) then s else record s {
  ring = remove_vnodes b 0 s.num_vnodes_per_backend s.ring;
  active_backends = discard b s.active_backends;
}

-- `lower_bound(h)`: the position of the first entry whose key is not less than `h`, or the end.
pub lower_bound : ℕ → Entries → ℕ
lower_bound h [] = 0
lower_bound h ((k, c) ∷ r) = if ltb k h then suc (lower_bound h r) else 0

-- The iterator of a look-up: at the end it wraps round to the beginning.
pub start_at : ℕ → Entries → ℕ
unfolding lower_bound
start_at h r = if lower_bound h r == length r then 0 else lower_bound h r

abbrev pub backend_at : Entries → ℕ → Option ℕ
backend_at r i = elim (get_elem? r i) [ none ↦ none | some e ↦ some e.1 ]

pub lookup : Bytes → Entries → Option ℕ
unfolding start_at
lookup key [] = none
lookup key (e ∷ r) = backend_at (e ∷ r) (start_at (hash_key key) (e ∷ r))

unfoldable pub get_backend : Bytes → HashRing → Option ℕ
unfolding lookup
get_backend key s = lookup key s.ring

-- How the loop of get_backend_excluding ends.
pub data Walk : Type 0 where
  found : ℕ → Walk
  exhausted out_of_fuel : Walk

abbrev pub advance : Entries → ℕ → ℕ
advance r it = if it + 1 == length r then 0 else it + 1

pub walk : ℕ → Entries → List ℕ → ℕ → ℕ → Walk
unfolding contains
walk zero r excluded start it = out_of_fuel
walk (suc fuel) r excluded start it = elim (get_elem? r it) [
  | none ↦ out_of_fuel
  | some e ↦ elim (contains excluded e.1) [
    | false ↦ found e.1
    | true ↦ elim (advance r it == start) [
      | true ↦ exhausted
      | false ↦ walk fuel r excluded start (advance r it)
    ]
  ]
]

-- What get_backend_excluding returns.
abbrev pub walk_result : Walk → Option ℕ
walk_result (found b) = some b
walk_result exhausted = none
walk_result out_of_fuel = none

-- The loop visits every entry at most once, so the fuel is the size of the ring. An empty ring is
-- returned from before the loop.
pub lookup_excluding : Bytes → List ℕ → Entries → Walk
unfolding start_at walk
lookup_excluding key excluded [] = exhausted
lookup_excluding key excluded (e ∷ r) =
    let start = start_at (hash_key key) (e ∷ r) in
    walk (length (e ∷ r)) (e ∷ r) excluded start start

unfoldable pub get_backend_excluding : Bytes → List ℕ → HashRing → Option ℕ
unfolding lookup_excluding
get_backend_excluding key excluded s = walk_result (lookup_excluding key excluded s.ring)

unfoldable pub backend_count : HashRing → ℕ
backend_count s = length s.active_backends

unfoldable pub vnode_count : HashRing → ℕ
vnode_count s = length s.ring

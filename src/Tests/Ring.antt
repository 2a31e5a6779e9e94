-- ===== src/Tests/Ring.antt =====
-- A ring of hash_ring.cpp with two virtual nodes for each backend.
use aegis_proxy.Common.{ℕ, zero, suc, ◌≡◌, ◌≢◌, refl, false, [], ◌∷◌, some, arith}
use aegis_proxy.Text.{Bytes, bytes, to_string}
use aegis_proxy.Hash.{hash_key}
use aegis_proxy.Ring.{
  contains, HashRing, new, add_backend, remove_backend, get_backend, get_backend_excluding,
  lookup_excluding, walk_result, vnode_hash,
}
use aegis_proxy.Ring.Entries.{find}
use aegis_proxy.Ring.Lookup.{first_live, to_walk}
use aegis_proxy.Ring.Lookup.Rotation.{clockwise, lookup_excluding-clockwise}
use aegis_proxy.Ring.Nearest.{Outcome}
use aegis_proxy.Ring.Consistent.{Consistent, NoCollision, new-Consistent, add_backend-Consistent}
use mathlib.Core.Quot
use aegis_proxy.Ring.Fleet.{Fleet, route, leave, departures}
use aegis_proxy.Ring.Reshuffle.{
  remove_backend_keeps, remove_backend-add_backend, add_backend_attracts,
  get_backend_excluding-nearest,
}

abbrev key : Bytes
key = bytes "10.0.0.1"

abbrev one : HashRing
one = add_backend 0 (new 2)

abbrev two : HashRing
two = add_backend 1 one

-- The vnodes of one backend fall on none of the others in the ring.
first_free : NoCollision 0 (new 2)
unfolding new find
first_free v l = refl

second_free : NoCollision 1 one
unfolding new find add_backend hash_key to_string vnode_hash
second_free zero l = refl
second_free (suc zero) l = refl
second_free (suc (suc v)) l = absurd (omega arith)

one-Consistent : Consistent one
one-Consistent = add_backend-Consistent 0 (new 2) (new-Consistent 2) first_free

two-Consistent : Consistent two
two-Consistent = add_backend-Consistent 1 one one-Consistent second_free

to_first : get_backend (bytes "b") two ≡ some 0
unfolding new add_backend hash_key to_string get_backend
to_first = refl

to_second : get_backend key two ≡ some 1
unfolding new add_backend hash_key to_string get_backend
to_second = refl

inactive : contains one.active_backends 1 ≡ false
unfolding new add_backend hash_key to_string contains
inactive = refl

one_is_not_zero : (suc zero ≢ zero) × (zero ≢ suc zero)
one_is_not_zero = (λ e. omega arith, λ e. omega arith)

get_backend_excluding-nearest_example :
    Outcome (hash_key key) (1 ∷ []) two.ring (get_backend_excluding key (1 ∷ []) two)
get_backend_excluding-nearest_example =
    get_backend_excluding-nearest key (1 ∷ []) two two-Consistent

remove_backend_keeps_example : get_backend key (remove_backend 0 two) ≡ some 1
remove_backend_keeps_example =
    remove_backend_keeps 0 1 key two two-Consistent to_second one_is_not_zero.1

add_backend_attracts_example : get_backend (bytes "b") one ≡ some 0
add_backend_attracts_example =
    add_backend_attracts 1 one one-Consistent second_free 0 (bytes "b") inactive to_first
      one_is_not_zero.0

remove_backend-add_backend_example : remove_backend 1 (add_backend 1 one) ≡ one
remove_backend-add_backend_example =
    remove_backend-add_backend 1 one one-Consistent second_free inactive

add_backend-Consistent_example : Consistent (add_backend 1 one)
add_backend-Consistent_example = add_backend-Consistent 1 one one-Consistent second_free

lookup_excluding-clockwise_example :
    (lookup_excluding key (1 ∷ []) two.ring
      ≡ to_walk (first_live (1 ∷ []) (clockwise (hash_key key) two.ring)))
    × (walk_result (lookup_excluding key (1 ∷ []) two.ring)
        ≡ first_live (1 ∷ []) (clockwise (hash_key key) two.ring))
lookup_excluding-clockwise_example = lookup_excluding-clockwise key (1 ∷ []) two.ring

abbrev index : ℕ
index = 12

abbrev vnode : ℕ
vnode = 3

-- The same two backends, which came in the other order.
abbrev other : HashRing
other = add_backend 0 (add_backend 1 (new 2))

two_vnodes : two.num_vnodes_per_backend ≡ 2
unfolding new add_backend hash_key to_string
two_vnodes = refl

abbrev fleet : Fleet 2
fleet = Quot.mk (two, two-Consistent, two_vnodes)

departures_example :
    (leave 0 (leave 1 fleet) ≡ leave 1 (leave 0 fleet))
    × (route key [] (leave 1 fleet) ≡ route key (1 ∷ []) fleet)
departures_example = departures 0 1 key [] fleet

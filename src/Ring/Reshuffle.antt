-- ===== src/Ring/Reshuffle.antt =====
-- How adding and removing a backend moves keys: the promise of hash_ring.hpp, and Test 2 of
-- test_hash_ring.cpp.
use aegis_proxy.Common.{
  ℕ, ◌≡◌, refl, sym, ◌∙◌, ◌≢◌, true, false, List, [], ◌∷◌, some, arith, inl, inr, Bool-cases,
  Option-cases,
}
use aegis_proxy.Text.{Bytes}
use aegis_proxy.Hash.{hash_key}
use aegis_proxy.Ring.{
  Entries, contains, discard, HashRing, add_vnodes, add_backend, remove_vnodes, remove_backend,
  get_backend, get_backend_excluding,
}
use aegis_proxy.Ring.Entries.{find, find-ext}
use aegis_proxy.Ring.Vnodes.{
  remove_vnodes-IsSorted, add_vnodes-IsSorted, find-add_vnodes, find-remove_vnodes,
}
use aegis_proxy.Ring.Lookup.{first_live}
use aegis_proxy.Ring.Lookup.Rotation.{clockwise, lookup-clockwise, lookup_excluding-clockwise}
use aegis_proxy.Ring.Live.{live, live-IsSorted, find-live, lookup-live}
use aegis_proxy.Ring.Nearest.{Outcome, get_backend_excluding-Outcome}
use aegis_proxy.Ring.Consistent.{
  Consistent, NoCollision, owner, apart, add_backend-Consistent, Consistent-InWord,
}

module _ (b : ℕ) (s : HashRing) (ok : Consistent s) where
  -- Removing a backend takes away the entries that are its own, and no others.
  pub remove_backend-live : (remove_backend b s).ring ≡ live (b ∷ []) s.ring
  unfolding remove_backend
  remove_backend-live = elim (Bool-cases (contains s.active_backends b)) [
    | inl present ↦ rw present (
        find-ext _ _ (remove_vnodes-IsSorted b 0 s.num_vnodes_per_backend s.ring ok.sorted)
          (live-IsSorted (b ∷ []) s.ring ok.sorted) (same present))
    | inr absent ↦
        rw absent
          (find-ext _ _ ok.sorted (live-IsSorted (b ∷ []) s.ring ok.sorted) (unchanged absent))
  ]
    where
      same :
          contains s.active_backends b ≡ true
          → (q : ℕ)
          → find q (remove_vnodes b 0 s.num_vnodes_per_backend s.ring)
            ≡ find q (live (b ∷ []) s.ring)
      same present q =
          rw
            (
              find-remove_vnodes b 0 s.num_vnodes_per_backend q s.ring,
              find-live b q s.ring ok.sorted,
            )
            (elim (Option-cases (find q s.ring)) [
              | inl none_here ↦ ground arith
              | inr (c, here) ↦ ground (arith, owner b s ok q c present here, ok.known q c here)
            ])

      unchanged :
          contains s.active_backends b ≡ false
          → (q : ℕ) → find q s.ring ≡ find q (live (b ∷ []) s.ring)
      unchanged absent q =
          rw (find-live b q s.ring ok.sorted) (elim (Option-cases (find q s.ring)) [
            | inl none_here ↦ rw none_here
            | inr (c, here) ↦ rw here (ground (arith, ok.known q c here))
          ])

  -- Once a backend is removed from a consistent ring, every key goes where a look-up that skips that backend would send it.
  pub get_backend-remove_backend :
      (key : Bytes) → get_backend key (remove_backend b s) ≡ get_backend_excluding key (b ∷ []) s
  unfolding get_backend get_backend_excluding
  get_backend-remove_backend key =
      rw remove_backend-live (lookup-live (b ∷ []) key s.ring ok.sorted)

first_live-other :
    (b c : ℕ) (r : Entries) → first_live [] r ≡ some c → b ≢ c → first_live (b ∷ []) r ≡ some c
unfolding first_live contains
first_live-other b c [] e n = cc
first_live-other b c ((k, d) ∷ r) e n = ground arith

pub get_backend-other :
    (b c : ℕ) (key : Bytes) (s : HashRing)
    → get_backend key s ≡ some c
    → b ≢ c
    → get_backend_excluding key (b ∷ []) s ≡ some c
unfolding get_backend get_backend_excluding
get_backend-other b c key s e n = rw ((lookup_excluding-clockwise key (b ∷ []) s.ring).1) (
    first_live-other b c (clockwise (hash_key key) s.ring) (rw (lookup-clockwise key s.ring) at e)
      n)

-- Removing a backend from a consistent ring moves no key of another backend.
pub remove_backend_keeps :
    (b c : ℕ) (key : Bytes) (s : HashRing)
    → Consistent s
    → get_backend key s ≡ some c
    → b ≢ c
    → get_backend key (remove_backend b s) ≡ some c
remove_backend_keeps b c key s ok e n =
    get_backend-remove_backend b s ok key ∙ get_backend-other b c key s e n

discard_absent : (b : ℕ) (xs : List ℕ) → contains xs b ≡ false → discard b xs ≡ xs
unfolding contains discard
discard_absent b [] h = refl
discard_absent b (x ∷ xs) h = ground (arith, discard_absent b xs)

module _ (b : ℕ) (s : HashRing) (ok : Consistent s) (free : NoCollision b s) where
  added_vnodes :
      (q : ℕ)
      → find q (
          remove_vnodes b 0 s.num_vnodes_per_backend
            (add_vnodes b 0 s.num_vnodes_per_backend s.ring))
        ≡ find q s.ring
  added_vnodes q =
      rw
        (
          find-remove_vnodes b 0 s.num_vnodes_per_backend q
              (add_vnodes b 0 s.num_vnodes_per_backend s.ring),
          find-add_vnodes b 0 s.num_vnodes_per_backend q s.ring,
        )
        (elim (Option-cases (find q s.ring)) [
          | inl none_here ↦ ground arith
          | inr (c, here) ↦ ground (arith, apart b s q c free here)
        ])

  -- Adding an inactive backend to a consistent ring, with no collision, and removing it again gives the
  -- old ring back.
  pub remove_backend-add_backend :
      contains s.active_backends b ≡ false → remove_backend b (add_backend b s) ≡ s
  unfolding remove_backend add_backend contains
  remove_backend-add_backend absent =
      let same =
        find-ext _ s.ring
          (remove_vnodes-IsSorted b 0 s.num_vnodes_per_backend _
            (add_vnodes-IsSorted b 0 s.num_vnodes_per_backend s.ring ok.sorted))
          ok.sorted added_vnodes in
      ground (arith, same, discard_absent b s.active_backends absent)

  -- Adding an inactive backend to a consistent ring, with no collision, moves keys to that backend only.
  pub add_backend_attracts :
      (c : ℕ) (key : Bytes)
      → contains s.active_backends b ≡ false
      → get_backend key (add_backend b s) ≡ some c
      → b ≢ c
      → get_backend key s ≡ some c
  add_backend_attracts c key absent e n =
      let after =
        remove_backend_keeps b c key (add_backend b s) (add_backend-Consistent b s ok free) e n in
      rw (remove_backend-add_backend absent) at after

-- On a consistent ring get_backend_excluding gives no backend exactly where every backend on the ring
-- is excluded, and otherwise the owner of a vnode that no vnode of a backend that is not excluded
-- precedes clockwise from the key's hash.
pub get_backend_excluding-nearest :
    (key : Bytes) (excluded : List ℕ) (s : HashRing)
    → Consistent s
    → Outcome (hash_key key) excluded s.ring (get_backend_excluding key excluded s)
get_backend_excluding-nearest key excluded s ok =
    get_backend_excluding-Outcome key excluded s ok.sorted (Consistent-InWord s ok)

-- On a consistent ring, skipping backends in a look-up gives what get_backend gives on the ring without their entries.
pub get_backend-live :
    (key : Bytes) (excluded : List ℕ) (s : HashRing)
    → Consistent s
    → get_backend_excluding key excluded s
      ≡ get_backend key (record s { ring = live excluded s.ring })
unfolding get_backend get_backend_excluding
get_backend-live key excluded s ok = sym (lookup-live excluded key s.ring ok.sorted)

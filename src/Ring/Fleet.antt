-- ===== src/Ring/Fleet.antt =====
-- HashRing in hash_ring.cpp as the set of its active backends, whatever the order in which they came
-- and went.
use aegis_proxy.Common.{
  ℕ, ◌≡◌, refl, sym, ◌∙◌, false, List, [], ◌∷◌, Option, some, arith, inl, inr, Option-cases,
  if◌then◌else◌, ◌==◌,
}
use mathlib.Core.Quot
use mathlib.Core.Quot.{Quot, Quot-set}
use aegis_proxy.Text.{Bytes}
use aegis_proxy.Hash.{hash_key}
use aegis_proxy.Ring.Lookup.Rotation.{clockwise, lookup_excluding-clockwise}
use aegis_proxy.Ring.Live.{live, clockwise-live, first_live-live_more}
use aegis_proxy.Ring.Reshuffle.{remove_backend-live}
use aegis_proxy.Ring.{
  contains, HashRing, remove_backend, get_backend, get_backend_excluding, vnode_count,
}
use aegis_proxy.Ring.Entries.{find, find-ext}
use aegis_proxy.Ring.Vnodes.{vnode-stands_at}
use aegis_proxy.Ring.Consistent.{Consistent, contains-discard, remove_backend-Consistent}

-- Two rings with the same number of vnodes for a backend and the same active backends.
abbrev pub SameBackends : HashRing → HashRing → Type 0
SameBackends s t =
    (s.num_vnodes_per_backend ≡ t.num_vnodes_per_backend)
    × ((c : ℕ) → contains s.active_backends c ≡ contains t.active_backends c)

SameBackends-sym : (s t : HashRing) → SameBackends s t → SameBackends t s
SameBackends-sym s t e = (sym e.0, λ c. sym (e.1 c))

-- What stands at a position of one ring stands there in the other.
carried :
    (s t : HashRing)
    → Consistent s
    → Consistent t
    → SameBackends s t
    → (q c : ℕ) → find q s.ring ≡ some c
    → find q t.ring ≡ some c
carried s t p r e q c here =
    let (active, stands) = p.known q c here in
    let (v, lo, hi, at) = vnode-stands_at c 0 s.num_vnodes_per_backend q stands in
    rw at (r.owned c v (sym (e.1 c) ∙ active) (omega (arith, e.0)))

same_find :
    (s t : HashRing)
    → Consistent s
    → Consistent t
    → SameBackends s t
    → (q : ℕ) → find q s.ring ≡ find q t.ring
same_find s t p r e q = elim (Option-cases (find q s.ring)) [
  | inr (c, here) ↦ here ∙ sym (carried s t p r e q c here)
  | inl absent ↦ elim (Option-cases (find q t.ring)) [
    | inl also_absent ↦ absent ∙ sym also_absent
    | inr (c, there) ↦ let here = carried t s r p (SameBackends-sym s t e) q c there in cc
  ]
]

module _ (s t : HashRing) (p : Consistent s) (r : Consistent t) (e : SameBackends s t) where
  same_ring : s.ring ≡ t.ring
  same_ring = find-ext s.ring t.ring p.sorted r.sorted (same_find s t p r e)

  pub same_routes :
      (key : Bytes) (excluded : List ℕ)
      → (get_backend key s ≡ get_backend key t)
        × (get_backend_excluding key excluded s ≡ get_backend_excluding key excluded t)
        × (vnode_count s ≡ vnode_count t)
  unfolding get_backend get_backend_excluding vnode_count
  same_routes key excluded = rw same_ring (refl, refl, refl)

-- A look-up behind the departure of a backend is a look-up that skips it too.
get_backend_excluding-remove_backend :
    (b : ℕ) (s : HashRing) (p : Consistent s) (key : Bytes) (excluded : List ℕ)
    → get_backend_excluding key excluded (remove_backend b s)
      ≡ get_backend_excluding key (b ∷ excluded) s
unfolding get_backend_excluding
get_backend_excluding-remove_backend b s p key excluded = rw (
  remove_backend-live b s p,
  (lookup_excluding-clockwise key excluded (live (b ∷ []) s.ring)).1,
  clockwise-live (b ∷ []) (hash_key key) s.ring p.sorted,
  first_live-live_more b excluded (clockwise (hash_key key) s.ring),
  (lookup_excluding-clockwise key (b ∷ excluded) s.ring).1,
)

rounds :
    (b : ℕ) (s : HashRing) → (remove_backend b s).num_vnodes_per_backend ≡ s.num_vnodes_per_backend
unfolding remove_backend
rounds b s = ground arith

contains-remove_backend :
    (b c : ℕ) (s : HashRing)
    → contains (remove_backend b s).active_backends c
      ≡ (if b == c then false else contains s.active_backends c)
unfolding remove_backend
contains-remove_backend b c s = ground (arith, contains-discard b c s.active_backends)

remove_backend-SameBackends :
    (b : ℕ) (s t : HashRing)
    → SameBackends s t
    → SameBackends (remove_backend b s) (remove_backend b t)
remove_backend-SameBackends b s t e = (
  rounds b s ∙ e.0 ∙ sym (rounds b t),
  λ c. rw (contains-remove_backend b c s, contains-remove_backend b c t, e.1 c) refl,
)

-- The consistent rings with this many vnodes for a backend.
abbrev pub Member : ℕ → Type 0
Member vnodes = (s : HashRing) × Consistent s × (s.num_vnodes_per_backend ≡ vnodes)

abbrev pub Fleet : ℕ → Type 0
Fleet vnodes = Quot (λ (x y : Member vnodes). SameBackends x.0 y.0)

module _ {vnodes : ℕ} where
  pub route : Bytes → List ℕ → Fleet vnodes → Option ℕ
  route key excluded =
      Quot.lift (hlevel) (λ x. get_backend_excluding key excluded x.0)
        (λ x y e. (same_routes x.0 y.0 x.1 y.1 e key excluded).1)

  left : ℕ → Member vnodes → Member vnodes
  left b (s, p, e) = (remove_backend b s, remove_backend-Consistent b s p, rounds b s ∙ e)

  -- A backend goes.
  pub leave : ℕ → Fleet vnodes → Fleet vnodes
  unfolding left
  leave b =
      Quot.lift Quot-set (λ x. Quot.mk (left b x))
        (λ x y e. Quot.sound (remove_backend-SameBackends b x.0 y.0 e))

  left_comm :
      (a b : ℕ) (x : Member vnodes) → SameBackends (left a (left b x)).0 (left b (left a x)).0
  unfolding left
  left_comm a b (s, p, e) = (
    rounds a (remove_backend b s) ∙ rounds b s ∙ sym (rounds b (remove_backend a s) ∙ rounds a s),
    λ c.
        rw
          (
            contains-remove_backend a c (remove_backend b s),
            contains-remove_backend b c s,
            contains-remove_backend b c (remove_backend a s),
            contains-remove_backend a c s,
          )
          (ground arith),
  )

  -- On the sets of backends the order of departures is an equation, and a look-up behind a departure
  -- is a look-up that skips the backend that went, whatever else it skips.
  pub departures :
      (a b : ℕ) (key : Bytes) (excluded : List ℕ) (f : Fleet vnodes)
      → (leave a (leave b f) ≡ leave b (leave a f))
        × (route key excluded (leave b f) ≡ route key (b ∷ excluded) f)
  unfolding route leave left
  departures a b key excluded f = (
    Quot.ind {β = λ f. leave a (leave b f) ≡ leave b (leave a f)} (λ f. Quot-set _ _)
        (λ x. Quot.sound (left_comm a b x)) f,
    Quot.ind {β = λ f. route key excluded (leave b f) ≡ route key (b ∷ excluded) f} (λ f. hlevel)
        (λ x. get_backend_excluding-remove_backend b x.0 x.1 key excluded) f,
  )

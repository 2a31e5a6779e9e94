-- ===== src/Ring/Nearest.antt =====
-- The distance clockwise from a key to the vnodes of hash_ring.cpp.
use aegis_proxy.Common.{
  ℕ, ◌+◌, ◌-◌, ◌%◌, ◌≤◌, ◌<◌, ◌≡◌, refl, ◌⊎◌, inl, inr, true, false, List, [], ◌∷◌, ◌++◌, Option,
  none, some, arith, All, All-append, All-left, All-right, All-map, ltb, Bool-cases,
}
use aegis_proxy.Text.{Bytes}
use aegis_proxy.Hash.{word, hash_key}
use aegis_proxy.Hash.Bound.{hash_key-lt-word}
use aegis_proxy.Ring.{Entries, HashRing, contains, get_backend_excluding}
use aegis_proxy.Ring.Entries.{Above, IsSorted, Above-IsSorted, Above-weaken}
use aegis_proxy.Ring.Lookup.{first_live}
use aegis_proxy.Ring.Lookup.Rotation.{
  below, from, clockwise, below-append-from, lookup_excluding-clockwise,
}

-- The way from a key's hash to a vnode, clockwise on the ring of 64-bit words.
abbrev pub distance : ℕ → ℕ → ℕ
distance h k = (k + word - h) % word

abbrev pub Has : ℕ → ℕ → Entries → Type 0
Has k c [] = ⊥
Has k c (e ∷ r) = ((e.0 ≡ k) × (e.1 ≡ c)) ⊎ Has k c r

Has-left : (k c : ℕ) (xs ys : Entries) → Has k c xs → Has k c (xs ++ ys)
Has-left k c [] ys h = absurd h
Has-left k c (x ∷ xs) ys (inl e) = inl e
Has-left k c (x ∷ xs) ys (inr h) = inr (Has-left k c xs ys h)

Has-right : (k c : ℕ) (xs ys : Entries) → Has k c ys → Has k c (xs ++ ys)
Has-right k c [] ys h = h
Has-right k c (x ∷ xs) ys h = inr (Has-right k c xs ys h)

Has-split : (k c : ℕ) (xs ys : Entries) → Has k c (xs ++ ys) → Has k c xs ⊎ Has k c ys
Has-split k c [] ys h = inr h
Has-split k c (x ∷ xs) ys (inl e) = inl (inl e)
Has-split k c (x ∷ xs) ys (inr h) = elim (Has-split k c xs ys h) [
  | inl l ↦ inl (inr l)
  | inr r ↦ inr r
]

-- No vnode of a backend that may be used is nearer than `k`.
abbrev pub IsNearest : ℕ → List ℕ → ℕ → Entries → Type 0
IsNearest h excluded k r =
    All (λ e. (contains excluded e.1 ≡ true) ⊎ (distance h k ≤ distance h e.0)) r

-- The result of a look-up: no backend if all are excluded, else the owner of the nearest vnode.
abbrev pub Outcome : ℕ → List ℕ → Entries → Option ℕ → Type 0
Outcome h excluded r none = All (λ e. contains excluded e.1 ≡ true) r
Outcome h excluded r (some c) =
    (k : ℕ) × Has k c r × (contains excluded c ≡ false) × IsNearest h excluded k r

-- Distances grow along the list.
abbrev Ordered : ℕ → Entries → Type 0
Ordered h [] = Unit {0}
Ordered h (e ∷ r) = All (λ f. distance h e.0 ≤ distance h f.0) r × Ordered h r

Ordered-append :
    (h : ℕ) (xs ys : Entries)
    → Ordered h xs
    → Ordered h ys
    → All (λ e. All (λ f. distance h e.0 ≤ distance h f.0) ys) xs
    → Ordered h (xs ++ ys)
Ordered-append h [] ys p q a = q
Ordered-append h (x ∷ xs) ys p q a = (
  All-append (λ f. distance h x.0 ≤ distance h f.0) xs ys p.0 a.0,
  Ordered-append h xs ys p.1 q a.1,
)

Outcome-skip :
    (h : ℕ) (excluded : List ℕ) (e : ℕ × ℕ) (r : Entries) (o : Option ℕ)
    → contains excluded e.1 ≡ true
    → Outcome h excluded r o
    → Outcome h excluded (e ∷ r) o
Outcome-skip h excluded e r none skipped p = (skipped, p)
Outcome-skip h excluded e r (some c) skipped (k, has, free, near) =
    (k, inr has, free, (inl skipped, near))

first_live-Outcome :
    (h : ℕ) (excluded : List ℕ) (r : Entries)
    → Ordered h r
    → Outcome h excluded r (first_live excluded r)
unfolding first_live
first_live-Outcome h excluded [] o = tt
first_live-Outcome h excluded ((k, c) ∷ r) o = elim (Bool-cases (contains excluded c)) [
  | inl skipped ↦
      rw (skipped, first_live)
        (Outcome-skip h excluded (k, c) r (first_live excluded r) skipped
          (first_live-Outcome h excluded r o.1))
  | inr free ↦
      rw (free, first_live)
        (k, inl (refl, refl), free, (inr (omega arith), All-map _ r (λ e l. inr l) o.0))
]

-- On a sorted ring of 64-bit words both parts of the rotation ascend.
Above-All : (lo : ℕ) (r : Entries) → Above lo r → All (λ e. lo < e.0) r
Above-All lo [] a = tt
Above-All lo ((k, c) ∷ r) a = (a.0, All-map _ r (λ e l. omega arith) (Above-All k r a.1))

abbrev pub InWord : Entries → Type 0
InWord r = All (λ e. e.0 < word) r

from-le : (h : ℕ) (r : Entries) → IsSorted r → All (λ e. h ≤ e.0) (from h r)
unfolding from
from-le h [] s = tt
from-le h ((k, c) ∷ r) s = elim (Bool-cases (ltb k h)) [
  | inl low ↦ rw (low, from) (from-le h r (Above-IsSorted k r s))
  | inr high ↦ rw (high, from) (ground arith, All-map _ r (λ e l. ground arith) (Above-All k r s))
]

below-lt : (h : ℕ) (r : Entries) → All (λ e. e.0 < h) (below h r)
unfolding below
below-lt h [] = tt
below-lt h ((k, c) ∷ r) = elim (Bool-cases (ltb k h)) [
  | inl low ↦ rw (low, below) (ground arith, below-lt h r)
  | inr high ↦ rw (high, below) tt
]

Above-right : (lo : ℕ) (xs ys : Entries) → Above lo (xs ++ ys) → Above lo ys
Above-right lo [] ys a = a
Above-right lo ((k, c) ∷ xs) ys a = Above-weaken lo k ys (omega arith) (Above-right k xs ys a.1)

Above-left : (lo : ℕ) (xs ys : Entries) → Above lo (xs ++ ys) → Above lo xs
Above-left lo [] ys a = tt
Above-left lo ((k, c) ∷ xs) ys a = (a.0, Above-left k xs ys a.1)

-- Where the distance grows with the key, ascending keys are ordered by distance.
Ordered-part :
    (h : ℕ) (P : ℕ → Type 0) (r : Entries)
    → ((j k : ℕ) → P j → P k → j < k → k < word → distance h j ≤ distance h k)
    → IsSorted r
    → InWord r
    → All (λ e. P e.0) r
    → Ordered h r
Ordered-part h P [] mono s w p = tt
Ordered-part h P ((k, c) ∷ r) mono s w p =
    (later r (Above-All k r s) w.1 p.1, Ordered-part h P r mono (Above-IsSorted k r s) w.1 p.1)
  where
    later :
        (t : Entries)
        → All (λ e. k < e.0) t
        → InWord t
        → All (λ e. P e.0) t
        → All (λ e. distance h k ≤ distance h e.0) t
    later [] a b q = tt
    later (e ∷ t) a b q = (mono k e.0 p.0 q.0 a.0 b.0, later t a.1 b.1 q.1)

IsSorted-left : (xs ys : Entries) → IsSorted (xs ++ ys) → IsSorted xs
IsSorted-left [] ys s = tt
IsSorted-left ((k, c) ∷ xs) ys s = Above-left k xs ys s

IsSorted-right : (xs ys : Entries) → IsSorted (xs ++ ys) → IsSorted ys
IsSorted-right [] ys s = s
IsSorted-right ((k, c) ∷ xs) ys s = Above-IsSorted k ys (Above-right k xs ys s)

across :
    (h : ℕ) (xs ys : Entries)
    → All (λ e. h ≤ e.0) xs
    → InWord xs
    → All (λ e. e.0 < h) ys
    → h < word
    → All (λ e. All (λ f. distance h e.0 ≤ distance h f.0) ys) xs
across h [] ys a w b l = tt
across h (x ∷ xs) ys a w b l = (All-map _ ys (λ f low. omega arith) b, across h xs ys a.1 w.1 b l)

clockwise-Ordered :
    (h : ℕ) (r : Entries) → h < word → IsSorted r → InWord r → Ordered h (clockwise h r)
unfolding clockwise
clockwise-Ordered h r l s w =
    let xs = below h r in
    let ys = from h r in
    let whole = below-append-from h r in
    let s' : IsSorted (xs ++ ys) = rw whole s in
    let w' : InWord (xs ++ ys) = rw whole w in
    let low = below-lt h r in
    let high = from-le h r s in
    Ordered-append h ys xs
      (Ordered-part h (λ k. h ≤ k) ys (λ j k p q lt lw. omega arith) (IsSorted-right xs ys s')
        (All-right _ xs ys w') high)
      (Ordered-part h (λ k. k < h) xs (λ j k p q lt lw. omega arith) (IsSorted-left xs ys s')
        (All-left _ xs ys w') low)
      (across h ys xs high (All-right _ xs ys w') low l)

Has-turn : (k c : ℕ) (xs ys : Entries) → Has k c (ys ++ xs) → Has k c (xs ++ ys)
Has-turn k c xs ys h = elim (Has-split k c ys xs h) [
  | inl l ↦ Has-right k c xs ys l
  | inr r ↦ Has-left k c xs ys r
]

All-turn : (P : ℕ × ℕ → Type 0) (xs ys : Entries) → All P (ys ++ xs) → All P (xs ++ ys)
All-turn P xs ys p = All-append P xs ys (All-right P ys xs p) (All-left P ys xs p)

Outcome-turn :
    (h : ℕ) (excluded : List ℕ) (xs ys : Entries) (o : Option ℕ)
    → Outcome h excluded (ys ++ xs) o
    → Outcome h excluded (xs ++ ys) o
Outcome-turn h excluded xs ys none p = All-turn _ xs ys p
Outcome-turn h excluded xs ys (some c) (k, has, free, near) =
    (k, Has-turn k c xs ys has, free, All-turn _ xs ys near)

-- On a ring in order whose keys are 64-bit words, get_backend_excluding gives no backend exactly where
-- every backend on the ring is excluded, and else the owner of a vnode that no vnode of a backend that
-- is not excluded precedes clockwise from the key's hash.
pub get_backend_excluding-Outcome :
    (key : Bytes) (excluded : List ℕ) (s : HashRing)
    → IsSorted s.ring
    → InWord s.ring
    → Outcome (hash_key key) excluded s.ring (get_backend_excluding key excluded s)
unfolding get_backend_excluding clockwise
get_backend_excluding-Outcome key excluded s ok w =
    let h = hash_key key in
    let found =
      first_live-Outcome h excluded (clockwise h s.ring)
        (clockwise-Ordered h s.ring (hash_key-lt-word key) ok w) in
    rw ((lookup_excluding-clockwise key excluded s.ring).1) (
      rw (below-append-from h s.ring) at (
        Outcome-turn h excluded (below h s.ring) (from h s.ring)
          (first_live excluded (clockwise h s.ring)) found))

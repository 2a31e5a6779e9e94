-- ===== src/Ring/Live.antt =====
-- The entries of the ring of hash_ring.cpp whose backends are not excluded, and look-ups in them.
use aegis_proxy.Common.{
  ℕ, suc, ◌≤◌, ◌≡◌, refl, List, [], ◌∷◌, ◌++◌, none, some, arith, ◌==◌, if◌then◌else◌,
}
use aegis_proxy.Text.{Bytes}
use aegis_proxy.Hash.{hash_key}
use aegis_proxy.Ring.{Entries, contains, lookup, lookup_excluding, walk_result}
use aegis_proxy.Ring.Entries.{Above, IsSorted, Above-IsSorted, Above-weaken, find, find-Above}
use aegis_proxy.Ring.Lookup.{first_live}
use aegis_proxy.Ring.Lookup.Rotation.{
  below, from, clockwise, lookup-clockwise, lookup_excluding-clockwise,
}

-- The entries whose backend is not excluded.
pub live : List ℕ → Entries → Entries
live excluded [] = []
live excluded ((k, c) ∷ r) =
    if contains excluded c then live excluded r else (k, c) ∷ live excluded r

module _ (excluded : List ℕ) where
  live-Above : (lo : ℕ) (r : Entries) → Above lo r → Above lo (live excluded r)
  unfolding live
  live-Above lo [] a = tt
  live-Above lo ((k, c) ∷ r) a =
      ground (arith, live-Above k r a.1, live-Above lo r, Above-weaken lo k r)

  pub live-IsSorted : (r : Entries) → IsSorted r → IsSorted (live excluded r)
  unfolding live
  live-IsSorted [] s = tt
  live-IsSorted ((k, c) ∷ r) s =
      ground (arith, live-Above k r s, Above-IsSorted k (live excluded r))

  live-append : (xs ys : Entries) → live excluded (xs ++ ys) ≡ live excluded xs ++ live excluded ys
  unfolding live
  live-append [] ys = refl
  live-append ((k, c) ∷ xs) ys = ground (arith, live-append xs ys)

  first_live-live : (r : Entries) → first_live [] (live excluded r) ≡ first_live excluded r
  unfolding live first_live contains
  first_live-live [] = refl
  first_live-live ((k, c) ∷ r) = ground (arith, first_live-live r)

  from_high : (h lo : ℕ) (r : Entries) → Above lo r → h ≤ suc lo → from h r ≡ r
  unfolding from
  from_high h lo [] a l = refl
  from_high h lo ((k, c) ∷ r) a l = ground arith

  below_high : (h lo : ℕ) (r : Entries) → Above lo r → h ≤ suc lo → below h r ≡ []
  unfolding below
  below_high h lo [] a l = refl
  below_high h lo ((k, c) ∷ r) a l = ground arith

  -- On a sorted ring the entries before and after a hash are filtered apart.
  from-live :
      (h : ℕ) (r : Entries) → IsSorted r → from h (live excluded r) ≡ live excluded (from h r)
  unfolding from live
  from-live h [] s = refl
  from-live h ((k, c) ∷ r) s = ground (
    arith,
    from-live h r (Above-IsSorted k r s),
    from_high h k (live excluded r) (live-Above k r s),
  )

  below-live :
      (h : ℕ) (r : Entries) → IsSorted r → below h (live excluded r) ≡ live excluded (below h r)
  unfolding below live
  below-live h [] s = refl
  below-live h ((k, c) ∷ r) s = ground (
    arith,
    below-live h r (Above-IsSorted k r s),
    below_high h k (live excluded r) (live-Above k r s),
  )

  pub clockwise-live :
      (h : ℕ) (r : Entries)
      → IsSorted r
      → clockwise h (live excluded r) ≡ live excluded (clockwise h r)
  unfolding clockwise
  clockwise-live h r s = rw (from-live h r s, below-live h r s, live-append (from h r) (below h r))

  pub lookup-live :
      (key : Bytes) (r : Entries)
      → IsSorted r
      → lookup key (live excluded r) ≡ walk_result (lookup_excluding key excluded r)
  lookup-live key r s = rw (
    lookup-clockwise key (live excluded r),
    clockwise-live (hash_key key) r s,
    first_live-live (clockwise (hash_key key) r),
    (lookup_excluding-clockwise key excluded r).1,
  )

-- What `find` reads where the entries of one backend are left out.
pub find-live :
    (b q : ℕ) (r : Entries)
    → IsSorted r
    → find q (live (b ∷ []) r)
      ≡ elim (find q r) [ none ↦ none | some c ↦ if b == c then none else some c ]
unfolding find live contains
find-live b q [] s = refl
find-live b q ((k, c) ∷ r) s =
    ground (arith, find-live b q r (Above-IsSorted k r s), find-Above q k r s)

-- A look-up among the entries of the other backends skips one backend more.
pub first_live-live_more :
    (b : ℕ) (excluded : List ℕ) (r : Entries)
    → first_live excluded (live (b ∷ []) r) ≡ first_live (b ∷ excluded) r
unfolding first_live live contains
first_live-live_more b excluded [] = refl
first_live-live_more b excluded ((k, c) ∷ r) = ground (arith, first_live-live_more b excluded r)

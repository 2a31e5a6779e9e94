-- ===== src/Ring/Lookup/Rotation.antt =====
-- The order in which a look-up meets the entries: from the first one that is not below the key's
-- hash up to the end of the map, then from its beginning.
use mathlib.Core.List.{append-nil}
use aegis_proxy.Common.{
  ℕ, zero, suc, ◌+◌, ◌<◌, ◌≡◌, refl, ap, subst, ◌∙◌, true, false, List, [], ◌∷◌, ◌++◌, Option, none,
  some, arith, ltb, ◌==◌, if◌then◌else◌, length, get_elem?, length-append,
}
use aegis_proxy.Text.{Bytes}
use aegis_proxy.Hash.{hash_key}
use aegis_proxy.Ring.{
  Entries, contains, walk, walk_result, lower_bound, start_at, backend_at, lookup, lookup_excluding,
}
use aegis_proxy.Ring.Lookup.{first_live, to_walk, segment, walk_high}

-- The entries below a hash, and the others.
unfoldable pub below : ℕ → Entries → Entries
below h [] = []
below h ((k, c) ∷ r) = if ltb k h then (k, c) ∷ below h r else []

unfoldable pub from : ℕ → Entries → Entries
from h [] = []
from h ((k, c) ∷ r) = if ltb k h then from h r else (k, c) ∷ r

unfoldable pub clockwise : ℕ → Entries → Entries
clockwise h r = from h r ++ below h r

pub below-append-from : (h : ℕ) (r : Entries) → below h r ++ from h r ≡ r
unfolding below from
below-append-from h [] = refl
below-append-from h ((k, c) ∷ r) = ground (arith, below-append-from h r)

lower_bound-length : (h : ℕ) (r : Entries) → lower_bound h r ≡ length (below h r)
unfolding lower_bound below
lower_bound-length h [] = refl
lower_bound-length h ((k, c) ∷ r) = ground (arith, lower_bound-length h r)

segment_skip : (x : ℕ × ℕ) (r : Entries) (i k : ℕ) → segment (x ∷ r) (suc i) k ≡ segment r i k
unfolding segment
segment_skip x r i zero = refl
segment_skip x r i (suc k) = ground (arith, segment_skip x r (i + 1) k)

segment_all : (r : Entries) → segment r 0 (length r) ≡ r
unfolding segment
segment_all [] = refl
segment_all (x ∷ r) = ap (λ t. x ∷ t) (segment_skip x r 0 (length r) ∙ segment_all r)

segment_none : (r : Entries) → segment r 0 0 ≡ []
unfolding segment
segment_none r = refl

segment_front : (xs ys : Entries) → segment (xs ++ ys) 0 (length xs) ≡ xs
unfolding segment
segment_front [] ys = refl
segment_front (x ∷ xs) ys =
    ap (λ t. x ∷ t) (segment_skip x (xs ++ ys) 0 (length xs) ∙ segment_front xs ys)

segment_back : (xs ys : Entries) → segment (xs ++ ys) (length xs) (length ys) ≡ ys
segment_back [] ys = segment_all ys
segment_back (x ∷ xs) ys = segment_skip x (xs ++ ys) (length xs) (length ys) ∙ segment_back xs ys

get_elem?-append : (xs ys : Entries) → get_elem? (xs ++ ys) (length xs) ≡ get_elem? ys 0
get_elem?-append [] ys = refl
get_elem?-append (x ∷ xs) ys = get_elem?-append xs ys

-- A rotation of `xs ++ ys` is read from the start of `ys`, or from 0 where `ys` is empty.
rotation :
    (xs ys : Entries) (excluded : List ℕ)
    → 0 < length (xs ++ ys)
    → let start = if length xs == length (xs ++ ys) then 0 else length xs in
      walk (length (xs ++ ys)) (xs ++ ys) excluded start start
      ≡ to_walk (first_live excluded (ys ++ xs))
rotation [] [] excluded h = absurd (omega arith)
rotation (x ∷ xs) [] excluded h =
    let e : length (x ∷ xs) == length ((x ∷ xs) ++ []) ≡ true = rw append-nil (ground arith) in
    let r = x ∷ xs in
    let w =
      walk_high r excluded 0 (length xs) (length r) 0 (omega arith) (omega arith) (omega arith) in
    rw (e, append-nil (x ∷ xs), append-nil xs)
      (rw (segment_all r, segment_none r, append-nil r) at w)
rotation xs (y ∷ ys) excluded h =
    let n : length xs == length (xs ++ y ∷ ys) ≡ false =
      ground (arith, length-append xs (y ∷ ys)) in
    let r = xs ++ y ∷ ys in
    let len = length-append xs (y ∷ ys) in
    let w =
      walk_high r excluded (length xs) (length ys) (length r) (length xs) (omega arith)
        (omega arith) (omega arith) in
    rw n (rw (segment_back xs (y ∷ ys), segment_front xs (y ∷ ys)) at w)

-- The loop from the wrapped lower bound finds the first live backend clockwise.
walk-clockwise :
    (h : ℕ) (excluded : List ℕ) (r : Entries)
    → 0 < length r
    → walk (length r) r excluded (start_at h r) (start_at h r)
      ≡ to_walk (first_live excluded (clockwise h r))
unfolding start_at clockwise
walk-clockwise h excluded r pos =
    let xs = below h r in
    let ys = from h r in
    let whole = below-append-from h r in
    let turn = rotation xs ys excluded (rw whole pos) in
    rw (lower_bound-length h r) (
      subst
        (λ t.
          walk (length t) t excluded (if length xs == length t then 0 else length xs)
            (if length xs == length t then 0 else length xs)
          ≡ to_walk (first_live excluded (ys ++ xs)))
        whole turn)

walk_result-to_walk : (o : Option ℕ) → walk_result (to_walk o) ≡ o
walk_result-to_walk none = refl
walk_result-to_walk (some b) = refl

-- The loop of the look-up that skips backends never runs out of its fuel, the size of the ring: it
-- ends at the first entry clockwise from the key's hash whose backend is not excluded, and by its own
-- exit where all are, which makes the result none.
pub lookup_excluding-clockwise :
    (key : Bytes) (excluded : List ℕ) (r : Entries)
    → let first = first_live excluded (clockwise (hash_key key) r) in
      (lookup_excluding key excluded r ≡ to_walk first)
      × (walk_result (lookup_excluding key excluded r) ≡ first)
unfolding lookup_excluding
lookup_excluding-clockwise key excluded [] = unfold clockwise from below first_live in (refl, refl)
lookup_excluding-clockwise key excluded (e ∷ r) =
    let ends = walk-clockwise (hash_key key) excluded (e ∷ r) (omega arith) in
    (ends, ap walk_result ends ∙ walk_result-to_walk _)

first_of_rotation :
    (xs ys : Entries)
    → backend_at (xs ++ ys) (if length xs == length (xs ++ ys) then 0 else length xs)
      ≡ first_live [] (ys ++ xs)
unfolding first_live contains
first_of_rotation [] [] = refl
first_of_rotation (x ∷ xs) [] =
    let e : length (x ∷ xs) == length ((x ∷ xs) ++ []) ≡ true = rw append-nil (ground arith) in rw e
first_of_rotation xs (y ∷ ys) =
    let n : length xs == length (xs ++ y ∷ ys) ≡ false =
      ground (arith, length-append xs (y ∷ ys)) in
    rw n (ground (arith, get_elem?-append xs (y ∷ ys)))

pub lookup-clockwise :
    (key : Bytes) (r : Entries) → lookup key r ≡ first_live [] (clockwise (hash_key key) r)
unfolding lookup start_at
lookup-clockwise key [] = unfold clockwise from below first_live in refl
lookup-clockwise key (e ∷ r) =
    let h = hash_key key in
    rw (lower_bound-length h (e ∷ r)) (
      subst
        (λ t.
          backend_at t
            (if length (below h (e ∷ r)) == length t then 0 else length (below h (e ∷ r)))
          ≡ first_live [] (clockwise h (e ∷ r)))
        (below-append-from h (e ∷ r))
        (unfold clockwise in first_of_rotation (below h (e ∷ r)) (from h (e ∷ r))))

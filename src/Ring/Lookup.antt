-- ===== src/Ring/Lookup.antt =====
-- get_backend and get_backend_excluding in hash_ring.cpp: what the loop over the iterator finds.
pub mod Rotation
use aegis_proxy.Common.{
  ℕ, zero, suc, ◌+◌, ◌-◌, ◌≤◌, ◌<◌, ◌≡◌, refl, ap, ◌∙◌, sym, ◌≢◌, inl, inr, Bool, true, false, List,
  [], ◌∷◌, ◌++◌, Option, none, some, arith, ltb, ◌==◌, if◌then◌else◌, length, get_elem?, Bool-cases,
  not, le→ltb_false, lt→ltb,
}
use aegis_proxy.Ring.{
  Entries, contains, Walk, found, exhausted, out_of_fuel, advance, walk, lower_bound,
}

-- The first backend along a list of entries that is not excluded.
unfoldable pub first_live : List ℕ → Entries → Option ℕ
first_live excluded [] = none
first_live excluded ((k, c) ∷ r) = if contains excluded c then first_live excluded r else some c

abbrev pub to_walk : Option ℕ → Walk
to_walk none = exhausted
to_walk (some b) = found b

-- `k` entries from position `i` on.
pub segment : Entries → ℕ → ℕ → Entries
segment r i zero = []
segment r i (suc k) = elim (get_elem? r i) [ none ↦ [] | some e ↦ e ∷ segment r (i + 1) k ]

get_elem?-some : (r : Entries) (i : ℕ) → i < length r → (e : ℕ × ℕ) × (get_elem? r i ≡ some e)
get_elem?-some [] i h = absurd (omega arith)
get_elem?-some (x ∷ r) zero h = (x, refl)
get_elem?-some (x ∷ r) (suc i) h = get_elem?-some r i (omega arith)

segment_round :
    (r : Entries) (i k : ℕ) (e : ℕ × ℕ)
    → get_elem? r i ≡ some e
    → segment r i (suc k) ≡ e ∷ segment r (i + 1) k
unfolding segment
segment_round r i k e h = ground arith

first_live-cons :
    (excluded : List ℕ) (e : ℕ × ℕ) (r : Entries)
    → first_live excluded (e ∷ r)
      ≡ (if contains excluded e.1 then first_live excluded r else some e.1)
unfolding first_live
first_live-cons excluded (k, c) r = refl

module _ (r : Entries) (excluded : List ℕ) (start : ℕ) where
  -- One round of the loop.
  walk_round :
      (fuel it : ℕ) (e : ℕ × ℕ)
      → get_elem? r it ≡ some e
      → walk (suc fuel) r excluded start it ≡ (
          if contains excluded e.1
          then (if advance r it == start
              then exhausted
              else walk fuel r excluded start (advance r it))
          else found e.1)
  unfolding walk
  walk_round fuel it e h = ground arith

  -- Behind the start: the rest of the way back to it.
  walk_low :
      (k fuel it : ℕ)
      → it + suc k ≡ start
      → start < length r
      → suc k ≤ fuel
      → walk fuel r excluded start it ≡ to_walk (first_live excluded (segment r it (suc k)))
  walk_low k zero it h l f = absurd (omega arith)
  walk_low zero (suc fuel) it h l f =
      let (e, at) = get_elem?-some r it (omega arith) in
      rw (walk_round fuel it e at, segment_round r it 0 e at, first_live-cons)
        (unfold segment first_live in ground arith)
  walk_low (suc k) (suc fuel) it h l f =
      let (e, at) = get_elem?-some r it (omega arith) in
      rw (walk_round fuel it e at, segment_round r it (suc k) e at, first_live-cons)
        (ground (arith, walk_low k fuel (it + 1) (omega arith) l (omega arith)))

  -- The step from the last entry to the first.
  walk_wrap :
      (s fuel : ℕ)
      → start ≡ s
      → start < length r
      → start ≤ fuel
      → (if 0 == start then exhausted else walk fuel r excluded start 0)
        ≡ to_walk (first_live excluded (segment r 0 start))
  walk_wrap zero fuel e l f = rw e (unfold segment first_live in refl)
  walk_wrap (suc s) fuel e l f =
      let low = walk_low s fuel 0 (omega arith) l (omega arith) in
      let more : 0 == start ≡ false = ground arith in rw (more, low) (rw e)

  -- From the start on: to the end of the map, and round to the start.
  walk_high :
      (k fuel it : ℕ)
      → start ≤ it
      → it + suc k ≡ length r
      → suc k + start ≤ fuel
      → walk fuel r excluded start it
        ≡ to_walk (first_live excluded (segment r it (suc k) ++ segment r 0 start))
  walk_high k zero it h l f = absurd (omega arith)
  walk_high zero (suc fuel) it h l f =
      let (e, at) = get_elem?-some r it (omega arith) in
      rw (walk_round fuel it e at, segment_round r it 0 e at, first_live-cons)
        (unfold segment in ground (arith, walk_wrap start fuel refl (omega arith) (omega arith)))
  walk_high (suc k) (suc fuel) it h l f =
      let (e, at) = get_elem?-some r it (omega arith) in
      rw (walk_round fuel it e at, segment_round r it (suc k) e at, first_live-cons)
        (ground (arith, walk_high k fuel (it + 1) (omega arith) (omega arith) (omega arith)))

-- ===== src/Ring/Entries.antt =====
-- The `std::map` of hash_ring.cpp as a finite map in strictly ascending order of its keys.
use aegis_proxy.Common.{
  ℕ, ◌≤◌, ◌<◌, ◌≡◌, refl, ap, ◌∙◌, [], ◌∷◌, Option, none, some, arith, ◌==◌, if◌then◌else◌,
}
use aegis_proxy.Ring.{Entries, put, erase}

unfoldable pub find : ℕ → Entries → Option ℕ
find q [] = none
find q ((k, c) ∷ r) = if k == q then some c else find q r

-- Every key lies above `lo`, and the keys ascend.
abbrev pub Above : ℕ → Entries → Type 0
Above lo [] = Unit {0}
Above lo ((k, c) ∷ r) = (lo < k) × Above k r

abbrev pub IsSorted : Entries → Type 0
IsSorted [] = Unit {0}
IsSorted ((k, c) ∷ r) = Above k r

pub Above-weaken : (lo hi : ℕ) (r : Entries) → lo ≤ hi → Above hi r → Above lo r
Above-weaken lo hi [] h a = tt
Above-weaken lo hi ((k, c) ∷ r) h a = (omega arith, a.1)

pub Above-IsSorted : (lo : ℕ) (r : Entries) → Above lo r → IsSorted r
Above-IsSorted lo [] a = tt
Above-IsSorted lo ((k, c) ∷ r) a = a.1

put-Above : (lo h b : ℕ) (r : Entries) → lo < h → Above lo r → Above lo (put h b r)
unfolding put
put-Above lo h b [] l a = (l, tt)
put-Above lo h b ((k, c) ∷ r) l a = ground (arith, put-Above k h b r)

pub put-IsSorted : (h b : ℕ) (r : Entries) → IsSorted r → IsSorted (put h b r)
unfolding put
put-IsSorted h b [] s = tt
put-IsSorted h b ((k, c) ∷ r) s = ground (arith, put-Above k h b r)

erase-Above : (lo h : ℕ) (r : Entries) → Above lo r → Above lo (erase h r)
unfolding erase
erase-Above lo h [] a = tt
erase-Above lo h ((k, c) ∷ r) a =
    ground (arith, erase-Above k h r a.1, Above-weaken lo k (erase h r))

pub erase-IsSorted : (h : ℕ) (r : Entries) → IsSorted r → IsSorted (erase h r)
unfolding erase
erase-IsSorted h [] s = tt
erase-IsSorted h ((k, c) ∷ r) s = ground (arith, erase-Above k h r s, Above-IsSorted k (erase h r))

pub find-put :
    (q h b : ℕ) (r : Entries) → find q (put h b r) ≡ (if h == q then some b else find q r)
unfolding find put
find-put q h b [] = refl
find-put q h b ((k, c) ∷ r) = ground (arith, find-put q h b r)

pub find-erase : (q h : ℕ) (r : Entries) → find q (erase h r) ≡ (if h == q then none else find q r)
unfolding find erase
find-erase q h [] = ground arith
find-erase q h ((k, c) ∷ r) = ground (arith, find-erase q h r)

pub find-Above : (q lo : ℕ) (r : Entries) → Above lo r → q ≤ lo → find q r ≡ none
unfolding find
find-Above q lo [] a h = refl
find-Above q lo ((k, c) ∷ r) a h = ground (arith, find-Above q k r a.1)

same_head :
    (k c j d : ℕ) (r s : Entries)
    → Above k r
    → Above j s
    → find k ((k, c) ∷ r) ≡ find k ((j, d) ∷ s)
    → find j ((k, c) ∷ r) ≡ find j ((j, d) ∷ s)
    → (k ≡ j) × (c ≡ d)
unfolding find
same_head k c j d r s p q e f = ground (arith, find-Above k j s q, find-Above j k r p)

same_tail :
    (k c q : ℕ) (r s : Entries)
    → Above k r
    → Above k s
    → find q ((k, c) ∷ r) ≡ find q ((k, c) ∷ s)
    → find q r ≡ find q s
unfolding find
same_tail k c q r s a b e = ground (arith, find-Above q k r a, find-Above q k s b)

-- Two maps with the same look-ups are the same list.
pub find-ext : (r s : Entries) → IsSorted r → IsSorted s → ((q : ℕ) → find q r ≡ find q s) → r ≡ s
find-ext [] [] p q e = refl
find-ext [] ((k, c) ∷ s) p q e = unfold find in ground (arith, e k)
find-ext ((k, c) ∷ r) [] p q e = unfold find in ground (arith, e k)
find-ext ((k, c) ∷ r) ((j, d) ∷ s) p q e =
    let (kj, cd) = same_head k c j d r s p q (e k) (e j) in
    let q' : Above k s = rw kj q in
    let e' : (x : ℕ) → find x ((k, c) ∷ r) ≡ find x ((k, c) ∷ s) = λ x. e x ∙ rw (kj, cd) in
    rw (← kj, ← cd)
      (ap (λ t. (k, c) ∷ t)
        (find-ext r s (Above-IsSorted k r p) (Above-IsSorted k s q')
          (λ x. same_tail k c x r s p q' (e' x))))

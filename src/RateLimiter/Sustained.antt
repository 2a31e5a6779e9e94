-- ===== src/RateLimiter/Sustained.antt =====
-- The rate that rate_limiter.cpp sustains over an interval.
use native.Mathlib.Nat.{add-mul, mul-le-mul_right}
use aegis_proxy.Common.{
  ℕ, zero, suc, ◌+◌, ◌-◌, ◌*◌, ◌^◌, ◌≤◌, ◌<◌, ◌≡◌, refl, ap, sym, ◌∙◌, ◌⊎◌, Bool, true, false, List,
  [], ◌∷◌, none, some, arith, ltb, inl, inr, Bool-cases, if◌then◌else◌, length, length-set,
}
use aegis_proxy.Text.{Bytes}
use aegis_proxy.RateLimiter.{
  Arithmetic, Bucket, RateLimiter, same_text, refill, current, consume, allow,
}
use aegis_proxy.RateLimiter.Buckets.{same_text_self, same_text_sound}
use aegis_proxy.RateLimiter.Clients.{bucket_of, allow_lem}
use aegis_proxy.RateLimiter.Burst.{exact_below, allowed_of}

-- A second in nanoseconds.
abbrev pub second : ℕ
second = 1000000000

-- What the bound relies on of `double`: whole numbers below 2^53 are exact, also their sums and their
-- products, and so is a number of whole seconds.
pub record Steady {A : Type 0} (number : Arithmetic A) : Type 0 where
  pub of_nat : ℕ → A
  pub plus : (m n : ℕ) → m + n < exact_below → number.add (of_nat m) (of_nat n) ≡ of_nat (m + n)
  pub times :
      (m n : ℕ) → m * n < exact_below → number.multiply (of_nat m) (of_nat n) ≡ of_nat (m * n)
  pub minus : (n : ℕ) → suc n < exact_below → number.subtract (of_nat (suc n)) number.one ≡ of_nat n
  pub enough : (n : ℕ) → suc n < exact_below → number.at_least (of_nat (suc n)) number.one ≡ true
  pub short : number.at_least (of_nat 0) number.one ≡ false
  pub order :
      (m n : ℕ) → m < exact_below → n < exact_below → number.less (of_nat m) (of_nat n) ≡ ltb m n
  pub whole_seconds : (n : ℕ) → n < 2 ^ 32 → number.seconds (second * n) ≡ of_nat n

-- The requests of a client come at whole seconds, in order, from second `from` to second `to`.
abbrev pub Paced : Bytes → ℕ → ℕ → List (Bytes × ℕ) → Type 0
Paced ip from to [] = Unit
Paced ip from to ((q, now) ∷ rest) =
    ((same_text q ip ≡ false) × Paced ip from to rest)
    ⊎ ((same_text q ip ≡ true)
        × (k : ℕ) × (now ≡ second * k)
        × (from ≤ k)
        × (k ≤ to)
        × Paced ip k to rest)

-- Time passes in two parts.
in_parts : (s k e r : ℕ) → s ≤ k → k ≤ e → (k - s) * r + (e - k) * r ≡ (e - s) * r
in_parts s k e r h l =
    let whole : e - s ≡ (k - s) + (e - k) = omega arith in
    sym (ap (λ t. t * r) whole ∙ add-mul (k - s) (e - k) r)

module _ {A : Type 0} ⦃number : Arithmetic A⦄ where
  module _ (steady : Steady number) (ip : Bytes) (c r to : ℕ) (small : c + to * r < exact_below)
      (soon : to < 2 ^ 32) where
    record SetUp (l : RateLimiter A) : Type 0 where
      rate_is : l.refill_rate_per_sec ≡ steady.of_nat r
      capacity_is : l.capacity ≡ steady.of_nat c
      sharded : 0 < length l.shards

    abbrev bucket : ℕ → ℕ → Bucket A
    bucket m k = record { tokens = steady.of_nat m; last_refill = second * k }

    allow-SetUp : (q : Bytes) (now : ℕ) (l : RateLimiter A) → SetUp l → SetUp (allow q now l).0
    unfolding allow
    allow-SetUp q now l h = record {
      rate_is = h.rate_is;
      capacity_is = h.capacity_is;
      sharded = rw (length-set l.shards _ _) h.sharded;
    }

    -- The tokens after a refill.
    abbrev filled : ℕ → ℕ → ℕ → ℕ
    filled m s k = if ltb (m + (k - s) * r) c then m + (k - s) * r else c

    refill-filled :
        (m s k : ℕ) (l : RateLimiter A)
        → SetUp l
        → m ≤ c
        → s ≤ k
        → k ≤ to
        → refill (second * k) l (bucket m s) ≡ bucket (filled m s k) k
    unfolding refill
    refill-filled m s k l h room after before =
        let elapsed : second * k - second * s ≡ second * (k - s) = omega arith in
        let gain = mul-le-mul_right r (let le : k - s ≤ to = omega arith in le) in
        let x = m + (k - s) * r in
        rw
          (
            h.rate_is,
            h.capacity_is,
            elapsed,
            steady.whole_seconds (k - s) (omega arith),
            steady.times (k - s) r (omega arith),
            steady.plus m ((k - s) * r) (omega arith),
            steady.order x c (omega arith) (omega arith),
          )
          (elim (Bool-cases (ltb x c)) [
            | inl room_left ↦ rw room_left refl
            | inr full ↦ rw full refl
          ])

    -- What a request of the client leaves of `m` tokens.
    Spent : ℕ → ℕ → RateLimiter A → Type 0
    Spent m k l =
        (j : ℕ) × ((if (allow ip (second * k) l).1 then 1 else 0) + j ≡ m)
        × (bucket_of ip (allow ip (second * k) l).0 ≡ some (bucket j k))

    spend :
        (j m k : ℕ) (answer : Bool) (l : RateLimiter A)
        → SetUp l
        → current (second * k) l (bucket_of ip l) ≡ bucket m k
        → consume (bucket m k) ≡ (bucket j k, answer)
        → (if answer then 1 else 0) + j ≡ m
        → Spent m k l
    unfolding Spent
    spend j m k answer l h now_has left total =
        let (answered, held) = allow_lem ip ip (second * k) l h.sharded in
        let mine = rw (same_text_self ip) at held in
        let taken = ap consume now_has ∙ left in
        (j, rw (answered ∙ ap (λ t. t.1) taken) total, mine ∙ ap (λ t. some t.0) taken)

    spends :
        (m k : ℕ) (l : RateLimiter A)
        → SetUp l
        → m ≤ c
        → current (second * k) l (bucket_of ip l) ≡ bucket m k
        → Spent m k l
    spends zero k l h room now_has =
        spend 0 0 k false l h now_has (unfold consume in rw steady.short refl) refl
    spends (suc j) k l h room now_has =
        let lt : suc j < exact_below = omega arith in
        spend j (suc j) k true l h now_has
          (unfold consume in rw (steady.enough j lt, steady.minus j lt) refl) (omega arith)

    filled-room : (m s k : ℕ) → (filled m s k ≤ c) × (filled m s k ≤ m + (k - s) * r)
    filled-room m s k = ground arith

    -- With `m` tokens at second `s`, no more requests are let through than there are tokens then and
    -- seconds to come at the rate.
    Bounded : ℕ → ℕ → List (Bytes × ℕ) → RateLimiter A → Type 0
    Bounded m s requests l = allowed_of ip requests l ≤ m + (to - s) * r

    bounded :
        (requests : List (Bytes × ℕ)) (m s : ℕ) (l : RateLimiter A)
        → SetUp l
        → m ≤ c
        → bucket_of ip l ≡ some (bucket m s)
        → Paced ip s to requests
        → Bounded m s requests l
    unfolding Bounded allowed_of Spent current
    bounded [] m s l h room has paced = omega arith
    bounded ((q, now) ∷ rest) m s l h room has (inl (other, paced)) =
        let held = (allow_lem q ip now l h.sharded).1 in
        let same : bucket_of ip (allow q now l).0 ≡ some (bucket m s) = (rw other at held) ∙ has in
        rw other (
          omega (arith, bounded rest m s (allow q now l).0 (allow-SetUp q now l h) room same paced))
    bounded ((q, now) ∷ rest) m s l h room has (inr (own, k, at, after, before, paced)) =
        let full = filled-room m s k in
        let now_has : current (second * k) l (bucket_of ip l) ≡ bucket (filled m s k) k =
          rw has (refill-filled m s k l h room after before) in
        let (j, total, left) = spends (filled m s k) k l h full.0 now_has in
        let next =
          bounded rest j k (allow ip (second * k) l).0 (allow-SetUp ip (second * k) l h)
            (omega (arith, total)) left paced in
        rw (own, same_text_sound q ip own, at)
          (omega (arith, next, total, in_parts s k to r after before))

    fresh-Bounded :
        (requests : List (Bytes × ℕ)) (s : ℕ) (l : RateLimiter A)
        → SetUp l
        → bucket_of ip l ≡ none
        → s ≤ to
        → Paced ip s to requests
        → Bounded c s requests l
    unfolding Bounded allowed_of Spent current
    fresh-Bounded [] s l h fresh le paced = omega arith
    fresh-Bounded ((q, now) ∷ rest) s l h fresh le (inl (other, paced)) =
        let held = (allow_lem q ip now l h.sharded).1 in
        let same : bucket_of ip (allow q now l).0 ≡ none = (rw other at held) ∙ fresh in
        rw other (
          omega
            (arith, fresh-Bounded rest s (allow q now l).0 (allow-SetUp q now l h) same le paced))
    fresh-Bounded ((q, now) ∷ rest) s l h fresh le (inr (own, k, at, after, before, paced)) =
        let now_has : current (second * k) l (bucket_of ip l) ≡ bucket c k =
          rw (fresh, h.capacity_is) refl in
        let (j, total, left) = spends c k l h (omega arith) now_has in
        let next =
          bounded rest j k (allow ip (second * k) l).0 (allow-SetUp ip (second * k) l h)
            (omega (arith, total)) left paced in
        rw (own, same_text_sound q ip own, at)
          (omega (arith, next, total, in_parts s k to r after before))

module _ {A : Type 0} ⦃number : Arithmetic A⦄ where
  -- A client that is not tracked, whose requests come at whole seconds between `from` and `to`, has no
  -- more of them let through than the capacity and the rate times the seconds between, whatever other
  -- clients ask in between and whenever. The rate and the capacity are whole numbers, small enough for
  -- `double` to be exact, and the limiter has at least one shard.
  pub sustained :
      (steady : Steady number) (ip : Bytes) (c r from to : ℕ) (requests : List (Bytes × ℕ))
      (l : RateLimiter A)
      → l.refill_rate_per_sec ≡ steady.of_nat r
      → l.capacity ≡ steady.of_nat c
      → c + to * r < exact_below
      → to < 2 ^ 32
      → from ≤ to
      → 0 < length l.shards
      → bucket_of ip l ≡ none
      → Paced ip from to requests
      → allowed_of ip requests l ≤ c + (to - from) * r
  sustained steady ip c r from to requests l e f small soon le sharded fresh paced =
      unfold Bounded in
      fresh-Bounded steady ip c r to small soon requests from l
        (record { rate_is = e; capacity_is = f; sharded = sharded }) fresh le paced

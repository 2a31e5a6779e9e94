-- ===== src/RateLimiter/Burst.antt =====
-- The burst that rate_limiter.cpp lets through, as in the first test of test_rate_limiter.cpp.
use Prim.Native.Nat.{min}
use aegis_proxy.Common.{
  ℕ, zero, suc, ◌+◌, ◌-◌, ◌^◌, ◌≤◌, ◌<◌, ◌≡◌, refl, ap, ◌∙◌, Bool, true, false, List, [], ◌∷◌,
  Option, none, some, arith, ltb, inl, inr, Bool-cases, if◌then◌else◌, length, All, length-set,
}
use aegis_proxy.Text.{Bytes}
use aegis_proxy.RateLimiter.{
  Arithmetic, Bucket, RateLimiter, same_text, refill, current, consume, allow,
}
use aegis_proxy.RateLimiter.Buckets.{same_text_self, same_text_sound}
use aegis_proxy.RateLimiter.Clients.{bucket_of, allow_lem}

abbrev pub exact_below : ℕ
exact_below = 2 ^ 53

-- What the burst relies on of `double`: whole numbers below 2^53 are exact, and no time brings no
-- token at the rate given.
pub record Exact {A : Type 0} (number : Arithmetic A) (rate : A) : Type 0 where
  pub of_nat : ℕ → A
  pub minus : (n : ℕ) → suc n < exact_below → number.subtract (of_nat (suc n)) number.one ≡ of_nat n
  pub enough : (n : ℕ) → suc n < exact_below → number.at_least (of_nat (suc n)) number.one ≡ true
  pub short : number.at_least (of_nat 0) number.one ≡ false
  pub order :
      (m n : ℕ) → m < exact_below → n < exact_below → number.less (of_nat m) (of_nat n) ≡ ltb m n
  pub no_gain : (n : ℕ) → number.add (of_nat n) (number.multiply (number.seconds 0) rate) ≡ of_nat n

-- How many of these requests are a client's.
unfoldable pub requests_of : Bytes → List (Bytes × ℕ) → ℕ
requests_of ip [] = 0
requests_of ip ((q, now) ∷ rest) = (if same_text q ip then 1 else 0) + requests_of ip rest

module _ {A : Type 0} ⦃number : Arithmetic A⦄ where
  -- How many of a client's requests are let through, where these requests come in this order.
  unfoldable pub allowed_of : Bytes → List (Bytes × ℕ) → RateLimiter A → ℕ
  allowed_of ip [] l = 0
  allowed_of ip ((q, now) ∷ rest) l =
      (if same_text q ip then (if (allow q now l).1 then 1 else 0) else 0)
      + allowed_of ip rest (allow q now l).0

  current-allow :
      (q : Bytes) (t now : ℕ) (l : RateLimiter A) (o : Option (Bucket A))
      → current now (allow q t l).0 o ≡ current now l o
  unfolding allow current refill
  current-allow q t now l none = refl
  current-allow q t now l (some b) = refl

  allow-length :
      (q : Bytes) (t : ℕ) (l : RateLimiter A) → length (allow q t l).0.shards ≡ length l.shards
  unfolding allow
  allow-length q t l = length-set l.shards _ _

  module _ (rate : A) (exact : Exact number rate) (ip : Bytes) (now c : ℕ) where
    -- The client has `m` of at most `c` tokens at this instant.
    record Holds (m : ℕ) (l : RateLimiter A) : Type 0 where
      rate_is : l.refill_rate_per_sec ≡ rate
      capacity_is : l.capacity ≡ exact.of_nat c
      sharded : 0 < length l.shards
      small : c < exact_below
      room : m ≤ c
      bucket :
          current now l (bucket_of ip l) ≡ record { tokens = exact.of_nat m; last_refill = now }

    refill_now :
        (m : ℕ) (l : RateLimiter A)
        → l.refill_rate_per_sec ≡ rate
        → l.capacity ≡ exact.of_nat c
        → c < exact_below
        → m ≤ c
        → refill now l (record { tokens = exact.of_nat m; last_refill = now })
          ≡ record { tokens = exact.of_nat m; last_refill = now }
    unfolding refill
    refill_now m l e f small room =
        let no_time : now - now ≡ 0 = omega arith in
        rw (no_time, e, f, exact.no_gain m, exact.order m c (omega arith) small)
          (elim (Bool-cases (ltb m c)) [
            | inl less ↦ rw less refl
            | inr full ↦ let top : c ≡ m = ground arith in rw (full, top) refl
          ])

    -- The client's bucket behind a request, from what allow left of it.
    Holds-after :
        (k m : ℕ) (q : Bytes) (t : ℕ) (l : RateLimiter A) (o : Option (Bucket A))
        → Holds k l
        → m ≤ c
        → bucket_of ip (allow q t l).0 ≡ o
        → current now l o ≡ record { tokens = exact.of_nat m; last_refill = now }
        → Holds m (allow q t l).0
    Holds-after k m q t l o h room held e = record {
      rate_is = unfold allow in h.rate_is;
      capacity_is = unfold allow in h.capacity_is;
      sharded = rw (allow-length q t l) h.sharded;
      small = h.small;
      room = room;
      bucket =
          current-allow q t now l (bucket_of ip (allow q t l).0) ∙ (ap (current now l) held ∙ e);
    }

    other_request :
        (m : ℕ) (q : Bytes) (t : ℕ) (l : RateLimiter A)
        → same_text q ip ≡ false
        → Holds m l
        → Holds m (allow q t l).0
    other_request m q t l e h =
        let held = (allow_lem q ip t l h.sharded).1 in
        Holds-after m m q t l (bucket_of ip l) h h.room (rw e at held) h.bucket

    -- A request of the client, by what becomes of its bucket.
    own_request :
        (k m : ℕ) (answer : Bool) (l : RateLimiter A)
        → Holds k l
        → m ≤ c
        → consume (record { tokens = exact.of_nat k; last_refill = now })
          ≡ (record { tokens = exact.of_nat m; last_refill = now }, answer)
        → ((allow ip now l).1 ≡ answer) × Holds m (allow ip now l).0
    unfolding current
    own_request k m answer l h room e =
        let (answered, held) = allow_lem ip ip now l h.sharded in
        let mine = rw (same_text_self ip) at held in
        let taken = ap consume h.bucket ∙ e in
        (
          answered ∙ ap (λ r. r.1) taken,
          Holds-after k m ip now l (some (record { tokens = exact.of_nat m; last_refill = now })) h
              room (mine ∙ ap (λ r. some r.0) taken)
              (refill_now m l h.rate_is h.capacity_is h.small room),
        )

    taken_token :
        (m : ℕ) (l : RateLimiter A)
        → Holds (suc m) l
        → ((allow ip now l).1 ≡ true) × Holds m (allow ip now l).0
    taken_token m l h =
        let lt : suc m < exact_below = omega (arith, h.room, h.small) in
        own_request (suc m) m true l h (omega (arith, h.room))
          (unfold consume in rw (exact.enough m lt, exact.minus m lt) refl)

    refused :
        (l : RateLimiter A) → Holds 0 l → ((allow ip now l).1 ≡ false) × Holds 0 (allow ip now l).0
    refused l h = own_request 0 0 false l h (omega arith) (unfold consume in rw exact.short refl)

    burst_step :
        (m : ℕ) (rest : List (Bytes × ℕ)) (l : RateLimiter A)
        → ((k : ℕ) (r : RateLimiter A)
            → Holds k r
            → allowed_of ip rest r ≡ min k (requests_of ip rest))
        → Holds m l
        → (if (allow ip now l).1 then 1 else 0) + allowed_of ip rest (allow ip now l).0
          ≡ min m (1 + requests_of ip rest)
    burst_step zero rest l ih h =
        let (no_token, after) = refused l h in
        rw no_token (omega (arith, ih 0 (allow ip now l).0 after))
    burst_step (suc m) rest l ih h =
        let (token, after) = taken_token m l h in
        rw token (omega (arith, ih m (allow ip now l).0 after))

    burst_of :
        (m : ℕ) (requests : List (Bytes × ℕ)) (l : RateLimiter A)
        → All (λ e. same_text e.0 ip ≡ true → e.1 ≡ now) requests
        → Holds m l
        → allowed_of ip requests l ≡ min m (requests_of ip requests)
    unfolding allowed_of requests_of
    burst_of m [] l a h = omega arith
    burst_of m ((q, t) ∷ rest) l a h = elim (Bool-cases (same_text q ip)) [
      | inr other ↦
          rw other
            (omega (arith, burst_of m rest (allow q t l).0 a.1 (other_request m q t l other h)))
      | inl same ↦
          rw (same, same_text_sound q ip same, a.0 same)
            (burst_step m rest l (λ k r g. burst_of k rest r a.1 g) h)
    ]

module _ {A : Type 0} ⦃number : Arithmetic A⦄ where
  -- In a limiter with at least one shard, a client that is not tracked, whose requests all come at one instant, has exactly as many of them
  -- let through as the capacity is, or all of them if they are fewer, whatever other clients ask in
  -- between and whenever. The capacity is a whole number below 2^53, where `double` is exact.
  pub burst :
      (rate : A) (exact : Exact number rate) (ip : Bytes) (now c : ℕ) (requests : List (Bytes × ℕ))
      (l : RateLimiter A)
      → l.refill_rate_per_sec ≡ rate
      → l.capacity ≡ exact.of_nat c
      → c < exact_below
      → 0 < length l.shards
      → bucket_of ip l ≡ none
      → All (λ e. same_text e.0 ip ≡ true → e.1 ≡ now) requests
      → allowed_of ip requests l ≡ min c (requests_of ip requests)
  unfolding current
  burst rate exact ip now c requests l e f small sharded fresh a =
      burst_of rate exact ip now c c requests l a (record {
        rate_is = e;
        capacity_is = f;
        sharded = sharded;
        small = small;
        room = omega arith;
        bucket = rw (fresh, f) refl;
      })

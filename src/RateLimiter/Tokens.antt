-- ===== src/RateLimiter/Tokens.antt =====
-- The buckets of rate_limiter.cpp over any history of calls.
use aegis_proxy.Common.{
  ℕ, zero, suc, ◌-◌, ◌≡◌, refl, true, List, [], ◌∷◌, Option, none, some, arith, ltb, inl, inr,
  Bool-cases, All, replicate,
}
use aegis_proxy.Text.{Bytes}
use aegis_proxy.RateLimiter.{
  Arithmetic, Bucket, Buckets, RateLimiter, new, same_text, shard_index, lookup, assign, refill,
  current, consume, shard_of, allow_in, allow, reap_shard, reap_shards, reap_idle,
}
use aegis_proxy.Common.{All-set}
use aegis_proxy.RateLimiter.Buckets.{All-shard_of}
use aegis_proxy.RateLimiter.Reap.{IsUnique, assign-IsUnique, reap_shard-IsUnique}

-- What the code relies on of `double`, for numbers that are not NaN.
pub record Ordered {A : Type 0} (number : Arithmetic A) : Type 0 where
  pub nil : A
  pub self : (a : A) → number.at_least a a ≡ true
  pub weak : (a b : A) → number.less b a ≡ true → number.at_least a b ≡ true
  pub below :
      (a c : A)
      → number.at_least a number.one ≡ true
      → number.at_least c a ≡ true
      → number.at_least c (number.subtract a number.one) ≡ true
  pub spare :
      (a : A)
      → number.at_least a number.one ≡ true
      → number.at_least (number.subtract a number.one) nil ≡ true
  pub sum :
      (a b : A)
      → number.at_least a nil ≡ true
      → number.at_least b nil ≡ true
      → number.at_least (number.add a b) nil ≡ true
  pub product :
      (a b : A)
      → number.at_least a nil ≡ true
      → number.at_least b nil ≡ true
      → number.at_least (number.multiply a b) nil ≡ true
  pub time : (d : ℕ) → number.at_least (number.seconds d) nil ≡ true

-- The calls on a limiter.
pub data Use : Type 0 where
  allows : Bytes → ℕ → Use
  reaps : ℕ → ℕ → Use

module _ {A : Type 0} ⦃number : Arithmetic A⦄ where
  pub after : Use → RateLimiter A → RateLimiter A
  after (allows ip now) l = (allow ip now l).0
  after (reaps threshold now) l = (reap_idle threshold now l).0

  pub after_all : List Use → RateLimiter A → RateLimiter A
  after_all [] l = l
  after_all (u ∷ us) l = after_all us (after u l)

module _ {A : Type 0} ⦃number : Arithmetic A⦄ (laws : Ordered number) (rate capacity : A) where
  -- Between no token and the capacity.
  abbrev pub InRange : Bucket A → Type 0
  InRange b =
      (number.at_least capacity b.tokens ≡ true) × (number.at_least b.tokens laws.nil ≡ true)

  pub record Sound (l : RateLimiter A) : Type 0 where
    pub rate_kept : l.refill_rate_per_sec ≡ rate
    pub capacity_kept : l.capacity ≡ capacity
    pub unique : All IsUnique l.shards
    pub range : All (All (λ e. InRange e.1)) l.shards

  module _ (rate_nonneg : number.at_least rate laws.nil ≡ true)
      (capacity_nonneg : number.at_least capacity laws.nil ≡ true) where
    refill-InRange :
        (now : ℕ) (l : RateLimiter A) (b : Bucket A)
        → Sound l
        → InRange b
        → InRange (refill now l b)
    unfolding refill
    refill-InRange now l b s r =
        let gain = number.multiply (number.seconds (now - b.last_refill)) rate in
        let more = number.add b.tokens gain in
        let gain_nonneg = laws.product _ rate (laws.time (now - b.last_refill)) rate_nonneg in
        rw (s.rate_kept, s.capacity_kept)
          (elim (Bool-cases (number.less more capacity)) [
            | inl less ↦
                rw less (laws.weak capacity more less, laws.sum b.tokens gain r.1 gain_nonneg)
            | inr full ↦ rw full (laws.self capacity, capacity_nonneg)
          ])

    consume-InRange : (b : Bucket A) → InRange b → InRange (consume b).0
    unfolding consume
    consume-InRange b r = elim (Bool-cases (number.at_least b.tokens number.one)) [
      | inl enough ↦ rw enough (laws.below b.tokens capacity enough r.0, laws.spare b.tokens enough)
      | inr short ↦ rw short r
    ]

    lookup-InRange :
        (ip : Bytes) (s : Buckets A) (b : Bucket A)
        → All (λ e. InRange e.1) s
        → lookup ip s ≡ some b
        → InRange b
    unfolding lookup
    lookup-InRange ip [] b r e = cc
    lookup-InRange ip ((key, c) ∷ rest) b r e = elim (Bool-cases (same_text key ip)) [
      | inl same ↦ ground (arith, r.0)
      | inr other ↦ lookup-InRange ip rest b r.1 (rw other at e)
    ]

    assign-InRange :
        (ip : Bytes) (b : Bucket A) (s : Buckets A)
        → InRange b
        → All (λ e. InRange e.1) s
        → All (λ e. InRange e.1) (assign ip b s)
    unfolding assign
    assign-InRange ip b [] r a = (r, tt)
    assign-InRange ip b ((key, c) ∷ rest) r a = elim (Bool-cases (same_text key ip)) [
      | inl same ↦ rw same (r, a.1)
      | inr other ↦ rw other (a.0, assign-InRange ip b rest r a.1)
    ]

    current-InRange :
        (ip : Bytes) (now : ℕ) (l : RateLimiter A) (s : Buckets A) (o : Option (Bucket A))
        → Sound l
        → All (λ e. InRange e.1) s
        → lookup ip s ≡ o
        → InRange (current now l o)
    unfolding current
    current-InRange ip now l s none h a e = rw h.capacity_kept (laws.self capacity, capacity_nonneg)
    current-InRange ip now l s (some b) h a e = refill-InRange now l b h (lookup-InRange ip s b a e)

    allow-Sound : (ip : Bytes) (now : ℕ) (l : RateLimiter A) → Sound l → Sound (allow ip now l).0
    unfolding allow allow_in
    allow-Sound ip now l h =
        let i = shard_index ip l in
        let s = shard_of i l.shards in
        let taken = (consume (current now l (lookup ip s))).0 in
        let inside = All-shard_of (All (λ e. InRange e.1)) i l.shards tt h.range in
        let fine =
          consume-InRange (current now l (lookup ip s))
            (current-InRange ip now l s (lookup ip s) h inside refl) in
        record {
          rate_kept = h.rate_kept;
          capacity_kept = h.capacity_kept;
          unique =
              All-set IsUnique i (assign ip taken s) l.shards
                (assign-IsUnique ip taken s (All-shard_of IsUnique i l.shards tt h.unique))
                h.unique;
          range =
              All-set (All (λ e. InRange e.1)) i (assign ip taken s) l.shards
                (assign-InRange ip taken s fine inside) h.range;
        }

    reap_shard-InRange :
        (threshold now : ℕ) (s : Buckets A)
        → All (λ e. InRange e.1) s
        → All (λ e. InRange e.1) (reap_shard threshold now s).0
    unfolding reap_shard
    reap_shard-InRange threshold now [] a = tt
    reap_shard-InRange threshold now ((key, b) ∷ rest) a =
        elim (Bool-cases (ltb threshold (now - b.last_refill))) [
          | inl idle ↦ rw idle (reap_shard-InRange threshold now rest a.1)
          | inr fresh ↦ rw fresh (a.0, reap_shard-InRange threshold now rest a.1)
        ]

    All-reap_shards :
        (P : Buckets A → Type 0) (threshold now : ℕ) (shards : List (Buckets A))
        → ((s : Buckets A) → P s → P (reap_shard threshold now s).0)
        → All P shards
        → All P (reap_shards threshold now shards).0
    unfolding reap_shards
    All-reap_shards P threshold now [] f a = tt
    All-reap_shards P threshold now (s ∷ rest) f a =
        (f s a.0, All-reap_shards P threshold now rest f a.1)

    after-Sound : (u : Use) (l : RateLimiter A) → Sound l → Sound (after u l)
    unfolding after reap_idle
    after-Sound (allows ip now) l h = allow-Sound ip now l h
    after-Sound (reaps threshold now) l h = record {
      rate_kept = h.rate_kept;
      capacity_kept = h.capacity_kept;
      unique =
          All-reap_shards IsUnique threshold now l.shards (reap_shard-IsUnique threshold now)
            h.unique;
      range =
          All-reap_shards (All (λ e. InRange e.1)) threshold now l.shards
            (reap_shard-InRange threshold now) h.range;
    }

    after_all-Sound : (us : List Use) (l : RateLimiter A) → Sound l → Sound (after_all us l)
    unfolding after_all
    after_all-Sound [] l h = h
    after_all-Sound (u ∷ us) l h = after_all-Sound us (after u l) (after-Sound u l h)

    All-replicate : (P : Buckets A → Type 0) (n : ℕ) → P [] → All P (replicate n [])
    All-replicate P zero p = tt
    All-replicate P (suc n) p = (p, All-replicate P n p)

    -- Over any history of requests and reapings, with a rate and a capacity that are not negative and
    -- an arithmetic that is ordered, a
    -- shard holds at most one bucket for each client, and no bucket ever holds more tokens than the
    -- capacity or less than none.
    pub new-Sound : (n : ℕ) (us : List Use) → Sound (after_all us (new rate capacity n))
    unfolding new
    new-Sound n us = after_all-Sound us (new rate capacity n) (record {
      rate_kept = refl;
      capacity_kept = refl;
      unique = All-replicate IsUnique n tt;
      range = All-replicate (All (λ e. InRange e.1)) n tt;
    })

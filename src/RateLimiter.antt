-- ===== src/RateLimiter.antt =====
-- rate_limiter.hpp and rate_limiter.cpp: one token bucket for each client, in shards. The arithmetic
-- of `double` is the argument `Arithmetic`; an instant is in nanoseconds. allow and reap_idle take the
-- reading of the steady clock, which never goes back, so that no difference of instants is negative.
pub mod Buckets
pub mod Clients
pub mod Reap
pub mod Tokens
pub mod Burst
pub mod Sustained
use aegis_proxy.Common.{
  ℕ, ◌+◌, ◌-◌, ◌%◌, Bool, true, false, ◌&&◌, List, [], ◌∷◌, Option, none, some, ltb, ◌==◌,
  if◌then◌else◌, length, get_elem?, set, replicate,
}
use aegis_proxy.Text.{Bytes}
use aegis_proxy.Hash.{hash_key}

-- What the code uses of `double`: `less` and `at_least` are `<` and `>=`, and `seconds` is `duration<double>(d).count()`.
pub record Arithmetic (A : Type 0) : Type 0 where
  pub one : A
  pub add : A → A → A
  pub subtract : A → A → A
  pub multiply : A → A → A
  pub less : A → A → Bool
  pub at_least : A → A → Bool
  pub seconds : ℕ → A

pub record Bucket (A : Type 0) : Type 0 where
  pub tokens : A
  pub last_refill : ℕ

-- An `std::unordered_map` from texts to buckets.
abbrev pub Buckets : Type 0 → Type 0
Buckets A = List (Bytes × Bucket A)

pub record RateLimiter (A : Type 0) : Type 0 where
  pub refill_rate_per_sec : A
  pub capacity : A
  pub shards : List (Buckets A)

unfoldable pub new : {A : Type 0} → A → A → ℕ → RateLimiter A
new refill_rate_per_sec capacity shard_count = record {
  refill_rate_per_sec = refill_rate_per_sec;
  capacity = capacity;
  shards = replicate shard_count [];
}

-- Equality of texts.
unfoldable pub same_text : Bytes → Bytes → Bool
same_text [] [] = true
same_text (x ∷ xs) (y ∷ ys) = (x == y) && same_text xs ys
same_text _ _ = false

unfoldable pub shard_index : {A : Type 0} → Bytes → RateLimiter A → ℕ
shard_index client_ip l = hash_key client_ip % length l.shards

unfoldable pub lookup : {A : Type 0} → Bytes → Buckets A → Option (Bucket A)
unfolding same_text
lookup ip [] = none
lookup ip ((key, bucket) ∷ rest) = if same_text key ip then some bucket else lookup ip rest

-- The bucket of a client is written, and inserted where there is none.
pub assign : {A : Type 0} → Bytes → Bucket A → Buckets A → Buckets A
unfolding same_text
assign ip b [] = (ip, b) ∷ []
assign ip b ((key, c) ∷ rest) =
    if same_text key ip then (key, b) ∷ rest else (key, c) ∷ assign ip b rest

-- The shard of a client; an index out of range would be undefined behaviour.
abbrev pub shard_of : {A : Type 0} → ℕ → List (Buckets A) → Buckets A
shard_of i shards = elim (get_elem? shards i) [ none ↦ [] | some shard ↦ shard ]

module _ {A : Type 0} ⦃number : Arithmetic A⦄ where
  -- `std::min(a, b)`.
  abbrev pub min : A → A → A
  min a b = if number.less b a then b else a

  -- The bucket is refilled for the time since its last refill, up to the capacity.
  unfoldable pub refill : ℕ → RateLimiter A → Bucket A → Bucket A
  refill now l b = record {
    tokens = min l.capacity (
        number.add b.tokens
          (number.multiply (number.seconds (now - b.last_refill)) l.refill_rate_per_sec));
    last_refill = now;
  }

  -- The bucket that allow looks at: a client that is not tracked starts with a full one.
  unfoldable pub current : ℕ → RateLimiter A → Option (Bucket A) → Bucket A
  unfolding refill
  current now l none = record { tokens = l.capacity; last_refill = now }
  current now l (some b) = refill now l b

  -- A token is taken, if there is one: `tokens >= 1.0`.
  unfoldable pub consume : Bucket A → Bucket A × Bool
  consume b =
      if number.at_least b.tokens number.one
      then (record b { tokens = number.subtract b.tokens number.one }, true)
      else (b, false)

  -- The work on one shard, under its lock.
  unfoldable pub allow_in : Bytes → ℕ → RateLimiter A → Buckets A → Buckets A × Bool
  unfolding lookup assign current consume
  allow_in ip now l shard =
      let (b, allowed) = consume (current now l (lookup ip shard)) in (assign ip b shard, allowed)

  unfoldable pub allow : Bytes → ℕ → RateLimiter A → RateLimiter A × Bool
  unfolding shard_index allow_in
  allow ip now l =
      let i = shard_index ip l in
      let (shard, allowed) = allow_in ip now l (shard_of i l.shards) in
      (record l { shards = set l.shards i shard }, allowed)

module _ {A : Type 0} where
  -- The loop over one shard: the buckets that stay, and how many were removed.
  unfoldable pub reap_shard : ℕ → ℕ → Buckets A → Buckets A × ℕ
  reap_shard threshold now [] = ([], 0)
  reap_shard threshold now ((key, b) ∷ rest) =
      let (kept, removed) = reap_shard threshold now rest in
      if ltb threshold (now - b.last_refill)
      then (kept, removed + 1)
      else ((key, b) ∷ kept, removed)

  pub reap_shards : ℕ → ℕ → List (Buckets A) → List (Buckets A) × ℕ
  unfolding reap_shard
  reap_shards threshold now [] = ([], 0)
  reap_shards threshold now (shard ∷ rest) =
      let (kept, removed) = reap_shard threshold now shard in
      let (others, more) = reap_shards threshold now rest in (kept ∷ others, removed + more)

  -- The limiter and the number of buckets removed.
  unfoldable pub reap_idle : ℕ → ℕ → RateLimiter A → RateLimiter A × ℕ
  unfolding reap_shards
  reap_idle threshold now l =
      let (shards, removed) = reap_shards threshold now l.shards in
      (record l { shards = shards }, removed)

  pub tracked : List (Buckets A) → ℕ
  tracked [] = 0
  tracked (shard ∷ rest) = length shard + tracked rest

  unfoldable pub total_tracked_clients : RateLimiter A → ℕ
  unfolding tracked
  total_tracked_clients l = tracked l.shards

  unfoldable pub shard_count : RateLimiter A → ℕ
  shard_count l = length l.shards

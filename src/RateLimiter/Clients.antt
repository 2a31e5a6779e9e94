-- ===== src/RateLimiter/Clients.antt =====
-- What a client sees of rate_limiter.cpp: its own bucket, whatever shard it stands in.
use native.Mathlib.Nat.{mod-lt}
use aegis_proxy.Common.{
  ℕ, ◌<◌, ◌≡◌, refl, ap, false, Option, some, arith, ◌==◌, inl, inr, Bool-cases, if◌then◌else◌,
  length, set, length-set,
}
use aegis_proxy.Text.{Bytes}
use aegis_proxy.Hash.{hash_key}
use aegis_proxy.RateLimiter.{
  Arithmetic, Bucket, Buckets, RateLimiter, same_text, shard_index, lookup, assign, current,
  consume, shard_of, allow_in, allow,
}
use aegis_proxy.RateLimiter.Buckets.{lookup-assign, shard_of-set, same_text_sound}

-- The bucket that a limiter holds for a client.
abbrev pub bucket_of : {A : Type 0} → Bytes → RateLimiter A → Option (Bucket A)
bucket_of ip l = lookup ip (shard_of (shard_index ip l) l.shards)

module _ {A : Type 0} ⦃number : Arithmetic A⦄ where
  shard_index-lt :
      (ip : Bytes) (l : RateLimiter A) → 0 < length l.shards → shard_index ip l < length l.shards
  unfolding shard_index
  shard_index-lt ip l h = mod-lt (hash_key ip) h

  allow_in-lookup :
      (ip q : Bytes) (now : ℕ) (l : RateLimiter A) (s : Buckets A)
      → lookup q (allow_in ip now l s).0
        ≡ (if same_text ip q then some (consume (current now l (lookup ip s))).0 else lookup q s)
  unfolding allow_in
  allow_in-lookup ip q now l s = lookup-assign ip q (consume (current now l (lookup ip s))).0 s

  elsewhere :
      (ip q : Bytes) (l : RateLimiter A)
      → (shard_index ip l == shard_index q l) ≡ false
      → same_text ip q ≡ false
  elsewhere ip q l apart = elim (Bool-cases (same_text ip q)) [
    | inr differ ↦ differ
    | inl same ↦ let clash = rw (same_text_sound ip q same) at apart in ground arith
  ]

  written :
      (ip q : Bytes) (l : RateLimiter A) (b : Bucket A)
      → 0 < length l.shards
      → let i = shard_index ip l in
        let s = assign ip b (shard_of i l.shards) in
        lookup q (shard_of (shard_index q l) (set l.shards i s))
        ≡ (if same_text ip q then some b else bucket_of q l)
  written ip q l b h =
      let i = shard_index ip l in
      let j = shard_index q l in
      let s = assign ip b (shard_of i l.shards) in
      rw (shard_of-set i j s l.shards (shard_index-lt ip l h)) (elim (Bool-cases (i == j)) [
        | inl shared ↦
            let e : i ≡ j = ground arith in
            rw (shared, lookup-assign ip q b (shard_of i l.shards))
              (ap (λ t. if same_text ip q then some b else lookup q (shard_of t l.shards)) e)
        | inr apart ↦ rw (apart, elsewhere ip q l apart) refl
      ])

  -- With at least one shard, the limiter keeps a bucket for each client apart: allow answers by the bucket of the client alone,
  -- and afterwards that client has the bucket with the token taken, while all the other clients have
  -- the buckets that they had, whatever shards they share.
  pub allow_lem :
      (ip q : Bytes) (now : ℕ) (l : RateLimiter A)
      → 0 < length l.shards
      → let taken = consume (current now l (bucket_of ip l)) in
        ((allow ip now l).1 ≡ taken.1)
        × (bucket_of q (allow ip now l).0
            ≡ (if same_text ip q then some taken.0 else bucket_of q l))
  unfolding allow allow_in shard_index
  allow_lem ip q now l h =
      let taken = consume (current now l (bucket_of ip l)) in
      let s = assign ip taken.0 (shard_of (shard_index ip l) l.shards) in
      (refl, rw (length-set l.shards (shard_index ip l) s) (written ip q l taken.0 h))

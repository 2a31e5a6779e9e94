-- ===== src/RateLimiter/Reap.antt =====
-- reap_idle in rate_limiter.cpp: which buckets go, and the count that it returns.
use aegis_proxy.Common.{
  ℕ, zero, suc, ◌+◌, ◌-◌, ◌≡◌, refl, List, [], ◌∷◌, Option, none, some, arith, ltb, inl, inr,
  Bool-cases, if◌then◌else◌, length, All,
}
use aegis_proxy.Text.{Bytes}
use aegis_proxy.RateLimiter.{
  Bucket, Buckets, RateLimiter, same_text, shard_index, lookup, assign, shard_of, reap_shard,
  reap_shards, reap_idle, tracked, total_tracked_clients,
}
use aegis_proxy.RateLimiter.Buckets.{All-shard_of, lookup-assign, same_text_sound, same_text_comm}
use aegis_proxy.RateLimiter.Clients.{bucket_of}

-- Each client has at most one bucket in a shard.
abbrev pub IsUnique : {A : Type 0} → Buckets A → Type 0
IsUnique [] = Unit
IsUnique ((key, b) ∷ rest) = (lookup key rest ≡ none) × IsUnique rest

-- A bucket is kept unless it was idle for longer than the threshold.
abbrev pub kept : {A : Type 0} → ℕ → ℕ → Option (Bucket A) → Option (Bucket A)
kept threshold now none = none
kept threshold now (some b) = if ltb threshold (now - b.last_refill) then none else some b

module _ {A : Type 0} where
  pub assign-IsUnique :
      (ip : Bytes) (b : Bucket A) (s : Buckets A) → IsUnique s → IsUnique (assign ip b s)
  unfolding assign
  assign-IsUnique ip b [] u = (unfold lookup in refl, tt)
  assign-IsUnique ip b ((key, c) ∷ rest) u = elim (Bool-cases (same_text key ip)) [
    | inl same ↦ rw same u
    | inr other ↦ rw other (
        (
          rw (lookup-assign ip key b rest) (ground (arith, same_text_comm ip key)),
          assign-IsUnique ip b rest u.1,
        ))
  ]

  lookup-reap_shard :
      (threshold now : ℕ) (q : Bytes) (s : Buckets A)
      → IsUnique s
      → lookup q (reap_shard threshold now s).0 ≡ kept threshold now (lookup q s)
  unfolding reap_shard lookup
  lookup-reap_shard threshold now q [] u = refl
  lookup-reap_shard threshold now q ((key, b) ∷ rest) u =
      let ih = lookup-reap_shard threshold now q rest u.1 in
      elim (Bool-cases (same_text key q)) [
        | inl same ↦
            let e = same_text_sound key q same in
            let gone : lookup q rest ≡ none = rw e at u.0 in ground arith
        | inr other ↦ ground arith
      ]

  pub reap_shard-IsUnique :
      (threshold now : ℕ) (s : Buckets A) → IsUnique s → IsUnique (reap_shard threshold now s).0
  unfolding reap_shard
  reap_shard-IsUnique threshold now [] u = tt
  reap_shard-IsUnique threshold now ((key, b) ∷ rest) u =
      let ih = reap_shard-IsUnique threshold now rest u.1 in
      let same = lookup-reap_shard threshold now key rest u.1 in
      let gone = rw u.0 at same in
      elim (Bool-cases (ltb threshold (now - b.last_refill))) [
        | inl idle ↦ rw idle ih
        | inr fresh ↦ rw fresh (gone, ih)
      ]

  reap_shard-count :
      (threshold now : ℕ) (s : Buckets A)
      → length (reap_shard threshold now s).0 + (reap_shard threshold now s).1 ≡ length s
  unfolding reap_shard
  reap_shard-count threshold now [] = refl
  reap_shard-count threshold now ((key, b) ∷ rest) =
      ground (arith, reap_shard-count threshold now rest)

  reap_shards-count :
      (threshold now : ℕ) (shards : List (Buckets A))
      → tracked (reap_shards threshold now shards).0 + (reap_shards threshold now shards).1
        ≡ tracked shards
  unfolding reap_shards tracked
  reap_shards-count threshold now [] = refl
  reap_shards-count threshold now (s ∷ rest) =
      omega (arith, reap_shard-count threshold now s, reap_shards-count threshold now rest)

  reap_shards-length :
      (threshold now : ℕ) (shards : List (Buckets A))
      → length (reap_shards threshold now shards).0 ≡ length shards
  unfolding reap_shards
  reap_shards-length threshold now [] = refl
  reap_shards-length threshold now (s ∷ rest) = omega (arith, reap_shards-length threshold now rest)

  shard_of-reap_shards :
      (threshold now j : ℕ) (shards : List (Buckets A))
      → shard_of j (reap_shards threshold now shards).0
        ≡ (reap_shard threshold now (shard_of j shards)).0
  unfolding reap_shards reap_shard
  shard_of-reap_shards threshold now j [] = refl
  shard_of-reap_shards threshold now zero (s ∷ rest) = refl
  shard_of-reap_shards threshold now (suc j) (s ∷ rest) = shard_of-reap_shards threshold now j rest

  -- Where each client has at most one bucket in a shard, reaping drops exactly the buckets that were idle for longer than the threshold, keeps all the
  -- others as they are, and returns the number of those that it dropped.
  pub reap_idle_lem :
      (threshold now : ℕ) (l : RateLimiter A)
      → All IsUnique l.shards
      → ((q : Bytes)
          → bucket_of q (reap_idle threshold now l).0 ≡ kept threshold now (bucket_of q l))
        × (total_tracked_clients (reap_idle threshold now l).0 + (reap_idle threshold now l).1
            ≡ total_tracked_clients l)
  unfolding reap_idle total_tracked_clients shard_index
  reap_idle_lem threshold now l u = (
    λ q. rw (reap_shards-length threshold now l.shards) (
        rw (shard_of-reap_shards threshold now (shard_index q l) l.shards) (
          lookup-reap_shard threshold now q (shard_of (shard_index q l) l.shards)
            (All-shard_of IsUnique (shard_index q l) l.shards tt u))),
    reap_shards-count threshold now l.shards,
  )

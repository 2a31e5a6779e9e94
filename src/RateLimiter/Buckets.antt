-- ===== src/RateLimiter/Buckets.antt =====
-- Look-up and assignment in the maps of rate_limiter.cpp, and in its vector of shards.
use aegis_proxy.Common.{
  ℕ, zero, suc, ◌<◌, ◌≡◌, refl, true, false, List, [], ◌∷◌, some, arith, ◌==◌, inl, inr, Bool-cases,
  if◌then◌else◌, length, set, All,
}
use aegis_proxy.Text.{Bytes}
use aegis_proxy.RateLimiter.{Bucket, Buckets, same_text, lookup, assign, shard_of}

pub same_text_sound : (xs ys : Bytes) → same_text xs ys ≡ true → xs ≡ ys
unfolding same_text
same_text_sound [] [] e = refl
same_text_sound [] (y ∷ ys) e = cc
same_text_sound (x ∷ xs) [] e = cc
same_text_sound (x ∷ xs) (y ∷ ys) e = ground (arith, same_text_sound xs ys)

pub same_text_self : (xs : Bytes) → same_text xs xs ≡ true
unfolding same_text
same_text_self [] = refl
same_text_self (x ∷ xs) = ground (arith, same_text_self xs)

pub same_text_comm : (xs ys : Bytes) → same_text xs ys ≡ same_text ys xs
unfolding same_text
same_text_comm [] [] = refl
same_text_comm [] (y ∷ ys) = refl
same_text_comm (x ∷ xs) [] = refl
same_text_comm (x ∷ xs) (y ∷ ys) = ground (arith, same_text_comm xs ys)

apart :
    (ip q key : Bytes) → same_text key ip ≡ false → same_text key q ≡ true → same_text ip q ≡ false
apart ip q key other here = elim (Bool-cases (same_text ip q)) [
  | inr no_match ↦ no_match
  | inl both ↦
      let e = same_text_sound ip q both in
      let f = same_text_sound key q here in let self = same_text_self q in cc
]

module _ {A : Type 0} where
  pub lookup-assign :
      (ip q : Bytes) (b : Bucket A) (s : Buckets A)
      → lookup q (assign ip b s) ≡ (if same_text ip q then some b else lookup q s)
  unfolding lookup assign
  lookup-assign ip q b [] = refl
  lookup-assign ip q b ((key, c) ∷ rest) = elim (Bool-cases (same_text key ip)) [
    | inl same ↦ rw (same, same_text_sound key ip same) (ground arith)
    | inr other ↦
        rw (other, lookup-assign ip q b rest)
          (elim (Bool-cases (same_text key q)) [
            | inl here ↦ rw (here, apart ip q key other here) refl
            | inr absent ↦ rw absent refl
          ])
  ]

  pub shard_of-set :
      (i j : ℕ) (s : Buckets A) (shards : List (Buckets A))
      → i < length shards
      → shard_of j (set shards i s) ≡ (if i == j then s else shard_of j shards)
  shard_of-set i j s [] h = absurd (omega arith)
  shard_of-set zero zero s (x ∷ xs) h = refl
  shard_of-set zero (suc j) s (x ∷ xs) h = ground arith
  shard_of-set (suc i) zero s (x ∷ xs) h = ground arith
  shard_of-set (suc i) (suc j) s (x ∷ xs) h =
      rw (shard_of-set i j s xs (omega arith)) (ground arith)

  pub All-shard_of :
      (P : Buckets A → Type 0) (j : ℕ) (shards : List (Buckets A))
      → P []
      → All P shards
      → P (shard_of j shards)
  All-shard_of P j [] p a = p
  All-shard_of P zero (s ∷ rest) p a = a.0
  All-shard_of P (suc j) (s ∷ rest) p a = All-shard_of P j rest p a.1

-- ===== src/Tests/RateLimiter.antt =====
-- A limiter of rate_limiter.cpp with two shards, and whole numbers in the place of `double`.
use Prim.Native.Nat.{min}
use aegis_proxy.Common.{
  ℕ, ◌+◌, ◌-◌, ◌*◌, ◌/◌, ◌≤◌, ◌<◌, ◌≡◌, refl, inl, inr, true, List, [], ◌∷◌, none, some, arith, ltb,
  leb, if◌then◌else◌, All, length,
}
use aegis_proxy.Text.{Bytes, bytes}
use aegis_proxy.Hash.{hash_key}
use aegis_proxy.RateLimiter.{
  Arithmetic, RateLimiter, new, same_text, lookup, current, consume, allow, reap_idle,
  total_tracked_clients, shard_index,
}
use aegis_proxy.RateLimiter.Clients.{bucket_of, allow_lem}
use aegis_proxy.RateLimiter.Reap.{IsUnique, kept, reap_idle_lem}
use aegis_proxy.RateLimiter.Tokens.{Ordered, Use, allows, reaps, after_all, Sound, new-Sound}
use aegis_proxy.RateLimiter.Sustained.{second, Steady, Paced, sustained}
use aegis_proxy.RateLimiter.Burst.{Exact, requests_of, allowed_of, burst}

abbrev pub whole : Arithmetic ℕ
whole = record {
  one = 1;
  add = λ a b. a + b;
  subtract = λ a b. a - b;
  multiply = λ a b. a * b;
  less = ltb;
  at_least = λ a b. leb b a;
  seconds = λ d. d / 1000000000;
}

abbrev whole_laws : Ordered whole
whole_laws = record {
  nil = 0;
  self = λ a. ground arith;
  weak = λ a b e. ground arith;
  below = λ a c e f. ground arith;
  spare = λ a e. ground arith;
  sum = λ a b e f. ground arith;
  product = λ a b e f. ground arith;
  time = λ d. ground arith;
}

abbrev whole_exact : Exact whole 10
whole_exact = record {
  of_nat = λ n. n;
  minus = λ n h. omega arith;
  enough = λ n h. ground arith;
  short = refl;
  order = λ m n h k. refl;
  no_gain = λ n. omega arith;
}

abbrev limiter : RateLimiter ℕ
limiter = new 10 2 2

abbrev client : Bytes
client = bytes "10.0.0.1"

abbrev other : Bytes
other = bytes "10.0.0.2"

sharded : 0 < length limiter.shards
unfolding new
sharded = omega arith

allow_lem_example :
    let taken =
      consume ⦃number = whole⦄ (current ⦃number = whole⦄ 7 limiter (bucket_of client limiter)) in
    ((allow ⦃number = whole⦄ client 7 limiter).1 ≡ taken.1)
    × (bucket_of other (allow ⦃number = whole⦄ client 7 limiter).0
        ≡ (if same_text client other then some taken.0 else bucket_of other limiter))
allow_lem_example = allow_lem ⦃number = whole⦄ client other 7 limiter sharded

abbrev history : List Use
history = allows client 7 ∷ allows other 8 ∷ reaps 5 13 ∷ []

new-Sound_example :
    Sound ⦃number = whole⦄ whole_laws 10 2 (after_all ⦃number = whole⦄ history (new 10 2 2))
new-Sound_example =
    new-Sound ⦃number = whole⦄ whole_laws 10 2 (ground arith) (ground arith) 2 history

abbrev used : RateLimiter ℕ
used = after_all ⦃number = whole⦄ (allows client 7 ∷ allows other 8 ∷ []) (new 10 2 2)

used-IsUnique : All IsUnique used.shards
used-IsUnique =
    (new-Sound ⦃number = whole⦄ whole_laws 10 2 (ground arith) (ground arith) 2
      (allows client 7 ∷ allows other 8 ∷ [])).unique

reap_idle_lem_example :
    ((q : Bytes) → bucket_of q (reap_idle 5 13 used).0 ≡ kept 5 13 (bucket_of q used))
    × (total_tracked_clients (reap_idle 5 13 used).0 + (reap_idle 5 13 used).1
        ≡ total_tracked_clients used)
reap_idle_lem_example = reap_idle_lem 5 13 used used-IsUnique

abbrev requests : List (Bytes × ℕ)
requests = (client, 7) ∷ (other, 3) ∷ (client, 7) ∷ (client, 7) ∷ []

untracked : bucket_of client limiter ≡ none
unfolding new lookup shard_index hash_key
untracked = refl

at_one_instant : All (λ e. same_text e.0 client ≡ true → e.1 ≡ 7) requests
unfolding same_text
at_one_instant = (λ e. refl, (λ e. cc, (λ e. refl, (λ e. refl, tt))))

rate_is : limiter.refill_rate_per_sec ≡ 10
unfolding new
rate_is = refl

capacity_is : limiter.capacity ≡ whole_exact.of_nat 2
unfolding new
capacity_is = refl

burst_example :
    allowed_of ⦃number = whole⦄ client requests limiter ≡ min 2 (requests_of client requests)
burst_example =
    burst ⦃number = whole⦄ 10 whole_exact client 7 2 requests limiter rate_is capacity_is
      (omega arith) sharded untracked at_one_instant

abbrev whole_steady : Steady whole
whole_steady = record {
  of_nat = λ n. n;
  plus = λ m n h. refl;
  times = λ m n h. refl;
  minus = λ n h. omega arith;
  enough = λ n h. ground arith;
  short = refl;
  order = λ m n h k. refl;
  whole_seconds = λ n h. omega arith;
}

abbrev over_seconds : List (Bytes × ℕ)
over_seconds = (client, second * 1) ∷ (other, 3) ∷ (client, second * 3) ∷ []

paced : Paced client 1 5 over_seconds
unfolding same_text
paced = inr (
  refl,
  1,
  refl,
  omega arith,
  omega arith,
  inl (refl, inr (refl, 3, refl, omega arith, omega arith, tt)),
)

sustained_example : allowed_of ⦃number = whole⦄ client over_seconds limiter ≤ 2 + (5 - 1) * 10
sustained_example =
    sustained ⦃number = whole⦄ whole_steady client 2 10 1 5 over_seconds limiter rate_is capacity_is
      (omega arith) (omega arith) (omega arith) sharded untracked paced

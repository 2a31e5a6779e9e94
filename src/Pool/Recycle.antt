-- ===== src/Pool/Recycle.antt =====
-- release and then acquire in connection_pool.cpp.
use aegis_proxy.Common.{
  ℕ, zero, suc, ◌<◌, ◌≡◌, refl, ap, true, List, [], ◌∷◌, Option, some, arith, set, get_elem?,
  length,
}
use aegis_proxy.Run.{ok, at-get_elem?, update-set}
use aegis_proxy.Pool.{
  ConnectionPool, Socket, int_word, increment, decrement, acquire, acquire_pooled, take_pooled,
  count_active, release,
}

get_elem?-set :
    {A : Type 0} (xs : List A) (i : ℕ) (v : A) → i < length xs → get_elem? (set xs i v) i ≡ some v
get_elem?-set [] i v h = absurd (omega arith)
get_elem?-set (x ∷ xs) zero v h = refl
get_elem?-set (x ∷ xs) (suc i) v h = get_elem?-set xs i v (omega arith)

set-set : {A : Type 0} (xs : List A) (i : ℕ) (v w : A) → set (set xs i v) i w ≡ set xs i w
set-set [] i v w = refl
set-set (x ∷ xs) zero v w = refl
set-set (x ∷ xs) (suc i) v w = ap (λ ys. x ∷ ys) (set-set xs i v w)

set-get_elem? :
    {A : Type 0} (xs : List A) (i : ℕ) (v : A) → get_elem? xs i ≡ some v → set xs i v ≡ xs
set-get_elem? [] i v e = refl
set-get_elem? (x ∷ xs) zero v e = ground arith
set-get_elem? (x ∷ xs) (suc i) v e = ap (λ ys. x ∷ ys) (set-get_elem? xs i v e)

-- A healthy open socket that is released goes to the free list of its backend and the active count
-- goes down by one, with the wrap of 32 bits; the next acquire of that backend, whatever the network
-- would answer, gives this very socket and the pool as it was before. The backend's index is in range
-- and its counter is a 32-bit number.
pub release_then_acquire :
    (b n : ℕ) (free : List Socket) (socket : Socket) (answer : Option Socket) (p : ConnectionPool)
    → get_elem? p.free_sockets b ≡ some free
    → get_elem? p.active_counts b ≡ some n
    → n < int_word
    → b < length p.free_sockets
    → b < length p.active_counts
    → socket.is_open ≡ true
    → let given = record p {
      free_sockets = set p.free_sockets b (socket ∷ free);
      active_counts = set p.active_counts b (decrement n);
    } in
      (release b socket true p ≡ ok given) × (acquire b answer given ≡ ok (socket, p))
unfolding release acquire acquire_pooled take_pooled count_active
release_then_acquire b n free socket answer p f a small inside counted live =
    let lists = set p.free_sockets b (socket ∷ free) in
    let counts = set p.active_counts b (decrement n) in
    let f' = get_elem?-set p.free_sockets b (socket ∷ free) inside in
    let a' = get_elem?-set p.active_counts b (decrement n) counted in
    let back : increment (decrement n) ≡ n = omega arith in
    (
      rw
          (
            update-set p.active_counts b decrement n a,
            update-set p.free_sockets b (λ free. socket ∷ free) free f,
            live,
          )
          refl,
      rw
          (
            at-get_elem? lists b (socket ∷ free) f',
            update-set lists b (λ _. free) (socket ∷ free) f',
          )
          (rw
            (
              set-set p.free_sockets b (socket ∷ free) free,
              set-get_elem? p.free_sockets b free f,
              update-set counts b increment (decrement n) a',
              back,
              set-set p.active_counts b (decrement n) n,
              set-get_elem? p.active_counts b n a,
            )
            refl),
    )

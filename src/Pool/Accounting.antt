-- ===== src/Pool/Accounting.antt =====
-- The active counters of connection_pool.cpp against the sockets that are checked out.
use aegis_proxy.Common.{
  ℕ, zero, suc, ◌+◌, ◌%◌, ◌≡◌, Bool, List, [], ◌∷◌, Option, none, some, arith, ◌==◌, ==_self, not,
  ◌||◌, inl, inr, Bool-cases, if◌then◌else◌, get_elem?,
}
use aegis_proxy.Run.{ok, at, update, Ensures, Ensures-bind, Ensures-if, Ensures-ok, Run-cases}
use aegis_proxy.Pool.{
  ConnectionPool, Socket, int_word, increment, decrement, connect, count_active, take_pooled,
  acquire_pooled, acquire_connected, release,
}

abbrev pub counter : ℕ → List ℕ → ℕ
counter b counts = elim (get_elem? counts b) [ none ↦ 0 | some n ↦ n ]

-- The counters are the numbers of sockets that are checked out, in 32 bits.
abbrev pub Owed : (ℕ → ℕ) → ConnectionPool → Type 0
Owed base p = (c : ℕ) → counter c p.active_counts ≡ base c % int_word

-- One socket of backend `b` more.
abbrev pub one_more : ℕ → (ℕ → ℕ) → ℕ → ℕ
one_more b base c = base c + (if b == c then 1 else 0)

update-counter :
    (b c : ℕ) (f : ℕ → ℕ) (xs ys : List ℕ)
    → update xs b f ≡ ok ys
    → counter c ys ≡ (if b == c then f (counter b xs) else counter c xs)
unfolding update
update-counter b c f [] ys e = cc
update-counter zero zero f (x ∷ xs) ys e = ground arith
update-counter zero (suc c) f (x ∷ xs) ys e = ground arith
update-counter (suc b) zero f (x ∷ xs) ys e = elim (Run-cases (update xs b f)) [
  | inl (zs, u) ↦ ground (arith, u)
  | inr (x, u) ↦ ground (arith, u)
]
update-counter (suc b) (suc c) f (x ∷ xs) ys e = elim (Run-cases (update xs b f)) [
  | inl (zs, u) ↦ ground (arith, u, update-counter b c f xs zs u)
  | inr (x, u) ↦ ground (arith, u)
]

module _ (base : ℕ → ℕ) (b : ℕ) where
  -- The count behind acquire_pooled, by whether it gives a socket.
  abbrev pub checked_out : Option Socket → ℕ → ℕ
  checked_out none = base
  checked_out (some socket) = one_more b base

  count_active-Owed :
      (p : ConnectionPool) → Owed base p → Ensures (Owed (one_more b base)) (count_active b p)
  unfolding count_active
  count_active-Owed p o = Ensures-bind _ (update p.active_counts b increment) _ (λ counts e. λ c.
      rw (update-counter b c increment p.active_counts counts e, o c, o b)
        (elim (Bool-cases (b == c)) [
          | inl same ↦ let e' : b ≡ c = ground arith in rw (same, e') (omega arith)
          | inr other ↦ rw other (omega arith)
        ]))

  pub acquire_connected-Owed :
      (answer : Option Socket) (p : ConnectionPool)
      → Owed base p
      → Ensures (λ r. Owed (one_more b base) r.1) (acquire_connected b answer p)
  unfolding acquire_connected
  acquire_connected-Owed answer p o = Ensures-bind _ (connect b answer p) _ (λ socket e.
      Ensures-bind _ (count_active b p) _
        (λ q f. Ensures-ok _ (count_active b p) (count_active-Owed p o) f))

  take_pooled-Owed :
      (free : List Socket) (p : ConnectionPool)
      → Owed base p
      → Ensures (λ r. Owed (checked_out r.0) r.1) (take_pooled b free p)
  unfolding take_pooled
  take_pooled-Owed [] p o = o
  take_pooled-Owed (socket ∷ rest) p o =
      Ensures-bind _ (update p.free_sockets b (λ _. rest)) _ (λ lists e.
        Ensures-bind _ (count_active b (record p { free_sockets = lists })) _ (λ q f.
          Ensures-ok _ (count_active b (record p { free_sockets = lists }))
            (count_active-Owed (record p { free_sockets = lists }) o) f))

  -- What acquire has done before it connects: a pooled socket is counted, no socket is not.
  pub acquire_pooled-Owed :
      (p : ConnectionPool)
      → Owed base p
      → Ensures (λ r. Owed (checked_out r.0) r.1) (acquire_pooled b p)
  unfolding acquire_pooled
  acquire_pooled-Owed p o =
      Ensures-bind _ (at p.free_sockets b) _ (λ free e. take_pooled-Owed free p o)

  pub release-Owed :
      (socket : Socket) (healthy : Bool) (p : ConnectionPool)
      → Owed (one_more b base) p
      → Ensures (Owed base) (release b socket healthy p)
  unfolding release
  release-Owed socket healthy p o =
      Ensures-bind _ (update p.active_counts b decrement) _ (λ counts e.
        let owed : Owed base (record p { active_counts = counts }) = λ c.
          rw (update-counter b c decrement p.active_counts counts e, o c, o b)
            (elim (Bool-cases (b == c)) [
              | inl same ↦ let e' : b ≡ c = ground arith in rw (same, e', ==_self c) (omega arith)
              | inr other ↦ rw other (omega arith)
            ]) in
        Ensures-if _ (not healthy || not socket.is_open) _ _ (λ _. owed)
          (λ _.
            Ensures-bind _ (update p.free_sockets b (λ free. socket ∷ free)) _ (λ lists _. owed)))

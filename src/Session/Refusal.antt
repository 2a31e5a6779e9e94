-- ===== src/Session/Refusal.antt =====
-- Why handle_client in session.cpp gives a client up.
pub mod Rounds
pub mod Steps
use aegis_proxy.Common.{
  ℕ, ◌≤◌, ◌≡◌, ◌≢◌, refl, ◌⊎◌, true, List, [], ◌∷◌, none, arith, All, All-append, All-left,
  All-right, inl, inr, Bool-cases, ◌++◌,
}
use aegis_proxy.Text.{Bytes}
use aegis_proxy.Hash.{hash_key}
use aegis_proxy.Ring.{Entries, contains, HashRing, get_backend_excluding}
use aegis_proxy.Ring.Lookup.{first_live}
use aegis_proxy.Ring.Lookup.Rotation.{
  below, from, clockwise, below-append-from, lookup_excluding-clockwise,
}
use aegis_proxy.Session.State.{Point, answering, State}
use aegis_proxy.Session.World.{World}

-- Every backend of the ring is excluded.
abbrev pub AllTried : World → State → Type 0
AllTried w s = All (λ e. contains s.excluded e.1 ≡ true) w.ring.ring

-- The reasons: the attempts are used up, or all backends were tried, or what the client sent is no
-- longer whole in the buffer.
abbrev pub Why : World → State → Type 0
Why w s = (s.max_attempts ≤ s.attempts) ⊎ AllTried w s ⊎ (s.req_buf.capped ≡ true)

abbrev pub WhyAt : Point → World → State → Type 0
WhyAt answering w s = Why w s
WhyAt _ w s = Unit {0}

abbrev pub Excused : World × State → Type 0
Excused r = WhyAt r.1.point r.0 r.1

none_live :
    (excluded : List ℕ) (r : Entries)
    → first_live excluded r ≡ none
    → All (λ e. contains excluded e.1 ≡ true) r
unfolding first_live
none_live excluded [] e = tt
none_live excluded ((k, c) ∷ r) e = elim (Bool-cases (contains excluded c)) [
  | inl skipped ↦ (skipped, none_live excluded r (rw skipped at e))
  | inr live ↦ let e' = rw live at e in cc
]

pub exhausted-AllTried :
    (key : Bytes) (excluded : List ℕ) (s : HashRing)
    → get_backend_excluding key excluded s ≡ none
    → All (λ e. contains excluded e.1 ≡ true) s.ring
unfolding get_backend_excluding clockwise
exhausted-AllTried key excluded s e =
    let h = hash_key key in
    let xs = below h s.ring in
    let ys = from h s.ring in
    let tried =
      none_live excluded (ys ++ xs)
        (rw ((lookup_excluding-clockwise key excluded s.ring).1) at e) in
    rw (← below-append-from h s.ring)
      (All-append _ xs ys (All-right _ ys xs tried) (All-left _ ys xs tried))

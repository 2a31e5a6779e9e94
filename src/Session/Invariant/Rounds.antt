-- ===== src/Session/Invariant/Rounds.antt =====
-- The rounds of the loop of handle_client in session.cpp, and the invariant.
use aegis_proxy.Common.{
  ℕ, zero, suc, ◌+◌, ◌-◌, ◌≤◌, ◌≡◌, false, List, [], ◌∷◌, some, arith, inl, inr, Bool-cases,
  Option-cases,
}
use aegis_proxy.Run.{Exception, Ensures, Ensures-bind, Run-cases}
use aegis_proxy.Text.{Bytes, bytes, to_string}
use aegis_proxy.Pool.{Socket, acquire_pooled}
use aegis_proxy.Ring.{Entries, contains, HashRing, get_backend_excluding}
use aegis_proxy.Ring.Lookup.{first_live}
use aegis_proxy.Ring.Lookup.Rotation.{clockwise, lookup_excluding-clockwise}
use aegis_proxy.Hash.{hash_key}
use aegis_proxy.Session.World.{World, Env, report_failure}
use aegis_proxy.Session.State.{State}
use aegis_proxy.Session.Handle.{
  Retry, trace, field, two_fields, exclude, give_up, start_relay, selected, connect_failed, attempt,
  ask, consider, loop, next_round,
}
use aegis_proxy.Session.Invariant.{Tried, Head, Trying, Inv}

first_live_free :
    (excluded : List ℕ) (r : Entries) (b : ℕ)
    → first_live excluded r ≡ some b
    → contains excluded b ≡ false
unfolding first_live
first_live_free excluded [] b e = cc
first_live_free excluded ((k, c) ∷ r) b e = ground (arith, first_live_free excluded r b)

pub get_backend_excluding_free :
    (key : Bytes) (excluded : List ℕ) (s : HashRing) (b : ℕ)
    → get_backend_excluding key excluded s ≡ some b
    → contains excluded b ≡ false
unfolding get_backend_excluding
get_backend_excluding_free key excluded s b e =
    first_live_free excluded (clockwise (hash_key key) s.ring) b
      (rw ((lookup_excluding-clockwise key excluded s.ring).1) at e)

abbrev pub Keeps : World × State → Type 0
Keeps r = Inv r.1

abbrev pub KeepsRetry : Retry → State → Type 0
KeepsRetry retry s = (w : World) → Ensures Keeps (retry w s)

pub give_up-Inv : (w : World) (s : State) → Tried s → s.sent ≡ [] → Ensures Keeps (give_up w s)
unfolding give_up
give_up-Inv w s t q = ground arith

pub exclude-Head : (b : ℕ) (s : State) → Trying b s → Head (exclude b s)
exclude-Head b s t = ground arith

pub selected-Inv :
    (b : ℕ) (socket : Socket) (w : World) (s : State)
    → Trying b s
    → Ensures Keeps (selected b socket w s)
unfolding selected start_relay
selected-Inv b socket w s t = ground arith

-- What a round does next keeps the invariant, whatever the shared objects have become.
abbrev pub RetryKeeps : Retry → ℕ → State → Type 0
RetryKeeps retry b s = (w : World) → Ensures Keeps (retry w (exclude b s))

module _ (b : ℕ) (retry : Retry) (env : Env) (s : State) (t : Trying b s)
    (keep : RetryKeeps retry b s) where
  pub connect_failed-Inv :
      (e : Exception) (w : World) → Ensures Keeps (connect_failed b e retry env w s)
  unfolding connect_failed
  connect_failed-Inv e w =
      Ensures-bind Keeps
        (report_failure b (env.failed_at s.attempts) (
          trace (bytes "connect_failed")
            (two_fields (bytes "backend") (to_string b) (bytes "error") (env.what e)) s w))
        (λ reported. retry reported (exclude b s)) (λ reported _. keep reported)

  attempt-Inv : (w : World) → Ensures Keeps (attempt b retry env w s)
  unfolding attempt
  attempt-Inv w = elim (Run-cases (acquire_pooled b w.pool)) [
    | inr (e, thrown) ↦ rw (thrown, attempt) (connect_failed-Inv e w)
    | inl ((pooled, p), taken) ↦ elim (Option-cases pooled) [
      | inl none_free ↦ rw (taken, attempt, none_free) (ground arith)
      | inr (socket, got) ↦
          rw (taken, attempt, got) (selected-Inv b socket (record w { pool = p }) s t)
    ]
  ]

  consider-Inv : (w : World) → Ensures Keeps (consider b retry env w s)
  unfolding consider
  consider-Inv w = elim (Run-cases (ask b (env.asked_at s.attempts) w)) [
    | inr (e, thrown) ↦ rw (thrown, consider) tt
    | inl ((allowed, asked), got) ↦ elim (Bool-cases allowed) [
      | inl yes_go ↦ rw (got, consider, yes_go) (attempt-Inv asked)
      | inr refused ↦ rw (got, consider, refused) (keep _)
    ]
  ]

-- From a round's beginning the loop keeps the invariant.
pub loop-Inv :
    (rounds : ℕ) (env : Env) (w : World) (s : State)
    → Head s
    → rounds + s.attempts ≤ s.max_attempts
    → Ensures Keeps (loop rounds env w s)
unfolding loop
loop-Inv zero env w s h r = give_up-Inv w s h.tried h.quiet
loop-Inv (suc rounds) env w s h r =
    elim (Option-cases (get_backend_excluding s.client_key s.excluded w.ring)) [
      | inl exhausted ↦
          rw (exhausted, loop)
            (give_up-Inv
              (trace (bytes "ring_exhausted") (field (bytes "attempts") (to_string s.attempts)) s w)
              s h.tried h.quiet)
      | inr (b, chosen) ↦
          let t : Trying b s = record {
            head = h;
            free = get_backend_excluding_free s.client_key s.excluded w.ring b chosen;
            below = omega arith;
          } in
          rw (chosen, loop)
            (consider-Inv b (loop rounds env) env s t
              (λ w'. loop-Inv rounds env w' (exclude b s) (exclude-Head b s t) (omega arith)) w)
    ]

pub next_round-Inv :
    (env : Env) (w : World) (s : State) → Head s → Ensures Keeps (next_round env w s)
next_round-Inv env w s h =
    loop-Inv (s.max_attempts - s.attempts) env w s h (omega (arith, h.tried.room))

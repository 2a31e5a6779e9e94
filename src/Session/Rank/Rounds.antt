-- ===== src/Session/Rank/Rounds.antt =====
-- The rounds of the loop of handle_client in session.cpp, and how far they leave a session from its
-- end.
use aegis_proxy.Common.{
  ℕ, zero, suc, ◌+◌, ◌-◌, ◌*◌, ◌≤◌, ◌≡◌, refl, [], ◌∷◌, arith, inl, inr, Bool-cases, Option-cases,
}
use aegis_proxy.Text.{Bytes, bytes, to_string}
use aegis_proxy.Run.{ok, Exception, Ensures, Ensures-bind, Ensures-map, Run-cases}
use aegis_proxy.Pool.{Socket, acquire_pooled}
use aegis_proxy.Ring.{get_backend_excluding}
use aegis_proxy.Session.World.{World, Env, report_failure, show_pool}
use aegis_proxy.Session.State.{replaying, State}
use aegis_proxy.Session.Handle.{
  Result, Retry, trace, field, two_fields, exclude, give_up, start_relay, selected, connect_failed,
  attempt, ask, consider, loop, next_round,
}
use aegis_proxy.Session.Rank.{Within}

-- The rounds that are left once the attempt that is under way has failed.
abbrev pub behind : State → ℕ
behind s = s.max_attempts - (s.attempts + 1)

pub Within-weaken : (j k : ℕ) (m : Result) → j ≤ k → Ensures (Within j) m → Ensures (Within k) m
Within-weaken j k m h e = Ensures-map (Within j) (Within k) m (λ r p. (omega (arith, p.0), p.1)) e

pub give_up-Within : (k : ℕ) (w : World) (s : State) → 2 ≤ k → Ensures (Within k) (give_up w s)
unfolding give_up
give_up-Within k w s h = (h, tt)

replay_or_relay-Within :
    (b : ℕ) (socket : Socket) (w : World) (s : State) (contents : Bytes)
    → Ensures (Within (4 * behind s + 5)) (elim contents [
      | [] ↦ start_relay b socket w s
      | _ ∷ _ ↦ ok (w, record s { point = replaying b socket })
    ])
unfolding start_relay
replay_or_relay-Within b socket w s [] = (omega arith, refl)
replay_or_relay-Within b socket w s (c ∷ cs) = (omega arith, tt)

pub selected-Within :
    (b : ℕ) (socket : Socket) (w : World) (s : State)
    → Ensures (Within (4 * behind s + 5)) (selected b socket w s)
unfolding selected
selected-Within b socket w s =
    Ensures-bind _
      (show_pool b (
        trace (bytes "backend_selected")
          (two_fields (bytes "backend") (to_string b) (bytes "attempt")
            (to_string (s.attempts + 1)))
          s w))
      _
      (λ shown _.
        replay_or_relay-Within b socket shown (record s { forwarded = s.req_buf.contents })
          s.req_buf.contents)

-- What a round does next leaves the session within the rounds behind it.
abbrev pub RetryWithin : Retry → ℕ → State → Type 0
RetryWithin retry b s = (w : World) → Ensures (Within (4 * behind s + 2)) (retry w (exclude b s))

module _ (b : ℕ) (retry : Retry) (env : Env) (s : State) (next : RetryWithin retry b s) where
  pub connect_failed-Within :
      (e : Exception) (w : World)
      → Ensures (Within (4 * behind s + 2)) (connect_failed b e retry env w s)
  unfolding connect_failed
  connect_failed-Within e w =
      Ensures-bind _
        (report_failure b (env.failed_at s.attempts) (
          trace (bytes "connect_failed")
            (two_fields (bytes "backend") (to_string b) (bytes "error") (env.what e)) s w))
        _ (λ reported _. next reported)

  attempt-Within : (w : World) → Ensures (Within (4 * behind s + 6)) (attempt b retry env w s)
  unfolding attempt
  attempt-Within w = elim (Run-cases (acquire_pooled b w.pool)) [
    | inr (e, thrown) ↦
        rw (thrown, attempt)
          (Within-weaken (4 * behind s + 2) (4 * behind s + 6) (connect_failed b e retry env w s)
            (omega arith) (connect_failed-Within e w))
    | inl ((pooled, p), taken) ↦ elim (Option-cases pooled) [
      | inl none_free ↦ rw (taken, attempt, none_free) (omega arith, tt)
      | inr (socket, got) ↦
          rw (taken, attempt, got)
            (Within-weaken (4 * behind s + 5) (4 * behind s + 6)
              (selected b socket (record w { pool = p }) s) (omega arith)
              (selected-Within b socket (record w { pool = p }) s))
    ]
  ]

  consider-Within : (w : World) → Ensures (Within (4 * behind s + 6)) (consider b retry env w s)
  unfolding consider
  consider-Within w = elim (Run-cases (ask b (env.asked_at s.attempts) w)) [
    | inr (e, thrown) ↦ rw (thrown, consider) tt
    | inl ((allowed, asked), got) ↦ elim (Bool-cases allowed) [
      | inl go_on ↦ rw (got, consider, go_on) (attempt-Within asked)
      | inr refused ↦
          rw (got, consider, refused)
            (Within-weaken (4 * behind s + 2) (4 * behind s + 6) _ (omega arith) (next _))
    ]
  ]

-- With `rounds` rounds left, the loop leaves the session within them.
loop-Within :
    (rounds : ℕ) (env : Env) (w : World) (s : State)
    → s.max_attempts - s.attempts ≡ rounds
    → Ensures (Within (4 * rounds + 2)) (loop rounds env w s)
unfolding loop
loop-Within zero env w s e = give_up-Within 2 w s (omega arith)
loop-Within (suc rounds) env w s e =
    elim (Option-cases (get_backend_excluding s.client_key s.excluded w.ring)) [
      | inl exhausted ↦
          rw (exhausted, loop)
            (give_up-Within (4 * suc rounds + 2)
              (trace (bytes "ring_exhausted") (field (bytes "attempts") (to_string s.attempts)) s w)
              s (omega arith))
      | inr (b, chosen) ↦
          let left : behind s ≡ rounds = omega arith in
          rw (chosen, loop)
            (Within-weaken (4 * behind s + 6) (4 * suc rounds + 2)
              (consider b (loop rounds env) env w s) (omega arith)
              (consider-Within b (loop rounds env) env s
                (λ w'. rw left (loop-Within rounds env w' (exclude b s) left)) w))
    ]

pub next_round-Within :
    (env : Env) (w : World) (s : State)
    → Ensures (Within (4 * (s.max_attempts - s.attempts) + 2)) (next_round env w s)
next_round-Within env w s = loop-Within (s.max_attempts - s.attempts) env w s refl

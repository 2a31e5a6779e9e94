-- ===== src/Session/Refusal/Rounds.antt =====
-- The rounds of the loop of handle_client in session.cpp, and why they give a client up.
use aegis_proxy.Common.{
  ℕ, zero, suc, ◌+◌, ◌-◌, ◌≡◌, refl, [], ◌∷◌, arith, inl, inr, Bool-cases, Option-cases,
}
use aegis_proxy.Text.{Bytes, bytes, to_string}
use aegis_proxy.Run.{ok, Exception, Ensures, Ensures-bind, Run-cases}
use aegis_proxy.Pool.{Socket, acquire_pooled}
use aegis_proxy.Metrics.{record_fallback_503}
use aegis_proxy.Ring.{get_backend_excluding}
use aegis_proxy.Session.World.{World, Env, log, report_failure, show_pool}
use aegis_proxy.Session.State.{replaying, State}
use aegis_proxy.Session.Handle.{
  Retry, trace, field, two_fields, exclude, give_up, start_relay, selected, connect_failed, attempt,
  ask, consider, loop, next_round,
}
use aegis_proxy.Session.Refusal.{Why, Excused, exhausted-AllTried}

pub give_up-Excused : (w : World) (s : State) → Why w s → Ensures Excused (give_up w s)
unfolding give_up log record_fallback_503
give_up-Excused w s why = why

replay_or_relay-Excused :
    (b : ℕ) (socket : Socket) (w : World) (s : State) (contents : Bytes)
    → Ensures Excused (elim contents [
      | [] ↦ start_relay b socket w s
      | _ ∷ _ ↦ ok (w, record s { point = replaying b socket })
    ])
unfolding start_relay
replay_or_relay-Excused b socket w s [] = tt
replay_or_relay-Excused b socket w s (c ∷ cs) = tt

pub selected-Excused :
    (b : ℕ) (socket : Socket) (w : World) (s : State) → Ensures Excused (selected b socket w s)
unfolding selected
selected-Excused b socket w s =
    Ensures-bind Excused
      (show_pool b (
        trace (bytes "backend_selected")
          (two_fields (bytes "backend") (to_string b) (bytes "attempt")
            (to_string (s.attempts + 1)))
          s w))
      _
      (λ shown _.
        replay_or_relay-Excused b socket shown (record s { forwarded = s.req_buf.contents })
          s.req_buf.contents)

-- What a round does next gives up for a reason.
abbrev pub RetryExcused : Retry → ℕ → State → Type 0
RetryExcused retry b s = (w : World) → Ensures Excused (retry w (exclude b s))

module _ (b : ℕ) (retry : Retry) (env : Env) (s : State) (next : RetryExcused retry b s) where
  pub connect_failed-Excused :
      (e : Exception) (w : World) → Ensures Excused (connect_failed b e retry env w s)
  unfolding connect_failed
  connect_failed-Excused e w =
      Ensures-bind Excused
        (report_failure b (env.failed_at s.attempts) (
          trace (bytes "connect_failed")
            (two_fields (bytes "backend") (to_string b) (bytes "error") (env.what e)) s w))
        _ (λ reported _. next reported)

  attempt-Excused : (w : World) → Ensures Excused (attempt b retry env w s)
  unfolding attempt
  attempt-Excused w = elim (Run-cases (acquire_pooled b w.pool)) [
    | inr (e, thrown) ↦ rw (thrown, attempt) (connect_failed-Excused e w)
    | inl ((pooled, p), taken) ↦ elim (Option-cases pooled) [
      | inl none_free ↦ rw (taken, attempt, none_free) tt
      | inr (socket, got) ↦
          rw (taken, attempt, got) (selected-Excused b socket (record w { pool = p }) s)
    ]
  ]

  consider-Excused : (w : World) → Ensures Excused (consider b retry env w s)
  unfolding consider
  consider-Excused w = elim (Run-cases (ask b (env.asked_at s.attempts) w)) [
    | inr (e, thrown) ↦ rw (thrown, consider) tt
    | inl ((allowed, asked), got) ↦ elim (Bool-cases allowed) [
      | inl go_on ↦ rw (got, consider, go_on) (attempt-Excused asked)
      | inr refused ↦ rw (got, consider, refused) (next _)
    ]
  ]

loop-Excused :
    (rounds : ℕ) (env : Env) (w : World) (s : State)
    → s.max_attempts - s.attempts ≡ rounds
    → Ensures Excused (loop rounds env w s)
unfolding loop log
loop-Excused zero env w s e = give_up-Excused w s (inl (omega arith))
loop-Excused (suc rounds) env w s e =
    elim (Option-cases (get_backend_excluding s.client_key s.excluded w.ring)) [
      | inl exhausted ↦
          rw (exhausted, loop)
            (give_up-Excused
              (trace (bytes "ring_exhausted") (field (bytes "attempts") (to_string s.attempts)) s w)
              s (inr (inl (exhausted-AllTried s.client_key s.excluded w.ring exhausted))))
      | inr (b, chosen) ↦
          rw (chosen, loop)
            (consider-Excused b (loop rounds env) env s
              (λ w'. loop-Excused rounds env w' (exclude b s) (omega arith)) w)
    ]

pub next_round-Excused : (env : Env) (w : World) (s : State) → Ensures Excused (next_round env w s)
next_round-Excused env w s = loop-Excused (s.max_attempts - s.attempts) env w s refl

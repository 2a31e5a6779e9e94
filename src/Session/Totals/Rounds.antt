-- ===== src/Session/Totals/Rounds.antt =====
-- The rounds of the loop of handle_client in session.cpp, and the totals of metrics.hpp.
use aegis_proxy.Common.{
  ℕ, zero, suc, ◌+◌, ◌-◌, ◌∙◌, [], ◌∷◌, arith, inl, inr, Bool-cases, Option-cases,
}
use aegis_proxy.Text.{Bytes, bytes, to_string}
use aegis_proxy.Run.{Run, ok, ◌>>=◌, Exception, Ensures, Ensures-bind, Ensures-ok, Run-cases}
use aegis_proxy.Pool.{Socket, acquire_pooled}
use aegis_proxy.Metrics.{record_fallback_503}
use aegis_proxy.Ring.{get_backend_excluding}
use aegis_proxy.Session.World.{World, Env, log, report_failure, show_pool}
use aegis_proxy.Session.State.{replaying, State}
use aegis_proxy.Session.Handle.{
  Retry, trace, field, two_fields, exclude, give_up, start_relay, selected, connect_failed, attempt,
  ask, consider, loop, next_round,
}
use aegis_proxy.Session.Totals.{
  Told, Done, SameTold, show_pool-SameTold, report_failure-SameTold, ask-SameTold,
}

module _ (x y z : ℕ) where
  pub Told-same : (w v : World) (s : State) → SameTold w v → Told x y z w s → Told x y z v s
  Told-same w v s same t = (same.0 ∙ t.0, same.1 ∙ t.1, same.2 ∙ t.2)

  -- Behind a call that leaves the totals alone.
  pub Told-then :
      {B : Type 0} (P : B → Type 0) (w : World) (s : State) (m : Run World) (f : World → Run B)
      → Ensures (SameTold w) m
      → Told x y z w s
      → ((v : World) → Told x y z v s → Ensures P (f v))
      → Ensures P (m >>= f)
  Told-then P w s m f same t k =
      Ensures-bind P m f (λ v e. k v (Told-same w v s (Ensures-ok (SameTold w) m same e) t))

  pub give_up-Done : (w : World) (s : State) → Told x y z w s → Ensures (Done x y z) (give_up w s)
  unfolding give_up log record_fallback_503
  give_up-Done w s t = (rw t.0 (omega arith), t.1, t.2)

  replay_or_relay-Done :
      (b : ℕ) (socket : Socket) (w : World) (s : State) (contents : Bytes)
      → Told x y z w s
      → Ensures (Done x y z) (elim contents [
        | [] ↦ start_relay b socket w s
        | _ ∷ _ ↦ ok (w, record s { point = replaying b socket })
      ])
  unfolding start_relay
  replay_or_relay-Done b socket w s [] t = t
  replay_or_relay-Done b socket w s (c ∷ cs) t = t

  pub selected-Done :
      (b : ℕ) (socket : Socket) (w : World) (s : State)
      → Told x y z w s
      → Ensures (Done x y z) (selected b socket w s)
  unfolding selected log
  selected-Done b socket w s t =
      let logged : World =
        trace (bytes "backend_selected")
          (two_fields (bytes "backend") (to_string b) (bytes "attempt")
            (to_string (s.attempts + 1)))
          s w in
      Told-then (Done x y z) logged s (show_pool b logged) _ (show_pool-SameTold b logged) t
        (λ shown told.
          replay_or_relay-Done b socket shown (record s { forwarded = s.req_buf.contents })
            s.req_buf.contents told)

  -- What a round does next agrees with the totals.
  abbrev pub RetryDone : Retry → Type 0
  RetryDone retry = (w : World) (s : State) → Told x y z w s → Ensures (Done x y z) (retry w s)

  module _ (b : ℕ) (retry : Retry) (env : Env) (keep : RetryDone retry) (s : State) where
    pub connect_failed-Done :
        (e : Exception) (w : World)
        → Told x y z w s
        → Ensures (Done x y z) (connect_failed b e retry env w s)
    unfolding connect_failed log
    connect_failed-Done e w t =
        let logged : World =
          trace (bytes "connect_failed")
            (two_fields (bytes "backend") (to_string b) (bytes "error") (env.what e)) s w in
        Told-then (Done x y z) logged s (report_failure b (env.failed_at s.attempts) logged) _
          (report_failure-SameTold b logged (env.failed_at s.attempts)) t
          (λ reported told. keep reported (exclude b s) told)

    attempt-Done : (w : World) → Told x y z w s → Ensures (Done x y z) (attempt b retry env w s)
    unfolding attempt
    attempt-Done w t = elim (Run-cases (acquire_pooled b w.pool)) [
      | inr (e, thrown) ↦ rw (thrown, attempt) (connect_failed-Done e w t)
      | inl ((pooled, p), taken) ↦ elim (Option-cases pooled) [
        | inl none_free ↦ rw (taken, attempt, none_free) t
        | inr (socket, got) ↦
            rw (taken, attempt, got) (selected-Done b socket (record w { pool = p }) s t)
      ]
    ]

    consider-Done : (w : World) → Told x y z w s → Ensures (Done x y z) (consider b retry env w s)
    unfolding consider log
    consider-Done w t = elim (Run-cases (ask b (env.asked_at s.attempts) w)) [
      | inr (e, thrown) ↦ rw (thrown, consider) tt
      | inl ((allowed, asked), got) ↦
          let same =
            Ensures-ok _ (ask b (env.asked_at s.attempts) w)
              (ask-SameTold b w (env.asked_at s.attempts)) got in
          let told = Told-same w asked s same t in
          elim (Bool-cases allowed) [
            | inl go_on ↦ rw (got, consider, go_on) (attempt-Done asked told)
            | inr refused ↦ rw (got, consider, refused) (keep _ _ told)
          ]
    ]

  loop-Done :
      (rounds : ℕ) (env : Env) (w : World) (s : State)
      → Told x y z w s
      → Ensures (Done x y z) (loop rounds env w s)
  unfolding loop log
  loop-Done zero env w s t = give_up-Done w s t
  loop-Done (suc rounds) env w s t =
      elim (Option-cases (get_backend_excluding s.client_key s.excluded w.ring)) [
        | inl exhausted ↦
            rw (exhausted, loop)
              (give_up-Done
                (trace (bytes "ring_exhausted") (field (bytes "attempts") (to_string s.attempts)) s
                  w)
                s t)
        | inr (b, chosen) ↦
            rw (chosen, loop)
              (consider-Done b (loop rounds env) env (λ v u p. loop-Done rounds env v u p) s w t)
      ]

  pub next_round-Done :
      (env : Env) (w : World) (s : State)
      → Told x y z w s
      → Ensures (Done x y z) (next_round env w s)
  next_round-Done env w s t = loop-Done (s.max_attempts - s.attempts) env w s t

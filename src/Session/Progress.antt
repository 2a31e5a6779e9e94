-- ===== src/Session/Progress.antt =====
-- The exceptions that the calls of handle_client in session.cpp could throw, through its rounds.
pub mod Steps
use aegis_proxy.Common.{
  ℕ, zero, suc, ◌+◌, ◌-◌, ◌≤◌, ◌<◌, ◌≡◌, refl, Bool, true, false, List, [], ◌∷◌, ◌++◌, Option, none,
  some, arith, All, All-append, All-left, All-right, inl, inr, Bool-cases, Option-cases,
  if◌then◌else◌, length,
}
use aegis_proxy.Text.{Bytes, bytes, to_string}
use aegis_proxy.Hash.{hash_key}
use aegis_proxy.Run.{
  Run, Exception, ok, throw, ◌>>=◌, at, update, Total, Total-bind, Total-if, Total-ok, at-Total,
  update-Total, Run-cases, Ensures-ok,
}
use aegis_proxy.Breaker.{CircuitBreaker, allow_request}
use aegis_proxy.Pool.{Socket, acquire_pooled, acquire_connected, release}
use aegis_proxy.Metrics.{record_request_received, record_fallback_503}
use aegis_proxy.Trace.{Fields}
use aegis_proxy.Ring.{Entries, contains, HashRing, get_backend_excluding}
use aegis_proxy.Ring.Lookup.{first_live}
use aegis_proxy.Ring.Lookup.Rotation.{
  below, from, clockwise, below-append-from, lookup_excluding-clockwise,
}
use aegis_proxy.Session.World.{
  World, Env, log, show_breaker, report_failure, report_success, show_pool,
}
use aegis_proxy.Session.Relay.{
  Relay, Leg, reading, writing, returned, after_read, after_write, is_over,
}
use aegis_proxy.Session.State.{
  Point, created, connecting, replaying, relaying, answering, draining, finished, State, Event,
  started, connected, replayed, client_read, backend_wrote, backend_read, client_wrote,
  status_written, drained,
}
use aegis_proxy.Session.Handle.{
  Result, Retry, trace, field, two_fields, exclude, give_up, start_relay, selected, connect_failed,
  attempt, ask, consider, loop, next_round,
}
use aegis_proxy.Session.Resume.{
  start, finish_connect, replay_failed, no_response, responded, relay_done, moved, capture, deliver,
  mark_started, relay_event, resume_at, resume,
}
use aegis_proxy.Session.Sized.{
  Sized, PoolSized, show_breaker-Sized, report_failure-Sized, report_success-Sized, show_pool-Sized,
  release-Sized, acquire_pooled-Sized, acquire_connected-Sized,
}

first_live-lt :
    (n : ℕ) (excluded : List ℕ) (r : Entries) (b : ℕ)
    → All (λ e. e.1 < n) r
    → first_live excluded r ≡ some b
    → b < n
unfolding first_live
first_live-lt n excluded [] b a e = cc
first_live-lt n excluded ((k, c) ∷ r) b a e = ground (arith, first_live-lt n excluded r b a.1)

get_backend_excluding-lt :
    (n : ℕ) (key : Bytes) (excluded : List ℕ) (s : HashRing) (b : ℕ)
    → All (λ e. e.1 < n) s.ring
    → get_backend_excluding key excluded s ≡ some b
    → b < n
unfolding get_backend_excluding clockwise
get_backend_excluding-lt n key excluded s b a e =
    let h = hash_key key in
    let xs = below h s.ring in
    let ys = from h s.ring in
    let whole : All (λ e. e.1 < n) (xs ++ ys) = rw (below-append-from h s.ring) a in
    first_live-lt n excluded (ys ++ xs) b
      (All-append _ ys xs (All-right _ xs ys whole) (All-left _ xs ys whole))
      (rw ((lookup_excluding-clockwise key excluded s.ring).1) at e)

abbrev pub PointBelow : ℕ → Point → Type 0
PointBelow n (connecting b) = b < n
PointBelow n (replaying b socket) = b < n
PointBelow n (relaying b socket r) = b < n
PointBelow n _ = Unit

abbrev pub Good : ℕ → World × State → Type 0
Good n r = Sized n r.0 × PointBelow n r.1.point

pub give_up-Good : (n : ℕ) (w : World) (s : State) → Sized n w → Total (Good n) (give_up w s)
unfolding give_up log record_fallback_503
give_up-Good n w s z = ground arith

abbrev pub RetryGood : ℕ → Retry → State → Type 0
RetryGood n retry s = (w : World) → Sized n w → Total (Good n) (retry w s)

on_bool :
    (n : ℕ) (test : Bool) (p q : Result)
    → Total (Good n) p
    → Total (Good n) q
    → Total (Good n) (elim test [ true ↦ p | false ↦ q ])
on_bool n true p q x y = x
on_bool n false p q x y = y

module _ (n b : ℕ) (lt : b < n) where
  pub traced :
      (name : Bytes) (fs : Fields) (s : State) (w : World) → Sized n w → Sized n (trace name fs s w)
  unfolding log
  traced name fs s w z = ground arith

  pub selected-Good :
      (socket : Socket) (w : World) (s : State) → Sized n w → Total (Good n) (selected b socket w s)
  unfolding selected start_relay
  selected-Good socket w s z =
      Total-bind (Good n) (Sized n)
        (show_pool b (
          trace (bytes "backend_selected")
            (two_fields (bytes "backend") (to_string b) (bytes "attempt")
              (to_string (s.attempts + 1)))
            s w))
        _
        (show_pool-Sized n b lt _ (
          traced (bytes "backend_selected")
            (two_fields (bytes "backend") (to_string b) (bytes "attempt")
              (to_string (s.attempts + 1)))
            s w z))
        (λ shown sh. ground arith)

  module _ (retry : Retry) (env : Env) (s : State) (good : RetryGood n retry (exclude b s)) where
    pub connect_failed-Good :
        (e : Exception) (w : World) → Sized n w → Total (Good n) (connect_failed b e retry env w s)
    unfolding connect_failed
    connect_failed-Good e w z =
        let fs = two_fields (bytes "backend") (to_string b) (bytes "error") (env.what e) in
        let line = trace (bytes "connect_failed") fs s w in
        Total-bind (Good n) (Sized n) (report_failure b (env.failed_at s.attempts) line) _
          (report_failure-Sized n b lt (env.failed_at s.attempts) line
            (traced (bytes "connect_failed") fs s w z))
          (λ reported r. good reported r)

    attempt-Good : (w : World) → Sized n w → Total (Good n) (attempt b retry env w s)
    unfolding attempt
    attempt-Good w z =
        let ((pooled, p), taken, sized) =
          Total-ok _ (acquire_pooled b w.pool) (acquire_pooled-Sized n b lt w.pool z.pool) in
        elim (Option-cases pooled) [
          | inl none_free ↦ rw (taken, attempt, none_free) (ground arith)
          | inr (socket, got) ↦
              rw (taken, attempt, got)
                (selected-Good socket (record w { pool = p }) s (ground arith))
        ]

    ask-Good : (now : ℕ) (w : World) → Sized n w → Total (λ r. Sized n r.1) (ask b now w)
    unfolding ask
    ask-Good now w z =
        Total-bind (λ r. Sized n r.1) (Sized n) (show_breaker b w) _ (show_breaker-Sized n b lt w z)
          (λ shown sh.
            Total-bind (λ r. Sized n r.1) _ (at shown.breakers b) _
              (at-Total shown.breakers b (omega (arith, sh.breakers)))
              (λ br _.
                Total-bind (λ r. Sized n r.1) _
                  (update shown.breakers b (λ _. (allow_request now br).0)) _
                  (update-Total shown.breakers b (λ _. (allow_request now br).0)
                    (omega (arith, sh.breakers)))
                  (λ bs e. ground arith)))

    consider-Good : (w : World) → Sized n w → Total (Good n) (consider b retry env w s)
    unfolding consider
    consider-Good w z =
        let fs =
          two_fields (bytes "backend") (to_string b) (bytes "reason")
            (bytes "open_or_trial_busy") in
        Total-bind (Good n) (λ r. Sized n r.1) (ask b (env.asked_at s.attempts) w) _
          (ask-Good (env.asked_at s.attempts) w z)
          (λ r q. on_bool n r.0 _ _ (attempt-Good r.1 q) (
            good (trace (bytes "breaker_skip") fs s r.1)
              (traced (bytes "breaker_skip") fs s r.1 q)))

loop-Good :
    (n rounds : ℕ) (env : Env) (w : World) (s : State)
    → Sized n w
    → Total (Good n) (loop rounds env w s)
unfolding loop
loop-Good n zero env w s z = give_up-Good n w s z
loop-Good n (suc rounds) env w s z =
    elim (Option-cases (get_backend_excluding s.client_key s.excluded w.ring)) [
      | inl exhausted ↦
          rw (exhausted, loop)
            (give_up-Good n
              (trace (bytes "ring_exhausted") (field (bytes "attempts") (to_string s.attempts)) s w)
              s (unfold log in ground arith))
      | inr (b, chosen) ↦
          let lt = get_backend_excluding-lt n s.client_key s.excluded w.ring b z.ring chosen in
          rw (chosen, loop)
            (consider-Good n b lt (loop rounds env) env s
              (λ w' z'. loop-Good n rounds env w' (exclude b s) z') w z)
    ]

pub next_round-Good :
    (n : ℕ) (env : Env) (w : World) (s : State) → Sized n w → Total (Good n) (next_round env w s)
next_round-Good n env w s z = loop-Good n (s.max_attempts - s.attempts) env w s z

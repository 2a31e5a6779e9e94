-- ===== src/Session/Journal.antt =====
-- The lines that the sessions of session.cpp print, through the rounds of handle_client.
pub mod Steps
use aegis_proxy.Common.{
  ℕ, zero, suc, ◌+◌, ◌-◌, ◌≡◌, refl, sym, subst, Bool, true, false, List, [], ◌∷◌, Option, none,
  some, arith, inl, inr, Bool-cases, Option-cases, length, All,
}
use aegis_proxy.Text.{Bytes, bytes, to_string}
use aegis_proxy.Text.Decimal.{IsDigit, to_string-digits}
use aegis_proxy.Run.{Run, ok, ◌>>=◌, Exception, Ensures, Ensures-bind, Ensures-ok, Run-cases}
use aegis_proxy.Pool.{ConnectionPool, Socket, acquire_pooled}
use aegis_proxy.Metrics.{record_fallback_503}
use aegis_proxy.Ring.{get_backend_excluding}
use aegis_proxy.Trace.{Fields, event_line}
use aegis_proxy.Trace.Grammar.{Free}
use aegis_proxy.Trace.ReadBack.{Entry, OneWord, Legible, LegibleEntry}
use aegis_proxy.Session.World.{World, Env, log, report_failure, show_pool}
use aegis_proxy.Session.State.{Point, replaying, relaying, connecting, State}
use aegis_proxy.Session.Handle.{
  Retry, trace, field, two_fields, exclude, give_up, start_relay, selected, connect_failed, attempt,
  ask, consider, loop, next_round,
}
use aegis_proxy.Session.Accounts.{Quiet, ask-Quiet, report_failure-Quiet, show_pool-Quiet}

-- A line of an entry that can be read.
abbrev pub IsLine : Bytes → Type 0
IsLine text = (e : Entry) × LegibleEntry e × (event_line e.correlation_id e.name e.fields ≡ text)

abbrev pub Readable : World → Type 0
Readable w = All IsLine w.trace

-- The id and the key of a session are one word each.
abbrev pub Named : State → Type 0
Named s = OneWord s.correlation_id × OneWord s.client_key

abbrev pub Told : World × State → Type 0
Told r = Readable r.0 × Named r.1

pub log-Readable :
    (id name : Bytes) (fs : Fields) (w : World)
    → OneWord id
    → OneWord name
    → Legible fs
    → Readable w
    → Readable (log id name fs w)
unfolding log
log-Readable id name fs w i n f r =
    ((record { correlation_id = id; name = name; fields = fs }, (i, n, f), refl), r)

digits-OneWord : (xs : Bytes) → All IsDigit xs → OneWord xs
digits-OneWord [] a = (tt, tt)
digits-OneWord (x ∷ xs) a =
    let rest = digits-OneWord xs a.1 in ((λ e. omega arith, rest.0), (λ e. omega arith, rest.1))

pub number-OneWord : (n : ℕ) → OneWord (to_string n)
number-OneWord n = digits-OneWord (to_string n) (to_string-digits n)

pub Quiet-told :
    {B : Type 0} (P : B → Type 0) (w : World) (m : Run World) (f : World → Run B)
    → Ensures (Quiet w) m
    → Readable w
    → ((v : World) → Readable v → Ensures P (f v))
    → Ensures P (m >>= f)
Quiet-told P w m f same o k =
    Ensures-bind P m f (λ v e. k v (subst (All IsLine) (sym (Ensures-ok (Quiet w) m same e).1) o))

-- The texts of the exceptions are one word each.
abbrev pub Terse : Env → Type 0
Terse env = (e : Exception) → OneWord (env.what e)

abbrev pub IsKey : Bytes → Type 0
IsKey key = Free 61 key × OneWord key

-- A line with one number, of a session.
pub one_number :
    (name key : Bytes) (n : ℕ) (w : World) (s : State)
    → OneWord name
    → IsKey key
    → Told (w, s)
    → Readable (trace name (field key (to_string n)) s w)
one_number name key n w s plain k t =
    log-Readable s.correlation_id name _ w t.1.0 plain ((k.0, k.1, number-OneWord n), tt) t.0

-- A line about a backend, with one value more.
about_backend :
    (name key value : Bytes) (b : ℕ) (w : World) (s : State)
    → OneWord name
    → IsKey key
    → OneWord value
    → Told (w, s)
    → Readable (trace name (two_fields (bytes "backend") (to_string b) key value) s w)
about_backend name key value b w s plain k v t =
    log-Readable s.correlation_id name _ w t.1.0 plain
      ((ground arith, ground arith, number-OneWord b), ((k.0, k.1, v), tt)) t.0

pub give_up-Told : (w : World) (s : State) → Told (w, s) → Ensures Told (give_up w s)
unfolding give_up
give_up-Told w s t = (
  one_number (bytes "fallback_503") (bytes "attempts") s.attempts
      (record w { metrics = record_fallback_503 w.metrics }) s (ground arith) (ground arith) t,
  t.1,
)

replay_or_relay-Told :
    (b : ℕ) (socket : Socket) (w : World) (s : State) (contents : Bytes)
    → Told (w, s)
    → Ensures Told (elim contents [
      | [] ↦ start_relay b socket w s
      | _ ∷ _ ↦ ok (w, record s { point = replaying b socket })
    ])
unfolding start_relay
replay_or_relay-Told b socket w s [] t = t
replay_or_relay-Told b socket w s (x ∷ xs) t = t

pub selected-Told :
    (b : ℕ) (socket : Socket) (w : World) (s : State)
    → Told (w, s)
    → Ensures Told (selected b socket w s)
unfolding selected
selected-Told b socket w s t =
    let logged : World =
      trace (bytes "backend_selected")
        (two_fields (bytes "backend") (to_string b) (bytes "attempt") (to_string (s.attempts + 1)))
        s w in
    Quiet-told Told logged (show_pool b logged) _ (show_pool-Quiet b logged)
      (about_backend (bytes "backend_selected") (bytes "attempt") (to_string (s.attempts + 1)) b w s
        (ground arith) (ground arith) (number-OneWord (s.attempts + 1)) t)
      (λ shown r.
        replay_or_relay-Told b socket shown (record s { forwarded = s.req_buf.contents })
          s.req_buf.contents (r, t.1))

-- What a round does next prints lines of this kind, whatever the shared objects have become.
abbrev pub RetryTold : Retry → Type 0
RetryTold retry = (w : World) (s : State) → Told (w, s) → Ensures Told (retry w s)

module _ (b : ℕ) (retry : Retry) (env : Env) (terse : Terse env) (keep : RetryTold retry)
    (s : State) where
  pub connect_failed-Told :
      (e : Exception) (w : World) → Told (w, s) → Ensures Told (connect_failed b e retry env w s)
  unfolding connect_failed
  connect_failed-Told e w t =
      let logged : World =
        trace (bytes "connect_failed")
          (two_fields (bytes "backend") (to_string b) (bytes "error") (env.what e)) s w in
      Quiet-told Told logged (report_failure b (env.failed_at s.attempts) logged) _
        (report_failure-Quiet b logged (env.failed_at s.attempts))
        (about_backend (bytes "connect_failed") (bytes "error") (env.what e) b w s (ground arith)
          (ground arith) (terse e) t)
        (λ reported r. keep reported (exclude b s) (r, t.1))

  attempt-Told : (w : World) → Told (w, s) → Ensures Told (attempt b retry env w s)
  unfolding attempt
  attempt-Told w t = elim (Run-cases (acquire_pooled b w.pool)) [
    | inr (e, thrown) ↦ rw (thrown, attempt) (connect_failed-Told e w t)
    | inl ((pooled, p), taken) ↦ elim (Option-cases pooled) [
      | inl none_free ↦ rw (taken, attempt, none_free) t
      | inr (socket, got) ↦
          rw (taken, attempt, got) (selected-Told b socket (record w { pool = p }) s t)
    ]
  ]

  consider-Told : (w : World) → Told (w, s) → Ensures Told (consider b retry env w s)
  unfolding consider
  consider-Told w t = elim (Run-cases (ask b (env.asked_at s.attempts) w)) [
    | inr (e, thrown) ↦ rw (thrown, consider) tt
    | inl ((allowed, asked), got) ↦
        let same =
          Ensures-ok (λ r. Quiet w r.1) (ask b (env.asked_at s.attempts) w)
            (ask-Quiet b w (env.asked_at s.attempts)) got in
        let told : Told (asked, s) = (subst (All IsLine) (sym same.1) t.0, t.1) in
        elim (Bool-cases allowed) [
          | inl go_on ↦ rw (got, consider, go_on) (attempt-Told asked told)
          | inr refused ↦
              rw (got, consider, refused)
                (keep _ (exclude b s) (
                  about_backend (bytes "breaker_skip") (bytes "reason") (bytes "open_or_trial_busy")
                      b asked s (ground arith) (ground arith) (ground arith) told,
                  t.1,
                ))
        ]
  ]

loop-Told :
    (rounds : ℕ) (env : Env) (w : World) (s : State)
    → Terse env
    → Told (w, s)
    → Ensures Told (loop rounds env w s)
unfolding loop
loop-Told zero env w s terse t = give_up-Told w s t
loop-Told (suc rounds) env w s terse t =
    elim (Option-cases (get_backend_excluding s.client_key s.excluded w.ring)) [
      | inl exhausted ↦
          rw (exhausted, loop)
            (give_up-Told _ s (
              one_number (bytes "ring_exhausted") (bytes "attempts") s.attempts w s (ground arith)
                  (ground arith) t,
              t.1,
            ))
      | inr (b, chosen) ↦
          rw (chosen, loop)
            (consider-Told b (loop rounds env) env terse (λ v u. loop-Told rounds env v u terse) s w
              t)
    ]

pub next_round-Told :
    (env : Env) (w : World) (s : State)
    → Terse env
    → Told (w, s)
    → Ensures Told (next_round env w s)
next_round-Told env w s terse t = loop-Told (s.max_attempts - s.attempts) env w s terse t

-- ===== src/Process/Rejections.antt =====
-- The clients that listen in main.cpp refuses, and the total of them on the metrics page.
use aegis_proxy.Common.{
  ℕ, ◌%◌, ◌^◌, ◌≡◌, refl, sym, ap, ◌∙◌, ◌+◌, List, [], if◌then◌else◌, Option, none, some, arith,
  All, All-set, All-get_elem?, length, length-set, Bool-cases, inl, inr,
}
use aegis_proxy.Text.{Bytes}
use aegis_proxy.Run.{ok, Ensures, Ensures-bind, Ensures-ok}
use aegis_proxy.Pool.{BackendConfig, Socket, warm_up}
use aegis_proxy.Metrics
use aegis_proxy.Metrics.{count_up}
use aegis_proxy.RateLimiter.{Arithmetic, RateLimiter, allow}
use aegis_proxy.Server.{boot, Reachable, accept, reject, spawn, reap, too_many_requests}
use aegis_proxy.Server.Totals.{accept-Tally, resume-Tally, totals_tally}
use aegis_proxy.Process.{
  Farewell, spawn_429, hear, Process, run, listen, listen_throws, metrics_listen,
  metrics_listen_throws, Step, arrives, accept_throws, scraped, scrape_throws, timer, session,
  rejection, scrape, Later, at_once, after,
}
use aegis_proxy.Process.Refines.{Later-Reachable, run-Later-Reachable}

spawn_429-count :
    (reply : Option Bytes) (rejections : List Farewell) (z n : ℕ)
    → z ≡ length rejections % 2 ^ 64
    → n ≡ elim reply [ none ↦ z | some text ↦ count_up z ]
    → n ≡ length (spawn_429 reply rejections) % 2 ^ 64
spawn_429-count none rejections z n e f = omega arith
spawn_429-count (some text) rejections z n e f = omega arith

module _ {A : Type 0} ⦃number : Arithmetic A⦄ where
  -- The total of refused clients is the number of 429 responses.
  abbrev Refused : Process A → Type 0
  Refused p = p.server.world.metrics.rate_limited ≡ length p.rejections % 2 ^ 64

  module _ (backends : List BackendConfig) where
    Step-Refused :
        (p q : Process A) → Reachable backends p.server → Refused p → Step p q → Refused q
    unfolding listen listen_throws metrics_listen metrics_listen_throws reap
    Step-Refused p q r h (arrives remote now_ms now on) =
        let (x, y) = totals_tally backends p.server r in
        let z = p.server.world.metrics.rate_limited in
        let (_, _, counted) = accept-Tally z remote now_ms now p.server (x, y, refl) in
        spawn_429-count (accept remote now_ms now p.server).1 p.rejections z _ h counted
    Step-Refused p q r h (accept_throws on) = h
    Step-Refused p q r h (scraped on) = h
    Step-Refused p q r h (scrape_throws on) = h
    Step-Refused p q r h (timer now) = h
    Step-Refused p q r h (session i event env s t w at_i e) =
        let (x, y) = totals_tally backends p.server r in
        let (_, _, same) =
          resume-Tally p.server i event env s t w at_i e p.server.world.metrics.rate_limited
            (x, y, refl) in
        same ∙ h
    Step-Refused p q r h (rejection i e f at_i) =
        h ∙ ap (λ n. n % 2 ^ 64) (sym (length-set p.rejections i (hear e f)))
    Step-Refused p q r h (scrape i e f at_i) = h

    Later-Refused :
        (p q : Process A) → Reachable backends p.server → Refused p → Later p q → Refused q
    Later-Refused p q r h at_once = h
    Later-Refused p q r h (after {q = m} l step) =
        Step-Refused m q (Later-Reachable backends p m r l) (Later-Refused p m r h l) step

-- Every refused client is answered with this text.
abbrev pub AllRefused : List Farewell → Type 0
AllRefused = All (λ f. f.response ≡ too_many_requests)

module _ {A : Type 0} ⦃number : Arithmetic A⦄ where
  arrives-AllRefused :
      (remote : Option Bytes) (now_ms now : ℕ) (p : Process A)
      → AllRefused p.rejections
      → AllRefused (listen remote now_ms now p).rejections
  unfolding listen accept reject spawn
  arrives-AllRefused none now_ms now p a = a
  arrives-AllRefused (some key) now_ms now p a =
      elim (Bool-cases (allow key now p.server.limiter).1) [
        | inl allowed ↦ rw (allowed, accept) a
        | inr refused ↦ rw (refused, accept) (refl, a)
      ]

  Later-AllRefused :
      (p q : Process A) → AllRefused p.rejections → Later p q → AllRefused q.rejections
  unfolding listen_throws metrics_listen metrics_listen_throws hear
  Later-AllRefused p q a at_once = a
  Later-AllRefused p q a (after {q = m} l (arrives remote now_ms now on)) =
      arrives-AllRefused remote now_ms now m (Later-AllRefused p m a l)
  Later-AllRefused p q a (after {q = m} l (rejection i e f at_i)) =
      let before = Later-AllRefused p m a l in
      All-set (λ f. f.response ≡ too_many_requests) i (hear e f) m.rejections
        (All-get_elem? (λ f. f.response ≡ too_many_requests) i f m.rejections at_i before) before
  Later-AllRefused p q a (after {q = m} l (accept_throws on)) = Later-AllRefused p m a l
  Later-AllRefused p q a (after {q = m} l (scraped on)) = Later-AllRefused p m a l
  Later-AllRefused p q a (after {q = m} l (scrape_throws on)) = Later-AllRefused p m a l
  Later-AllRefused p q a (after {q = m} l (timer now)) = Later-AllRefused p m a l
  Later-AllRefused p q a (after {q = m} l (session i event env s t w at_i e)) =
      Later-AllRefused p m a l
  Later-AllRefused p q a (after {q = m} l (scrape i e f at_i)) = Later-AllRefused p m a l

  -- How many clients the limiter refuses, or lets through, where a connection arrives.
  abbrev pub refused_now : Option Bytes → ℕ → RateLimiter A → ℕ
  refused_now none now limiter = 0
  refused_now (some key) now limiter = if (allow key now limiter).1 then 0 else 1

  abbrev pub admitted_now : Option Bytes → ℕ → RateLimiter A → ℕ
  admitted_now none now limiter = 0
  admitted_now (some key) now limiter = if (allow key now limiter).1 then 1 else 0

  -- How many it has refused, or let through, in what a process did.
  unfoldable pub refused_since : (p q : Process A) → Later p q → ℕ
  refused_since p q at_once = 0
  refused_since p q (after {q = m} l (arrives remote now_ms now on)) =
      refused_since p m l + refused_now remote now m.server.limiter
  refused_since p q (after {q = m} l _) = refused_since p m l

  unfoldable pub admitted_since : (p q : Process A) → Later p q → ℕ
  admitted_since p q at_once = 0
  admitted_since p q (after {q = m} l (arrives remote now_ms now on)) =
      admitted_since p m l + admitted_now remote now m.server.limiter
  admitted_since p q (after {q = m} l _) = admitted_since p m l

  -- A connection that arrives gets what the limiter says.
  listen-verdict :
      (remote : Option Bytes) (now_ms now : ℕ) (p : Process A)
      → let q = listen remote now_ms now p in
        (length q.rejections ≡ length p.rejections + refused_now remote now p.server.limiter)
        × (length q.server.sessions
            ≡ length p.server.sessions + admitted_now remote now p.server.limiter)
  unfolding listen accept reject spawn
  listen-verdict none now_ms now p = (omega arith, omega arith)
  listen-verdict (some key) now_ms now p = elim (Bool-cases (allow key now p.server.limiter).1) [
    | inl allowed ↦ rw (allowed, accept) (omega arith, omega arith)
    | inr refused ↦ rw (refused, accept) (omega arith, omega arith)
  ]

  -- The answers and the sessions are as many as the limiter's verdicts.
  abbrev Judged : (p q : Process A) → Later p q → Type 0
  Judged p q l =
      (length q.rejections ≡ length p.rejections + refused_since p q l)
      × (length q.server.sessions ≡ length p.server.sessions + admitted_since p q l)

  Later-Judged : (p q : Process A) (l : Later p q) → Judged p q l
  unfolding listen_throws metrics_listen metrics_listen_throws reap refused_since admitted_since
  Later-Judged p q at_once = (omega arith, omega arith)
  Later-Judged p q (after {q = m} l (arrives remote now_ms now on)) =
      let (answers, sessions) = listen-verdict remote now_ms now m in
      let (before, begun) = Later-Judged p m l in
      (omega (arith, answers, before), omega (arith, sessions, begun))
  Later-Judged p q (after {q = m} l (accept_throws on)) = Later-Judged p m l
  Later-Judged p q (after {q = m} l (scraped on)) = Later-Judged p m l
  Later-Judged p q (after {q = m} l (scrape_throws on)) = Later-Judged p m l
  Later-Judged p q (after {q = m} l (timer now)) = Later-Judged p m l
  Later-Judged p q (after {q = m} l (session i event env s t w at_i e)) =
      let (before, begun) = Later-Judged p m l in (before, length-set m.server.sessions i t ∙ begun)
  Later-Judged p q (after {q = m} l (rejection i e f at_i)) =
      let (before, begun) = Later-Judged p m l in
      (length-set m.rejections i (hear e f) ∙ before, begun)
  Later-Judged p q (after {q = m} l (scrape i e f at_i)) = Later-Judged p m l

  -- A process that has answered no client yet.
  abbrev Fresh : Process A → Type 0
  Fresh p = Refused p × (p.rejections ≡ []) × (p.server.sessions ≡ [])

  run-Refused :
      (backends : List BackendConfig) (answers : ℕ → ℕ → Option Socket) (errors : ℕ → ℕ → Bytes)
      (limiter : RateLimiter A)
      → Ensures Fresh (run answers errors limiter (boot backends))
  unfolding run boot Metrics.new
  run-Refused backends answers errors limiter =
      Ensures-bind _ (warm_up answers errors (boot backends).pool) _ (λ p e. (refl, refl, refl))

  -- Whatever a process has done since its pool was warmed, as many connections were answered with the
  -- 429 response as the limiter refused where they arrived, as many sessions were begun as it let
  -- through, and the total of refused clients is the number of its refusals, modulo 2^64.
  pub refusals_tally :
      (backends : List BackendConfig) (answers : ℕ → ℕ → Option Socket) (errors : ℕ → ℕ → Bytes)
      (limiter : RateLimiter A) (p q : Process A)
      → run answers errors limiter (boot backends) ≡ ok p
      → (l : Later p q)
      → (length q.rejections ≡ refused_since p q l)
        × AllRefused q.rejections
        × (length q.server.sessions ≡ admitted_since p q l)
        × (q.server.world.metrics.rate_limited ≡ refused_since p q l % 2 ^ 64)
  refusals_tally backends answers errors limiter p q e l =
      let (counted, unanswered, unserved) =
        Ensures-ok Fresh (run answers errors limiter (boot backends))
          (run-Refused backends answers errors limiter) e in
      let (refused, admitted) = Later-Judged p q l in
      let total =
        Later-Refused backends p q
          (run-Later-Reachable backends answers errors limiter p p e at_once) counted l in
      let refusals : length q.rejections ≡ refused_since p q l =
        omega (arith, refused, ap length unanswered) in
      (
        refusals,
        Later-AllRefused p q (rw unanswered tt) l,
        omega (arith, admitted, ap length unserved),
        total ∙ ap (λ n. n % 2 ^ 64) refusals,
      )

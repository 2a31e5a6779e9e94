-- ===== src/Server/Journal.antt =====
-- The text on stderr of one server of main.cpp: the lines that warm_up prints, and behind them those
-- that its sessions and listen print.
use aegis_proxy.Common.{
  ℕ, suc, ◌≡◌, refl, sym, ap, ◌∙◌, if◌then◌else◌, List, [], ◌∷◌, ◌++◌, none, some, arith, inl, inr,
  Bool-cases, length, map, All, All-append, All-set, All-get_elem?,
}
use mathlib.Core.List.{append_assoc, append-nil}
use aegis_proxy.Text.{Bytes, bytes, to_string}
use aegis_proxy.Run.{Ensures-ok}
use aegis_proxy.Pool.{BackendConfig, warm_up}
use aegis_proxy.Pool.WarmUp.{Unbroken, IsWarning, warm_up-IsWarning}
use aegis_proxy.RateLimiter.{Arithmetic, allow}
use aegis_proxy.Metrics.{record_rate_limited}
use aegis_proxy.Trace.{generate, event_line}
use aegis_proxy.Trace.Grammar.{Free-append, read_log, grep, grep-append}
use aegis_proxy.Trace.ReadBack.{
  Entry, OneWord, LegibleEntry, said, written, read_log-written, grep-written,
}
use aegis_proxy.Session.State.{new}
use aegis_proxy.Session.Handle.{field}
use aegis_proxy.Session.Resume.{resume}
use aegis_proxy.Session.Journal.{IsLine, Readable, Named, Told, Terse, log-Readable, number-OneWord}
use aegis_proxy.Session.Journal.Steps.{resume-Told}
use aegis_proxy.Server.{
  Server, boot, accept, reject, spawn, reap, Reachable, warmed, accepts, reaps, resumes,
}

-- The lines as they stand on stderr, the newest last.
unfoldable pub printed : List Bytes → Bytes
printed [] = []
printed (text ∷ older) = printed older ++ text

written-append : (es ds : List Entry) → written (es ++ ds) ≡ written es ++ written ds
unfolding written
written-append [] ds = refl
written-append (e ∷ es) ds =
    ap (λ t. event_line e.correlation_id e.name e.fields ++ t) (written-append es ds)
    ∙ sym (append_assoc (event_line e.correlation_id e.name e.fields) (written es) (written ds))

length-snoc : (e : Entry) (es : List Entry) → length (es ++ e ∷ []) ≡ suc (length es)
length-snoc e [] = refl
length-snoc e (d ∷ es) = omega (arith, length-snoc e es)

-- The entries of some lines, the oldest first.
collect :
    (ls : List Bytes)
    → All IsLine ls
    → (es : List Entry) × All LegibleEntry es × (length es ≡ length ls) × (printed ls ≡ written es)
unfolding printed written
collect [] a = ([], tt, refl, refl)
collect (text ∷ older) ((e, legible, same), rest) =
    let (es, all, count, so_far) = collect older rest in
    (
      es ++ e ∷ [],
      All-append LegibleEntry es (e ∷ []) all (legible, tt),
      length-snoc e es ∙ ap suc count,
      ap (λ t. t ++ text) so_far
          ∙ ap (λ t. written es ++ t) (sym same ∙ sym (append-nil _))
          ∙ sym (written-append es (e ∷ [])),
    )

grep-warnings :
    (ws : List Bytes) (rest : Bytes)
    → All IsWarning ws
    → grep (bytes "cid=") (printed ws ++ rest) ≡ grep (bytes "cid=") rest
unfolding printed
grep-warnings [] rest a = refl
grep-warnings (text ∷ older) rest ((line, whole, other, same), a) =
    let label = bytes "cid=" in
    let ends : text ++ rest ≡ line ++ (10 ∷ rest) =
      ap (λ t. t ++ rest) same ∙ append_assoc line (10 ∷ []) rest in
    ap (grep label) (append_assoc (printed older) text rest)
    ∙ grep-warnings older (text ++ rest) a
    ∙ ap (grep label) ends
    ∙ grep-append label line rest whole
    ∙ ap (λ test. if test then line ++ (10 ∷ grep label rest) else grep label rest) other

generate-OneWord : (ms counter : ℕ) → OneWord (generate ms counter).0
unfolding generate
generate-OneWord ms counter = (
  Free-append 32 (bytes "req-") _ (ground arith) (
      Free-append 32 (to_string ms) _ (number-OneWord ms).0
        (Free-append 32 (bytes "-") _ (ground arith) (number-OneWord counter).0)),
  Free-append 10 (bytes "req-") _ (ground arith) (
      Free-append 10 (to_string ms) _ (number-OneWord ms).1
        (Free-append 10 (bytes "-") _ (ground arith) (number-OneWord counter).1)),
)

-- All that is on stderr.
unfoldable pub stderr : {A : Type 0} → Server A → Bytes
stderr srv = printed srv.warnings ++ printed srv.world.trace

module _ {A : Type 0} ⦃number : Arithmetic A⦄ where
  abbrev Telling : Server A → Type 0
  Telling srv = Readable srv.world × All Named srv.sessions

  -- The addresses of the clients and the texts of the exceptions were one word each, and what warm_up
  -- prints of the backends and the exceptions had no line break.
  unfoldable pub Plain :
      (backends : List BackendConfig) (srv : Server A) → Reachable backends srv → Type 0
  Plain backends srv (warmed limiter answers errors p lines e) =
      All (λ c. Unbroken c.host × Unbroken c.port) backends × ((b k : ℕ) → Unbroken (errors b k))
  Plain backends srv (accepts none now_ms now before r) = Plain backends before r
  Plain backends srv (accepts (some key) now_ms now before r) =
      OneWord key × Plain backends before r
  Plain backends srv (reaps now before r) = Plain backends before r
  Plain backends srv (resumes i event env before s t w r at_i e) =
      Terse env × Plain backends before r

  accept-Telling :
      (key : Bytes) (now_ms now : ℕ) (srv : Server A)
      → OneWord key
      → Telling srv
      → Telling (accept (some key) now_ms now srv).0
  unfolding accept reject spawn new
  accept-Telling key now_ms now srv one t =
      let id = generate-OneWord now_ms srv.counter in
      elim (Bool-cases (allow key now srv.limiter).1) [
        | inl allowed ↦ rw (allowed, accept) (t.0, ((id, one), t.1))
        | inr refused ↦
            rw (refused, accept)
              (
                log-Readable _ (bytes "rate_limited") (field (bytes "client") key)
                    (record srv.world { metrics = record_rate_limited srv.world.metrics }) id
                    (ground arith) ((ground arith, ground arith, one), tt) t.0,
                t.1,
              )
      ]

  accept-warnings :
      (key : Bytes) (now_ms now : ℕ) (srv : Server A)
      → (accept (some key) now_ms now srv).0.warnings ≡ srv.warnings
  unfolding accept reject spawn
  accept-warnings key now_ms now srv = elim (Bool-cases (allow key now srv.limiter).1) [
    | inl allowed ↦ rw (allowed, accept) refl
    | inr refused ↦ rw (refused, accept) refl
  ]

  Reachable-Telling :
      (backends : List BackendConfig) (srv : Server A) (r : Reachable backends srv)
      → Plain backends srv r
      → Telling srv
  unfolding boot reap Plain accept
  Reachable-Telling backends srv (warmed limiter answers errors p lines e) h = (tt, tt)
  Reachable-Telling backends srv (accepts none now_ms now before r) h =
      let t = Reachable-Telling backends before r h in
      (
        log-Readable _ (bytes "remote_endpoint_failed") [] before.world
            (generate-OneWord now_ms before.counter) (ground arith) tt t.0,
        t.1,
      )
  Reachable-Telling backends srv (accepts (some key) now_ms now before r) (one, h) =
      accept-Telling key now_ms now before one (Reachable-Telling backends before r h)
  Reachable-Telling backends srv (reaps now before r) h = Reachable-Telling backends before r h
  Reachable-Telling backends srv (resumes i event env before s t w r at_i e) (terse, h) =
      let before_told = Reachable-Telling backends before r h in
      let named = All-get_elem? Named i s before.sessions at_i before_told.1 in
      let told =
        Ensures-ok Told (resume event env before.world s)
          (resume-Told env terse event before.world s (before_told.0, named)) e in
      (told.0, All-set Named i t before.sessions told.1 before_told.1)

  Reachable-warnings :
      (backends : List BackendConfig) (srv : Server A) (r : Reachable backends srv)
      → Plain backends srv r
      → All IsWarning srv.warnings
  unfolding boot reap Plain accept
  Reachable-warnings backends srv (warmed limiter answers errors p lines e) (named, plain) =
      Ensures-ok (λ w. All IsWarning w.1) (warm_up answers errors (boot backends).pool)
        (warm_up-IsWarning backends answers errors named plain) e
  Reachable-warnings backends srv (accepts none now_ms now before r) h =
      Reachable-warnings backends before r h
  Reachable-warnings backends srv (accepts (some key) now_ms now before r) (one, h) =
      rw (accept-warnings key now_ms now before) (Reachable-warnings backends before r h)
  Reachable-warnings backends srv (reaps now before r) h = Reachable-warnings backends before r h
  Reachable-warnings backends srv (resumes i event env before s t w r at_i e) (terse, h) =
      Reachable-warnings backends before r h

  -- A backend may be down at the start, and warm_up then prints lines of its own. Where the addresses of
  -- the clients and the texts of the exceptions of a running session hold no space and no line break,
  -- and what warm_up prints of a backend or an exception holds no line break, `grep` for the lines on
  -- stderr that begin with "cid=" gives, in every server that main's objects can become, the text of as
  -- many calls of `event` as lines of the trace were printed, and a log tool reads it back as the id,
  -- the name and the fields of each call.
  pub log_reads_back :
      (backends : List BackendConfig) (srv : Server A) (r : Reachable backends srv)
      → Plain backends srv r
      → (es : List Entry) × (length es ≡ length srv.world.trace)
        × (grep (bytes "cid=") (stderr srv) ≡ written es)
        × (read_log (grep (bytes "cid=") (stderr srv)) ≡ some (map said es))
  unfolding stderr
  log_reads_back backends srv r h =
      let (es, legible, count, same) =
        collect srv.world.trace (Reachable-Telling backends srv r h).0 in
      let kept : grep (bytes "cid=") (stderr srv) ≡ written es =
        grep-warnings srv.warnings (printed srv.world.trace) (Reachable-warnings backends srv r h)
        ∙ ap (grep (bytes "cid=")) same
        ∙ grep-written es legible in
      (es, count, kept, ap read_log kept ∙ read_log-written es legible)

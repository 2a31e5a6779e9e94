-- ===== src/Metrics/Render/Lines.antt =====
-- The lines of what render_prometheus in metrics.hpp prints.
use aegis_proxy.Common.{
  ℕ, ◌+◌, ◌-◌, ◌^◌, ◌≡◌, refl, List, [], ◌∷◌, ◌++◌, arith, All, ltb, ◌==◌, inl, inr, Bool-cases,
  if◌then◌else◌, length,
}
use aegis_proxy.Text.{Bytes, bytes, to_string}
use aegis_proxy.Text.Decimal.{IsDigit, to_string-digits}
use aegis_proxy.Metrics.{MetricsRegistry}
use aegis_proxy.Metrics.Render.{
  int_text, sample, backend_sample, samples, requests_head, rate_limited_head, fallback_head,
  success_head, failure_head, breaker_head, active_head, idle_head, counters_text, backends_text,
  render_prometheus,
}

-- The lines of a text: its newlines.
pub lines : Bytes → ℕ
lines [] = 0
lines (c ∷ cs) = (if c == 10 then 1 else 0) + lines cs

lines-append : (xs ys : Bytes) → lines (xs ++ ys) ≡ lines xs + lines ys
unfolding lines
lines-append [] ys = omega arith
lines-append (x ∷ xs) ys = omega (arith, lines-append xs ys)

lines-digits : (xs : Bytes) → All IsDigit xs → lines xs ≡ 0
unfolding lines
lines-digits [] a = refl
lines-digits (x ∷ xs) a = ground (arith, lines-digits xs a.1)

lines-to_string : (n : ℕ) → lines (to_string n) ≡ 0
lines-to_string n = lines-digits (to_string n) (to_string-digits n)

lines-int_text : (n : ℕ) → lines (int_text n) ≡ 0
unfolding int_text lines
lines-int_text n = elim (Bool-cases (ltb n (2 ^ 31))) [
  | inl small ↦ rw small (lines-to_string n)
  | inr negative ↦
      rw (negative, lines-append (bytes "-") (to_string (2 ^ 32 - n)))
        (omega (arith, lines-to_string (2 ^ 32 - n)))
]

lines-sample : (name : Bytes) (n : ℕ) → lines name ≡ 0 → lines (sample name n) ≡ 1
unfolding sample lines
lines-sample name n e = omega (
  arith,
  lines-append name (bytes " " ++ (to_string n ++ bytes "\n")),
  lines-append (to_string n) (bytes "\n"),
  lines-to_string n,
)

lines-backend_sample :
    (name : Bytes) (i : ℕ) (text : Bytes)
    → lines name ≡ 0
    → lines text ≡ 0
    → lines (backend_sample name i text) ≡ 1
unfolding backend_sample lines
lines-backend_sample name i text e f = omega (
  arith,
  lines-append name
      (bytes "{backend=\"" ++ (to_string i ++ (bytes "\"} " ++ (text ++ bytes "\n")))),
  lines-append (to_string i) (bytes "\"} " ++ (text ++ bytes "\n")),
  lines-append text (bytes "\n"),
  lines-to_string i,
)

lines-samples :
    (name : Bytes) (show : ℕ → Bytes) (i : ℕ) (ns : List ℕ)
    → lines name ≡ 0
    → ((n : ℕ) → lines (show n) ≡ 0)
    → lines (samples name show i ns) ≡ length ns
unfolding samples lines
lines-samples name show i [] e f = refl
lines-samples name show i (n ∷ ns) e f = omega (
  arith,
  lines-append (backend_sample name i (show n)) (samples name show (i + 1) ns),
  lines-backend_sample name i (show n) e (f n),
  lines-samples name show (i + 1) ns e f,
)

lines-counters_text : (m : MetricsRegistry) → lines (counters_text m) ≡ 9
unfolding counters_text lines
lines-counters_text m = omega (
  arith,
  lines-append requests_head _,
  lines-append (sample (bytes "aegis_requests_total") m.total_requests) _,
  lines-append rate_limited_head _,
  lines-append (sample (bytes "aegis_rate_limited_total") m.rate_limited) _,
  lines-append fallback_head (sample (bytes "aegis_fallback_503_total") m.fallback_503),
  lines-sample (bytes "aegis_requests_total") m.total_requests refl,
  lines-sample (bytes "aegis_rate_limited_total") m.rate_limited refl,
  lines-sample (bytes "aegis_fallback_503_total") m.fallback_503 refl,
)

-- A family of samples with its head, and what comes behind it.
lines-family :
    (head name : Bytes) (show : ℕ → Bytes) (ns : List ℕ) (rest : Bytes)
    → lines name ≡ 0
    → ((n : ℕ) → lines (show n) ≡ 0)
    → lines (head ++ (samples name show 0 ns ++ rest)) ≡ lines head + length ns + lines rest
lines-family head name show ns rest e f = omega (
  arith,
  lines-append head (samples name show 0 ns ++ rest),
  lines-append (samples name show 0 ns) rest,
  lines-samples name show 0 ns e f,
)

lines-last :
    (m : MetricsRegistry)
    → lines (idle_head ++ samples (bytes "aegis_pool_idle_connections") int_text 0 m.pool_idle)
      ≡ 2 + length m.pool_idle
unfolding lines
lines-last m = omega (
  arith,
  lines-append idle_head (samples (bytes "aegis_pool_idle_connections") int_text 0 m.pool_idle),
  lines-samples (bytes "aegis_pool_idle_connections") int_text 0 m.pool_idle refl lines-int_text,
)

lines-backends_text :
    (m : MetricsRegistry)
    → lines (backends_text m)
      ≡ 10
        + (length m.backend_success
            + length m.backend_failure
            + length m.breaker_state
            + length m.pool_active
            + length m.pool_idle)
unfolding backends_text lines
lines-backends_text m = omega (
  arith,
  lines-family success_head (bytes "aegis_backend_success_total") to_string m.backend_success _ refl
      lines-to_string,
  lines-family failure_head (bytes "aegis_backend_failure_total") to_string m.backend_failure _ refl
      lines-to_string,
  lines-family breaker_head (bytes "aegis_breaker_state") int_text m.breaker_state _ refl
      lines-int_text,
  lines-family active_head (bytes "aegis_pool_active_connections") int_text m.pool_active _ refl
      lines-int_text,
  lines-last m,
)

-- How many lines the page that is scraped has: two of head for each of its eight families, one for
-- each of the three totals, and one for each entry of the five vectors; what is printed of a number
-- breaks no line.
pub lines-render_prometheus :
    (m : MetricsRegistry)
    → lines (render_prometheus m)
      ≡ 19
        + (length m.backend_success
            + length m.backend_failure
            + length m.breaker_state
            + length m.pool_active
            + length m.pool_idle)
unfolding render_prometheus
lines-render_prometheus m = omega (
  arith,
  lines-append (counters_text m) (backends_text m),
  lines-counters_text m,
  lines-backends_text m,
)

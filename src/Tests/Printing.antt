-- ===== src/Tests/Printing.antt =====
-- Ids and the metrics page on concrete values.
use aegis_proxy.Common.{ℕ, ◌≡◌, refl, List, [], ◌∷◌, none, some, arith, All, map}
use aegis_proxy.Text.{Bytes, bytes}
use aegis_proxy.Trace.{event_line, field_text}
use aegis_proxy.Trace.Grammar.{split, extend, key_value, key_values, read_lines, read_log}
use aegis_proxy.Trace.ReadBack.{Entry, LegibleEntry, said, written, read_log-written}
use aegis_proxy.Metrics.{MetricsRegistry}

abbrev ms : ℕ
ms = 1700000000000

abbrev counter : ℕ
counter = 41

abbrev registry : MetricsRegistry
registry = record {
  total_requests = 12;
  rate_limited = 3;
  fallback_503 = 1;
  backend_success = 5 ∷ 4 ∷ [];
  backend_failure = 0 ∷ 2 ∷ [];
  breaker_state = 0 ∷ 1 ∷ [];
  pool_active = 1 ∷ 4294967295 ∷ [];
  pool_idle = 4 ∷ 4 ∷ [];
}

abbrev entries : List Entry
entries =
    record {
      correlation_id = bytes "req-17-0";
      name = bytes "backend_selected";
      fields = (bytes "backend", bytes "1") ∷ (bytes "attempt", bytes "2") ∷ [];
    }
    ∷ record { correlation_id = bytes "req-17-1"; name = bytes "fallback_503"; fields = [] }
    ∷ []

entries-legible : All LegibleEntry entries
entries-legible = ground arith

read_log-written_example : read_log (written entries) ≡ some (map said entries)
read_log-written_example = read_log-written entries entries-legible

-- The text of an exception has spaces, and the line of connect_failed is no sequence of pairs.
abbrev refused : Bytes
refused =
    event_line (bytes "req-17-0") (bytes "connect_failed")
      ((bytes "backend", bytes "1") ∷ (bytes "error", bytes "connect: Connection refused") ∷ [])

refused_unread : read_log refused ≡ none
unfolding event_line field_text read_log read_lines key_values key_value split extend
refused_unread = refl

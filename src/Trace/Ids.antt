-- ===== src/Trace/Ids.antt =====
-- The correlation ids of tracer.hpp.
use aegis_proxy.Common.{ℕ, ◌≡◌, arith}
use aegis_proxy.Text.{to_string}
use aegis_proxy.Text.Decimal.{to_string-digits, to_string-injective, split_at}
use aegis_proxy.Trace.{generate}

-- Two ids are the same text only if they were made in the same millisecond from the same value of the
-- counter.
pub generate-injective :
    (ms counter ms' counter' : ℕ)
    → (generate ms counter).0 ≡ (generate ms' counter').0
    → (ms ≡ ms') × (counter ≡ counter')
unfolding generate
generate-injective ms counter ms' counter' e =
    let (times, counts) =
      split_at 45 (to_string ms) (to_string ms') (to_string counter) (to_string counter')
        (λ d. omega arith) (to_string-digits ms) (to_string-digits ms') (cc) in
    (to_string-injective ms ms' times, to_string-injective counter counter' counts)

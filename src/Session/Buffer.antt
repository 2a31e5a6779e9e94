-- ===== src/Session/Buffer.antt =====
-- RequestBuffer in session.cpp.
use aegis_proxy.Common.{ℕ, ◌+◌, ◌*◌, Bool, true, false, [], ◌++◌, ltb, if◌then◌else◌, length}
use aegis_proxy.Text.{Bytes}

abbrev pub k_cap : ℕ
k_cap = 16 * 1024

-- The field `data` of the source.
pub record RequestBuffer : Type 0 where
  pub contents : Bytes
  pub capped : Bool

abbrev pub empty_buffer : RequestBuffer
empty_buffer = record { contents = []; capped = false }

unfoldable pub append : Bytes → RequestBuffer → RequestBuffer
append chunk b =
    if b.capped
    then b
    else if ltb k_cap (length b.contents + length chunk)
    then record b { capped = true }
    else record b { contents = b.contents ++ chunk }

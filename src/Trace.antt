-- ===== src/Trace.antt =====
-- tracer.hpp. A trace line is a text; the clock's reading is an argument.
pub mod Grammar
pub mod ReadBack
pub mod Ids
use aegis_proxy.Common.{ℕ, ◌+◌, ◌%◌, ◌^◌, List, [], ◌∷◌, ◌++◌}
use aegis_proxy.Text.{Bytes, bytes, to_string}

-- The id, and the counter that it leaves behind.
unfoldable pub generate : ℕ → ℕ → Bytes × ℕ
generate now_ms counter =
    (bytes "req-" ++ (to_string now_ms ++ (bytes "-" ++ to_string counter)), (counter + 1) % 2 ^ 64)

abbrev pub Fields : Type 0
Fields = List (Bytes × Bytes)

-- The loop over the fields.
unfoldable pub field_text : Fields → Bytes
field_text [] = []
field_text ((key, value) ∷ fs) = bytes " " ++ (key ++ (bytes "=" ++ (value ++ field_text fs)))

unfoldable pub event_line : Bytes → Bytes → Fields → Bytes
unfolding field_text
event_line correlation_id name fields =
    bytes "cid="
    ++ (correlation_id ++ (bytes " event=" ++ (name ++ (field_text fields ++ bytes "\n"))))

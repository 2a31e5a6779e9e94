-- ===== src/Text.antt =====
-- Texts as the program's byte sequences, and `std::to_string` of an unsigned number.
pub mod Decimal
use Prim.Native.Char.{code}
use Prim.Native.String.{String}
use aegis_proxy.Common.{ℕ, zero, suc, ◌+◌, ◌/◌, ◌%◌, true, false, List, [], ◌∷◌, ◌++◌, ltb}

abbrev pub Bytes : Type 0
Bytes = List ℕ

-- The bytes of an ASCII literal.
abbrev pub bytes : String → Bytes
bytes String.[] = []
bytes (String.◌∷◌ c s) = code c ∷ bytes s

-- The decimal digits, most significant first; the fuel is the number itself and one more.
decimal : ℕ → ℕ → Bytes
decimal zero n = []
decimal (suc fuel) n = elim (ltb n 10) [
  | true ↦ (48 + n) ∷ []
  | false ↦ decimal fuel (n / 10) ++ (48 + n % 10) ∷ []
]

unfoldable pub to_string : ℕ → Bytes
unfolding decimal
to_string n = decimal (suc n) n

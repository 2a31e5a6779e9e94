-- ===== src/Common/Int.antt =====
-- Signed integers, as far as the program compares counters with them.
use Prim.Native.Nat.{ℕ, ◌≤◌}
use mathlib.Core.Bool.{Bool, true}
use mathlib.Core.Path.{◌≡◌}
use native.Mathlib.Omega.{arith}
use aegis_proxy.Common.Tests.{leb}

-- `negsuc n` is -(n + 1).
pub data ℤ : Type 0 where
  pos : ℕ → ℤ
  negsuc : ℕ → ℤ

abbrev pub pos_part : ℤ → ℕ
pos_part (pos n) = n
pos_part (negsuc n) = 0

-- `n >= t` for a counter `n` that is never negative and an `int t`.
abbrev pub reaches : ℕ → ℤ → Bool
reaches n (pos t) = leb t n
reaches n (negsuc t) = true

pub reaches→le : (n : ℕ) (t : ℤ) → reaches n t ≡ true → pos_part t ≤ n
reaches→le n t h = ground arith

pub le→reaches : (n : ℕ) (t : ℤ) → pos_part t ≤ n → reaches n t ≡ true
le→reaches n t h = ground arith

-- ===== src/Hash/Bound.antt =====
-- The range of the hash of hash_ring.cpp, and of exclusive or, the one operation of it that is not
-- reduced modulo 2^64.
use Prim.Native.Nat.{bit_xor, digits, bit_xor-bitwise, differ}
use native.Mathlib.Nat.{pow-suc, pow-zero}
use aegis_proxy.Common.{ℕ, zero, suc, ◌/◌, ◌%◌, ◌^◌, ◌<◌, ◌≡◌, arith}
use aegis_proxy.Text.{Bytes}
use aegis_proxy.Hash.{word, fold_high, finalize, hash_key}

abbrev xor_digits : ℕ → ℕ → ℕ → ℕ
xor_digits n a b = digits (λ b. b) differ n a b

differ_digit : (x y : ℕ) → x < 2 → y < 2 → differ x y < 2
differ_digit zero y p q = q
differ_digit (suc zero) zero p q = omega arith
differ_digit (suc zero) (suc y) p q = omega arith
differ_digit (suc (suc x)) y p q = absurd (omega arith)

xor_digits-lt : (n k a b : ℕ) → a < 2 ^ k → b < 2 ^ k → xor_digits n a b < 2 ^ k
xor_digits-lt zero k a b p q = q
xor_digits-lt (suc n) k zero b p q = q
xor_digits-lt (suc n) zero (suc a) b p q = absurd (omega (arith, pow-zero 2))
xor_digits-lt (suc n) (suc k) (suc a) b p q =
    let e = pow-suc 2 k in
    omega (
      arith,
      xor_digits-lt n k (suc a / 2) (b / 2) (omega arith) (omega arith),
      differ_digit (suc a % 2) (b % 2) (omega arith) (omega arith),
    )

pub bit_xor-lt : (k a b : ℕ) → a < 2 ^ k → b < 2 ^ k → bit_xor a b < 2 ^ k
bit_xor-lt k a b p q =
    let e : bit_xor a b ≡ xor_digits a a b = bit_xor-bitwise a b in rw e (xor_digits-lt a k a b p q)

fold_high-lt : (h : ℕ) → h < word → fold_high h < word
unfolding fold_high
fold_high-lt h p = bit_xor-lt 64 h (h / 2 ^ 33) p (omega arith)

-- The hash of any text is a 64-bit word, as the code's type says: no step leaves that range.
pub hash_key-lt-word : (key : Bytes) → hash_key key < word
unfolding hash_key finalize
hash_key-lt-word key = fold_high-lt _ (omega arith)

-- ===== src/Hash.antt =====
-- The 64-bit hash of hash_ring.cpp: FNV-1a over the bytes, then the avalanche finalizer.
pub mod Bound
use Prim.Native.Nat.{bit_xor}
use aegis_proxy.Common.{ℕ, ◌*◌, ◌/◌, ◌%◌, ◌^◌, [], ◌∷◌}
use aegis_proxy.Text.{Bytes}

abbrev pub word : ℕ
word = 2 ^ 64

abbrev pub fnv_offset_basis : ℕ
fnv_offset_basis = 14695981039346656037

abbrev pub fnv_prime : ℕ
fnv_prime = 1099511628211

-- The loop over the bytes: `hash ^= c; hash *= fnv_prime;`.
pub fnv : ℕ → Bytes → ℕ
fnv hash [] = hash
fnv hash (c ∷ cs) = fnv (bit_xor hash c * fnv_prime % word) cs

-- `hash ^= hash >> 33`.
pub fold_high : ℕ → ℕ
fold_high hash = bit_xor hash (hash / 2 ^ 33)

pub finalize : ℕ → ℕ
unfolding fold_high
finalize hash =
    fold_high (fold_high (fold_high hash * 0xff51afd7ed558ccd % word) * 0xc4ceb9fe1a85ec53 % word)

unfoldable pub hash_key : Bytes → ℕ
unfolding fnv finalize
hash_key key = finalize (fnv fnv_offset_basis key)

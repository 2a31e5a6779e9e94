-- ===== src/Ring/Keys.antt =====
-- The texts that vnode_key in hash_ring.cpp builds.
use aegis_proxy.Common.{ℕ, ◌≡◌, arith}
use aegis_proxy.Text.{to_string}
use aegis_proxy.Text.Decimal.{to_string-digits, to_string-injective, split_at}
use aegis_proxy.Ring.{vnode_key}

-- No two virtual nodes share a key: the key determines the backend's index and the vnode's.
pub vnode_key-injective : (b c v w : ℕ) → vnode_key b v ≡ vnode_key c w → (b ≡ c) × (v ≡ w)
unfolding vnode_key
vnode_key-injective b c v w e =
    let (backends, vnodes) =
      split_at 35 (to_string b) (to_string c) (to_string v) (to_string w) (λ d. omega arith)
        (to_string-digits b) (to_string-digits c) e in
    (to_string-injective b c backends, to_string-injective v w vnodes)

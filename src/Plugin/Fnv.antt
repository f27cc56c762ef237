-- ===== src/Plugin/Fnv.antt =====
-- FNV-1a over 64 bits, as the fingerprint of the manifest directory in src/plugin/manifest.rs accumulates it.
use Prim.Native.Nat.{ℕ, zero, suc, ◌+◌, ◌*◌, ◌/◌, ◌%◌}
use wazabi_edr_agent.Prelude.{List, [], ◌∷◌}

abbrev pub offset_basis : ℕ
offset_basis = 14695981039346656037

abbrev prime : ℕ
prime = 1099511628211

-- Exclusive or of two numbers, bit by bit.
xor_bits : ℕ → ℕ → ℕ → ℕ
xor_bits zero a b = 0
xor_bits (suc w) a b = (a % 2 + b % 2) % 2 + 2 * xor_bits w (a / 2) (b / 2)

unfoldable pub absorb : ℕ → List ℕ → ℕ
unfolding xor_bits
absorb h [] = h
absorb h (b ∷ bs) = absorb (xor_bits 64 h b * prime % 18446744073709551616) bs

unfoldable pub le_bytes : ℕ → ℕ → List ℕ
le_bytes zero n = []
le_bytes (suc w) n = n % 256 ∷ le_bytes w (n / 256)

-- ===== src/Seam/Hash.antt =====
-- crates/seam/src/math.rs: FNV-1a.
use Prim.Native.Nat.{bit_xor}
use vectorseam.Base.{ℕ, ◌*◌, ◌%◌, ◌^◌, [], ◌∷◌, Bytes}

abbrev pub fnv_offset_basis : ℕ
fnv_offset_basis = 0xcbf29ce484222325

abbrev pub fnv_prime : ℕ
fnv_prime = 0x00000100000001b3

-- The fold, from a hash.
unfoldable pub fnv1a64_from : ℕ → Bytes → ℕ
fnv1a64_from hash [] = hash
fnv1a64_from hash (byte ∷ bytes) = fnv1a64_from (bit_xor hash byte * fnv_prime % 2 ^ 64) bytes

unfoldable pub fnv1a64 : Bytes → ℕ
unfolding fnv1a64_from
fnv1a64 bytes = fnv1a64_from fnv_offset_basis bytes

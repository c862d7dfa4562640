-- ===== src/Core/Endian.antt =====
-- `to_le_bytes` and `from_le_bytes` of the unsigned integers, at every width.
use native.Mathlib.Nat.{pow-suc}
use vectorseam.Base.{
  ℕ, zero, suc, ◌+◌, ◌*◌, ◌/◌, ◌%◌, ◌^◌, ◌<◌, ◌≡◌, refl, ap, [], ◌∷◌, arith, length, Bytes,
  AreBytes,
}

-- `n.to_le_bytes()` of a type `k` bytes wide.
abbrev pub to_le_bytes : ℕ → ℕ → Bytes
to_le_bytes zero n = []
to_le_bytes (suc k) n = (n % 256) ∷ to_le_bytes k (n / 256)

-- `from_le_bytes(bytes)`
abbrev pub from_le_bytes : Bytes → ℕ
from_le_bytes [] = 0
from_le_bytes (b ∷ bs) = b + 256 * from_le_bytes bs

pub length-to_le_bytes : (k n : ℕ) → length (to_le_bytes k n) ≡ k
length-to_le_bytes zero n = refl
length-to_le_bytes (suc k) n = ap suc (length-to_le_bytes k (n / 256))

pub to_le_bytes-AreBytes : (k n : ℕ) → AreBytes (to_le_bytes k n)
to_le_bytes-AreBytes zero n = tt
to_le_bytes-AreBytes (suc k) n = (omega arith, to_le_bytes-AreBytes k (n / 256))

pub from-to_le_bytes : (k n : ℕ) → n < 256 ^ k → from_le_bytes (to_le_bytes k n) ≡ n
from-to_le_bytes zero n h = omega arith
from-to_le_bytes (suc k) n h =
    omega (arith, pow-suc 256 k, from-to_le_bytes k (n / 256) (omega (arith, pow-suc 256 k)))

pub to-from_le_bytes : (bs : Bytes) → AreBytes bs → to_le_bytes (length bs) (from_le_bytes bs) ≡ bs
to-from_le_bytes [] h = refl
to-from_le_bytes (b ∷ bs) h =
    let low : (b + 256 * from_le_bytes bs) % 256 ≡ b = omega arith in
    let high : (b + 256 * from_le_bytes bs) / 256 ≡ from_le_bytes bs = omega arith in
    rw (low, high) (ap (◌∷◌ b) (to-from_le_bytes bs h.1))

pub from_le_bytes-lt : (bs : Bytes) → AreBytes bs → from_le_bytes bs < 256 ^ length bs
from_le_bytes-lt [] h = omega arith
from_le_bytes-lt (b ∷ bs) h = omega (arith, pow-suc 256 (length bs), from_le_bytes-lt bs h.1)

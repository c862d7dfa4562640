-- ===== src/Collector/Memory/Solo.antt =====
-- The rounds of a thread that runs alone, against `try_reserve` and `release`.
use vectorseam.Base.{ℕ, ◌+◌, ◌≤◌, ◌≡◌, false, Option, none, some, arith, usize_max}
use vectorseam.Collector.Memory.{
  Attempt, refused, reserved, released, try_reserve_round, release_round, try_reserve, release,
}

-- What `try_reserve` answers, as the attempt that ends its loop.
abbrev pub settled : ℕ → Option ℕ → Attempt × ℕ
settled used none = (refused, used)
settled used (some next) = (reserved, next)

-- A round that sees the current value and whose exchange does not fail spuriously ends the loop, with the
-- answer of `try_reserve`.
pub try_reserve_round-settled :
    (used bytes limit : ℕ)
    → try_reserve_round false bytes limit used used ≡ settled used (try_reserve used bytes limit)
unfolding try_reserve_round try_reserve
try_reserve_round-settled used bytes limit = ground arith

pub release_round-released :
    (used bytes : ℕ) → release_round false bytes used used ≡ (released, release used bytes)
unfolding release_round release
release_round-released used bytes = ground arith

-- A reservation is granted exactly when it fits under the limit.
pub try_reserve_iff :
    (used bytes limit : ℕ)
    → limit ≤ usize_max
    → (next : ℕ)
    → (try_reserve used bytes limit ≡ some next → (next ≡ used + bytes) × (next ≤ limit))
      × ((next ≡ used + bytes) × (next ≤ limit) → try_reserve used bytes limit ≡ some next)
unfolding try_reserve
try_reserve_iff used bytes limit l next = (λ h. ground arith, λ h. ground arith)

-- Releasing what was reserved restores the count.
pub release_reserved :
    (used bytes limit : ℕ) {next : ℕ}
    → try_reserve used bytes limit ≡ some next
    → release next bytes ≡ used
unfolding try_reserve release
release_reserved used bytes limit h = ground arith

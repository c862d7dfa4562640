-- ===== src/Collector/Memory.antt =====
-- crates/vectorseam-collector/src/memory.rs: the shared count of reserved bytes. The loops retry a
-- compare-and-exchange; one attempt is a function of the value the thread last saw and of the value
-- that stands in the atomic. `weak` says that the exchange fails for no reason.
pub mod Solo
pub mod Threads
use vectorseam.Base.{
  ℕ, ◌+◌, ◌-◌, Bool, true, false, Option, none, some, ltb, ◌==◌, if◌then◌else◌, checked_add,
  usize_max,
}

-- `compare_exchange_weak(current, next)`: whether it went through, and the value that then stands.
pub compare_exchange_weak : Bool → ℕ → ℕ → ℕ → Bool × ℕ
compare_exchange_weak true current next actual = (false, actual)
compare_exchange_weak false current next actual =
    if actual == current then (true, next) else (false, actual)

-- What an attempt leaves its thread with.
pub data Attempt : Type 0 where
  refused : Attempt
  reserved : Attempt
  retry : ℕ → Attempt

-- One round of the loop of `try_reserve`; the second component is the atomic's value afterwards.
unfoldable pub try_reserve_round : Bool → ℕ → ℕ → ℕ → ℕ → Attempt × ℕ
unfolding compare_exchange_weak
try_reserve_round weak bytes limit current actual = elim (checked_add usize_max current bytes) [
  | none ↦ (refused, actual)
  | some next ↦
      if ltb limit next
      then (refused, actual)
      else let (exchanged, used) = compare_exchange_weak weak current next actual in
        (if exchanged then reserved else retry used, used)
]

-- One round of the loop of `release`: the bytes still to be released are clamped to what the thread
-- last saw, for good.
pub data ReleaseAttempt : Type 0 where
  released : ReleaseAttempt
  again : ℕ → ℕ → ReleaseAttempt

unfoldable pub release_round : Bool → ℕ → ℕ → ℕ → ReleaseAttempt × ℕ
unfolding compare_exchange_weak
release_round weak release_bytes current actual =
    let clamped = if ltb current release_bytes then current else release_bytes in
    let next = current - clamped in
    let (exchanged, used) = compare_exchange_weak weak current next actual in
    (if exchanged then released else again clamped used, used)

-- The two operations where no other thread interferes: the new count, or a refusal.
unfoldable pub try_reserve : ℕ → ℕ → ℕ → Option ℕ
try_reserve used bytes limit = elim (checked_add usize_max used bytes) [
  | none ↦ none
  | some next ↦ if ltb limit next then none else some next
]

unfoldable pub release : ℕ → ℕ → ℕ
release used bytes = used - (if ltb used bytes then used else bytes)

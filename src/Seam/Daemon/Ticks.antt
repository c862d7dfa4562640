-- ===== src/Seam/Daemon/Ticks.antt =====
-- The schedule keeps to the grid of the interval.
use native.Mathlib.Nat.{div-add-mod, mod-lt}
use vectorseam.Base.{
  ℕ, ◌+◌, ◌-◌, ◌*◌, ◌/◌, ◌≤◌, ◌<◌, ◌≡◌, arith, Bool-cases, inl, inr, ltb, ltb→lt, ltb_false→ge,
}
use vectorseam.Seam.Daemon.{next_tick_after_round}

crossed : (i q : ℕ) → i * (q + 1 + 1) ≡ i * q + i + i
crossed i q = grind arith

-- After a round that started at a tick and ended no earlier, the next tick lies after the round's end and
-- at most one interval after it or after the previous tick; it is the previous tick, one interval and the
-- skipped intervals later. The interval is not zero.
pub next_tick_after_round_lem :
    (previous_tick now interval : ℕ)
    → 0 < interval
    → previous_tick ≤ now
    → let (tick, skipped) = next_tick_after_round previous_tick now interval in
      (now < tick) × (tick ≤ now + interval) × (tick ≡ previous_tick + interval * (skipped + 1))
unfolding next_tick_after_round
next_tick_after_round_lem previous_tick now interval pos h =
    elim (Bool-cases (ltb now (previous_tick + interval))) [
      | inl e ↦ rw e (ltb→lt now (previous_tick + interval) e, omega arith, omega arith)
      | inr e ↦
          let late = now - (previous_tick + interval) in
          let split = div-add-mod late interval in
          let below = mod-lt late pos in
          let past = ltb_false→ge now (previous_tick + interval) e in
          rw e (omega arith, omega arith, omega (arith, crossed interval (late / interval)))
    ]

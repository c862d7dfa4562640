-- ===== src/Core/Window/Align.antt =====
-- Tumbling windows: alignment picks the one window that holds a time.
use native.Mathlib.Nat.{mul-mod_right, div-add-mod, mod-lt}
use vectorseam.Base.{
  sym, ap, ◌∙◌, inr, inl, ℕ, ◌+◌, ◌*◌, ◌/◌, ◌%◌, ◌≤◌, ◌<◌, ◌≡◌, ◌↔◌, ◌⊎◌, arith, ok,
}
use vectorseam.Core.Window.{aligned_window_start}

pub lt_eq_gt : (a b : ℕ) → (a < b) ⊎ (a ≡ b) ⊎ (b < a)
lt_eq_gt a b = omega arith

pub mul_step : (w a b : ℕ) → a < b → w * a + w ≤ w * b
mul_step w a b h = grind arith

-- Two multiples of the width whose windows hold one time are the same.
quotient_unique : (w a b r : ℕ) → r < w → w * a ≤ w * b + r → w * b + r < w * a + w → a ≡ b
quotient_unique w a b r h lo hi = elim (lt_eq_gt a b) [
  | inl l ↦ absurd (omega (arith, mul_step w a b l))
  | inr (inl e) ↦ e
  | inr (inr g) ↦ absurd (omega (arith, mul_step w b a g))
]

module _ (t w : ℕ) (pos : 0 < w) where
  aligned : aligned_window_start t w ≡ ok (w * (t / w))
  unfolding aligned_window_start
  aligned = ground (arith, div-add-mod t w)

  holds : (w * (t / w) ≤ t) × (t < w * (t / w) + w)
  holds = (omega (arith, div-add-mod t w), omega (arith, div-add-mod t w, mod-lt t pos))

  -- For a width that is not zero, the result is the only multiple of the width whose window holds the time.
  pub aligned_window_start_iff :
      (s : ℕ) → (aligned_window_start t w ≡ ok s) ↔ ((s % w ≡ 0) × (s ≤ t) × (t < s + w))
  aligned_window_start_iff s = (forth, back)
    where
      forth : aligned_window_start t w ≡ ok s → (s % w ≡ 0) × (s ≤ t) × (t < s + w)
      forth e =
          let same : s ≡ w * (t / w) = cc (e, aligned) in
          rw same (mul-mod_right w (t / w), holds.0, holds.1)

      back : (s % w ≡ 0) × (s ≤ t) × (t < s + w) → aligned_window_start t w ≡ ok s
      back (m, lo, hi) =
          let multiple : s ≡ w * (s / w) = omega (arith, div-add-mod s w) in
          let e : s / w ≡ t / w =
            quotient_unique w (s / w) (t / w) (t % w) (mod-lt t pos)
              (omega (arith, div-add-mod t w)) (omega (arith, div-add-mod t w)) in
          aligned ∙ ap ok (sym (multiple ∙ ap (λ k. w * k) e))

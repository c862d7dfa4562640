-- ===== src/Seam/Accounting/Windows.antt =====
-- The storage windows of a round are exactly those within it.
use native.Mathlib.Nat.{div-add-mod, add-mod_right}
use vectorseam.Base.{
  ◌∙◌, ℕ, zero, suc, ◌+◌, ◌-◌, ◌≤◌, ◌<◌, ◌%◌, ◌/◌, ◌*◌, ◌≡◌, ◌↔◌, ◌⊎◌, refl, ap, sym, subst,
  Bool-cases, inl, inr, Option, none, some, List, [], ◌∷◌, arith, ok, ltb, true, checked_sub,
}
use vectorseam.Core.Window.Align.{lt_eq_gt, mul_step}
use vectorseam.Seam.Accounting.{contains, windows_down, in_scope_window_starts}

multiple_gap : (w a b : ℕ) → a % w ≡ 0 → b % w ≡ 0 → a < b → a + w ≤ b
multiple_gap w a b p q h = elim (lt_eq_gt (a / w) (b / w)) [
  | inl l ↦ omega (arith, mul_step w (a / w) (b / w) l, div-add-mod a w, div-add-mod b w)
  | inr (inl e) ↦ absurd (omega (arith, ap (λ k. w * k) e, div-add-mod a w, div-add-mod b w))
  | inr (inr g) ↦
      absurd (omega (arith, mul_step w (b / w) (a / w) g, div-add-mod a w, div-add-mod b w))
]

-- A multiple of the width from which a whole window lies between the two bounds.
abbrev pub Within : ℕ → ℕ → ℕ → ℕ → Type 0
Within w lower end s = (s % w ≡ 0) × (lower ≤ s) × (s + w ≤ end)

contains_cons :
    (s d : ℕ) (acc : List ℕ) → (contains s (d ∷ acc) ≡ true) ↔ ((d ≡ s) ⊎ (contains s acc ≡ true))
contains_cons s d acc = ground arith

Exactly : ℕ → ℕ → ℕ → ℕ → List ℕ → List ℕ → Type 0
Exactly w lower end s acc starts =
    (contains s starts ≡ true) ↔ ((contains s acc ≡ true) ⊎ Within w lower end s)

-- No window is left below.
stop :
    (w lower end s : ℕ) (acc : List ℕ) → (Within w lower end s → ⊥) → Exactly w lower end s acc acc
unfolding Exactly
stop w lower end s acc beyond = (λ h. inl h, λ h. elim h [ inl k ↦ k | inr k ↦ absurd (beyond k) ])

-- One more window is found.
found :
    (w lower d end s : ℕ) (acc starts : List ℕ)
    → d % w ≡ 0
    → lower ≤ d
    → d + w ≡ end
    → Exactly w lower d s (d ∷ acc) starts
    → Exactly w lower end s acc starts
unfolding Exactly
found w lower d end s acc starts m l e (forth, back) = (
  λ h. elim (forth h) [
    | inl k ↦ elim ((contains_cons s d acc).0 k) [
      | inl same ↦ inr (subst (Within w lower end) same (m, l, omega arith))
      | inr earlier ↦ inl earlier
    ]
    | inr k ↦ inr (k.0, k.1, omega (arith, k.2))
  ],
  λ h. elim h [
    | inl k ↦ back (inl ((contains_cons s d acc).1 (inr k)))
    | inr k ↦ elim (lt_eq_gt s d) [
      | inl below ↦ back (inr (k.0, k.1, multiple_gap w s d k.0 m below))
      | inr (inl same) ↦ back (inl ((contains_cons s d acc).1 (inl (sym same))))
      | inr (inr above) ↦ absurd (omega (arith, k.2))
    ]
  ],
)

windows_down-Exactly :
    (fuel w lower e : ℕ) (acc : List ℕ) (s : ℕ)
    → 0 < w
    → e % w ≡ 0
    → e < fuel
    → Exactly w lower e s acc (windows_down fuel w lower e acc)
unfolding windows_down
windows_down-Exactly zero w lower e acc s pos m f = absurd (omega arith)
windows_down-Exactly (suc fuel) w lower e acc s pos m f =
    after (checked_sub e w) refl (windows_down-Exactly fuel w lower)
  where
    after :
        (o : Option ℕ)
        → checked_sub e w ≡ o
        → ((d : ℕ) (more : List ℕ) (t : ℕ)
            → 0 < w
            → d % w ≡ 0
            → d < fuel
            → Exactly w lower d t more (windows_down fuel w lower d more))
        → Exactly w lower e s acc (windows_down (suc fuel) w lower e acc)
    after none p ih = rw (p, windows_down) (stop w lower e s acc (λ k. ground (arith, k.2)))
    after (some d) p ih =
        let back_one : d + w ≡ e = ground arith in
        let multiple : d % w ≡ 0 = sym (add-mod_right d w) ∙ ap (λ x. x % w) back_one ∙ m in
        elim (Bool-cases (ltb d lower)) [
          | inl q ↦
              rw (p, windows_down) (rw q (stop w lower e s acc (λ k. ground (arith, k.1, k.2))))
          | inr q ↦
              rw (p, windows_down)
                (rw q (
                  found w lower d e s acc _ multiple (ground arith) back_one
                    (ih d (d ∷ acc) s pos multiple (omega arith))))
        ]

-- A round reads exactly the storage windows that lie wholly within its window: the multiples of the
-- storage width from which a whole storage window fits between the start and the end of the round.
pub in_scope_window_starts_iff :
    (round_end window_duration_seconds storage_width : ℕ) (starts : List ℕ)
    → in_scope_window_starts round_end window_duration_seconds storage_width ≡ ok starts
    → (s : ℕ)
    → (contains s starts ≡ true) ↔ (
        (s % storage_width ≡ 0)
        × (round_end - window_duration_seconds ≤ s)
        × (s + storage_width ≤ round_end))
unfolding in_scope_window_starts Exactly
in_scope_window_starts_iff round_end window_duration_seconds storage_width starts e s =
    let (forth, back) =
      windows_down-Exactly (suc round_end) storage_width (round_end - window_duration_seconds)
        round_end [] s (ground (arith, e)) (ground (arith, e)) (omega arith) in
    let same : windows_down (suc round_end) storage_width (round_end - window_duration_seconds)
          round_end []
        ≡ starts =
      ground (arith, e) in
    (
      λ h. elim (forth (subst (λ x. contains s x ≡ true) (sym same) h)) [ inl k ↦ cc | inr k ↦ k ],
      λ h. subst (λ x. contains s x ≡ true) same (back (inr h)),
    )

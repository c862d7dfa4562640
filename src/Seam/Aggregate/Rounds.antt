-- ===== src/Seam/Aggregate/Rounds.antt =====
-- Rounds one after another, each given the output of the one before it.
use vectorseam.Seam.Aggregate.Effective.{fresh}
use vectorseam.Seam.Aggregate.Decision.{IsCarried, IsFresh, aggregate-IsDecided}
use vectorseam.Seam.Aggregate.Valid.{IsValid, validate_aggregation_config-IsValid}
use vectorseam.Seam.Aggregate.{RoundParts, gather, aggregate}
use vectorseam.Seam.Model.{AggregationInput, EffectiveRecommendation, RoundOutput}
use vectorseam.Seam.Math.{any}
use vectorseam.Seam.Accounting.{contains}
use vectorseam.Seam.Aggregate.Checks.{
  carry_fingerprint_matches, validate_aggregation_config, any_descent, is_bad_grid, nats_eq,
}
use vectorseam.Core.Recommendation.{max_ef_search}
use vectorseam.Base.{
  >>=-eq-ok, ap, i32_max, if◌then◌else◌, leb, some-injective, subst, ◌∙◌, none, ok, some,
  ||-eq-false, &&-eq-true, ==→≡, Bool, Bool-cases, List, [], ap₂, arith, false, inl, inr,
  leb_false→lt, ltb, ltb_false→ge, refl, sym, true, ◌<◌, ◌==◌, ◌∷◌, ◌≡◌, ◌≤◌, ℕ,
}
use vectorseam.Seam.Floats.{Floats}

pub nats_eq→≡ : (xs ys : List ℕ) → nats_eq xs ys ≡ true → xs ≡ ys
unfolding nats_eq
nats_eq→≡ [] [] h = refl
nats_eq→≡ [] (y ∷ ys) h = cc
nats_eq→≡ (x ∷ xs) [] h = cc
nats_eq→≡ (x ∷ xs) (y ∷ ys) h =
    let (first, rest) = &&-eq-true h in ap₂ (λ z zs. z ∷ zs) (==→≡ x y first) (nats_eq→≡ xs ys rest)

-- A member of a grid that ascends is not below the first.
ascending_le :
    (first : ℕ) (efs : List ℕ) (ef : ℕ)
    → any_descent (first ∷ efs) ≡ false
    → contains ef (first ∷ efs) ≡ true
    → first ≤ ef
unfolding any_descent
ascending_le first [] ef h m = ground arith
ascending_le first (second ∷ efs) ef h m = elim (Bool-cases (first == ef)) [
  | inl e ↦ omega (arith, ==→≡ first ef e)
  | inr e ↦
      let (above, rest) = ||-eq-false h in
      let below = ascending_le second efs ef rest (rw e at m) in
      omega (arith, below, leb_false→lt second first above)
]

any-contains :
    (test : ℕ → Bool) (efs : List ℕ) (ef : ℕ)
    → any test efs ≡ false
    → contains ef efs ≡ true
    → test ef ≡ false
unfolding any
any-contains test [] ef h m = cc
any-contains test (e ∷ efs) ef h m = elim (Bool-cases (e == ef)) [
  | inl p ↦ rw (sym (==→≡ e ef p)) (||-eq-false h).0
  | inr p ↦ any-contains test efs ef (||-eq-false h).1 (rw p at m)
]

limit_positive : (k : ℕ) → 0 < k → 0 < (if leb k i32_max then k else i32_max)
limit_positive k n = elim (Bool-cases (leb k i32_max)) [
  | inl e ↦ rw e n
  | inr e ↦ rw e (omega arith)
]

above_zero : (first limit ef : ℕ) → ltb first limit ≡ false → 0 < limit → first ≤ ef → 0 < ef
above_zero first limit ef h n low = let above = ltb_false→ge first limit h in omega (arith, above)

-- A grid that is accepted lies between `k` and the largest ef.
pub is_bad_grid-bounds :
    (k : ℕ) (efs : List ℕ) (ef : ℕ)
    → is_bad_grid k efs ≡ false
    → contains ef efs ≡ true
    → 0 < k
    → (0 < ef) × (ef ≤ max_ef_search)
unfolding is_bad_grid
is_bad_grid-bounds k [] ef h m n = cc
is_bad_grid-bounds k (first ∷ efs) ef h m n =
    let (ascends, rest) = ||-eq-false h in
    let (above, bounded) = ||-eq-false rest in
    let low = ascending_le first efs ef ascends m in
    let high = any-contains (ltb max_ef_search) (first ∷ efs) ef bounded m in
    (
      above_zero first (if leb k i32_max then k else i32_max) ef above (limit_positive k n) low,
      ltb_false→ge max_ef_search ef high,
    )

module _ (fl : Floats) where
  -- The outputs of rounds that each know the one before: `latest.json` as a round finds it.
  pub data Rounds : RoundOutput fl → Type 0 where
    first_round :
        (input : AggregationInput fl) (output : RoundOutput fl)
        → input.previous_round ≡ none
        → aggregate fl input ≡ ok output
        → Rounds output
    next_round :
        (previous : RoundOutput fl) (input : AggregationInput fl) (output : RoundOutput fl)
        → Rounds previous
        → input.previous_round ≡ some previous
        → aggregate fl input ≡ ok output
        → Rounds output

  -- A recommendation that the round's own grid offers, inside the limits of `hnsw.ef_search`.
  pub record IsServable (output : RoundOutput fl) (effective : EffectiveRecommendation fl)
      : Type 0 where
    pub listed : contains effective.recommended_ef output.ef_grid ≡ true
    pub positive : 0 < effective.recommended_ef
    pub bounded : effective.recommended_ef ≤ max_ef_search

  gather-IsValid :
      (input : AggregationInput fl) (parts : RoundParts fl)
      → gather fl input ≡ ok parts
      → IsValid fl input.config
  unfolding gather
  gather-IsValid input parts h =
      let (threshold, checked, _) = >>=-eq-ok (validate_aggregation_config fl input.config) _ h in
      validate_aggregation_config-IsValid fl input.config threshold checked

  aggregate-IsValid :
      (input : AggregationInput fl) (output : RoundOutput fl)
      → aggregate fl input ≡ ok output
      → IsValid fl input.config
  unfolding aggregate
  aggregate-IsValid input output h =
      let (parts, gathered, _) = >>=-eq-ok (gather fl input) _ h in
      gather-IsValid input parts gathered

  -- An ef of the grid can be served.
  listed-IsServable :
      (input : AggregationInput fl) (output : RoundOutput fl)
      (effective : EffectiveRecommendation fl)
      → aggregate fl input ≡ ok output
      → contains effective.recommended_ef output.ef_grid ≡ true
      → IsServable output effective
  listed-IsServable input output effective h m =
      let valid = aggregate-IsValid input output h in
      let grid = (aggregate-IsDecided fl input output h).same_grid in
      let (positive, bounded) =
        is_bad_grid-bounds input.config.k input.config.ef_grid effective.recommended_ef
          valid.good_grid (subst (λ efs. contains effective.recommended_ef efs ≡ true) grid m)
          valid.k_positive in
      record { listed = m; positive = positive; bounded = bounded }

  fresh-listed :
      (input : AggregationInput fl) (output : RoundOutput fl)
      (effective : EffectiveRecommendation fl)
      → aggregate fl input ≡ ok output
      → IsFresh fl input.config output effective
      → contains effective.recommended_ef output.ef_grid ≡ true
  fresh-listed input output effective h fresh =
      (aggregate-IsDecided fl input output h).decided effective.recommended_ef fresh.recommended

  -- What is carried keeps the ef, and the grid is the same one.
  carried-listed :
      (input : AggregationInput fl) (output : RoundOutput fl)
      (effective : EffectiveRecommendation fl)
      → aggregate fl input ≡ ok output
      → (carried : IsCarried fl input.config input.previous_round effective)
      → contains carried.before.recommended_ef carried.round.ef_grid ≡ true
      → contains effective.recommended_ef output.ef_grid ≡ true
  unfolding carry_fingerprint_matches
  carried-listed input output effective h carried m =
      let grid = (aggregate-IsDecided fl input output h).same_grid in
      let matched = (&&-eq-true ((&&-eq-true ((&&-eq-true carried.same_target).1)).1)).0 in
      let same = nats_eq→≡ carried.round.ef_grid input.config.ef_grid matched in
      rw (carried.unchanged, grid, sym same) m

  -- After any number of completed rounds, the first without a previous one and each later one given the
  -- output of the one before it, the recommendation in force is an ef of the last round's grid and lies
  -- between 1 and 1000.
  pub effective-IsServable :
      (output : RoundOutput fl)
      → Rounds output
      → (effective : EffectiveRecommendation fl) → output.effective ≡ some effective
      → IsServable output effective
  effective-IsServable _ (first_round input output alone h) effective e =
      elim ((aggregate-IsDecided fl input output h).in_force effective e) [
        | inl fresh ↦
            listed-IsServable input output effective h (fresh-listed input output effective h fresh)
        | inr carried ↦ absurd (cc (sym alone ∙ carried.is_previous))
      ]
  effective-IsServable _ (next_round previous input output rounds known h) effective e =
      elim ((aggregate-IsDecided fl input output h).in_force effective e) [
        | inl fresh ↦
            listed-IsServable input output effective h (fresh-listed input output effective h fresh)
        | inr carried ↦
            let same = some-injective (sym known ∙ carried.is_previous) in
            let before =
              effective-IsServable previous rounds carried.before
                (ap (λ (r : RoundOutput fl). r.effective) same ∙ carried.was_effective) in
            listed-IsServable input output effective h (
              carried-listed input output effective h carried (
                subst
                  (λ (r : RoundOutput fl). contains carried.before.recommended_ef r.ef_grid ≡ true)
                  same before.listed))
      ]

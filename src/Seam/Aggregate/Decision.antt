-- ===== src/Seam/Aggregate/Decision.antt =====
-- What a round decides: its status, its recommendation, and the recommendation in force after it.
use vectorseam.Seam.Aggregate.Checks.{carry_fingerprint_matches}
use vectorseam.Seam.Aggregate.{
  RoundParts, aggregate, conclude, gather, is_insufficient, output_of, is_some, select_unless,
}
use vectorseam.Seam.Aggregate.Effective.{
  effective_recommendation, is_approved, is_ok_status, iso8601_seconds, carry, carry_all,
  previous_effective,
}
use vectorseam.Seam.Accounting.{AggregateError, contains, math}
use vectorseam.Seam.Math.Selection.{IsChosen, efs_of, select_ef-eq-ok}
use vectorseam.Seam.Math.{
  RoundStatus, target_unmet, ok_status, compliance_confidence, insufficient_samples, select_ef,
}
use vectorseam.Seam.Population.Statistics.{
  CompletedSelection, Sampled, evaluate_split, select_and_validate, successes, sweep_at,
  train_confidence_at, traverse,
}
use vectorseam.Seam.Model.{
  PhaseAAbort, AggregationInput, EffectiveRecommendation, RoundOutput, AggregationConfig,
}
use vectorseam.Base.{
  &&-eq-true, Bytes, Bool, Bool-cases, Option, Option-cases, false, inl, inr, none, some,
  some-injective, ◌⊎◌, >>=-eq-ok, List, [], ap, ap₂, length, map_err, map_err-eq-ok, ok,
  ok-injective, refl, subst, sym, true, ◌∷◌, ◌≡◌, ◌≢◌, ℕ,
}
use vectorseam.Seam.Floats.{Floats}

module _ (fl : Floats) where
  open fl use {Float, le}

  traverse-efs :
      (config : AggregationConfig fl) (train : List (Sampled fl)) (grid : List ℕ)
      (scores : List (ℕ × Float))
      → traverse (train_confidence_at fl config train) grid ≡ ok scores
      → efs_of scores ≡ grid
  unfolding traverse
  traverse-efs config train [] scores h = rw (sym (ok-injective h)) refl
  traverse-efs config train (ef ∷ grid) scores h =
      let (entry, first, rest) = >>=-eq-ok (train_confidence_at fl config train ef) _ h in
      let (observations, _, scored) = >>=-eq-ok (traverse (sweep_at fl ef) train) _ first in
      let (confidence, _, made) =
        >>=-eq-ok
          (map_err math (
            compliance_confidence fl (length train) (successes fl config.value observations)
              config.percentile))
          _ scored in
      let (entries, others, result) =
        >>=-eq-ok (traverse (train_confidence_at fl config train) grid) _ rest in
      rw (sym (ok-injective result)) (
        ap₂ (λ x xs. x ∷ xs) (ap (λ e. e.0) (sym (ok-injective made)))
          (traverse-efs config train grid entries others))

  -- The recommended ef is of the grid, and is the one that the confidences of the train split choose.
  pub record IsListed (config : AggregationConfig fl) (train : List (Sampled fl))
      (selection : CompletedSelection fl) : Type 0 where
    pub listed : contains selection.recommended_ef config.ef_grid ≡ true
    pub scores : List (ℕ × Float)
    pub scored : traverse (train_confidence_at fl config train) config.ef_grid ≡ ok scores
    pub chosen :
        IsChosen fl config.selection_confidence scores selection.status selection.recommended_ef

  pub select_and_validate-IsListed :
      (config : AggregationConfig fl) (train test : List (Sampled fl))
      (selection : CompletedSelection fl)
      → select_and_validate fl config train test ≡ ok selection
      → IsListed config train selection
  unfolding select_and_validate
  select_and_validate-IsListed config train test selection h =
      let (scores, scored, h1) =
        >>=-eq-ok (traverse (train_confidence_at fl config train) config.ef_grid) _ h in
      let (selected, chosen, h2) =
        >>=-eq-ok (map_err math (select_ef fl scores config.selection_confidence)) _ h1 in
      let (train_stats, _, h3) =
        >>=-eq-ok (evaluate_split fl config train selected.recommended_ef) _ h2 in
      let (holdout, _, h4) =
        >>=-eq-ok (evaluate_split fl config test selected.recommended_ef) _ h3 in
      let k =
        select_ef-eq-ok fl scores config.selection_confidence selected
          (map_err-eq-ok math _ chosen) in
      subst (IsListed config train) (ok-injective h4) (record {
        listed =
            subst (λ grid. contains selected.recommended_ef grid ≡ true)
              (traverse-efs config train config.ef_grid scores scored) k.listed;
        scores = scores;
        scored = scored;
        chosen = k.chosen;
      })

  select_unless-IsListed :
      (insufficient : Bool) (config : AggregationConfig fl) (train test : List (Sampled fl))
      (selection : CompletedSelection fl)
      → select_unless fl insufficient config train test ≡ ok (some selection)
      → (insufficient ≡ false) × IsListed config train selection
  unfolding select_unless
  select_unless-IsListed true config train test selection h = cc
  select_unless-IsListed false config train test selection h =
      let (found, e, result) = >>=-eq-ok (select_and_validate fl config train test) _ h in
      (
        refl,
        select_and_validate-IsListed config train test selection
            (rw (sym (some-injective (ok-injective result))) e),
      )

  -- The recommendation in force: either this round's own, which the holdout split approved, or the one
  -- in force before, if the previous round was computed for the same cohort, index, grid and target.
  pub record IsFresh (config : AggregationConfig fl) (output : RoundOutput fl)
      (effective : EffectiveRecommendation fl) : Type 0 where
    pub not_carried : effective.carried ≡ false
    pub target_met : output.status ≡ ok_status
    pub recommended : output.recommended_ef ≡ some effective.recommended_ef
    pub confident : output.confidence ≡ some effective.confidence
    pub approved : le config.approval_confidence effective.confidence ≡ true
    pub this_round : effective.source_round ≡ output.window.end

  pub record IsCarried (config : AggregationConfig fl) (previous : Option (RoundOutput fl))
      (effective : EffectiveRecommendation fl) : Type 0 where
    pub round : RoundOutput fl
    pub is_previous : previous ≡ some round
    pub same_target : carry_fingerprint_matches fl config round ≡ true
    pub before : EffectiveRecommendation fl
    pub was_effective : round.effective ≡ some before
    pub unchanged : effective ≡ carry fl before

  carry_all-IsCarried :
      (config : AggregationConfig fl) (previous : Option (RoundOutput fl))
      (effective : EffectiveRecommendation fl)
      → carry_all fl (previous_effective fl config previous) ≡ some effective
      → IsCarried config previous effective
  unfolding previous_effective
  carry_all-IsCarried config none effective h = cc
  carry_all-IsCarried config (some round) effective h =
      elim (Bool-cases (carry_fingerprint_matches fl config round)) [
        | inl p ↦ elim (Option-cases round.effective) [
          | inl e ↦ absurd (cc (rw (p, e) at h))
          | inr (before, e) ↦ record {
            round = round;
            is_previous = refl;
            same_target = p;
            before = before;
            was_effective = e;
            unchanged = sym (some-injective (rw (p, e) at h));
          }
        ]
        | inr p ↦ absurd (cc (rw p at h))
      ]

  -- What holds of every round's output.
  pub record IsDecided (input : AggregationInput fl) (output : RoundOutput fl) : Type 0 where
    pub version : output.format_version ≡ 1
    pub same_grid : output.ef_grid ≡ input.config.ef_grid
    pub aborted : is_some fl input.phase_a_abort ≡ true → output.status ≡ insufficient_samples
    pub undecided : output.status ≡ insufficient_samples → output.recommended_ef ≡ none
    pub decided : (ef : ℕ) → output.recommended_ef ≡ some ef → contains ef output.ef_grid ≡ true
    pub in_force :
        (effective : EffectiveRecommendation fl)
        → output.effective ≡ some effective
        → IsFresh input.config output effective
          ⊎ IsCarried input.config input.previous_round effective

  is_ok_status→≡ : (status : RoundStatus) → is_ok_status status ≡ true → status ≡ ok_status
  is_ok_status→≡ ok_status h = refl
  is_ok_status→≡ target_unmet h = cc
  is_ok_status→≡ insufficient_samples h = cc

  IsChosen-decided :
      (threshold : Float) (scores : List (ℕ × Float)) (outcome : RoundStatus) (ef : ℕ)
      → IsChosen fl threshold scores outcome ef
      → outcome ≢ insufficient_samples
  IsChosen-decided threshold scores outcome ef k e =
      subst (λ s. IsChosen fl threshold scores s ef) e k

  module _ (input : AggregationInput fl) (parts : RoundParts fl)
      (window_start window_end : Bytes) where
    output_of-in_force :
        (selection : CompletedSelection fl) (effective : EffectiveRecommendation fl)
        → (output_of fl input parts (some selection) window_start window_end).effective
          ≡ some effective
        → IsFresh input.config
            (output_of fl input parts (some selection) window_start window_end)
            effective
          ⊎ IsCarried input.config input.previous_round effective
    unfolding effective_recommendation
    output_of-in_force selection effective h =
        elim (Bool-cases (is_approved fl input.config selection)) [
          | inl p ↦
              let (met, clear) = &&-eq-true p in
              let e = some-injective (rw p at h) in
              inl (
                subst
                  (IsFresh input.config
                    (output_of fl input parts (some selection) window_start window_end))
                  e
                  (record {
                    not_carried = refl;
                    target_met = is_ok_status→≡ selection.status met;
                    recommended = refl;
                    confident = refl;
                    approved = clear;
                    this_round = refl;
                  }))
          | inr p ↦
              inr (carry_all-IsCarried input.config input.previous_round effective (rw p at h))
        ]

    output_of-IsDecided :
        (insufficient : Bool) (selected : Option (CompletedSelection fl))
        → (is_some fl input.phase_a_abort ≡ true → insufficient ≡ true)
        → select_unless fl insufficient input.config parts.train parts.test ≡ ok selected
        → IsDecided input (output_of fl input parts selected window_start window_end)
    output_of-IsDecided insufficient none aborts h = record {
      version = refl;
      same_grid = refl;
      aborted = λ e. refl;
      undecided = λ e. refl;
      decided = λ ef e. cc e;
      in_force = λ effective e. inr (
          carry_all-IsCarried input.config input.previous_round effective
            (unfold effective_recommendation in e));
    }
    output_of-IsDecided insufficient (some selection) aborts h =
        let (sufficient, k) =
          select_unless-IsListed insufficient input.config parts.train parts.test selection h in
        let decided =
          IsChosen-decided input.config.selection_confidence k.scores selection.status
            selection.recommended_ef k.chosen in
        record {
          version = refl;
          same_grid = refl;
          aborted = λ e. absurd (cc (aborts e, sufficient));
          undecided = λ e. absurd (decided e);
          decided = λ ef e.
              subst (λ n. contains n input.config.ef_grid ≡ true) (some-injective e) k.listed;
          in_force = output_of-in_force selection;
        }

  is_insufficient-aborts :
      (config : AggregationConfig fl) (abort : Option PhaseAAbort) (train test : ℕ)
      (insufficient : Bool)
      → is_insufficient fl config abort train test ≡ ok insufficient
      → is_some fl abort ≡ true
      → insufficient ≡ true
  unfolding is_insufficient
  is_insufficient-aborts config abort train test insufficient h e =
      let (train_ceiling, _, h1) =
        >>=-eq-ok (map_err math (compliance_confidence fl train train config.percentile)) _ h in
      let (test_ceiling, _, h2) =
        >>=-eq-ok (map_err math (compliance_confidence fl test test config.percentile)) _ h1 in
      sym (ok-injective (rw e at h2))

  pub conclude-IsDecided :
      (input : AggregationInput fl) (parts : RoundParts fl) (output : RoundOutput fl)
      → conclude fl input parts ≡ ok output
      → IsDecided input output
  unfolding conclude
  conclude-IsDecided input parts output h =
      let (insufficient, checked, h1) =
        >>=-eq-ok
          (is_insufficient fl input.config input.phase_a_abort (length parts.train)
            (length parts.test))
          _ h in
      let (selected, chosen, h2) =
        >>=-eq-ok (select_unless fl insufficient input.config parts.train parts.test) _ h1 in
      let (window_end, _, h3) =
        >>=-eq-ok (map_err AggregateError.window (iso8601_seconds input.round_end)) _ h2 in
      let (window_start, _, h4) =
        >>=-eq-ok (map_err AggregateError.window (iso8601_seconds parts.lower)) _ h3 in
      subst (IsDecided input) (ok-injective h4) (
        output_of-IsDecided input parts window_start window_end insufficient selected
          (is_insufficient-aborts input.config input.phase_a_abort (length parts.train)
            (length parts.test) insufficient checked)
          chosen)

  -- The output of a round that completes has the grid of its configuration; an abort of phase A leaves it
  -- insufficient, an insufficient round recommends nothing, a recommended ef is of the grid, and a
  -- recommendation in force is the round's own, met and approved, or that of the previous round, carried
  -- under the same cohort, index, grid and target.
  pub aggregate-IsDecided :
      (input : AggregationInput fl) (output : RoundOutput fl)
      → aggregate fl input ≡ ok output
      → IsDecided input output
  unfolding aggregate
  aggregate-IsDecided input output h =
      let (parts, _, h1) = >>=-eq-ok (gather fl input) _ h in
      conclude-IsDecided input parts output h1

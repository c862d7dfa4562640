-- ===== src/Seam/Aggregate/Effective.antt =====
-- crates/seam/src/aggregate.rs: the recommendation in force after a round, and the times of its window.
use vectorseam.Seam.Aggregate.Checks.{carry_fingerprint_matches}
use vectorseam.Seam.Math.{insufficient_samples, ok_status, target_unmet, RoundStatus}
use vectorseam.Seam.Population.Statistics.{CompletedSelection}
use vectorseam.Seam.Model.{AggregationConfig, EffectiveRecommendation, RoundOutput}
use vectorseam.Core.Window.{WindowError, format_window_timestamp}
use vectorseam.Base.{
  Bool, codes, false, if◌then◌else◌, none, ok, slice, some, true, ◌&&◌, ◌++◌, ◌>>=◌, Option, Result,
  Bytes, ℕ,
}
use vectorseam.Seam.Floats.{Floats}

unfoldable pub iso8601_seconds : ℕ → Result WindowError Bytes
iso8601_seconds unix_seconds = do
  compact ← format_window_timestamp unix_seconds
  ok (
      slice compact 0 4
      ++ (codes "-"
          ++ (slice compact 4 6
              ++ (codes "-"
                  ++ (slice compact 6 8
                      ++ (codes "T"
                          ++ (slice compact 9 11
                              ++ (codes ":" ++ (slice compact 11 13 ++ codes ":00Z")))))))))

abbrev pub is_ok_status : RoundStatus → Bool
is_ok_status ok_status = true
is_ok_status target_unmet = false
is_ok_status insufficient_samples = false

module _ (fl : Floats) where
  -- The closure `carried`.
  abbrev pub carry : EffectiveRecommendation fl → EffectiveRecommendation fl
  carry effective = record {
    recommended_ef = effective.recommended_ef;
    confidence = effective.confidence;
    source_round = effective.source_round;
    carried = true;
  }

  abbrev pub carry_all : Option (EffectiveRecommendation fl) → Option (EffectiveRecommendation fl)
  carry_all none = none
  carry_all (some effective) = some (carry effective)

  -- The closure `fresh`.
  abbrev pub fresh : Bytes → CompletedSelection fl → EffectiveRecommendation fl
  fresh source_round selection = record {
    recommended_ef = selection.recommended_ef;
    confidence = selection.confidence;
    source_round = source_round;
    carried = false;
  }

  abbrev pub is_approved : AggregationConfig fl → CompletedSelection fl → Bool
  is_approved config selection =
      is_ok_status selection.status && fl.le config.approval_confidence selection.confidence

  unfoldable pub effective_recommendation :
      AggregationConfig fl
      → Option (CompletedSelection fl)
      → Option (EffectiveRecommendation fl)
      → Bytes
      → Option (EffectiveRecommendation fl)
  effective_recommendation config none previous source_round = carry_all previous
  effective_recommendation config (some selection) previous source_round =
      if is_approved config selection
      then some (fresh source_round selection)
      else carry_all previous

  -- The `previous_effective` of `aggregate`.
  unfoldable pub previous_effective :
      AggregationConfig fl → Option (RoundOutput fl) → Option (EffectiveRecommendation fl)
  unfolding carry_fingerprint_matches
  previous_effective config none = none
  previous_effective config (some previous) =
      if carry_fingerprint_matches fl config previous then previous.effective else none

-- ===== src/Seam/Population/Statistics.antt =====
-- crates/seam/src/population.rs: what is computed of a deduplicated population.
use vectorseam.Base.{
  ℕ, ◌+◌, Bool, not, ◌||◌, Option, none, some, List, [], ◌∷◌, length, map, ◌==◌, if◌then◌else◌,
  Result, ok, ◌>>=◌, ◌>>◌, fail_if, ok_or, map_err,
}
use vectorseam.Seam.Floats.{Floats, zero_f64, one_f64, within}
use vectorseam.Seam.Math.{panicked, RoundStatus, quantile_type7, compliance_confidence, select_ef}
use vectorseam.Seam.Accounting.{
  AggregateError, math, missing_sweep, invalid_observation, invalid_ground_truth_latency,
}
use vectorseam.Seam.Model.{AggregationConfig, SweepMeasurement, Sweeps, PerEfSummary}
use vectorseam.Seam.Population.{PopulationSample}

-- `sweeps.get(ef)`
unfoldable pub get_sweep : {fl : Floats} → ℕ → Sweeps fl → Option (SweepMeasurement fl)
get_sweep ef [] = none
get_sweep ef ((e, s) ∷ sweeps) = if e == ef then some s else get_sweep ef sweeps

-- A step for each member of a list, up to the first error.
unfoldable pub traverse {ℓ κ μ} :
    {E : Type ℓ} {A : Type κ} {B : Type μ} → (A → Result E B) → List A → Result E (List B)
traverse step [] = ok []
traverse step (x ∷ xs) = do y ← step x; ys ← traverse step xs; ok (y ∷ ys)

pub record CompletedSelection (fl : Floats) : Type 0 where
  pub recommended_ef : ℕ
  pub status : RoundStatus
  pub train_confidence : fl.Float
  pub train_compliance : fl.Float
  pub train_quantile : fl.Float
  pub confidence : fl.Float
  pub test_compliance : fl.Float
  pub test_quantile : fl.Float

pub record SplitEvaluation (fl : Floats) : Type 0 where
  pub confidence : fl.Float
  pub compliance : fl.Float
  pub quantile : fl.Float

module _ (fl : Floats) where
  open fl use {Float, of_nat, add, sub, div, lt, le, is_finite}

  -- A sample of the population: its sweeps are those of this model.
  abbrev pub Sampled : Type 0
  Sampled = PopulationSample Float (Sweeps fl)

  abbrev pub is_bad_latency : Float → Bool
  is_bad_latency latency = not (is_finite latency) || lt latency (zero_f64 fl)

  abbrev pub is_bad_observation : SweepMeasurement fl → Bool
  is_bad_observation observation =
      not (is_finite observation.recall)
      || (not (within fl (zero_f64 fl) (one_f64 fl) observation.recall)
          || is_bad_latency observation.latency_ms)

  abbrev pub validate_sweep : Sampled → ℕ → Result AggregateError (Unit {0})
  validate_sweep sample ef = do
    observation ←
        ok_or (get_sweep ef sample.sweeps) (missing_sweep sample.part_ulid sample.record_index ef)
    fail_if (is_bad_observation observation)
        (invalid_observation sample.part_ulid sample.record_index ef)

  abbrev pub validate_sample : List ℕ → Sampled → Result AggregateError (List (Unit {0}))
  validate_sample ef_grid sample = do
    fail_if (is_bad_latency sample.ground_truth_latency_ms)
        (invalid_ground_truth_latency sample.part_ulid sample.record_index)
    traverse (validate_sweep sample) ef_grid

  unfoldable pub validate_population :
      List Sampled → List ℕ → Result AggregateError (List (List (Unit {0})))
  validate_population population ef_grid = traverse (validate_sample ef_grid) population

  -- `iter().sum::<f64>()`
  unfoldable pub sum_from : Float → List Float → Float
  sum_from total [] = total
  sum_from total (x ∷ xs) = sum_from (add total x) xs

  abbrev pub mean : List Float → Float
  mean xs = div (sum_from (zero_f64 fl) xs) (of_nat (length xs))

  -- `&sample.sweeps[ef]`, which panics where there is none.
  abbrev pub sweep_at : ℕ → Sampled → Result AggregateError (SweepMeasurement fl)
  sweep_at ef sample = ok_or (get_sweep ef sample.sweeps) (math panicked)

  abbrev pub summarize : List Sampled → Float → ℕ → Result AggregateError (PerEfSummary fl)
  summarize population q ef = do
    observations ← traverse (sweep_at ef) population
    let recalls = map (λ (o : SweepMeasurement fl). o.recall) observations
    let latencies = map (λ (o : SweepMeasurement fl). o.latency_ms) observations
    quantile ← map_err math (quantile_type7 fl recalls q)
    ok (record {
      ef = ef;
      quantile_recall = quantile;
      mean_recall = mean recalls;
      latency_mean_ms = mean latencies;
    })

  unfoldable pub per_ef_summaries :
      List Sampled → AggregationConfig fl → Result AggregateError (List (PerEfSummary fl))
  per_ef_summaries population config =
      if length population == 0
      then ok []
      else traverse (summarize population (sub (one_f64 fl) config.percentile)) config.ef_grid

  -- `filter(|recall| **recall >= config.value).count()`
  unfoldable pub successes : Float → List (SweepMeasurement fl) → ℕ
  successes value [] = 0
  successes value (o ∷ observations) =
      (if le value o.recall then 1 else 0) + successes value observations

  unfoldable pub evaluate_split :
      AggregationConfig fl → List Sampled → ℕ → Result AggregateError (SplitEvaluation fl)
  evaluate_split config samples ef = do
    observations ← traverse (sweep_at ef) samples
    let recalls = map (λ (o : SweepMeasurement fl). o.recall) observations
    let cleared = successes config.value observations
    confidence ← map_err math (compliance_confidence fl (length samples) cleared config.percentile)
    quantile ← map_err math (quantile_type7 fl recalls (sub (one_f64 fl) config.percentile))
    ok (record {
      confidence = confidence;
      compliance = div (of_nat cleared) (of_nat (length samples));
      quantile = quantile;
    })

  abbrev pub train_confidence_at :
      AggregationConfig fl → List Sampled → ℕ → Result AggregateError (ℕ × Float)
  train_confidence_at config train ef = do
    observations ← traverse (sweep_at ef) train
    confidence ← map_err math (
        compliance_confidence fl (length train) (successes config.value observations)
          config.percentile)
    ok (ef, confidence)

  -- The grid ascends, so collecting into a `BTreeMap` keeps its order.
  unfoldable pub select_and_validate :
      AggregationConfig fl
      → List Sampled
      → List Sampled
      → Result AggregateError (CompletedSelection fl)
  select_and_validate config train test = do
    train_confidences ← traverse (train_confidence_at config train) config.ef_grid
    selected ← map_err math (select_ef fl train_confidences config.selection_confidence)
    train_stats ← evaluate_split config train selected.recommended_ef
    holdout ← evaluate_split config test selected.recommended_ef
    ok (record {
      recommended_ef = selected.recommended_ef;
      status = selected.status;
      train_confidence = train_stats.confidence;
      train_compliance = train_stats.compliance;
      train_quantile = train_stats.quantile;
      confidence = holdout.confidence;
      test_compliance = holdout.compliance;
      test_quantile = holdout.quantile;
    })

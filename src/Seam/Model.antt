-- ===== src/Seam/Model.antt =====
-- crates/seam/src/model.rs: the data of a round. An `ef` is a natural number: a negative one is refused
-- wherever a configuration is validated, as zero is.
use vectorseam.Base.{ℕ, Bool, Option, List, Bytes}
use vectorseam.Seam.Floats.{Floats}
use vectorseam.Seam.Math.{RoundStatus}
use vectorseam.Seam.Accounting.{ListedPart, Coverage}
use vectorseam.Seam.Population.{MeasuredSample}

pub record AggregationConfig (fl : Floats) : Type 0 where
  pub cohort : Bytes
  pub target_name : Bytes
  pub index : Bytes
  pub table : Bytes
  pub column : Bytes
  pub key : Bytes
  pub k : ℕ
  pub value : fl.Float
  pub percentile : fl.Float
  pub selection_confidence : fl.Float
  pub approval_confidence : fl.Float
  pub window_duration_seconds : ℕ
  pub storage_window_seconds : ℕ
  pub ef_grid : List ℕ
  pub train_fraction : fl.Float
  pub split_seed : ℕ

pub record IntermediateMetadata : Type 0 where
  pub format_version : ℕ
  pub cohort : Bytes
  pub part_ulid : Bytes
  pub window_start : ℕ
  pub window_seconds : ℕ
  pub received_frame_count : ℕ
  pub record_count : ℕ
  pub index : Bytes
  pub table : Bytes
  pub column : Bytes
  pub key : Bytes
  pub k : ℕ
  pub ef_grid : List ℕ
  pub failed_count : ℕ
  pub measured_count : ℕ
  pub computed_at_us : ℕ

pub record SweepMeasurement (fl : Floats) : Type 0 where
  pub recall : fl.Float
  pub latency_ms : fl.Float

-- A sample's sweeps by their ef, in ascending order.
abbrev pub Sweeps : Floats → Type 0
Sweeps fl = List (ℕ × SweepMeasurement fl)

abbrev pub Sample : Floats → Type 0
Sample fl = MeasuredSample fl.Float (Sweeps fl)

pub record IntermediatePart (fl : Floats) : Type 0 where
  pub metadata : IntermediateMetadata
  pub samples : List (Sample fl)

-- The message of the only abort is made of the two numbers.
pub data PhaseAAbort : Type 0 where
  table_smaller_than_k : ℕ → ℕ → PhaseAAbort

pub record RoundTarget (fl : Floats) : Type 0 where
  pub name : Bytes
  pub k : ℕ
  pub value : fl.Float
  pub percentile : fl.Float
  pub selection_confidence : fl.Float
  pub approval_confidence : fl.Float

pub record RoundWindow : Type 0 where
  pub start : Bytes
  pub end : Bytes
  pub duration_seconds : ℕ

pub record SampleCounts : Type 0 where
  pub available : ℕ
  pub measured : ℕ
  pub failed : ℕ
  pub unique : ℕ
  pub train : ℕ
  pub test : ℕ

pub record PerEfSummary (fl : Floats) : Type 0 where
  pub ef : ℕ
  pub quantile_recall : fl.Float
  pub mean_recall : fl.Float
  pub latency_mean_ms : fl.Float

pub record EffectiveRecommendation (fl : Floats) : Type 0 where
  pub recommended_ef : ℕ
  pub confidence : fl.Float
  pub source_round : Bytes
  pub carried : Bool

pub record RoundOutput (fl : Floats) : Type 0 where
  pub format_version : ℕ
  pub cohort : Bytes
  pub computed_at : Bytes
  pub window : RoundWindow
  pub target : RoundTarget fl
  pub index : Bytes
  pub ef_grid : List ℕ
  pub status : RoundStatus
  pub error : Option PhaseAAbort
  pub recommended_ef : Option ℕ
  pub confidence : Option fl.Float
  pub train_confidence : Option fl.Float
  pub train_compliance : Option fl.Float
  pub train_quantile_recall : Option fl.Float
  pub test_compliance : Option fl.Float
  pub test_quantile_recall : Option fl.Float
  pub effective : Option (EffectiveRecommendation fl)
  pub samples : SampleCounts
  pub dropped_frame_fraction : fl.Float
  pub coverage : Coverage fl
  pub parts_used : ℕ
  pub incompatible_parts : ℕ
  pub ground_truth_latency_mean_ms : Option fl.Float
  pub per_ef : List (PerEfSummary fl)

pub record AggregationInput (fl : Floats) : Type 0 where
  pub config : AggregationConfig fl
  pub round_end : ℕ
  pub computed_at : Bytes
  pub phase_a_abort : Option PhaseAAbort
  pub phase_a_incompatible_parts : ℕ
  pub previous_round : Option (RoundOutput fl)
  pub listed_parts : List ListedPart
  pub intermediates : List (IntermediatePart fl)

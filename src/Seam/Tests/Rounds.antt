-- ===== src/Seam/Tests/Rounds.antt =====
-- The theorems about rounds and the configuration at concrete inputs.
use vectorseam.Seam.Config.Projects.{from_raw-projects}
use vectorseam.Seam.Aggregate.Checks.{validate_aggregation_config}
use vectorseam.Seam.Config.Build.{for_cohort, from_raw}
use vectorseam.Seam.Model.{AggregationConfig, EffectiveRecommendation}
use vectorseam.Seam.Config.{Config, RawConfig}
use vectorseam.Seam.Math.Selection.{IsSelection, select_ef-selects}
use vectorseam.Seam.Samples.{computed_round, first_input, thousandths, thousandths-IsOrdered}
use vectorseam.Seam.Aggregate.Decision.{IsDecided, aggregate-IsDecided}
use vectorseam.Seam.Aggregate.Rounds.{IsServable, Rounds, effective-IsServable}
use vectorseam.Seam.Math.{EfSelection, any, is_bad_score, select_ef}
use vectorseam.Core.Cohort.{
  validate_segments, validate_segment, is_allowed_segment_byte, validate_cohort_name,
}
use vectorseam.Seam.Aggregate.Checks.{any_descent}
use vectorseam.Base.{
  split, starts_with, List, [], arith, bytes_eq, codes, false, lookup, none, ok, refl, some, ◌∷◌,
  ◌≡◌, ℕ,
}

first_round_chain : Rounds thousandths computed_round.0
first_round_chain = Rounds.first_round first_input computed_round.0 refl computed_round.1

aggregate-IsDecided_example : IsDecided thousandths first_input computed_round.0
aggregate-IsDecided_example =
    aggregate-IsDecided thousandths first_input computed_round.0 computed_round.1

abbrev in_force : EffectiveRecommendation thousandths
in_force = record {
  recommended_ef = 20;
  confidence = 990;
  source_round = codes "1970-01-01T00:02:00Z";
  carried = false;
}

effective-IsServable_example : IsServable thousandths computed_round.0 in_force
effective-IsServable_example =
    effective-IsServable thousandths computed_round.0 first_round_chain in_force computed_round.2

abbrev scores : List (ℕ × ℕ)
scores = (10, 400) ∷ (20, 960) ∷ (40, 990) ∷ []

any_bad : any (is_bad_score thousandths) scores ≡ false
unfolding any
any_bad = refl

select_ef-selects_example :
    (selection : EfSelection) × (select_ef thousandths scores 950 ≡ ok selection)
    × IsSelection thousandths 950 scores selection
select_ef-selects_example =
    select_ef-selects thousandths thousandths-IsOrdered scores 950 refl any_bad (omega arith)

abbrev raw : RawConfig thousandths
raw = record {
  calibration = record {
    interval = 60000000000;
    ef_search = 10 ∷ 20 ∷ [];
    train_fraction = 500;
    split_seed = 1;
  };
  storage = record { root = codes "/data"; window_seconds = 60 };
  budget = record { db_share = 100; statement_timeout = 1000; client_timeout = 1000 };
  data_sources =
      (
        codes "pg",
        record {
          server = codes "localhost:5432";
          database = codes "app";
          user = codes "tuner";
          password_env = none;
          password = false;
        },
      )
      ∷ [];
  indexes =
      (
        codes "docs",
        record {
          data_source = codes "pg";
          table = codes "documents";
          key = codes "id";
          column = codes "embedding";
        },
      )
      ∷ [];
  targets =
      (
        codes "recall",
        record {
          k = 10;
          value = 900;
          percentile = 900;
          selection_confidence = 950;
          approval_confidence = 900;
          window = 120000000000;
        },
      )
      ∷ [];
  cohorts = (codes "prod", record { index = codes "docs"; target = codes "recall" }) ∷ [];
}

abbrev config : Config thousandths
config = record {
  calibration = raw.calibration;
  storage = raw.storage;
  budget = raw.budget;
  data_sources =
      (
        codes "pg",
        record {
          server = codes "localhost:5432";
          database = codes "app";
          user = codes "tuner";
          password_env = none;
        },
      )
      ∷ [];
  indexes = raw.indexes;
  targets = raw.targets;
  cohorts = raw.cohorts;
}

accepted : from_raw thousandths (λ name. false) raw ≡ ok config
unfolding from_raw any_descent any bytes_eq validate_cohort_name split validate_segments
    validate_segment starts_with is_allowed_segment_byte
accepted = refl

from_raw-projects_example :
    (projected : AggregationConfig thousandths) × (for_cohort thousandths config (codes "prod")
      ≡ some projected)
    × ((threshold : ℕ) × (validate_aggregation_config thousandths projected ≡ ok threshold))
unfolding lookup bytes_eq
from_raw-projects_example =
    from_raw-projects thousandths thousandths-IsOrdered (λ name. false) raw config (codes "prod")
      (record { index = codes "docs"; target = codes "recall" }) accepted refl

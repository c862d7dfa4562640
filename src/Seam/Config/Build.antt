-- ===== src/Seam/Config/Build.antt =====
-- crates/seam/src/config.rs: `Config::from_raw`; crates/seam/src/model.rs: the projection on a cohort.
use vectorseam.Seam.Model.{AggregationConfig}
use vectorseam.Core.Cohort.{try_from, CohortName}
use vectorseam.Seam.Config.{
  CohortConfig, Config, ConfigError, DataSourceConfig, IndexConfig, RawConfig, RawDataSourceConfig,
  TargetConfig, as_secs, contains_key, invalid_cohort_name, unknown_index, unknown_target,
  validate_budget, validate_calibration, validate_data_sources, validate_entries,
  validate_grid_against_targets, validate_index, validate_storage, validate_target,
}
use vectorseam.Base.{
  Assoc, Bool, Bytes, Option, Result, [], fail_if, lookup, map_err, none, not, ok, some, ◌>>=◌,
  ◌>>◌, ◌∷◌,
}
use vectorseam.Seam.Floats.{Floats}

module _ (fl : Floats) where
  abbrev pub check_cohort : RawConfig fl → Bytes → CohortConfig → Result ConfigError CohortName
  check_cohort raw name cohort = do
    validated_name ← map_err (invalid_cohort_name name) (try_from name)
    fail_if (not (contains_key cohort.index raw.indexes)) (unknown_index name cohort.index)
    fail_if (not (contains_key cohort.target raw.targets)) (unknown_target name cohort.target)
    ok validated_name

  -- `raw.cohorts.into_iter().map(…).collect()`
  unfoldable pub build_cohorts :
      RawConfig fl → Assoc CohortConfig → Result ConfigError (Assoc CohortConfig)
  unfolding contains_key try_from
  build_cohorts raw [] = ok []
  build_cohorts raw ((name, cohort) ∷ cohorts) = do
    validated_name ← check_cohort raw name cohort
    rest ← build_cohorts raw cohorts
    ok ((validated_name, cohort) ∷ rest)

  abbrev pub build_data_source : RawDataSourceConfig → DataSourceConfig
  build_data_source data_source = record {
    server = data_source.server;
    database = data_source.database;
    user = data_source.user;
    password_env = data_source.password_env;
  }

  abbrev pub map_values {ℓ κ} : {V : Type ℓ} {W : Type κ} → (V → W) → Assoc V → Assoc W
  map_values f [] = []
  map_values f ((name, value) ∷ entries) = (name, f value) ∷ map_values f entries

  unfoldable pub from_raw : (Bytes → Bool) → RawConfig fl → Result ConfigError (Config fl)
  unfolding validate_calibration validate_storage validate_budget validate_data_sources
      validate_entries validate_index validate_target validate_grid_against_targets build_cohorts
  from_raw password_env_exists raw = do
    validate_calibration fl raw.calibration
    validate_storage raw.storage
    validate_budget fl raw.budget
    validate_data_sources password_env_exists [] raw.data_sources
    validate_entries (validate_index raw.data_sources) raw.indexes
    validate_entries (validate_target fl raw.storage.window_seconds) raw.targets
    validate_grid_against_targets fl raw.calibration.ef_search raw.targets
    cohorts ← build_cohorts raw raw.cohorts
    ok (record {
      calibration = raw.calibration;
      storage = raw.storage;
      budget = raw.budget;
      data_sources = map_values build_data_source raw.data_sources;
      indexes = raw.indexes;
      targets = raw.targets;
      cohorts = cohorts;
    })

  abbrev pub project :
      Config fl → Bytes → CohortConfig → IndexConfig → TargetConfig fl → AggregationConfig fl
  project config cohort cohort_config index target = record {
    cohort = cohort;
    target_name = cohort_config.target;
    index = cohort_config.index;
    table = index.table;
    column = index.column;
    key = index.key;
    k = target.k;
    value = target.value;
    percentile = target.percentile;
    selection_confidence = target.selection_confidence;
    approval_confidence = target.approval_confidence;
    window_duration_seconds = as_secs target.window;
    storage_window_seconds = config.storage.window_seconds;
    ef_grid = config.calibration.ef_search;
    train_fraction = config.calibration.train_fraction;
    split_seed = config.calibration.split_seed;
  }

  -- `AggregationConfig::for_cohort`
  unfoldable pub for_cohort : Config fl → CohortName → Option (AggregationConfig fl)
  unfolding lookup
  for_cohort config cohort = elim (lookup cohort config.cohorts) [
    | none ↦ none
    | some cohort_config ↦ elim (lookup cohort_config.index config.indexes) [
      | none ↦ none
      | some index ↦ elim (lookup cohort_config.target config.targets) [
        | none ↦ none
        | some target ↦ some (project config cohort cohort_config index target)
      ]
    ]
  ]

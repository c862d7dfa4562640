-- ===== src/Seam/Config.antt =====
-- crates/seam/src/config.rs: the tuner's configuration and its validation at startup. The YAML parser
-- comes before it. A duration is a number of nanoseconds, and an ef is a natural number: a negative one is
-- refused where zero is.
pub mod Build
pub mod Projects
use vectorseam.Seam.Aggregate.Checks.{any_descent, is_bad_fraction}
use vectorseam.Core.Cohort.{CohortNameError}
use vectorseam.Seam.Math.{any}
use vectorseam.Core.Recommendation.{max_ef_search, min_ef_search}
use vectorseam.Base.{
  Assoc, Bool, Bytes, List, Option, Result, [], bytes_eq, codes, fail_if, false, if◌then◌else◌, leb,
  length, lookup, ltb, none, not, ok, ok_or, some, true, ◌%◌, ◌&&◌, ◌/◌, ◌==◌, ◌>>=◌, ◌>>◌, ◌||◌,
  ◌∷◌, ℕ,
}
use vectorseam.Seam.Floats.{within, Floats, zero_f64, one_f64}

abbrev pub postgres_identifier_max_bytes : ℕ
postgres_identifier_max_bytes = 63

abbrev pub nanos_per_second : ℕ
nanos_per_second = 1000000000

-- `Duration::as_secs` and `Duration::subsec_nanos`
abbrev pub as_secs : ℕ → ℕ
as_secs duration = duration / nanos_per_second

abbrev pub subsec_nanos : ℕ → ℕ
subsec_nanos duration = duration % nanos_per_second

pub record StorageConfig : Type 0 where
  pub root : Bytes
  pub window_seconds : ℕ

-- `password` says whether one stood inline.
pub record RawDataSourceConfig : Type 0 where
  pub server : Bytes
  pub database : Bytes
  pub user : Bytes
  pub password_env : Option Bytes
  pub password : Bool

pub record DataSourceConfig : Type 0 where
  pub server : Bytes
  pub database : Bytes
  pub user : Bytes
  pub password_env : Option Bytes

-- `IndexConfig`, and `RawIndexConfig` with the same fields.
pub record IndexConfig : Type 0 where
  pub data_source : Bytes
  pub table : Bytes
  pub key : Bytes
  pub column : Bytes

-- `CohortConfig`, and `RawCohortConfig` with the same fields.
pub record CohortConfig : Type 0 where
  pub index : Bytes
  pub target : Bytes

-- The rules that a configuration can break, with the names that the messages give.
pub data ConfigError : Type 0 where
  zero_interval empty_grid unsorted_grid grid_out_of_range : ConfigError
  train_fraction_out_of_range empty_split : ConfigError
  zero_window uneven_window : ConfigError
  db_share_out_of_range zero_statement_timeout zero_client_timeout : ConfigError
  inline_password : Bytes → ConfigError
  inline_userinfo : Bytes → Bytes → ConfigError
  missing_password_env : Bytes → ConfigError
  duplicate_pair : Bytes → Bytes → ConfigError
  unknown_data_source : Bytes → Bytes → ConfigError
  empty_identifier long_identifier nul_identifier : Bytes → Bytes → ConfigError
  zero_k value_out_of_range percentile_out_of_range : Bytes → ConfigError
  selection_out_of_range approval_out_of_range short_window uneven_target_window :
      Bytes → ConfigError
  grid_below_k : Bytes → ConfigError
  invalid_cohort_name : Bytes → CohortNameError → ConfigError
  unknown_index unknown_target : Bytes → Bytes → ConfigError

-- A check of every entry, in order, up to the first error.
unfoldable pub validate_entries {ℓ} :
    {V : Type ℓ}
    → (Bytes → V → Result ConfigError (Unit {0}))
    → Assoc V
    → Result ConfigError (Unit {0})
validate_entries check [] = ok tt
validate_entries check ((name, value) ∷ entries) =
    let rest = validate_entries check entries in check name value >> rest

unfoldable pub validate_storage : StorageConfig → Result ConfigError (Unit {0})
validate_storage config = do
  fail_if (config.window_seconds == 0) zero_window
  fail_if (not (config.window_seconds % 60 == 0)) uneven_window

-- `value.split_once('@')`, the part before it.
unfoldable pub before_at : Bytes → Option Bytes
before_at [] = none
before_at (b ∷ bytes) =
    let rest = before_at bytes in
    if b == b'@' then some [] else elim rest [ none ↦ none | some prefix ↦ some (b ∷ prefix) ]

unfoldable pub contains_inline_userinfo : Bytes → Bool
unfolding before_at
contains_inline_userinfo value = elim (before_at value) [
  | none ↦ false
  | some userinfo ↦ any (λ b. b == b':') userinfo
]

abbrev pub is_absent : (Bytes → Bool) → Option Bytes → Bool
is_absent password_env_exists none = false
is_absent password_env_exists (some password_env) = not (password_env_exists password_env)

-- `pairs.insert(pair, name)` finds an earlier data source with the same server and database.
unfoldable pub has_pair : RawDataSourceConfig → List RawDataSourceConfig → Bool
has_pair data_source [] = false
has_pair data_source (earlier ∷ pairs) =
    (bytes_eq earlier.server data_source.server && bytes_eq earlier.database data_source.database)
    || has_pair data_source pairs

unfoldable pub validate_data_source :
    (Bytes → Bool)
    → List RawDataSourceConfig
    → Bytes
    → RawDataSourceConfig
    → Result ConfigError (Unit {0})
unfolding contains_inline_userinfo has_pair
validate_data_source password_env_exists pairs name data_source = do
  fail_if data_source.password (inline_password name)
  fail_if (contains_inline_userinfo data_source.server) (inline_userinfo name (codes "server"))
  fail_if (contains_inline_userinfo data_source.database) (inline_userinfo name (codes "database"))
  fail_if (contains_inline_userinfo data_source.user) (inline_userinfo name (codes "user"))
  fail_if (is_absent password_env_exists data_source.password_env) (missing_password_env name)
  fail_if (has_pair data_source pairs) (duplicate_pair data_source.server data_source.database)

unfoldable pub validate_data_sources :
    (Bytes → Bool)
    → List RawDataSourceConfig
    → Assoc RawDataSourceConfig
    → Result ConfigError (Unit {0})
unfolding validate_data_source
validate_data_sources password_env_exists pairs [] = ok tt
validate_data_sources password_env_exists pairs ((name, data_source) ∷ data_sources) = do
  validate_data_source password_env_exists pairs name data_source
  validate_data_sources password_env_exists (data_source ∷ pairs) data_sources

unfoldable pub validate_postgres_identifier : Bytes → Bytes → Bytes → Result ConfigError (Unit {0})
validate_postgres_identifier index_name field identifier = do
  fail_if (length identifier == 0) (empty_identifier index_name field)
  fail_if (ltb postgres_identifier_max_bytes (length identifier)) (long_identifier index_name field)
  fail_if (any (λ b. b == 0) identifier) (nul_identifier index_name field)

unfoldable pub contains_key {ℓ} : {V : Type ℓ} → Bytes → Assoc V → Bool
unfolding lookup
contains_key key entries = elim (lookup key entries) [ none ↦ false | some value ↦ true ]

unfoldable pub validate_index :
    Assoc RawDataSourceConfig → Bytes → IndexConfig → Result ConfigError (Unit {0})
unfolding validate_postgres_identifier
validate_index data_sources name index = do
  fail_if (not (contains_key index.data_source data_sources))
      (unknown_data_source name index.data_source)
  validate_postgres_identifier name (codes "table") index.table
  validate_postgres_identifier name (codes "column") index.column
  validate_postgres_identifier name (codes "key") index.key

module _ (fl : Floats) where
  open fl use {Float, of_nat, mul, round, lt, le}

  -- `CalibrationConfig`, and `RawCalibrationConfig` with the same fields.
  pub record CalibrationConfig : Type 0 where
    pub interval : ℕ
    pub ef_search : List ℕ
    pub train_fraction : Float
    pub split_seed : ℕ

  pub record BudgetConfig : Type 0 where
    pub db_share : Float
    pub statement_timeout : ℕ
    pub client_timeout : ℕ

  -- `TargetConfig`, and `RawTargetConfig` with the same fields.
  pub record TargetConfig : Type 0 where
    pub k : ℕ
    pub value : Float
    pub percentile : Float
    pub selection_confidence : Float
    pub approval_confidence : Float
    pub window : ℕ

  pub record RawConfig : Type 0 where
    pub calibration : CalibrationConfig
    pub storage : StorageConfig
    pub budget : BudgetConfig
    pub data_sources : Assoc RawDataSourceConfig
    pub indexes : Assoc IndexConfig
    pub targets : Assoc TargetConfig
    pub cohorts : Assoc CohortConfig

  pub record Config : Type 0 where
    pub calibration : CalibrationConfig
    pub storage : StorageConfig
    pub budget : BudgetConfig
    pub data_sources : Assoc DataSourceConfig
    pub indexes : Assoc IndexConfig
    pub targets : Assoc TargetConfig
    pub cohorts : Assoc CohortConfig

  abbrev pub is_ef_out_of_range : ℕ → Bool
  is_ef_out_of_range ef = not (leb min_ef_search ef && leb ef max_ef_search)

  unfoldable pub validate_calibration : CalibrationConfig → Result ConfigError (Unit {0})
  validate_calibration config = do
    fail_if (config.interval == 0) zero_interval
    fail_if (length config.ef_search == 0) empty_grid
    fail_if (any_descent config.ef_search) unsorted_grid
    fail_if (any is_ef_out_of_range config.ef_search) grid_out_of_range
    fail_if (is_bad_fraction fl config.train_fraction) train_fraction_out_of_range
    fail_if
        (not
          (within fl (of_nat 1) (of_nat 9999) (round (mul config.train_fraction (of_nat 10000)))))
        empty_split

  unfoldable pub validate_budget : BudgetConfig → Result ConfigError (Unit {0})
  validate_budget config = do
    fail_if (not (lt (zero_f64 fl) config.db_share && le config.db_share (one_f64 fl)))
        db_share_out_of_range
    fail_if (config.statement_timeout == 0) zero_statement_timeout
    fail_if (config.client_timeout == 0) zero_client_timeout

  -- Less what is only logged.
  unfoldable pub validate_target : ℕ → Bytes → TargetConfig → Result ConfigError (Unit {0})
  validate_target storage_window_seconds name target = do
    fail_if (target.k == 0) (zero_k name)
    fail_if (not (lt (zero_f64 fl) target.value && le target.value (one_f64 fl)))
        (value_out_of_range name)
    fail_if (is_bad_fraction fl target.percentile) (percentile_out_of_range name)
    fail_if (is_bad_fraction fl target.selection_confidence) (selection_out_of_range name)
    fail_if (is_bad_fraction fl target.approval_confidence) (approval_out_of_range name)
    fail_if (ltb (as_secs target.window) storage_window_seconds) (short_window name)
    fail_if
        (not (subsec_nanos target.window == 0)
          || not (as_secs target.window % storage_window_seconds == 0))
        (uneven_target_window name)

  abbrev pub first_ef : List ℕ → Option ℕ
  first_ef [] = none
  first_ef (ef ∷ efs) = some ef

  abbrev pub validate_k : ℕ → Bytes → TargetConfig → Result ConfigError (Unit {0})
  validate_k minimum name target = fail_if (ltb minimum target.k) (grid_below_k name)

  unfoldable pub validate_grid_against_targets :
      List ℕ → Assoc TargetConfig → Result ConfigError (Unit {0})
  unfolding validate_entries
  validate_grid_against_targets ef_search targets = do
    minimum ← ok_or (first_ef ef_search) empty_grid
    validate_entries (validate_k minimum) targets

-- ===== src/Seam/Config/Projects.antt =====
-- A configuration that startup accepts is one that every round accepts.
use vectorseam.Core.Recommendation.{max_ef_search}
use vectorseam.Seam.Model.{AggregationConfig}
use vectorseam.Core.Cohort.{try_from}
use vectorseam.Seam.Config.Build.{
  build_data_source, map_values, for_cohort, from_raw, project, build_cohorts, check_cohort,
}
use vectorseam.Seam.Aggregate.Checks.{
  is_bad_grid, validate_aggregation_config, any_descent, is_bad_fraction,
}
use vectorseam.Seam.Math.{split_threshold, any}
use vectorseam.Seam.Config.{
  Config, IndexConfig, empty_grid, first_ef, validate_budget, validate_data_sources,
  validate_grid_against_targets, validate_index, validate_k, validate_storage, CalibrationConfig,
  CohortConfig, ConfigError, RawConfig, TargetConfig, as_secs, contains_key, invalid_cohort_name,
  is_ef_out_of_range, subsec_nanos, validate_calibration, validate_entries, validate_target,
}
use vectorseam.Base.{
  &&-eq-true, Bool, List, arith, ge→ltb_false, i32_max, if◌then◌else◌, leb, leb_false→lt, leb→le,
  ltb_false→ge, ok_or_then-eq-ok, refl, >>=-eq-ok, Assoc, Bool-cases, Bytes, Option-cases, Result,
  [], ap, bytes_eq, bytes_eq→≡, fail_if-eq-ok, fail_if_then-eq-ok, false, inl, inr, length, lookup,
  ltb, map_err, not, not-eq-false, ok, ok-injective, some, some-injective, subst, sym, true,
  ||-eq-false, ◌%◌, ◌&&◌, ◌==◌, ◌||◌, ◌∙◌, ◌∷◌, ◌≡◌, ℕ,
}
use vectorseam.Seam.Floats.{Floats, IsOrdered, zero_f64, one_f64, within}

validate_entries-lookup :
    {V : Type 0} (check : Bytes → V → Result ConfigError (Unit {0})) (entries : Assoc V)
    (key : Bytes) (value : V)
    → validate_entries check entries ≡ ok tt
    → lookup key entries ≡ some value
    → check key value ≡ ok tt
unfolding validate_entries lookup
validate_entries-lookup check [] key value h e = cc
validate_entries-lookup check ((name, first) ∷ entries) key value h e =
    let (_, a, rest) = >>=-eq-ok (check name first) _ h in
    elim (Bool-cases (bytes_eq name key)) [
      | inl p ↦
          subst (λ v. check key v ≡ ok tt) (some-injective (rw (p, lookup) at e))
            (subst (λ n. check n first ≡ ok tt) (bytes_eq→≡ name key p) a)
      | inr p ↦ validate_entries-lookup check entries key value rest (rw (p, lookup) at e)
    ]

contains_key-lookup :
    {V : Type 0} (key : Bytes) (entries : Assoc V)
    → contains_key key entries ≡ true
    → (value : V) × (lookup key entries ≡ some value)
unfolding contains_key
contains_key-lookup key entries h = elim (Option-cases (lookup key entries)) [
  | inl e ↦ absurd (cc (rw (e, contains_key) at h))
  | inr found ↦ found
]

in_range-small :
    (fl : Floats) (efs : List ℕ)
    → any (is_ef_out_of_range fl) efs ≡ false
    → any (ltb max_ef_search) efs ≡ false
unfolding any
in_range-small fl [] h = refl
in_range-small fl (ef ∷ efs) h =
    let (first, rest) = ||-eq-false h in
    let (low, high) = &&-eq-true (not-eq-false first) in
    let small = ge→ltb_false max_ef_search ef (leb→le ef max_ef_search high) in
    rw (small, in_range-small fl efs rest) refl

limit_below :
    (first k : ℕ) → ltb first k ≡ false → ltb first (if leb k i32_max then k else i32_max) ≡ false
limit_below first k h = elim (Bool-cases (leb k i32_max)) [
  | inl e ↦ rw e h
  | inr e ↦
      let above = leb_false→lt k i32_max e in
      let below = ltb_false→ge first k h in
      rw e (ge→ltb_false first i32_max (omega (arith, above, below)))
]

grid_good :
    (fl : Floats) (k minimum : ℕ) (efs : List ℕ)
    → first_ef fl efs ≡ some minimum
    → ltb minimum k ≡ false
    → any_descent efs ≡ false
    → any (is_ef_out_of_range fl) efs ≡ false
    → is_bad_grid k efs ≡ false
unfolding is_bad_grid
grid_good fl k minimum [] e h a r = cc
grid_good fl k minimum (ef ∷ efs) e h a r =
    let first = limit_below ef k (ap (λ m. ltb m k) (some-injective e) ∙ h) in
    rw (a, first, in_range-small fl (ef ∷ efs) r) refl

module _ (fl : Floats) where
  open fl use {Float, of_nat, mul, round, lt, le}

  -- What startup checks of the calibration, and of a target.
  record GoodCalibration (config : CalibrationConfig fl) : Type 0 where
    ascends : any_descent config.ef_search ≡ false
    in_range : any (is_ef_out_of_range fl) config.ef_search ≡ false
    fraction : is_bad_fraction fl config.train_fraction ≡ false
    splits :
        within fl (of_nat 1) (of_nat 9999) (round (mul config.train_fraction (of_nat 10000))) ≡ true

  record GoodTarget (window_seconds : ℕ) (target : TargetConfig fl) : Type 0 where
    k : (target.k == 0) ≡ false
    value : (lt (zero_f64 fl) target.value && le target.value (one_f64 fl)) ≡ true
    percentile : is_bad_fraction fl target.percentile ≡ false
    selection : is_bad_fraction fl target.selection_confidence ≡ false
    approval : is_bad_fraction fl target.approval_confidence ≡ false
    long : ltb (as_secs target.window) window_seconds ≡ false
    even : (as_secs target.window % window_seconds == 0) ≡ true

  validate_calibration-Good :
      (config : CalibrationConfig fl)
      → validate_calibration fl config ≡ ok tt
      → GoodCalibration config
  unfolding validate_calibration
  validate_calibration-Good config h =
      let (_, h1) = fail_if_then-eq-ok (config.interval == 0) _ _ h in
      let (_, h2) = fail_if_then-eq-ok (length config.ef_search == 0) _ _ h1 in
      let (a, h3) = fail_if_then-eq-ok (any_descent config.ef_search) _ _ h2 in
      let (b, h4) = fail_if_then-eq-ok (any (is_ef_out_of_range fl) config.ef_search) _ _ h3 in
      let (c, h5) = fail_if_then-eq-ok (is_bad_fraction fl config.train_fraction) _ _ h4 in
      let d =
        fail_if-eq-ok
          (not
            (within fl (of_nat 1) (of_nat 9999) (round (mul config.train_fraction (of_nat 10000)))))
          _ h5 in
      record { ascends = a; in_range = b; fraction = c; splits = not-eq-false d }

  validate_target-Good :
      (window_seconds : ℕ) (name : Bytes) (target : TargetConfig fl)
      → validate_target fl window_seconds name target ≡ ok tt
      → GoodTarget window_seconds target
  unfolding validate_target
  validate_target-Good window_seconds name target h =
      let (a, h1) = fail_if_then-eq-ok (target.k == 0) _ _ h in
      let (b, h2) =
        fail_if_then-eq-ok (not (lt (zero_f64 fl) target.value && le target.value (one_f64 fl))) _ _
          h1 in
      let (c, h3) = fail_if_then-eq-ok (is_bad_fraction fl target.percentile) _ _ h2 in
      let (d, h4) = fail_if_then-eq-ok (is_bad_fraction fl target.selection_confidence) _ _ h3 in
      let (e, h5) = fail_if_then-eq-ok (is_bad_fraction fl target.approval_confidence) _ _ h4 in
      let (f, h6) = fail_if_then-eq-ok (ltb (as_secs target.window) window_seconds) _ _ h5 in
      let g =
        fail_if-eq-ok
          (not (subsec_nanos target.window == 0)
            || not (as_secs target.window % window_seconds == 0))
          _ h6 in
      record {
        k = a;
        value = not-eq-false b;
        percentile = c;
        selection = d;
        approval = e;
        long = f;
        even = not-eq-false (||-eq-false g).1;
      }

  -- A cohort of the configuration refers to an index and a target that are there.
  record IsResolved (raw : RawConfig fl) (cohort : CohortConfig) : Type 0 where
    index : contains_key cohort.index raw.indexes ≡ true
    target : contains_key cohort.target raw.targets ≡ true

  build_cohorts-IsResolved :
      (raw : RawConfig fl) (cohorts built : Assoc CohortConfig) (name : Bytes)
      (cohort : CohortConfig)
      → build_cohorts fl raw cohorts ≡ ok built
      → lookup name built ≡ some cohort
      → IsResolved raw cohort
  unfolding build_cohorts lookup
  build_cohorts-IsResolved raw [] built name cohort h e =
      absurd (cc (rw (sym (ok-injective h), lookup) at e))
  build_cohorts-IsResolved raw ((first, entry) ∷ cohorts) built name cohort h e =
      let (validated, a, h1) = >>=-eq-ok (check_cohort fl raw first entry) _ h in
      let (_, _, a1) = >>=-eq-ok (map_err (invalid_cohort_name first) (try_from first)) _ a in
      let (b, a2) = fail_if_then-eq-ok (not (contains_key entry.index raw.indexes)) _ _ a1 in
      let (c, a3) = fail_if_then-eq-ok (not (contains_key entry.target raw.targets)) _ _ a2 in
      let (rest, d, h2) = >>=-eq-ok (build_cohorts fl raw cohorts) _ h1 in
      let found : lookup name ((validated, entry) ∷ rest) ≡ some cohort =
        ap (lookup name) (ok-injective h2) ∙ e in
      elim (Bool-cases (bytes_eq validated name)) [
        | inl p ↦
            subst (IsResolved raw) (some-injective (rw (p, lookup) at found))
              (record { index = not-eq-false b; target = not-eq-false c })
        | inr p ↦ build_cohorts-IsResolved raw cohorts rest name cohort d (rw (p, lookup) at found)
      ]

  for_cohort-project :
      (config : Config fl) (name : Bytes) (cohort : CohortConfig) (index : IndexConfig)
      (target : TargetConfig fl)
      → lookup name config.cohorts ≡ some cohort
      → lookup cohort.index config.indexes ≡ some index
      → lookup cohort.target config.targets ≡ some target
      → for_cohort fl config name ≡ some (project fl config name cohort index target)
  unfolding for_cohort
  for_cohort-project config name cohort index target e i t = rw (e, i, t, for_cohort) refl

  module _ (ordered : IsOrdered fl) where
    -- The checks of startup are those of a round.
    projected_valid :
        (config : Config fl) (name : Bytes) (cohort : CohortConfig) (index : IndexConfig)
        (target : TargetConfig fl) (minimum : ℕ)
        → validate_storage config.storage ≡ ok tt
        → GoodCalibration config.calibration
        → GoodTarget config.storage.window_seconds target
        → first_ef fl config.calibration.ef_search ≡ some minimum
        → ltb minimum target.k ≡ false
        → (threshold : ℕ) × (validate_aggregation_config fl
              (project fl config name cohort index target)
            ≡ ok threshold)
    unfolding validate_storage validate_aggregation_config split_threshold
    projected_valid config name cohort index target minimum storage c t first above =
        let (window, rest) = fail_if_then-eq-ok (config.storage.window_seconds == 0) _ _ storage in
        let minutes =
          not-eq-false (fail_if-eq-ok (not (config.storage.window_seconds % 60 == 0)) _ rest) in
        let (low, high) = &&-eq-true (not-eq-false c.fraction) in
        let finite = ordered.finite_between config.calibration.train_fraction low high in
        let grid =
          grid_good fl target.k minimum config.calibration.ef_search first above c.ascends
            c.in_range in
        (
          fl.to_nat (round (mul config.calibration.train_fraction (of_nat 10000))),
          rw
              (
                window, minutes, t.long, t.even, t.k, t.value, t.percentile, t.selection,
                t.approval, grid, split_threshold, finite, c.splits,
              )
              refl,
        )

    -- Where numbers are ordered, every cohort of a configuration that `from_raw` accepts has an aggregation
    -- configuration, and the validation at the start of a round accepts it.
    pub from_raw-projects :
        (password_env_exists : Bytes → Bool) (raw : RawConfig fl) (config : Config fl)
        (name : Bytes) (cohort : CohortConfig)
        → from_raw fl password_env_exists raw ≡ ok config
        → lookup name config.cohorts ≡ some cohort
        → (projected : AggregationConfig fl) × (for_cohort fl config name ≡ some projected)
          × ((threshold : ℕ) × (validate_aggregation_config fl projected ≡ ok threshold))
    unfolding from_raw validate_grid_against_targets
    from_raw-projects password_env_exists raw config name cohort h e =
        let (_, a, h1) = >>=-eq-ok (validate_calibration fl raw.calibration) _ h in
        let (_, b, h2) = >>=-eq-ok (validate_storage raw.storage) _ h1 in
        let (_, _, h3) = >>=-eq-ok (validate_budget fl raw.budget) _ h2 in
        let (_, _, h4) =
          >>=-eq-ok (validate_data_sources password_env_exists [] raw.data_sources) _ h3 in
        let (_, _, h5) =
          >>=-eq-ok (validate_entries (validate_index raw.data_sources) raw.indexes) _ h4 in
        let (_, d, h6) =
          >>=-eq-ok (validate_entries (validate_target fl raw.storage.window_seconds) raw.targets) _
            h5 in
        let (_, f, h7) =
          >>=-eq-ok (validate_grid_against_targets fl raw.calibration.ef_search raw.targets) _ h6 in
        let (cohorts, g, h8) = >>=-eq-ok (build_cohorts fl raw raw.cohorts) _ h7 in
        let (minimum, first, grid) =
          ok_or_then-eq-ok (first_ef fl raw.calibration.ef_search) empty_grid _ f in
        let built = ok-injective h8 in
        let known : lookup name cohorts ≡ some cohort =
          ap (λ (c : Config fl). lookup name c.cohorts) built ∙ e in
        let resolved = build_cohorts-IsResolved raw raw.cohorts cohorts name cohort g known in
        let (index, i) = contains_key-lookup cohort.index raw.indexes resolved.index in
        let (target, t) = contains_key-lookup cohort.target raw.targets resolved.target in
        let good =
          validate_entries-lookup (validate_target fl raw.storage.window_seconds) raw.targets
            cohort.target target d t in
        let above =
          validate_entries-lookup (validate_k fl minimum) raw.targets cohort.target target grid t in
        let made : Config fl = record {
          calibration = raw.calibration;
          storage = raw.storage;
          budget = raw.budget;
          data_sources = map_values fl (build_data_source fl) raw.data_sources;
          indexes = raw.indexes;
          targets = raw.targets;
          cohorts = cohorts;
        } in
        let valid =
          projected_valid made name cohort index target minimum b
            (validate_calibration-Good raw.calibration a)
            (validate_target-Good raw.storage.window_seconds cohort.target target good) first
            (fail_if-eq-ok (ltb minimum target.k) _ above) in
        subst
          (λ (c : Config fl).
            (projected : AggregationConfig fl) × (for_cohort fl c name ≡ some projected)
            × ((threshold : ℕ) × (validate_aggregation_config fl projected ≡ ok threshold)))
          built
          (
            project fl made name cohort index target,
            for_cohort-project made name cohort index target known i t,
            valid,
          )

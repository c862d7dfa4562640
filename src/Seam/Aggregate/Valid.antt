-- ===== src/Seam/Aggregate/Valid.antt =====
-- What an accepted aggregation configuration promises.
use vectorseam.Seam.Accounting.{math}
use vectorseam.Seam.Math.{split_threshold}
use vectorseam.Seam.Model.{AggregationConfig}
use vectorseam.Seam.Aggregate.Checks.{is_bad_fraction, is_bad_grid, validate_aggregation_config}
use vectorseam.Base.{
  ==0_false→lt, &&-eq-true, ==→≡, fail_if_then-eq-ok, false, ltb, ltb_false→ge, map_err-eq-ok, not,
  not-eq-false, ok, true, ◌%◌, ◌&&◌, ◌<◌, ◌==◌, ◌≡◌, ◌≤◌, ℕ,
}
use vectorseam.Seam.Floats.{Floats, zero_f64, one_f64}

module _ (fl : Floats) where
  open fl use {Float, lt, le}

  -- `0.0 < x && x < 1.0`
  abbrev pub IsFraction : Float → Type 0
  IsFraction x = (lt (zero_f64 fl) x ≡ true) × (lt x (one_f64 fl) ≡ true)

  pub record IsValid (config : AggregationConfig fl) : Type 0 where
    pub storage_positive : 0 < config.storage_window_seconds
    pub storage_minutes : config.storage_window_seconds % 60 ≡ 0
    pub window_long : config.storage_window_seconds ≤ config.window_duration_seconds
    pub window_multiple : config.window_duration_seconds % config.storage_window_seconds ≡ 0
    pub k_positive : 0 < config.k
    pub value_positive : lt (zero_f64 fl) config.value ≡ true
    pub value_bounded : le config.value (one_f64 fl) ≡ true
    pub percentile_inside : IsFraction config.percentile
    pub selection_inside : IsFraction config.selection_confidence
    pub approval_inside : IsFraction config.approval_confidence
    pub good_grid : is_bad_grid config.k config.ef_grid ≡ false
    pub threshold : ℕ
    pub splits : split_threshold fl config.train_fraction ≡ ok threshold

  is_bad_fraction-eq-false : (x : Float) → is_bad_fraction fl x ≡ false → IsFraction x
  is_bad_fraction-eq-false x h = &&-eq-true (not-eq-false h)

  pub validate_aggregation_config-IsValid :
      (config : AggregationConfig fl) (threshold : ℕ)
      → validate_aggregation_config fl config ≡ ok threshold
      → IsValid config
  unfolding validate_aggregation_config
  validate_aggregation_config-IsValid config threshold h =
      let (a, h1) = fail_if_then-eq-ok (config.storage_window_seconds == 0) _ _ h in
      let (b, h2) = fail_if_then-eq-ok (not (config.storage_window_seconds % 60 == 0)) _ _ h1 in
      let (c, h3) =
        fail_if_then-eq-ok (ltb config.window_duration_seconds config.storage_window_seconds) _ _
          h2 in
      let (d, h4) =
        fail_if_then-eq-ok
          (not (config.window_duration_seconds % config.storage_window_seconds == 0)) _ _ h3 in
      let (e, h5) = fail_if_then-eq-ok (config.k == 0) _ _ h4 in
      let (f, h6) =
        fail_if_then-eq-ok (not (lt (zero_f64 fl) config.value && le config.value (one_f64 fl))) _ _
          h5 in
      let (g, h7) = fail_if_then-eq-ok (is_bad_fraction fl config.percentile) _ _ h6 in
      let (i, h8) = fail_if_then-eq-ok (is_bad_fraction fl config.selection_confidence) _ _ h7 in
      let (j, h9) = fail_if_then-eq-ok (is_bad_fraction fl config.approval_confidence) _ _ h8 in
      let (l, h10) = fail_if_then-eq-ok (is_bad_grid config.k config.ef_grid) _ _ h9 in
      record {
        storage_positive = ==0_false→lt config.storage_window_seconds a;
        storage_minutes = ==→≡ (config.storage_window_seconds % 60) 0 (not-eq-false b);
        window_long = ltb_false→ge config.window_duration_seconds config.storage_window_seconds c;
        window_multiple =
            ==→≡ (config.window_duration_seconds % config.storage_window_seconds) 0
              (not-eq-false d);
        k_positive = ==0_false→lt config.k e;
        value_positive = (&&-eq-true (not-eq-false f)).0;
        value_bounded = (&&-eq-true (not-eq-false f)).1;
        percentile_inside = is_bad_fraction-eq-false config.percentile g;
        selection_inside = is_bad_fraction-eq-false config.selection_confidence i;
        approval_inside = is_bad_fraction-eq-false config.approval_confidence j;
        good_grid = l;
        threshold = threshold;
        splits = map_err-eq-ok math (split_threshold fl config.train_fraction) h10;
      }

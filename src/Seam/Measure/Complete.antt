-- ===== src/Seam/Measure/Complete.antt =====
-- What a part that was measured to its end holds.
use vectorseam.Seam.Aggregate.Checks.{nats_eq, is_compatible}
use vectorseam.Seam.Model.{AggregationConfig}
use vectorseam.Seam.Measure.{
  MeasurePartOutcome, abort_phase_a, cancelled, complete, connection_unavailable, MeasuredPart,
  Moment, PreparePartError, PreparedPart, SampleFrameError, SampleMeasureError,
  cancelled_before_transaction, connection, database, too_few_rows, PreparedSample, Progress,
  SampleMeasurement, SampleSweepResult, SweepMeasurementRow, TruthMeasurement, fail_sample,
  any_other_ef, is_incomplete, sweep_rows_of, truth_row,
}
use vectorseam.Seam.Measure.Part.{
  finish_part, measure_prepared_part, part_metadata, measure_decoded, measure_sample,
  measure_samples, take_answer, Turn, go_on, record_measurement, stop,
}
use mathlib.Core.List.{map-append}
use vectorseam.Base.{
  ==_refl, Bytes, bytes_eq_refl, try_from-eq-some, u64_max, Result, err, true, ◌∙◌, ==→≡, >>=-eq-ok,
  All, All-append, append-nil, append_assoc, ap₂, map, ◌++◌, false, Bool-cases, List, [], ap, arith,
  i32_max, inl, inr, length, length-append, not-eq-false, ok, ok-injective, ok_or_then-eq-ok, refl,
  subst, sym, try_from, ||-eq-false, ◌+◌, ◌∷◌, ◌≡◌, ℕ,
}
use vectorseam.Seam.Floats.{Floats}

module _ (fl : Floats) (config : AggregationConfig fl) where
  -- Some samples of a part and the rows of the truth that come of them: in order, none for a sample that
  -- fails, and one with its index, hash and count, and with `k` keys, for one that is measured.
  pub data Truths : List PreparedSample → List (TruthMeasurement fl) → Type 0 where
    no_samples : Truths [] []
    sample_failed :
        {sample : PreparedSample} {samples : List PreparedSample}
        {rows : List (TruthMeasurement fl)}
        → Truths samples rows
        → Truths (sample ∷ samples) rows
    sample_measured :
        {sample : PreparedSample} {samples : List PreparedSample} {row : TruthMeasurement fl}
        {rows : List (TruthMeasurement fl)}
        → row.record_index ≡ sample.record_index
        → row.vector_hash ≡ sample.vector_hash
        → row.dup_count ≡ sample.dup_count
        → length row.gt_keys ≡ config.k
        → Truths samples rows
        → Truths (sample ∷ samples) (row ∷ rows)

  Truths-append :
      {samples others : List PreparedSample} {rows more : List (TruthMeasurement fl)}
      → Truths samples rows
      → Truths others more
      → Truths (samples ++ others) (rows ++ more)
  Truths-append no_samples after = after
  Truths-append (sample_failed t) after = sample_failed (Truths-append t after)
  Truths-append (sample_measured index hash count keys t) after =
      sample_measured index hash count keys (Truths-append t after)

  -- The sweep that a row is about, and whether it counts its keys.
  abbrev pub sweep_of : SweepMeasurementRow fl → ℕ × ℕ
  sweep_of row = (row.record_index, row.ef)

  abbrev pub IsCountedRow : SweepMeasurementRow fl → Type 0
  IsCountedRow row = row.result_count ≡ length row.returned_keys

  -- For each row of the truth the whole grid, in order.
  abbrev pub sweeps_for : List (TruthMeasurement fl) → List ℕ → List (ℕ × ℕ)
  sweeps_for [] grid = []
  sweeps_for (row ∷ rows) grid = map (λ ef. (row.record_index, ef)) grid ++ sweeps_for rows grid

  sweeps_for-append :
      (rows more : List (TruthMeasurement fl)) (grid : List ℕ)
      → sweeps_for (rows ++ more) grid ≡ sweeps_for rows grid ++ sweeps_for more grid
  sweeps_for-append [] more grid = refl
  sweeps_for-append (row ∷ rows) more grid =
      ap (λ later. map (λ ef. (row.record_index, ef)) grid ++ later)
        (sweeps_for-append rows more grid)
      ∙ sym (append_assoc (map (λ ef. (row.record_index, ef)) grid) (sweeps_for rows grid) _)

  -- The samples so far are measured or failed, and every measured one has a row for each ef of the grid.
  record Counts (seen : List PreparedSample) (progress : Progress fl) : Type 0 where
    all_seen : progress.failed_count + length progress.truth_rows ≡ length seen
    truths : Truths seen progress.truth_rows
    sweeps : map sweep_of progress.sweep_rows ≡ sweeps_for progress.truth_rows config.ef_grid
    counted : All IsCountedRow progress.sweep_rows

  sweep_rows_of-rows :
      (record_index : ℕ) (sweeps : List (SampleSweepResult fl)) (grid : List ℕ)
      (rows : List (SweepMeasurementRow fl))
      → length sweeps ≡ length grid
      → any_other_ef fl sweeps grid ≡ false
      → sweep_rows_of fl record_index sweeps ≡ ok rows
      → (map sweep_of rows ≡ map (λ ef. (record_index, ef)) grid) × All IsCountedRow rows
  unfolding sweep_rows_of any_other_ef
  sweep_rows_of-rows record_index [] [] rows n same h = rw (sym (ok-injective h)) (refl, tt)
  sweep_rows_of-rows record_index [] (ef ∷ grid) rows n same h = absurd (omega (arith, n))
  sweep_rows_of-rows record_index (sweep ∷ sweeps) [] rows n same h = absurd (omega (arith, n))
  sweep_rows_of-rows record_index (sweep ∷ sweeps) (ef ∷ grid) rows n same h =
      let (count, counted, h1) =
        ok_or_then-eq-ok (try_from i32_max (length sweep.returned_keys)) _ _ h in
      let (rest, e, h2) = >>=-eq-ok (sweep_rows_of fl record_index sweeps) _ h1 in
      let (same_ef, others) = ||-eq-false same in
      let (made, all_counted) =
        sweep_rows_of-rows record_index sweeps grid rest (omega (arith, n)) others e in
      rw (sym (ok-injective h2)) (
        ap₂ (λ f later. (record_index, f) ∷ later) (==→≡ sweep.ef ef (not-eq-false same_ef)) made,
        (sym (try_from-eq-some i32_max (length sweep.returned_keys) count counted), all_counted),
      )

  fail_sample-Counts :
      (seen : List PreparedSample) (sample : PreparedSample) (progress : Progress fl)
      → Counts seen progress
      → Counts (seen ++ (sample ∷ [])) (fail_sample fl progress)
  fail_sample-Counts seen sample progress k =
      let all_seen = k.all_seen in
      let longer = length-append seen (sample ∷ []) in
      record {
        all_seen = omega (arith, all_seen, longer);
        truths =
            subst (Truths (seen ++ (sample ∷ []))) (append-nil progress.truth_rows)
              (Truths-append k.truths (sample_failed no_samples));
        sweeps = k.sweeps;
        counted = k.counted;
      }

  -- The loop itself completes no part.
  abbrev IsInterruption : MeasurePartOutcome fl → Type 0
  IsInterruption (complete measured) = ⊥
  IsInterruption (abort_phase_a abort) = Unit
  IsInterruption connection_unavailable = Unit
  IsInterruption cancelled = Unit

  -- What a turn leaves.
  abbrev TurnCounts : List PreparedSample → Turn fl → Type 0
  TurnCounts seen (go_on progress) = Counts seen progress
  TurnCounts seen (stop outcome) = IsInterruption outcome

  record_measurement-Counts :
      (sample : PreparedSample) (receive_time_us : ℕ) (measured : SampleMeasurement fl)
      (progress : Progress fl) (seen : List PreparedSample) (turn : Turn fl)
      → Counts seen progress
      → record_measurement fl config sample receive_time_us measured progress ≡ ok turn
      → TurnCounts (seen ++ (sample ∷ [])) turn
  unfolding record_measurement is_incomplete
  record_measurement-Counts sample receive_time_us measured progress seen turn k h =
      elim (Bool-cases (is_incomplete fl config measured)) [
        | inl e ↦
            subst (TurnCounts (seen ++ (sample ∷ [])))
              (ok-injective (rw (e, record_measurement) at h))
              (fail_sample-Counts seen sample progress k)
        | inr e ↦
            let (keys_bad, rest) = ||-eq-false e in
            let (distances_bad, others) = ||-eq-false rest in
            let (sweeps_bad, efs_bad) = ||-eq-false others in
            let keys = ==→≡ (length measured.gt_keys) config.k (not-eq-false keys_bad) in
            let grid =
              ==→≡ (length measured.sweeps) (length config.ef_grid) (not-eq-false sweeps_bad) in
            let (rows, made, result) =
              >>=-eq-ok (sweep_rows_of fl sample.record_index measured.sweeps) _
                (rw (e, record_measurement) at h) in
            let (swept, counted) =
              sweep_rows_of-rows sample.record_index measured.sweeps config.ef_grid rows grid
                efs_bad made in
            let row = truth_row fl sample receive_time_us measured in
            let all_seen = k.all_seen in
            let longer = length-append progress.truth_rows (row ∷ []) in
            let further = length-append seen (sample ∷ []) in
            subst (TurnCounts (seen ++ (sample ∷ []))) (ok-injective result) (record {
              all_seen = omega (arith, all_seen, longer, further);
              truths = Truths-append k.truths (sample_measured refl refl refl keys no_samples);
              sweeps =
                  map-append sweep_of progress.sweep_rows rows
                  ∙ ap₂ (λ xs ys. xs ++ ys) k.sweeps (swept ∙ sym (append-nil _))
                  ∙ sym (sweeps_for-append progress.truth_rows (row ∷ []) config.ef_grid);
              counted = All-append _ progress.sweep_rows rows k.counted counted;
            })
      ]

  measure_sample-Counts :
      (moment : Moment fl) (sample : PreparedSample) (progress : Progress fl)
      (seen : List PreparedSample) (turn : Turn fl)
      → Counts seen progress
      → measure_sample fl config moment sample progress ≡ ok turn
      → TurnCounts (seen ++ (sample ∷ [])) turn
  unfolding measure_sample
  measure_sample-Counts moment sample progress seen turn k h =
      elim (Bool-cases moment.is_cancelled) [
        | inl e ↦
            subst (TurnCounts (seen ++ (sample ∷ []))) (ok-injective (rw (e, measure_sample) at h))
              tt
        | inr e ↦ decoded sample.receive_time_us sample.vector (rw (e, measure_sample) at h)
      ]
    where
      failing :
          ◌≡◌ {A = Result PreparePartError (Turn fl)}
            (ok (go_on (fail_sample fl progress)))
            (ok turn)
          → TurnCounts (seen ++ (sample ∷ [])) turn
      failing e =
          subst (TurnCounts (seen ++ (sample ∷ []))) (ok-injective e)
            (fail_sample-Counts seen sample progress k)

      answered :
          (receive_time_us : ℕ) (answer : Result (SampleMeasureError fl) (SampleMeasurement fl))
          → take_answer fl config sample receive_time_us answer progress ≡ ok turn
          → TurnCounts (seen ++ (sample ∷ [])) turn
      answered receive_time_us (ok measured) e =
          record_measurement-Counts sample receive_time_us measured progress seen turn k e
      answered receive_time_us (err database) e = failing e
      answered receive_time_us (err connection) e =
          subst (TurnCounts (seen ++ (sample ∷ []))) (ok-injective e) tt
      answered receive_time_us (err cancelled_before_transaction) e =
          subst (TurnCounts (seen ++ (sample ∷ []))) (ok-injective e) tt
      answered receive_time_us (err (too_few_rows returned required)) e =
          subst (TurnCounts (seen ++ (sample ∷ []))) (ok-injective e) tt

      decoded :
          (time : Result SampleFrameError ℕ) (vector : Result SampleFrameError (List ℕ))
          → measure_decoded fl config sample time vector moment.answer progress ≡ ok turn
          → TurnCounts (seen ++ (sample ∷ [])) turn
      decoded (ok receive_time_us) (ok vector) e = answered receive_time_us moment.answer e
      decoded (ok receive_time_us) (err failure) e = failing e
      decoded (err failure) vector e = failing e

  measure_samples-Counts :
      (moments : PreparedSample → Moment fl) (samples : List PreparedSample)
      (progress : Progress fl) (seen : List PreparedSample) (turn : Turn fl)
      → Counts seen progress
      → measure_samples fl config moments samples progress ≡ ok turn
      → TurnCounts (seen ++ samples) turn
  unfolding measure_samples
  measure_samples-Counts moments [] progress seen turn k h =
      subst (TurnCounts (seen ++ [])) (ok-injective h)
        (subst (λ all. Counts all progress) (sym (append-nil seen)) k)
  measure_samples-Counts moments (sample ∷ samples) progress seen turn k h =
      let (first, e, rest) =
        >>=-eq-ok (measure_sample fl config (moments sample) sample progress) _ h in
      after first (measure_sample-Counts (moments sample) sample progress seen first k e) rest
        (λ next. measure_samples-Counts moments samples next (seen ++ (sample ∷ [])) turn)
    where
      after :
          (first : Turn fl)
          → TurnCounts (seen ++ (sample ∷ [])) first
          → (elim first as (λ _. Result PreparePartError (Turn fl)) [
            | go_on next ↦ measure_samples fl config moments samples next
            | stop outcome ↦ ok (stop outcome)
          ])
            ≡ ok turn
          → ((next : Progress fl)
              → Counts (seen ++ (sample ∷ [])) next
              → measure_samples fl config moments samples next ≡ ok turn
              → TurnCounts ((seen ++ (sample ∷ [])) ++ samples) turn)
          → TurnCounts (seen ++ (sample ∷ samples)) turn
      after (go_on next) counted e go =
          subst (λ all. TurnCounts all turn) (append_assoc seen (sample ∷ []) samples)
            (go next counted e)
      after (stop outcome) counted e go =
          subst (TurnCounts (seen ++ (sample ∷ samples))) (ok-injective e) counted

  -- A part that is measured to its end: each sample of the part is measured or failed, and the rows that
  -- will be stored are those of the measured samples, a truth with `k` keys and a sweep for each ef.
  pub record IsComplete (part : PreparedPart) (measured : MeasuredPart fl) : Type 0 where
    pub all_samples :
        measured.metadata.failed_count + measured.metadata.measured_count ≡ length part.samples
    pub measured_count : length measured.truth_rows ≡ measured.metadata.measured_count
    pub truths : Truths part.samples measured.truth_rows
    pub sweeps : map sweep_of measured.sweep_rows ≡ sweeps_for measured.truth_rows config.ef_grid
    pub counted : All IsCountedRow measured.sweep_rows
    pub compatible : is_compatible fl config measured.metadata ≡ true

  nats_eq_refl : (xs : List ℕ) → nats_eq xs xs ≡ true
  unfolding nats_eq
  nats_eq_refl [] = refl
  nats_eq_refl (x ∷ xs) = rw (==_refl x, nats_eq_refl xs) refl

  part_metadata-compatible :
      (part : PreparedPart) (part_ulid : Bytes) (computed_at_us failed_count measured_count : ℕ)
      → is_compatible fl config
          (part_metadata fl part part_ulid config computed_at_us failed_count measured_count)
        ≡ true
  unfolding is_compatible part_metadata
  part_metadata-compatible part part_ulid computed_at_us failed_count measured_count =
      rw
        (
          ==_refl config.k,
          bytes_eq_refl config.index,
          bytes_eq_refl config.table,
          bytes_eq_refl config.column,
          bytes_eq_refl config.key,
          nats_eq_refl config.ef_grid,
        )
        refl

  complete-injective :
      {a b : MeasuredPart fl} → ◌≡◌ {A = MeasurePartOutcome fl} (complete a) (complete b) → a ≡ b
  complete-injective e = cc e

  finish_part-IsComplete :
      (part : PreparedPart) (part_ulid : Bytes) (computed_at_us : ℕ) (progress : Progress fl)
      (measured : MeasuredPart fl)
      → Counts part.samples progress
      → finish_part fl part part_ulid config computed_at_us progress ≡ ok (complete measured)
      → IsComplete part measured
  unfolding part_metadata
  finish_part-IsComplete part part_ulid computed_at_us progress measured k h =
      let (count, e, result) =
        ok_or_then-eq-ok (try_from u64_max (length progress.truth_rows)) _ _ h in
      let same : length progress.truth_rows ≡ count =
        try_from-eq-some u64_max (length progress.truth_rows) count e in
      subst (IsComplete part) (complete-injective (ok-injective result)) (record {
        all_samples = rw (sym same) k.all_seen;
        measured_count = same;
        truths = k.truths;
        sweeps = k.sweeps;
        counted = k.counted;
        compatible =
            part_metadata-compatible part part_ulid computed_at_us progress.failed_count count;
      })

  -- If a part is measured to its end without an error, its failed and its measured samples add up to the
  -- samples of the part; the rows of the truth are, in order, one for each measured sample, with its index,
  -- hash and count and with `k` keys; the rows of the sweep are, in order, one for each row of the truth and
  -- each ef of the grid, with the number of their keys; and the metadata are compatible with the
  -- configuration.
  pub measure_prepared_part-IsComplete :
      (part : PreparedPart) (part_ulid : Bytes) (computed_at_us : ℕ)
      (moments : PreparedSample → Moment fl) (measured : MeasuredPart fl)
      → measure_prepared_part fl part part_ulid config computed_at_us moments
        ≡ ok (complete measured)
      → IsComplete part measured
  unfolding measure_prepared_part
  measure_prepared_part-IsComplete part part_ulid computed_at_us moments measured h =
      let start : Progress fl = record { failed_count = 0; truth_rows = []; sweep_rows = [] } in
      let none_yet : Counts [] start = record {
        all_seen = refl;
        truths = no_samples;
        sweeps = refl;
        counted = tt;
      } in
      let (turn, e, rest) = >>=-eq-ok (measure_samples fl config moments part.samples start) _ h in
      after turn (measure_samples-Counts moments part.samples start [] turn none_yet e) rest
    where
      after :
          (turn : Turn fl)
          → TurnCounts part.samples turn
          → (elim turn as (λ _. Result PreparePartError (MeasurePartOutcome fl)) [
            | go_on progress ↦ finish_part fl part part_ulid config computed_at_us progress
            | stop outcome ↦ ok outcome
          ])
            ≡ ok (complete measured)
          → IsComplete part measured
      after (go_on progress) counted e =
          finish_part-IsComplete part part_ulid computed_at_us progress measured counted e
      after (stop (complete other)) counted e = absurd counted
      after (stop (abort_phase_a abort)) counted e = absurd (cc e)
      after (stop connection_unavailable) counted e = absurd (cc e)
      after (stop cancelled) counted e = absurd (cc e)

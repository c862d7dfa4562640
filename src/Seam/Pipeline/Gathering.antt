-- ===== src/Seam/Pipeline/Gathering.antt =====
-- What a round puts into the store until all its parts are measured.
use vectorseam.Seam.Pipeline.Puts.{
  Extends, Leaves, Keeps, bind-Keeps_of, bind-Keeps, pure-Keeps, lift-Keeps, put_pair-Keeps,
  ask-Keeps, IsMeasured,
}
use vectorseam.Seam.Pipeline.Listing.{
  Quiet, get_bytes-Quiet, list_source_objects-Quiet, list_measurement_objects-Quiet,
  load_source_headers-Quiet, check_sources-Quiet,
}
use vectorseam.Seam.Pipeline.{
  Step, World, PipelineError, Environment, SourcePart, get_bytes, encode_intermediate,
  source_segment, check_cancelled, lift, pure, window_error,
}
use vectorseam.Seam.Pipeline.Round.{
  PartTurn, aborted, gather_round, measure_all, measure_part, measure_pending, measure_source,
  measured, paths_of, stopped, store_measured, take_outcome,
}
use vectorseam.Seam.Measure.{
  MeasurePartOutcome, MeasuredPart, PreparedPart, abort_phase_a, complete, prepare_segment,
  connection_unavailable,
}
use vectorseam.Seam.Model.{AggregationConfig, IntermediatePart}
use vectorseam.Base.{
  Result, err, inl, ℕ, Bool, Assoc, btree_insert, if◌then◌else◌, none, some, List, [], ◌∷◌,
  map_err-eq-ok, map_err, ok_or, ok_or-eq-ok, ok, ap, ◌∙◌, ◌≡◌, refl, true, false,
}
use vectorseam.Seam.Floats.{Floats}

module _ (fl : Floats) (env : Environment fl) (config : AggregationConfig fl)
    (computed_at_us : ℕ) where
  Quiet-Keeps : {A : Type 0} (step : Step A) → Quiet step → Keeps fl env config computed_at_us step
  Quiet-Keeps {A = A} step q = record { kept = λ w v e. go w v e (step v) (q.quiet v) }
    where
      go :
          (w v : World)
          → Extends fl env config computed_at_us w v
          → (r : World × Result PipelineError A) → r.0.puts ≡ v.puts
          → Leaves fl env config computed_at_us w r
      go w v e (u, ok a) same = record { added = e.added; puts = same ∙ e.puts }
      go w v e (u, err failure) same = inl (record { added = e.added; puts = same ∙ e.puts })

  store_measured-Keeps :
      (source : SourcePart) (part : MeasuredPart fl)
      → IsMeasured fl env config computed_at_us source part
      → Keeps fl env config computed_at_us (store_measured fl env config source part)
  unfolding store_measured lift
  store_measured-Keeps source part evidence =
      bind-Keeps_of
        (lift (
          ok_or (env.encode_pair part.metadata part.truth_rows part.sweep_rows)
            (encode_intermediate source.listed.part_ulid)))
        _ (lift-Keeps _)
        (λ u files e.
          bind-Keeps_of (lift (paths_of fl env config source)) _ (lift-Keeps _) (λ v paths h.
            put_pair-Keeps
              (record {
                source = source;
                part = part;
                evidence = evidence;
                files = files;
                encoded = ok_or-eq-ok _ _ e;
                paths = paths;
                named = map_err-eq-ok window_error _ h;
              })
              _ (bind-Keeps _ _ (lift-Keeps _) (λ intermediate. pure-Keeps _))))

  take_outcome-Keeps :
      (source : SourcePart) (outcome : MeasurePartOutcome fl)
      → ((part : MeasuredPart fl)
          → outcome ≡ complete part
          → IsMeasured fl env config computed_at_us source part)
      → Keeps fl env config computed_at_us (take_outcome fl env config source outcome)
  take_outcome-Keeps source (complete part) k = store_measured-Keeps source part (k part refl)
  take_outcome-Keeps source (abort_phase_a abort) k = pure-Keeps (aborted abort)
  take_outcome-Keeps source connection_unavailable k = lift-Keeps _
  take_outcome-Keeps source MeasurePartOutcome.cancelled k = pure-Keeps stopped

  measure_part-Keeps :
      (source : SourcePart) (prepared : PreparedPart)
      → Keeps fl env config computed_at_us
          (measure_part fl env config computed_at_us source prepared)
  unfolding measure_part
  measure_part-Keeps source prepared = ask-Keeps _

  check_cancelled-Keeps : Keeps fl env config computed_at_us (check_cancelled fl env)
  unfolding check_cancelled
  check_cancelled-Keeps = ask-Keeps _

  measure_source-Keeps :
      (source : SourcePart)
      → Keeps fl env config computed_at_us (measure_source fl env config computed_at_us source)
  unfolding get_bytes measure_part lift
  measure_source-Keeps source =
      bind-Keeps_of (get_bytes fl env source.path) _
        (Quiet-Keeps _ (get_bytes-Quiet fl env source.path))
        (λ u segment read.
          bind-Keeps_of
            (lift (
              map_err (source_segment source.path) (
                prepare_segment segment config.cohort source.listed.window_start
                  config.storage_window_seconds)))
            _ (lift-Keeps _)
            (λ v prepared accepted.
              bind-Keeps_of (measure_part fl env config computed_at_us source prepared) _
                (measure_part-Keeps source prepared)
                (λ t outcome completed. take_outcome-Keeps source outcome (λ part same. record {
                  read_at = u.moment;
                  segment = segment;
                  read = read;
                  prepared = prepared;
                  accepted = map_err-eq-ok (source_segment source.path) _ accepted;
                  measured_at = t.moment;
                  completed = map_err-eq-ok (source_segment source.path) _ completed ∙ ap ok same;
                }))))

  measure_pending-Keeps :
      (source : SourcePart)
      → Keeps fl env config computed_at_us (measure_pending fl env config computed_at_us source)
  unfolding measure_pending
  measure_pending-Keeps source =
      bind-Keeps _ _ check_cancelled-Keeps (λ is_cancelled. go is_cancelled)
    where
      go :
          (is_cancelled : Bool)
          → Keeps fl env config computed_at_us (
              if is_cancelled
              then pure stopped
              else measure_source fl env config computed_at_us source)
      go true = pure-Keeps stopped
      go false = measure_source-Keeps source

  measure_all-Keeps :
      (sources : List SourcePart) (compatible : Assoc (IntermediatePart fl))
      → Keeps fl env config computed_at_us
          (measure_all fl env config computed_at_us sources compatible)
  unfolding measure_all
  measure_all-Keeps [] compatible = pure-Keeps _
  measure_all-Keeps (source ∷ sources) compatible =
      bind-Keeps _ _ (measure_pending-Keeps source) (λ turn. go turn (measure_all-Keeps sources))
    where
      go :
          (turn : PartTurn fl env)
          → ((compatible : Assoc (IntermediatePart fl))
              → Keeps fl env config computed_at_us
                  (measure_all fl env config computed_at_us sources compatible))
          → Keeps fl env config computed_at_us (elim turn [
            | measured intermediate ↦
                measure_all fl env config computed_at_us sources
                  (btree_insert source.listed.part_ulid intermediate compatible)
            | aborted abort ↦
                pure (some (record { compatible = compatible; phase_a_abort = some abort }))
            | stopped ↦ pure none
          ])
      go (measured intermediate) later = later _
      go (aborted abort) later = pure-Keeps _
      go stopped later = pure-Keeps _

  pub gather_round-Keeps :
      (round_end : ℕ)
      → Keeps fl env config computed_at_us (gather_round fl env config round_end computed_at_us)
  unfolding gather_round
  gather_round-Keeps round_end = bind-Keeps _ _ (lift-Keeps _) (λ window_starts.
      bind-Keeps _ _ (Quiet-Keeps _ (list_source_objects-Quiet fl env config.cohort window_starts))
        (λ objects.
          bind-Keeps _ _
            (Quiet-Keeps _ (list_measurement_objects-Quiet fl env config.cohort window_starts))
            (λ measurement_objects.
              bind-Keeps _ _
                (Quiet-Keeps _ (
                  load_source_headers-Quiet fl env config.cohort config.storage_window_seconds
                    objects))
                (λ sources.
                  bind-Keeps _ _
                    (Quiet-Keeps _
                      (check_sources-Quiet fl env config measurement_objects sources _))
                    (λ found.
                      bind-Keeps _ _ (measure_all-Keeps found.pending found.compatible)
                        (λ all. pure-Keeps _))))))

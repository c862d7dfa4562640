-- ===== src/Seam/Pipeline/Turns.antt =====
-- What one turn of the loop over the pending parts puts.
use vectorseam.Seam.Pipeline.Runs.{
  Runs, bind-Runs, Runs-result, Runs-world, lift-result, lift-puts, pure-value, pure-puts,
}
use vectorseam.Seam.Pipeline.Puts.{IsMeasured, MeasuredFiles, truth_of, sweep_of}
use vectorseam.Seam.Pipeline.{
  Environment, PipelineError, SourcePart, World, check_cancelled, get_bytes, pure, put_answer,
  put_bytes, source_segment, window_error,
}
use vectorseam.Seam.Pipeline.Round.{
  PartTurn, aborted, measure_part, measure_pending, measure_source, measured, stopped,
  store_measured, take_outcome,
}
use vectorseam.Seam.Measure.{
  MeasurePartOutcome, MeasuredPart, abort_phase_a, complete, connection_unavailable,
}
use vectorseam.Seam.Model.{AggregationConfig, IntermediatePart}
use vectorseam.Base.{
  ℕ, ap, append_assoc, ◌∙◌, ◌≡◌, refl, sym, subst, Bool, true, false, some, [], ◌∷◌, ◌++◌, Bytes,
  Result, ok, ok_or-eq-ok, map_err-eq-ok, if◌then◌else◌,
}
use vectorseam.Seam.Floats.{Floats}

module _ (fl : Floats) (env : Environment fl) (config : AggregationConfig fl)
    (computed_at_us : ℕ) where
  put_bytes-puts :
      (path bytes : Bytes) (w v : World) (u : Unit {0})
      → Runs (put_bytes fl env path bytes) w v u
      → v.puts ≡ w.puts ++ ((path, bytes) ∷ [])
  unfolding put_bytes
  put_bytes-puts path bytes w v u h = split (env.put w.moment path) h.ran
    where
      split :
          (done : Bool)
          → put_answer fl env w path bytes done ≡ (v, ok u)
          → v.puts ≡ w.puts ++ ((path, bytes) ∷ [])
      split true e = ap (λ (r : World × Result PipelineError (Unit {0})). r.0.puts) (sym e)
      split false e = absurd (cc (ap (λ (r : World × Result PipelineError (Unit {0})). r.1) e))

  -- A part whose files are put, as the loop takes it.
  pub record Stores (source : SourcePart) (w v : World) (intermediate : IntermediatePart fl)
      : Type 0 where
    pub files : MeasuredFiles fl env config computed_at_us
    pub same_source : files.source ≡ source
    pub read_again : env.read_pair files.files.0 files.files.1 ≡ some intermediate
    pub both :
        v.puts
        ≡ w.puts
          ++ (truth_of fl env config computed_at_us files
              ∷ sweep_of fl env config computed_at_us files
              ∷ [])

  -- What a turn of the loop leaves in the store: nothing, or the files of the part.
  abbrev pub TurnStores : SourcePart → World → World → PartTurn fl env → Type 0
  TurnStores source w v (measured intermediate) = Stores source w v intermediate
  TurnStores source w v (aborted abort) = v.puts ≡ w.puts
  TurnStores source w v stopped = v.puts ≡ w.puts

  store_measured-Stores :
      (source : SourcePart) (part : MeasuredPart fl) (w v : World) (turn : PartTurn fl env)
      → IsMeasured fl env config computed_at_us source part
      → Runs (store_measured fl env config source part) w v turn
      → TurnStores source w v turn
  unfolding store_measured
  store_measured-Stores source part w v turn evidence h =
      let (w1, files, e1, h1) = bind-Runs _ _ w v turn h in
      let (w2, paths, e2, h2) = bind-Runs _ _ w1 v turn h1 in
      let (w3, u3, e3, h3) = bind-Runs _ _ w2 v turn h2 in
      let (w4, u4, e4, h4) = bind-Runs _ _ w3 v turn h3 in
      let (w5, again, e5, h5) = bind-Runs _ _ w4 v turn h4 in
      let truth = put_bytes-puts paths.0 files.0 w2 w3 u3 e3 in
      let sweep = put_bytes-puts paths.1 files.1 w3 w4 u4 e4 in
      let start = lift-puts _ w1 w2 paths e2 ∙ lift-puts _ w w1 files e1 in
      let last = pure-puts (measured again) w5 v turn h5 ∙ lift-puts _ w4 w5 again e5 in
      subst (TurnStores source w v) (pure-value (measured again) w5 v turn h5) (record {
        files = record {
          source = source;
          part = part;
          evidence = evidence;
          files = files;
          encoded = ok_or-eq-ok _ _ (lift-result _ w w1 files e1);
          paths = paths;
          named = map_err-eq-ok window_error _ (lift-result _ w1 w2 paths e2);
        };
        same_source = refl;
        read_again = ok_or-eq-ok _ _ (lift-result _ w4 w5 again e5);
        both =
            last
            ∙ sweep
            ∙ ap (λ puts. puts ++ ((paths.1, files.1) ∷ []))
                (truth ∙ ap (λ puts. puts ++ ((paths.0, files.0) ∷ [])) start)
            ∙ append_assoc w.puts ((paths.0, files.0) ∷ []) ((paths.1, files.1) ∷ []);
      })

  take_outcome-Stores :
      (source : SourcePart) (outcome : MeasurePartOutcome fl) (w v : World) (turn : PartTurn fl env)
      → ((part : MeasuredPart fl)
          → outcome ≡ complete part
          → IsMeasured fl env config computed_at_us source part)
      → Runs (take_outcome fl env config source outcome) w v turn
      → TurnStores source w v turn
  take_outcome-Stores source (complete part) w v turn k h =
      store_measured-Stores source part w v turn (k part refl) h
  take_outcome-Stores source (abort_phase_a abort) w v turn k h =
      subst (TurnStores source w v) (pure-value (aborted abort) w v turn h)
        (pure-puts (aborted abort) w v turn h)
  take_outcome-Stores source connection_unavailable w v turn k h =
      absurd (cc (lift-result _ w v turn h))
  take_outcome-Stores source MeasurePartOutcome.cancelled w v turn k h =
      subst (TurnStores source w v) (pure-value stopped w v turn h) (pure-puts stopped w v turn h)

  -- A turn from an earlier moment with the same objects.
  pub TurnStores-from :
      (source : SourcePart) (u w v : World) (turn : PartTurn fl env)
      → w.puts ≡ u.puts
      → TurnStores source w v turn
      → TurnStores source u v turn
  TurnStores-from source u w v (measured intermediate) same k = record {
    files = k.files;
    same_source = k.same_source;
    read_again = k.read_again;
    both = k.both ∙ rw same refl;
  }
  TurnStores-from source u w v (aborted abort) same k = k ∙ same
  TurnStores-from source u w v stopped same k = k ∙ same

  measure_source-Stores :
      (source : SourcePart) (w v : World) (turn : PartTurn fl env)
      → Runs (measure_source fl env config computed_at_us source) w v turn
      → TurnStores source w v turn
  unfolding get_bytes measure_part
  measure_source-Stores source w v turn h =
      let (w1, segment, e1, h1) = bind-Runs (get_bytes fl env source.path) _ w v turn h in
      let (w2, prepared, e2, h2) = bind-Runs _ _ w1 v turn h1 in
      let (w3, outcome, e3, h3) =
        bind-Runs (measure_part fl env config computed_at_us source prepared) _ w2 v turn h2 in
      let same : w3.puts ≡ w.puts =
        ap (λ (u : World). u.puts) (sym (Runs-world _ w2 w3 outcome e3))
        ∙ lift-puts _ w1 w2 prepared e2
        ∙ ap (λ (u : World). u.puts) (sym (Runs-world _ w w1 segment e1)) in
      TurnStores-from source w w3 v turn same (
        take_outcome-Stores source outcome w3 v turn
          (λ part finished. record {
            read_at = w.moment;
            segment = segment;
            read = Runs-result _ w w1 segment e1;
            prepared = prepared;
            accepted =
                map_err-eq-ok (source_segment source.path) _ (lift-result _ w1 w2 prepared e2);
            measured_at = w2.moment;
            completed =
                map_err-eq-ok (source_segment source.path) _ (Runs-result _ w2 w3 outcome e3)
                ∙ ap ok finished;
          })
          h3)

  pub check_cancelled-puts :
      (w v : World) (is_cancelled : Bool)
      → Runs (check_cancelled fl env) w v is_cancelled
      → v.puts ≡ w.puts
  unfolding check_cancelled
  check_cancelled-puts w v is_cancelled h =
      ap (λ (u : World). u.puts) (sym (Runs-world (check_cancelled fl env) w v is_cancelled h))

  pub measure_pending-Stores :
      (source : SourcePart) (w v : World) (turn : PartTurn fl env)
      → Runs (measure_pending fl env config computed_at_us source) w v turn
      → TurnStores source w v turn
  unfolding measure_pending
  measure_pending-Stores source w v turn h =
      let (w1, is_cancelled, e1, h1) = bind-Runs (check_cancelled fl env) _ w v turn h in
      TurnStores-from source w w1 v turn (check_cancelled-puts w w1 is_cancelled e1)
        (go is_cancelled w1 h1)
    where
      go :
          (is_cancelled : Bool) (u : World)
          → Runs
              (if is_cancelled
                then pure stopped
                else measure_source fl env config computed_at_us source)
              u
              v
              turn
          → TurnStores source u v turn
      go true u h1 =
          subst (TurnStores source u v) (pure-value stopped u v turn h1)
            (pure-puts stopped u v turn h1)
      go false u h1 = measure_source-Stores source u v turn h1

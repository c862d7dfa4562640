-- ===== src/Seam/Pipeline/Publication.antt =====
-- What a round of a cohort puts into the store, in which order, and when.
use mathlib.Core.List.{append-nil}
use vectorseam.Seam.Pipeline.{
  Environment, PipelineError, World, aggregate_error, bind, bind_result, check_cancelled, json,
  lift, load_previous_round, previous_of, pure, put_bytes, round_paths, tick, window_error,
}
use vectorseam.Seam.Pipeline.Round.{
  CohortRoundOutcome, Gathered, after_gathering, conclude_round, gather_round, input_of, publish,
  published, run_cohort_round, unless_cancelled,
}
use vectorseam.Seam.Pipeline.Gathering.{gather_round-Keeps}
use vectorseam.Seam.Pipeline.Stored.{IsStored, gather_round-IsStored}
use vectorseam.Seam.Pipeline.Runs.{Runs, Runs-result}
use vectorseam.Seam.Pipeline.Puts.{Extends, Halts, Leaves, bind-elim, ticked}
use vectorseam.Seam.Aggregate.{aggregate}
use vectorseam.Seam.Model.{AggregationConfig, AggregationInput, RoundOutput}
use vectorseam.Base.{
  subst, ℕ, ◌+◌, Bool, Bool-cases, inl, inr, ◌⊎◌, Option, none, some, [], ◌∷◌, ◌++◌, Bytes, Result,
  ok, err, ok_or, map_err, map_err-eq-ok, ok_or-eq-ok, ◌≡◌, refl, sym, true, false,
}
use vectorseam.Seam.Floats.{Floats}

module _ (fl : Floats) (env : Environment fl) (config : AggregationConfig fl) (round_end : ℕ)
    (computed_at : Bytes) (computed_at_us : ℕ) where
  -- The input is what the round has gathered from the start `w`, with what the store gave for the latest
  -- document.
  pub record IsInput (w : World) (latest_path : Bytes) (input : AggregationInput fl) : Type 0 where
    pub gathered : Gathered fl env
    pub found : (gather_round fl env config round_end computed_at_us w).1 ≡ ok (some gathered)
    pub previous_round : Option (RoundOutput fl)
    pub same : input ≡ input_of fl env config round_end computed_at gathered previous_round
    pub read_at : ℕ
    pub previous : previous_of fl env latest_path (env.get read_at latest_path) ≡ ok previous_round

  -- The document of a round: of the output that is aggregated from the input.
  pub record IsDocument (w : World) (latest_path bytes : Bytes) (output : RoundOutput fl)
      : Type 0 where
    pub input : AggregationInput fl
    pub is_input : IsInput w latest_path input
    pub decided : aggregate fl input ≡ ok output
    pub text : env.to_vec output ≡ some bytes

  -- A published round: beyond the files of the parts that it has measured, its document was put as history
  -- and then as the latest one.
  pub record IsPublished (w after : World) (output : RoundOutput fl) : Type 0 where
    pub before : World
    pub paths : Bytes × Bytes
    pub named : round_paths config.cohort round_end ≡ ok paths
    pub bytes : Bytes
    pub document : IsDocument w paths.1 bytes output
    pub stored :
        IsStored fl env config computed_at_us round_end w.puts before.puts
          document.is_input.gathered
    pub puts : after.puts ≡ (before.puts ++ ((paths.0, bytes) ∷ [])) ++ ((paths.1, bytes) ∷ [])

  -- The put of the latest document failed.
  pub record IsHalfPublished (w after : World) : Type 0 where
    pub before : World
    pub paths : Bytes × Bytes
    pub named : round_paths config.cohort round_end ≡ ok paths
    pub bytes : Bytes
    pub output : RoundOutput fl
    pub document : IsDocument w paths.1 bytes output
    pub stored :
        IsStored fl env config computed_at_us round_end w.puts before.puts
          document.is_input.gathered
    pub puts : after.puts ≡ before.puts ++ ((paths.0, bytes) ∷ [])

  abbrev pub Ends : World → World × Result PipelineError (CohortRoundOutcome fl env) → Type 0
  Ends w (after, ok (published output)) = IsPublished w after output
  Ends w (after, ok CohortRoundOutcome.cancelled) = Extends fl env config computed_at_us w after
  Ends w (after, err failure) = Halts fl env config computed_at_us w after ⊎ IsHalfPublished w after

  stops :
      (w v : World)
      → Extends fl env config computed_at_us w v
      → Halts fl env config computed_at_us w (tick v)
  stops w v e = inl (ticked fl env config computed_at_us w v e)

  publish-Ends :
      (w v : World) (paths : Bytes × Bytes) (output : RoundOutput fl) (bytes : Bytes)
      → Extends fl env config computed_at_us w v
      → round_paths config.cohort round_end ≡ ok paths
      → (document : IsDocument w paths.1 bytes output)
      → IsStored fl env config computed_at_us round_end w.puts v.puts document.is_input.gathered
      → Ends w (publish fl env paths output bytes v)
  unfolding publish bind pure put_bytes
  publish-Ends w v paths output bytes whole named document stored =
      elim (Bool-cases (env.put v.moment paths.0)) [
        | inr e ↦ rw (e, publish, bind, put_bytes) (inl (stops w v whole))
        | inl e ↦ elim (Bool-cases (env.put (v.moment + 1) paths.1)) [
          | inr f ↦
              rw (e, f, publish, bind, put_bytes)
                (inr (record {
                  before = v;
                  paths = paths;
                  named = named;
                  bytes = bytes;
                  output = output;
                  document = document;
                  stored = stored;
                  puts = refl;
                }))
          | inl f ↦
              rw (e, f, publish, bind, put_bytes, pure)
                (record {
                  before = v;
                  paths = paths;
                  named = named;
                  bytes = bytes;
                  document = document;
                  stored = stored;
                  puts = refl;
                })
        ]
      ]

  conclude_round-Ends :
      (w u v : World) (gathered : Gathered fl env)
      → Runs (gather_round fl env config round_end computed_at_us) w u (some gathered)
      → v.puts ≡ u.puts
      → Extends fl env config computed_at_us w v
      → Ends w (conclude_round fl env config round_end computed_at gathered v)
  unfolding conclude_round lift load_previous_round
  conclude_round-Ends w u v gathered found same whole =
      bind-elim (Ends w) (lift (map_err window_error (round_paths config.cohort round_end))) _ v
        (λ paths named.
          bind-elim (Ends w) (load_previous_round fl env paths.1) _ v
            (λ previous_round read.
              let input = input_of fl env config round_end computed_at gathered previous_round in
              bind-elim (Ends w) (lift (map_err aggregate_error (aggregate fl input))) _ (tick v)
                (λ output decided.
                  bind-elim (Ends w) (lift (ok_or (env.to_vec output) json)) _ (tick v)
                    (λ bytes text.
                      publish-Ends w (tick v) paths output bytes
                        (ticked fl env config computed_at_us w v whole)
                        (map_err-eq-ok window_error _ named)
                        (record {
                          input = input;
                          is_input = record {
                            gathered = gathered;
                            found = Runs-result _ w u (some gathered) found;
                            previous_round = previous_round;
                            same = refl;
                            read_at = v.moment;
                            previous = read;
                          };
                          decided = map_err-eq-ok aggregate_error _ decided;
                          text = ok_or-eq-ok _ _ text;
                        })
                        (subst
                          (λ puts.
                            IsStored fl env config computed_at_us round_end w.puts puts gathered)
                          (sym same)
                          (gather_round-IsStored fl env config computed_at_us round_end w u gathered
                            found)))
                    (λ failure. inl (stops w v whole)))
                (λ failure. inl (stops w v whole)))
            (λ failure. inl (stops w v whole)))
        (λ failure. inl (inl whole))

  after_gathering-Ends :
      (w v : World) (gathered : Option (Gathered fl env))
      → Runs (gather_round fl env config round_end computed_at_us) w v gathered
      → Extends fl env config computed_at_us w v
      → Ends w (after_gathering fl env config round_end computed_at gathered v)
  unfolding pure check_cancelled
  after_gathering-Ends w v none found whole = whole
  after_gathering-Ends w v (some gathered) found whole =
      bind-elim (Ends w) (check_cancelled fl env)
        (unless_cancelled fl env config round_end computed_at gathered) v
        (λ is_cancelled _. go is_cancelled) (λ failure. inl (stops w v whole))
    where
      go :
          (is_cancelled : Bool)
          → Ends w
              (unless_cancelled fl env config round_end computed_at gathered is_cancelled (tick v))
      go true = ticked fl env config computed_at_us w v whole
      go false =
          conclude_round-Ends w v (tick v) gathered found refl
            (ticked fl env config computed_at_us w v whole)

  -- Of the puts that the store acknowledges: before it publishes, a cohort's round puts for some parts the
  -- two files that encode what was measured of the segment that the store gave for the part's source, each
  -- under its name for the part, the truth before the sweep; only a round that fails can leave a last
  -- truth without its sweep. A published round has loaded its sources from what the store listed for the
  -- windows in its scope and has put the files of every part that it uses and has not found measured
  -- already; it then puts its output's document as history and after it as latest.json, and the output is
  -- aggregated from what the round has gathered and the previous round that the store gave. A cancelled
  -- round puts neither, and a failed one at most the history. So it is whatever the store and the measurer
  -- answer.
  pub run_cohort_round-Ends :
      (w : World) → Ends w (run_cohort_round fl env config round_end computed_at computed_at_us w)
  unfolding run_cohort_round bind
  run_cohort_round-Ends w =
      let nothing : Extends fl env config computed_at_us w w = record {
        added = [];
        puts = sym (append-nil w.puts);
      } in
      after (gather_round fl env config round_end computed_at_us w) refl
        ((gather_round-Keeps fl env config computed_at_us round_end).kept w w nothing)
    where
      after :
          (r : World × Result PipelineError (Option (Gathered fl env)))
          → gather_round fl env config round_end computed_at_us w ≡ r
          → Leaves fl env config computed_at_us w r
          → Ends w (bind_result r (after_gathering fl env config round_end computed_at))
      after (v, ok gathered) same left =
          after_gathering-Ends w v gathered (record { ran = same }) left
      after (v, err failure) same left = inl left

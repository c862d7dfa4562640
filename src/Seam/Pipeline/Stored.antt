-- ===== src/Seam/Pipeline/Stored.antt =====
-- What a round has gathered, and the files that it has put for it.
use vectorseam.Seam.Pipeline.Runs.{
  Runs, bind-Runs, Runs-result, Quiet-puts, lift-puts, lift-result, pure-value, pure-puts,
}
use vectorseam.Seam.Pipeline.Turns.{Stores, TurnStores, measure_pending-Stores}
use vectorseam.Seam.Pipeline.Puts.{MeasuredFiles, objects_of}
use vectorseam.Seam.Pipeline.Listing.{
  list_source_objects-Quiet, list_measurement_objects-Quiet, load_source_headers-Quiet,
  check_sources-Quiet,
}
use vectorseam.Seam.Pipeline.{Environment, SourcePart, Step, World, aggregate_error, lift, pure}
use vectorseam.Seam.Pipeline.Sources.{
  Found, check_sources, list_measurement_objects, list_source_objects, load_source_headers,
}
use vectorseam.Seam.Pipeline.Round.{
  Gathered, Measured, PartTurn, aborted, gather_round, gathered_of, measure_all, measured, stopped,
}
use vectorseam.Seam.Accounting.{in_scope_window_starts}
use vectorseam.Seam.Model.{AggregationConfig, IntermediatePart, PhaseAAbort}
use vectorseam.Base.{
  ℕ, ap, append-nil, append_assoc, ◌∙◌, ◌≡◌, refl, sym, subst, Assoc, btree_insert, Option, none,
  some, some-injective, List, [], ◌∷◌, ◌++◌, Bytes, ok, map_err, map_err-eq-ok,
}
use vectorseam.Seam.Floats.{Floats}

module _ (fl : Floats) (env : Environment fl) (config : AggregationConfig fl)
    (computed_at_us : ℕ) where
  -- The parts that a round uses: those that it found measured, and those of the files that it has put, as
  -- they are read again.
  abbrev pub HoldsParts :
      Assoc (IntermediatePart fl)
      → List (MeasuredFiles fl env config computed_at_us)
      → Assoc (IntermediatePart fl)
      → Type 0
  HoldsParts found [] compatible = compatible ≡ found
  HoldsParts found (m ∷ parts) compatible =
      (intermediate : IntermediatePart fl) × (env.read_pair m.files.0 m.files.1 ≡ some intermediate)
      × HoldsParts (btree_insert m.source.listed.part_ulid intermediate found) parts compatible

  -- The sources and the measured files' paths that the store has listed for the windows of a round.
  pub record IsListed (round_end : ℕ) (listed : List Bytes) (sources : List SourcePart)
      : Type 0 where
    pub window_starts : List ℕ
    pub in_scope :
        in_scope_window_starts round_end config.window_duration_seconds
          config.storage_window_seconds
        ≡ ok window_starts
    pub objects : List (ℕ × Bytes)
    pub sources_asked : World
    pub objects_listed :
        (list_source_objects fl env config.cohort window_starts sources_asked).1 ≡ ok objects
    pub measurements_asked : World
    pub measurements_listed :
        (list_measurement_objects fl env config.cohort window_starts measurements_asked).1
        ≡ ok listed
    pub headers_asked : World
    pub headers_loaded :
        (load_source_headers fl env config.cohort config.storage_window_seconds objects
          headers_asked).1
        ≡ ok sources

  -- What is gathered: the parts that are found measured for the sources are used, and the files of all
  -- others are put.
  pub record IsStored (round_end : ℕ) (before after : List (Bytes × Bytes))
      (gathered : Gathered fl env) : Type 0 where
    pub listed : List Bytes
    pub is_listed : IsListed round_end listed gathered.sources
    pub start : World
    pub found : Found fl env
    pub checked :
        (check_sources fl env config listed gathered.sources
          (record { compatible = []; pending = []; phase_a_incompatible_parts = 0 })
          start).1
        ≡ ok found
    pub parts : List (MeasuredFiles fl env config computed_at_us)
    pub holds : HoldsParts found.compatible parts gathered.compatible
    pub puts : after ≡ before ++ objects_of fl env config computed_at_us parts

  -- What the loop leaves: the files of the parts that it has added.
  abbrev AllStores : Assoc (IntermediatePart fl) → World → World → Option (Measured fl env) → Type 0
  AllStores compatible w v none = Unit
  AllStores compatible w v (some all) =
      (parts : List (MeasuredFiles fl env config computed_at_us)) × HoldsParts compatible parts
        all.compatible
      × (v.puts ≡ w.puts ++ objects_of fl env config computed_at_us parts)

  AllStores-nil :
      (compatible : Assoc (IntermediatePart fl)) (abort : Option PhaseAAbort) (w v : World)
      (all : Option (Measured fl env))
      → Runs (pure (some (record { compatible = compatible; phase_a_abort = abort }))) w v all
      → AllStores compatible w v all
  AllStores-nil compatible abort w v all h =
      subst (AllStores compatible w v) (pure-value _ w v all h)
        ([], refl, pure-puts _ w v all h ∙ sym (append-nil w.puts))

  AllStores-cons :
      (source : SourcePart) (compatible : Assoc (IntermediatePart fl)) (w u v : World)
      (intermediate : IntermediatePart fl) (all : Option (Measured fl env))
      → Stores fl env config computed_at_us source w u intermediate
      → AllStores (btree_insert source.listed.part_ulid intermediate compatible) u v all
      → AllStores compatible w v all
  AllStores-cons source compatible w u v intermediate none k later = tt
  AllStores-cons source compatible w u v intermediate (some all) k (parts, holds, puts) = (
    k.files ∷ parts,
    (
      intermediate,
      k.read_again,
      subst
          (λ (from : SourcePart).
            HoldsParts (btree_insert from.listed.part_ulid intermediate compatible) parts
              all.compatible)
          (sym k.same_source) holds,
    ),
    puts
        ∙ ap (λ before. before ++ objects_of fl env config computed_at_us parts) k.both
        ∙ append_assoc w.puts _ (objects_of fl env config computed_at_us parts),
  )

  measure_all-Stores :
      (sources : List SourcePart) (compatible : Assoc (IntermediatePart fl)) (w v : World)
      (all : Option (Measured fl env))
      → Runs (measure_all fl env config computed_at_us sources compatible) w v all
      → AllStores compatible w v all
  unfolding measure_all
  measure_all-Stores [] compatible w v all h = AllStores-nil compatible none w v all h
  measure_all-Stores (source ∷ sources) compatible w v all h =
      let (u, turn, e, h1) = bind-Runs _ _ w v all h in
      go turn u (measure_pending-Stores fl env config computed_at_us source w u turn e) h1
        (λ intermediate.
          measure_all-Stores sources (btree_insert source.listed.part_ulid intermediate compatible)
            u v all)
    where
      go :
          (turn : PartTurn fl env) (u : World)
          → TurnStores fl env config computed_at_us source w u turn
          → Runs
              (elim turn as (λ _. Step (Option (Measured fl env))) [
                | measured intermediate ↦
                    measure_all fl env config computed_at_us sources
                      (btree_insert source.listed.part_ulid intermediate compatible)
                | aborted abort ↦
                    pure (some (record { compatible = compatible; phase_a_abort = some abort }))
                | stopped ↦ pure none
              ])
              u
              v
              all
          → ((intermediate : IntermediatePart fl)
              → Runs
                  (measure_all fl env config computed_at_us sources
                    (btree_insert source.listed.part_ulid intermediate compatible))
                  u
                  v
                  all
              → AllStores (btree_insert source.listed.part_ulid intermediate compatible) u v all)
          → AllStores compatible w v all
      go (measured intermediate) u k h1 later =
          AllStores-cons source compatible w u v intermediate all k (later intermediate h1)
      go (aborted abort) u same h1 later =
          from_same all (AllStores-nil compatible (some abort) u v all h1)
        where
          from_same :
              (all : Option (Measured fl env))
              → AllStores compatible u v all
              → AllStores compatible w v all
          from_same none k = tt
          from_same (some found) (parts, holds, puts) = (
            parts,
            holds,
            puts ∙ ap (λ before. before ++ objects_of fl env config computed_at_us parts) same,
          )
      go stopped u same h1 later = subst (AllStores compatible w v) (pure-value none u v all h1) tt

  pub gather_round-IsStored :
      (round_end : ℕ) (w v : World) (gathered : Gathered fl env)
      → Runs (gather_round fl env config round_end computed_at_us) w v (some gathered)
      → IsStored round_end w.puts v.puts gathered
  unfolding gather_round
  gather_round-IsStored round_end w v gathered h =
      let starts = map_err aggregate_error (
        in_scope_window_starts round_end config.window_duration_seconds
          config.storage_window_seconds) in
      let (w1, window_starts, e1, h1) = bind-Runs (lift starts) _ w v (some gathered) h in
      let (w2, objects, e2, h2) =
        bind-Runs (list_source_objects fl env config.cohort window_starts) _ w1 v (some gathered)
          h1 in
      let (w3, listed, e3, h3) =
        bind-Runs (list_measurement_objects fl env config.cohort window_starts) _ w2 v
          (some gathered) h2 in
      let (w4, sources, e4, h4) =
        bind-Runs (load_source_headers fl env config.cohort config.storage_window_seconds objects) _
          w3 v (some gathered) h3 in
      let start : Found fl env = record {
        compatible = [];
        pending = [];
        phase_a_incompatible_parts = 0;
      } in
      let (w5, found, e5, h5) =
        bind-Runs (check_sources fl env config listed sources start) _ w4 v (some gathered) h4 in
      let (w6, all, e6, h6) =
        bind-Runs (measure_all fl env config computed_at_us found.pending found.compatible) _ w5 v
          (some gathered) h5 in
      let same : w5.puts ≡ w.puts =
        Quiet-puts _ w4 w5 found (check_sources-Quiet fl env config listed sources start) e5
        ∙ Quiet-puts _ w3 w4 sources
            (load_source_headers-Quiet fl env config.cohort config.storage_window_seconds objects)
            e4
        ∙ Quiet-puts _ w2 w3 listed
            (list_measurement_objects-Quiet fl env config.cohort window_starts) e3
        ∙ Quiet-puts _ w1 w2 objects (list_source_objects-Quiet fl env config.cohort window_starts)
            e2
        ∙ lift-puts starts w w1 window_starts e1 in
      finish listed sources
        (record {
          window_starts = window_starts;
          in_scope = map_err-eq-ok aggregate_error _ (lift-result starts w w1 window_starts e1);
          objects = objects;
          sources_asked = w1;
          objects_listed = Runs-result _ w1 w2 objects e2;
          measurements_asked = w2;
          measurements_listed = Runs-result _ w2 w3 listed e3;
          headers_asked = w3;
          headers_loaded = Runs-result _ w3 w4 sources e4;
        })
        w4 found (Runs-result _ w4 w5 found e5) w5 w6 same all
        (measure_all-Stores found.pending found.compatible w5 w6 all e6)
        (pure-value (gathered_of fl env sources found all) w6 v _ h6)
        (pure-puts (gathered_of fl env sources found all) w6 v _ h6)
    where
      finish :
          (listed : List Bytes) (sources : List SourcePart)
          → IsListed round_end listed sources
          → (start : World) (found : Found fl env)
          → (check_sources fl env config listed sources
              (record { compatible = []; pending = []; phase_a_incompatible_parts = 0 })
              start).1
            ≡ ok found
          → (u t : World) → u.puts ≡ w.puts
          → (all : Option (Measured fl env)) → AllStores found.compatible u t all
          → gathered_of fl env sources found all ≡ some gathered
          → v.puts ≡ t.puts
          → IsStored round_end w.puts v.puts gathered
      finish listed sources is_listed start found checked u t same none k e last = absurd (cc e)
      finish listed sources is_listed start found checked u t same (some all) (parts, holds, puts) e
            last =
          subst (IsStored round_end w.puts v.puts) (some-injective e) (record {
            listed = listed;
            is_listed = is_listed;
            start = start;
            found = found;
            checked = checked;
            parts = parts;
            holds = holds;
            puts =
                last
                ∙ puts
                ∙ ap (λ before. before ++ objects_of fl env config computed_at_us parts) same;
          })

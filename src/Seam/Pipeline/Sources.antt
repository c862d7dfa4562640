-- ===== src/Seam/Pipeline/Sources.antt =====
-- crates/seam/src/pipeline.rs: the source objects and the measured parts that a round finds.
use vectorseam.Seam.Pipeline.{
  Environment, PipelineError, SourcePart, Step, bind, duplicate_source_part, get_bytes,
  intermediate_paths, incompatible_counter_overflow, lift, list_under, pure, source_segment,
  window_error,
}
use vectorseam.Seam.Aggregate.Checks.{is_compatible}
use vectorseam.Seam.Measure.{PreparedPart, prepare_segment}
use vectorseam.Seam.Model.{AggregationConfig, IntermediatePart}
use vectorseam.Core.Window.{format_window_timestamp}
use vectorseam.Base.{
  ℕ, ◌-◌, Bool, false, ◌&&◌, ◌||◌, Option, none, some, List, [], ◌∷◌, ◌++◌, ◌==◌, if◌then◌else◌,
  Bytes, bytes_eq, bytes_lt, codes, starts_with, drop, take, length, Assoc, lookup, btree_insert,
  values, Result, ok, err, map_err, checked_add, u64_max,
}
use vectorseam.Seam.Floats.{Floats}

-- `value.strip_prefix(prefix)`
unfoldable pub strip_prefix : Bytes → Bytes → Option Bytes
unfolding starts_with
strip_prefix text prefix =
    if starts_with text prefix then some (drop (length prefix) text) else none

-- `value.strip_suffix(suffix)`
unfoldable pub strip_suffix : Bytes → Bytes → Option Bytes
strip_suffix text suffix =
    let kept = take (length text - length suffix) text in
    if bytes_eq (kept ++ suffix) text then some kept else none

-- `objects.sort_by`, which keeps the order of equal paths.
unfoldable pub insert_object : ℕ × Bytes → List (ℕ × Bytes) → List (ℕ × Bytes)
unfolding bytes_lt
insert_object object [] = object ∷ []
insert_object object (other ∷ objects) =
    let later = insert_object object objects in
    if bytes_lt other.1 object.1 then other ∷ later else object ∷ other ∷ objects

unfoldable pub sort_objects : List (ℕ × Bytes) → List (ℕ × Bytes)
unfolding insert_object
sort_objects [] = []
sort_objects (object ∷ objects) = insert_object object (sort_objects objects)

-- `measurement_objects.contains(&path)`
unfoldable pub contains_path : Bytes → List Bytes → Bool
contains_path path [] = false
contains_path path (other ∷ paths) = bytes_eq other path || contains_path path paths

module _ (fl : Floats) (env : Environment fl) where
  abbrev pub is_segment_path : Option Bytes → Bool
  is_segment_path none = false
  is_segment_path (some extension) = bytes_eq extension (codes "vseam")

  -- The filter and the map of `list_source_objects`.
  unfoldable pub source_objects : ℕ → List Bytes → List (ℕ × Bytes)
  source_objects window_start [] = []
  source_objects window_start (path ∷ paths) =
      let objects = source_objects window_start paths in
      if is_segment_path (env.extension path) then (window_start, path) ∷ objects else objects

  abbrev pub window_prefix : Bytes → Bytes → Bytes → Bytes
  window_prefix root cohort timestamp = root ++ (cohort ++ (codes "/window=" ++ timestamp))

  -- Both listings go through the windows in the same way.
  unfoldable pub list_windows :
      {A : Type 0} → Bytes → Bytes → (ℕ → List Bytes → List A) → List ℕ → Step (List A)
  unfolding bind pure lift
  list_windows root cohort select [] = pure []
  list_windows root cohort select (window_start ∷ window_starts) =
      bind (lift (map_err window_error (format_window_timestamp window_start))) (λ timestamp.
        bind (list_under fl env (window_prefix root cohort timestamp)) (λ paths.
          bind (list_windows root cohort select window_starts)
            (λ objects. pure (select window_start paths ++ objects))))

  unfoldable pub list_source_objects : Bytes → List ℕ → Step (List (ℕ × Bytes))
  unfolding bind pure
  list_source_objects cohort window_starts =
      bind (list_windows (codes "cohorts/") cohort source_objects window_starts)
        (λ objects. pure (sort_objects objects))

  unfoldable pub list_measurement_objects : Bytes → List ℕ → Step (List Bytes)
  list_measurement_objects cohort window_starts =
      list_windows (codes "measurements/") cohort (λ window_start paths. paths) window_starts

  abbrev pub stem_of : Option Bytes → Option Bytes
  stem_of none = none
  stem_of (some rest) = strip_suffix rest (codes ".vseam")

  abbrev pub ulid_of : Option Bytes → Option Bytes
  ulid_of none = none
  ulid_of (some value) = env.parse_ulid value

  abbrev pub ulid_in : Option Bytes → Option Bytes
  ulid_in none = none
  ulid_in (some name) = ulid_of (stem_of (strip_prefix name (codes "part-")))

  unfoldable pub source_part_ulid : Bytes → Option Bytes
  unfolding strip_prefix strip_suffix
  source_part_ulid path = ulid_in (env.filename path)

  abbrev pub source_of : Bytes → Bytes → PreparedPart → SourcePart
  source_of path part_ulid prepared = record {
    path = path;
    listed = record {
      part_ulid = part_ulid;
      window_start = prepared.window_start;
      window_seconds = prepared.window_seconds;
      received_frame_count = prepared.received_frame_count;
      record_count = prepared.record_count;
    };
  }

  abbrev pub insert_new :
      Bytes
      → SourcePart
      → Assoc SourcePart
      → Option SourcePart
      → Result PipelineError (Assoc SourcePart)
  insert_new part_ulid source by_ulid none = ok (btree_insert part_ulid source by_ulid)
  insert_new part_ulid source by_ulid (some earlier) = err (duplicate_source_part part_ulid)

  -- An object with a canonical name.
  unfoldable pub load_header :
      Bytes → ℕ → ℕ → Bytes → Bytes → Assoc SourcePart → Step (Assoc SourcePart)
  unfolding bind lift lookup
  load_header expected_cohort expected_window_seconds window_start path part_ulid by_ulid =
      bind (get_bytes fl env path) (λ bytes.
        bind
          (lift (
            map_err (source_segment path)
              (prepare_segment bytes expected_cohort window_start expected_window_seconds)))
          (λ prepared. lift (
            insert_new part_ulid (source_of path part_ulid prepared) by_ulid
              (lookup part_ulid by_ulid))))

  abbrev pub load_named :
      Bytes → ℕ → ℕ → Bytes → Option Bytes → Assoc SourcePart → Step (Assoc SourcePart)
  load_named expected_cohort expected_window_seconds window_start path none by_ulid = pure by_ulid
  load_named expected_cohort expected_window_seconds window_start path (some part_ulid) by_ulid =
      load_header expected_cohort expected_window_seconds window_start path part_ulid by_ulid

  -- The loop of `load_source_headers`.
  unfoldable pub load_headers :
      Bytes → ℕ → Assoc SourcePart → List (ℕ × Bytes) → Step (Assoc SourcePart)
  unfolding bind pure load_header source_part_ulid
  load_headers expected_cohort expected_window_seconds by_ulid [] = pure by_ulid
  load_headers expected_cohort expected_window_seconds by_ulid ((window_start, path) ∷ objects) =
      bind
        (load_named expected_cohort expected_window_seconds window_start path
          (source_part_ulid path) by_ulid)
        (λ more. load_headers expected_cohort expected_window_seconds more objects)

  unfoldable pub load_source_headers : Bytes → ℕ → List (ℕ × Bytes) → Step (List SourcePart)
  unfolding bind pure load_headers
  load_source_headers expected_cohort expected_window_seconds objects =
      bind (load_headers expected_cohort expected_window_seconds [] objects)
        (λ by_ulid. pure (values by_ulid))

  unfoldable pub matches_source_metadata : IntermediatePart fl → SourcePart → Bytes → Bool
  matches_source_metadata intermediate source cohort =
      bytes_eq intermediate.metadata.cohort cohort
      && (bytes_eq intermediate.metadata.part_ulid source.listed.part_ulid
          && ((intermediate.metadata.window_start == source.listed.window_start)
              && ((intermediate.metadata.window_seconds == source.listed.window_seconds)
                  && ((intermediate.metadata.received_frame_count
                        == source.listed.received_frame_count)
                      && (intermediate.metadata.record_count == source.listed.record_count)))))

  -- The locals of the loop over the sources.
  pub record Found : Type 0 where
    pub compatible : Assoc (IntermediatePart fl)
    pub pending : List SourcePart
    pub phase_a_incompatible_parts : ℕ

  abbrev pub pend : SourcePart → ℕ → Found → Found
  pend source incompatible found = record {
    compatible = found.compatible;
    pending = found.pending ++ (source ∷ []);
    phase_a_incompatible_parts = incompatible;
  }

  -- The `match` on the pair of files that was read.
  unfoldable pub take_pair :
      AggregationConfig fl
      → SourcePart
      → Found
      → Option (IntermediatePart fl)
      → Result PipelineError Found
  unfolding matches_source_metadata is_compatible
  take_pair config source found none = ok (pend source found.phase_a_incompatible_parts found)
  take_pair config source found (some intermediate) =
      if matches_source_metadata intermediate source config.cohort
        && is_compatible fl config intermediate.metadata
      then ok (record {
        compatible = btree_insert source.listed.part_ulid intermediate found.compatible;
        pending = found.pending;
        phase_a_incompatible_parts = found.phase_a_incompatible_parts;
      })
      else if matches_source_metadata intermediate source config.cohort
      then elim (checked_add u64_max found.phase_a_incompatible_parts 1) [
        | none ↦ err incompatible_counter_overflow
        | some more ↦ ok (pend source more found)
      ]
      else ok (pend source found.phase_a_incompatible_parts found)

  abbrev pub read_measured : AggregationConfig fl → SourcePart → Bytes × Bytes → Found → Step Found
  read_measured config source paths found = bind (get_bytes fl env paths.0) (λ truth_bytes.
      bind (get_bytes fl env paths.1) (λ sweep_bytes.
        lift (take_pair config source found (env.read_pair truth_bytes sweep_bytes))))

  -- A round of the loop over the sources.
  unfoldable pub check_source : AggregationConfig fl → List Bytes → SourcePart → Found → Step Found
  unfolding bind pure lift take_pair intermediate_paths contains_path
  check_source config measurement_objects source found =
      bind
        (lift (
          map_err window_error
            (intermediate_paths config.cohort source.listed.window_start source.listed.part_ulid)))
        (λ paths.
          if contains_path paths.0 measurement_objects && contains_path paths.1 measurement_objects
          then read_measured config source paths found
          else pure (pend source found.phase_a_incompatible_parts found))

  unfoldable pub check_sources :
      AggregationConfig fl → List Bytes → List SourcePart → Found → Step Found
  unfolding bind pure check_source
  check_sources config measurement_objects [] found = pure found
  check_sources config measurement_objects (source ∷ sources) found =
      bind (check_source config measurement_objects source found)
        (λ more. check_sources config measurement_objects sources more)

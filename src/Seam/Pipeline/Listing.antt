-- ===== src/Seam/Pipeline/Listing.antt =====
-- The listings of a round and its look at measured parts put nothing.
use vectorseam.Seam.Pipeline.Puts.{bind-elim}
use vectorseam.Seam.Pipeline.{
  Environment, PipelineError, SourcePart, Step, World, bind, get_bytes, lift, list_under,
  listed_answer, pure,
}
use vectorseam.Seam.Pipeline.Sources.{
  Found, check_source, check_sources, contains_path, list_measurement_objects, list_source_objects,
  list_windows, load_header, load_headers, load_named, load_source_headers, pend, read_measured,
}
use vectorseam.Seam.Model.{AggregationConfig}
use vectorseam.Base.{
  ℕ, ◌&&◌, Bool, Assoc, if◌then◌else◌, Option, none, some, List, [], ◌∷◌, Bytes, codes, Result, ◌∙◌,
  ◌≡◌, refl, true, false,
}
use vectorseam.Seam.Floats.{Floats}

-- A step that puts nothing.
pub record Quiet {A : Type 0} (step : Step A) : Type 0 where
  pub quiet : (w : World) → (step w).0.puts ≡ w.puts

bind-Quiet :
    {A B : Type 0} (first : Step A) (f : A → Step B)
    → Quiet first
    → ((a : A) → Quiet (f a))
    → Quiet (bind first f)
bind-Quiet first f k kf = record {
  quiet = λ w.
      bind-elim (λ r. r.0.puts ≡ w.puts) first f w (λ a h. (kf a).quiet (first w).0 ∙ k.quiet w)
        (λ failure. k.quiet w);
}

pub pure-Quiet : {A : Type 0} (a : A) → Quiet (pure a)
unfolding pure
pure-Quiet a = record { quiet = λ w. refl }

pub lift-Quiet : {A : Type 0} (result : Result PipelineError A) → Quiet (lift result)
unfolding lift
lift-Quiet result = record { quiet = λ w. refl }

module _ (fl : Floats) (env : Environment fl) where
  pub get_bytes-Quiet : (path : Bytes) → Quiet (get_bytes fl env path)
  unfolding get_bytes
  get_bytes-Quiet path = record { quiet = λ w. refl }

  listed-Quiet :
      (prefix : Bytes) (w : World) (answer : Option (List Bytes))
      → (listed_answer fl env w prefix answer).0.puts ≡ w.puts
  listed-Quiet prefix w none = refl
  listed-Quiet prefix w (some paths) = refl

  list_under-Quiet : (prefix : Bytes) → Quiet (list_under fl env prefix)
  unfolding list_under
  list_under-Quiet prefix = record { quiet = λ w. listed-Quiet prefix w (env.list w.moment prefix) }

  pub list_windows-Quiet :
      {A : Type 0} (root cohort : Bytes) (select : ℕ → List Bytes → List A) (window_starts : List ℕ)
      → Quiet (list_windows fl env root cohort select window_starts)
  unfolding list_windows
  list_windows-Quiet root cohort select [] = pure-Quiet []
  list_windows-Quiet root cohort select (window_start ∷ window_starts) =
      bind-Quiet _ _ (lift-Quiet _) (λ timestamp. bind-Quiet _ _ (list_under-Quiet _) (λ paths.
        bind-Quiet _ _ (list_windows-Quiet root cohort select window_starts)
          (λ objects. pure-Quiet _)))

  load_named-Quiet :
      (cohort : Bytes) (width window_start : ℕ) (path : Bytes) (part_ulid : Option Bytes)
      (by_ulid : Assoc SourcePart)
      → Quiet (load_named fl env cohort width window_start path part_ulid by_ulid)
  unfolding load_header
  load_named-Quiet cohort width window_start path none by_ulid = pure-Quiet by_ulid
  load_named-Quiet cohort width window_start path (some part_ulid) by_ulid =
      bind-Quiet _ _ (get_bytes-Quiet path)
        (λ bytes. bind-Quiet _ _ (lift-Quiet _) (λ prepared. lift-Quiet _))

  pub load_headers-Quiet :
      (cohort : Bytes) (width : ℕ) (by_ulid : Assoc SourcePart) (objects : List (ℕ × Bytes))
      → Quiet (load_headers fl env cohort width by_ulid objects)
  unfolding load_headers
  load_headers-Quiet cohort width by_ulid [] = pure-Quiet by_ulid
  load_headers-Quiet cohort width by_ulid ((window_start, path) ∷ objects) =
      bind-Quiet _ _ (load_named-Quiet cohort width window_start path _ by_ulid)
        (λ more. load_headers-Quiet cohort width more objects)

  check_source-Quiet :
      (config : AggregationConfig fl) (objects : List Bytes) (source : SourcePart)
      (found : Found fl env)
      → Quiet (check_source fl env config objects source found)
  unfolding check_source
  check_source-Quiet config objects source found =
      bind-Quiet _ _ (lift-Quiet _)
        (λ paths. go paths (contains_path paths.0 objects && contains_path paths.1 objects))
    where
      go :
          (paths : Bytes × Bytes) (listed : Bool)
          → Quiet (
              if listed
              then read_measured fl env config source paths found
              else pure (pend fl env source found.phase_a_incompatible_parts found))
      go paths true =
          bind-Quiet _ _ (get_bytes-Quiet paths.0)
            (λ truth_bytes. bind-Quiet _ _ (get_bytes-Quiet paths.1) (λ sweep_bytes. lift-Quiet _))
      go paths false = pure-Quiet _

  pub check_sources-Quiet :
      (config : AggregationConfig fl) (objects : List Bytes) (sources : List SourcePart)
      (found : Found fl env)
      → Quiet (check_sources fl env config objects sources found)
  unfolding check_sources
  check_sources-Quiet config objects [] found = pure-Quiet found
  check_sources-Quiet config objects (source ∷ sources) found =
      bind-Quiet _ _ (check_source-Quiet config objects source found)
        (λ more. check_sources-Quiet config objects sources more)

  -- The listings and the headers of a round, and the look at the parts that are measured already.
  pub list_source_objects-Quiet :
      (cohort : Bytes) (window_starts : List ℕ)
      → Quiet (list_source_objects fl env cohort window_starts)
  unfolding list_source_objects
  list_source_objects-Quiet cohort window_starts =
      bind-Quiet _ _ (list_windows-Quiet (codes "cohorts/") cohort _ window_starts)
        (λ objects. pure-Quiet _)

  pub list_measurement_objects-Quiet :
      (cohort : Bytes) (window_starts : List ℕ)
      → Quiet (list_measurement_objects fl env cohort window_starts)
  unfolding list_measurement_objects
  list_measurement_objects-Quiet cohort window_starts =
      list_windows-Quiet (codes "measurements/") cohort _ window_starts

  pub load_source_headers-Quiet :
      (cohort : Bytes) (width : ℕ) (objects : List (ℕ × Bytes))
      → Quiet (load_source_headers fl env cohort width objects)
  unfolding load_source_headers
  load_source_headers-Quiet cohort width objects =
      bind-Quiet _ _ (load_headers-Quiet cohort width [] objects) (λ by_ulid. pure-Quiet _)

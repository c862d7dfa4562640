-- ===== src/Seam/Pipeline.antt =====
-- crates/seam/src/pipeline.rs: a cohort's round with its object store. A computation counts the moments
-- at which it asks its environment, and keeps the objects that the store has acknowledged, in order.
pub mod Sources
pub mod Round
pub mod Puts
pub mod Listing
pub mod Gathering
pub mod Runs
pub mod Turns
pub mod Stored
pub mod Publication
use vectorseam.Seam.Accounting.{AggregateError, ListedPart}
use vectorseam.Seam.Measure.{
  Moment, PreparePartError, PreparedSample, SweepMeasurementRow, TruthMeasurement,
}
use vectorseam.Seam.Model.{IntermediateMetadata, IntermediatePart, RoundOutput}
use vectorseam.Core.Window.{WindowError, format_window_timestamp}
use vectorseam.Base.{
  ℕ, ◌+◌, Bool, true, false, Option, none, some, List, [], ◌∷◌, ◌++◌, Bytes, codes, Result, ok, err,
  ◌>>=◌,
}
use vectorseam.Seam.Floats.{Floats}

pub data Operation : Type 0 where
  list_ get_ get_body put_ : Operation

-- The text of an error of the store, of a database and of Parquet is left out. `json` is a failure of
-- the serializer, which the source passes on within `Aggregate`.
pub data PipelineError : Type 0 where
  window_error : WindowError → PipelineError
  aggregate_error : AggregateError → PipelineError
  storage : Operation → Bytes → PipelineError
  duplicate_source_part encode_intermediate read_encoded_intermediate connection_lost :
      Bytes → PipelineError
  source_segment : Bytes → PreparePartError → PipelineError
  incompatible_counter_overflow json : PipelineError

pub record SourcePart : Type 0 where
  pub path : Bytes
  pub listed : ListedPart

-- What the store answers to a GET.
pub data GetAnswer : Type 0 where
  not_found get_failed body_failed : GetAnswer
  content : Bytes → GetAnswer

-- What is not in the repository: at each moment the store's answers, the measurements and whether the
-- round is cancelled; `object_store::path::Path`, `Ulid` and serde; the two files of a part, of Parquet.
pub record Environment (fl : Floats) : Type 0 where
  pub list : ℕ → Bytes → Option (List Bytes)
  pub get : ℕ → Bytes → GetAnswer
  pub put : ℕ → Bytes → Bool
  pub is_cancelled : ℕ → Bool
  pub moments : ℕ → PreparedSample → Moment fl
  pub extension : Bytes → Option Bytes
  pub filename : Bytes → Option Bytes
  pub parse_ulid : Bytes → Option Bytes
  pub from_slice : Bytes → Option (RoundOutput fl)
  pub to_vec : RoundOutput fl → Option Bytes
  pub encode_pair :
      IntermediateMetadata
      → List (TruthMeasurement fl)
      → List (SweepMeasurementRow fl)
      → Option (Bytes × Bytes)
  pub read_pair : Bytes → Bytes → Option (IntermediatePart fl)

pub record World : Type 0 where
  pub moment : ℕ
  pub puts : List (Bytes × Bytes)

abbrev pub Step : Type 0 → Type 0
Step A = World → World × Result PipelineError A

abbrev pub tick : World → World
tick w = record { moment = w.moment + 1; puts = w.puts }

unfoldable pub pure : {A : Type 0} → A → Step A
pure a w = (w, ok a)

unfoldable pub lift : {A : Type 0} → Result PipelineError A → Step A
lift result w = (w, result)

abbrev pub bind_result :
    {A B : Type 0} → World × Result PipelineError A → (A → Step B) → World × Result PipelineError B
bind_result (w, ok a) f = f a w
bind_result (w, err failure) f = (w, err failure)

-- `?` between two steps.
unfoldable pub bind : {A B : Type 0} → Step A → (A → Step B) → Step B
bind first f w = bind_result (first w) f

unfoldable pub intermediate_paths : Bytes → ℕ → Bytes → Result WindowError (Bytes × Bytes)
intermediate_paths cohort window_start part_ulid = do
  timestamp ← format_window_timestamp window_start
  let prefix =
      codes "measurements/"
      ++ (cohort ++ (codes "/window=" ++ (timestamp ++ (codes "/part-" ++ part_ulid))))
  ok (prefix ++ codes ".truth.parquet", prefix ++ codes ".sweep.parquet")

unfoldable pub round_paths : Bytes → ℕ → Result WindowError (Bytes × Bytes)
round_paths cohort round_end = do
  timestamp ← format_window_timestamp round_end
  ok (
    codes "calibrations/" ++ (cohort ++ (codes "/round-" ++ (timestamp ++ codes ".json"))),
    codes "calibrations/" ++ (cohort ++ codes "/latest.json"),
  )

module _ (fl : Floats) (env : Environment fl) where
  abbrev pub bytes_of : Bytes → GetAnswer → Result PipelineError Bytes
  bytes_of path not_found = err (storage get_ path)
  bytes_of path get_failed = err (storage get_ path)
  bytes_of path body_failed = err (storage get_body path)
  bytes_of path (content bytes) = ok bytes

  unfoldable pub get_bytes : Bytes → Step Bytes
  get_bytes path w = (tick w, bytes_of path (env.get w.moment path))

  abbrev pub previous_of : Bytes → GetAnswer → Result PipelineError (Option (RoundOutput fl))
  previous_of path not_found = ok none
  previous_of path get_failed = err (storage get_ path)
  previous_of path body_failed = ok none
  previous_of path (content bytes) = ok (env.from_slice bytes)

  unfoldable pub load_previous_round : Bytes → Step (Option (RoundOutput fl))
  load_previous_round path w = (tick w, previous_of path (env.get w.moment path))

  abbrev pub put_answer : World → Bytes → Bytes → Bool → World × Result PipelineError (Unit {0})
  put_answer w path bytes true =
      (record { moment = w.moment + 1; puts = w.puts ++ ((path, bytes) ∷ []) }, ok tt)
  put_answer w path bytes false = (tick w, err (storage put_ path))

  unfoldable pub put_bytes : Bytes → Bytes → Step (Unit {0})
  put_bytes path bytes w = put_answer w path bytes (env.put w.moment path)

  abbrev pub listed_answer :
      World → Bytes → Option (List Bytes) → World × Result PipelineError (List Bytes)
  listed_answer w prefix none = (tick w, err (storage list_ prefix))
  listed_answer w prefix (some paths) = (tick w, ok paths)

  -- `store.list(Some(&prefix))`, collected.
  unfoldable pub list_under : Bytes → Step (List Bytes)
  list_under prefix w = listed_answer w prefix (env.list w.moment prefix)

  -- `cancellation.is_cancelled()`
  unfoldable pub check_cancelled : Step Bool
  check_cancelled w = (tick w, ok (env.is_cancelled w.moment))

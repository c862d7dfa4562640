-- ===== src/Lib.antt =====
-- VectorSeam: a library of verified models of its Rust crates.
--
-- VectorSeam collects query vectors from applications and tunes vector search with them. Clients send
-- frames, each with a cohort name and a vector, to a collector. The collector buffers the frames of each
-- cohort, and at the end of each window puts them as one segment into an object store, under a key made of
-- the cohort, the window and a ULID. The tuner reads the segments back, measures how well a database's
-- index answers each sampled vector at the values of the parameter ef of a grid, and once a round decides
-- per cohort which ef to recommend. It stores the decision as latest.json, which the recommendation server
-- hands to applications.
--
-- The shared formats, crates/vectorseam-core/src:
--   Core/Binary, Core/Endian   binary.rs: little-endian words at an offset
--   Core/Utf8                  `str::from_utf8` of the standard library, as Unicode defines it
--   Core/Frame                 frame.rs: `parse_frame_header`, `total_frame_len`
--   Core/Cohort                cohort.rs: `validate_cohort_name` and the conversions
--   Core/Segment               segment.rs: `write_segment`, `read_segment`
--   Core/Window                window.rs: `aligned_window_start`, `civil_from_days`, `object_key`
--   Core/Recommendation        recommendation.rs: the limits of an ef
-- The collector, crates/vectorseam-collector/src:
--   Collector/Memory           memory.rs: `MemoryTracker`; Memory/Threads interleaves the attempts of its
--                              atomic loops
--   Collector/Counters         counters.rs: the counters and the ledger of pending drops
--   Collector/Reader           reader.rs: `handle_connection` as rounds of a loop over the input's bytes
--   Collector/Writer           writer.rs: the state of `Writer` and the flushing of a cohort;
--                              Writer/Handlers has what the loop does with an event or a tick
--   Collector/Config           config.rs: `validate_config` and `live_memory_bytes`
--   Collector/Time             time.rs: the clock's reading
-- The tuner, crates/seam/src:
--   Seam/Config                config.rs: validation at startup; Config/Build has the cohorts,
--                              `Config::from_raw` and the configuration of a cohort's aggregation
--   Seam/Model                 model.rs: the data of a round
--   Seam/Accounting            accounting.rs: the storage windows and the counts of a round
--   Seam/Measure               measure.rs: `prepare_segment`; Measure/Part has the loop over the samples
--   Seam/Hash, Seam/Math       math.rs: FNV-1a, the split, quantiles, confidence and `select_ef`
--   Seam/Population            population.rs: `deduplicate_samples`; Population/Statistics has the
--                              validation, the summaries and the selection
--   Seam/Aggregate             aggregate.rs: `aggregate`; Aggregate/Checks has the validations and
--                              comparisons, Aggregate/Effective the recommendation in force
--   Seam/Pipeline              pipeline.rs: `run_cohort_round` as steps that ask an environment;
--                              Pipeline/Sources has the listings and the reuse of measured parts,
--                              Pipeline/Round the measuring and the publication
--   Seam/Daemon                daemon.rs: the loop of rounds, its ticks and time stamps
-- The recommendation server, crates/vectorseam-recommendation-server/src/lib.rs:
--   Recommend/Config           options and configuration
--   Recommend/Lookup           a look-up of latest.json
--   Recommend/Handler          `get_ef_search` with the caches and permits that requests share, as a
--                              state and its events
--   Recommend/Connections      the loop of `Server::serve` and `drain_connections`
--   Recommend/Rounds           what the tuner's rounds write, as the server reads it
-- Base has what they share: Boolean tests, lists, results, bytes, and hash maps as association lists. The
-- tests and the theorems at concrete inputs are in Core/Tests, Collector/Tests, Seam/Tests with
-- Tests/Rounds, Tests/Parts and Tests/Pipeline, and Recommend/Tests; Seam/Samples has data for them.
--
-- A reader turns bytes into `FrameEvent`s, each with a guard that `MemoryTracker::try_reserve` has
-- reserved; the channel hands the events to the writer, which drops the guards with the records it
-- flushes. Frames that find no memory or no place in the channel are recorded in the counters' ledger, and
-- the writer folds the ledger into the counts of received frames that the segments' headers carry.
--
-- Numbers. Fields of machine width are natural numbers, with the checked, saturating and wrapping
-- operations of the code written out; `usize` has 64 bits. Fuel: `read_records` gets the buffer's length
-- and one, and never runs out, since a record takes at least eight bytes; `handle_connection` ends on
-- any fuel beyond the input's length, since a round takes at least four bytes; `windows_down` gets the
-- end of the round and one, and a step takes at least a second off; a number is printed on
-- twenty digits, which hold every 64-bit number. An ef in the tuner is a natural number, since every
-- validation refuses a negative one as it refuses zero; the server reads an integer. Durations are numbers
-- of nanoseconds.
--
-- Parameters. The object store, the ULIDs and the clock are not this repository's code. The writer's
-- `Environment` says how the store answers each `put` and which ULID each key gets; the clock's readings
-- and the channel's answers come with a round or a tick. A handler of the writer is one step: a
-- reservation or a drop that a reader makes while the writer waits for the store comes before or after it. A run of
-- the writer's loop has no steps of the readers in it; the theorems about one handler hold whatever the
-- readers have made of the shared state before it. A waiting handler of the server may be dropped at any
-- moment, which is an event.
-- `Floats` in Seam/Floats is the interface of `f64` and of the Beta distribution of the crate statrs;
-- theorems that need the order of numbers take `IsOrdered`, a part of IEEE 754, as a hypothesis. What a
-- measurement of a sample gives comes as a `Moment`. `Environment` of Seam/Pipeline has what a round asks,
-- moment by moment: the store, the measurer, the cancellation, and the crates for paths, ULIDs, JSON and
-- Parquet; every question is answered as it may, and no law is asked of the answers. The server takes `serde_json::from_slice` as a
-- parameter and the store's answer with the end of each load; an entry that a cache of the crate moka
-- drops is an event.
--
-- Not modelled: sockets, logging and start-up; of crates/seam, the sessions with the database and their
-- pacing, the tuner's process around a round, Parquet files and the parsing of YAML;
-- crates/vectorseam-runtime; the dashboard, the demonstration and the client in other languages.
mod Base
pub mod Core
pub mod Collector
pub mod Seam
pub mod Recommend

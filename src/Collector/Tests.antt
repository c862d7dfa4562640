-- ===== src/Collector/Tests.antt =====
-- The theorems about the collector at concrete inputs, and tests of the definitions.
use vectorseam.Collector.Writer.Buffers.{handle_frame-buffers, records_at}
use vectorseam.Base.{
  ◌++◌, ◌⊎◌, ◌<◌, ℕ, ◌+◌, ◌≤◌, ◌≡◌, refl, true, List, [], ◌∷◌, some, arith, All, length, Bytes,
  codes, ok, bytes_eq, split, starts_with,
}
use vectorseam.Core.Utf8.{from_utf8}
use vectorseam.Core.Cohort
use vectorseam.Core.Cohort.{validate_cohort_name}
use vectorseam.Core.Frame.{FrameHeader}
use vectorseam.Core.Frame.Encode.{header_of, encode, IsFrame}
use vectorseam.Core.Window.{aligned_window_start}
use vectorseam.Collector.Memory.{try_reserve, release}
use vectorseam.Collector.Memory.Solo.{try_reserve_iff, release_reserved}
use vectorseam.Core.Segment.{max_segment_overhead_bytes}
use vectorseam.Collector.Config.{default_config, validate_config, live_memory_bytes}
use vectorseam.Collector.Config.Fits.{validate_config_lem}
use vectorseam.Collector.Memory.Threads.{
  System, outside, holding, releasing, start_release, step, Reach, here, next, IsConsistent,
  Reach-IsConsistent, release_never_clamps,
}
use vectorseam.Collector.Counters.{default, record_channel_drop, record_memory_drop}
use vectorseam.Collector.Counters.Ledger.{pending, pending-record}
use vectorseam.Collector.Reader.{
  FrameEvent, ReaderConfig, closed, Moment, sent, full, handle_connection,
}
use vectorseam.Collector.Reader.Rounds.{IsEvent}
use vectorseam.Collector.Reader.Delivery.{
  handle_connection_finishes, handle_connection_sound, handle_connection-stream, stream, events_of,
  IsAcceptable,
}
use vectorseam.Collector.Reader.Settles.{HasRoom, IsBalanced}
use vectorseam.Collector.Reader.Accounting.{handle_connection-IsBalanced}
use vectorseam.Collector.Writer.{batch_of, failed, put_flush, Writer, Environment, stored}
use vectorseam.Collector.Writer.Handlers.{
  Signal, buffered, frame, tick, handle_frame, close_window, run,
}
use vectorseam.Collector.Writer.Ownership.{Owns, held}
use vectorseam.Collector.Writer.Release.{handle_frame-Owns, close_window-empties, run_releases}
use vectorseam.Collector.Writer.Stored.{IsSound, IsStored}
use vectorseam.Collector.Writer.Run.{run-IsSound}
use vectorseam.Collector.Writer.Outcomes.{Counts, put_flush-Counts}
use vectorseam.Collector.Writer.Windows.{handle_frame-window}

abbrev vector : Bytes
vector = 0 ∷ 0 ∷ 128 ∷ 63 ∷ 0 ∷ 0 ∷ 0 ∷ 64 ∷ []

abbrev header : FrameHeader
header = header_of 1 2 (codes "prod") vector

header-IsFrame : IsFrame header vector
unfolding from_utf8
header-IsFrame = record {
  frame_len = refl;
  fits = omega arith;
  dtype = omega arith;
  dimension = omega arith;
  name_len = refl;
  vector_len = refl;
  name = refl;
}

prod_is_valid : validate_cohort_name (codes "prod") ≡ ok tt
unfolding validate_cohort_name split Cohort.validate_segments Cohort.validate_segment bytes_eq
    starts_with Cohort.is_allowed_segment_byte
prod_is_valid = refl

try_reserve_iff_example :
    (try_reserve 70 30 100 ≡ some 100 → (100 ≡ 70 + 30) × (100 ≤ 100))
    × ((100 ≡ 70 + 30) × (100 ≤ 100) → try_reserve 70 30 100 ≡ some 100)
try_reserve_iff_example = try_reserve_iff 70 30 100 (omega arith) 100

reserved_all : try_reserve 70 30 100 ≡ some 100
unfolding try_reserve
reserved_all = refl

release_reserved_example : release 100 30 ≡ 70
release_reserved_example = release_reserved 70 30 100 reserved_all

-- One thread holds 40 bytes; another has seen them and is about to reserve 60 more.
abbrev two_threads : System
two_threads = record { used = 40; threads = holding 40 ∷ outside ∷ [] }

abbrev releasing_first : System
releasing_first = record { used = 40; threads = releasing 40 40 40 ∷ outside ∷ [] }

two_threads-IsConsistent : IsConsistent 100 two_threads
two_threads-IsConsistent = record { counted = refl; within = omega arith; sound = (tt, (tt, tt)) }

first_releases : Reach 100 two_threads releasing_first
first_releases =
    next here
      (step [] (outside ∷ []) (holding 40) (releasing 40 40 40) refl refl (start_release 40))

Reach-IsConsistent_example : IsConsistent 100 releasing_first
Reach-IsConsistent_example = Reach-IsConsistent two_threads-IsConsistent first_releases

abbrev guard : ℕ
guard = 40

release_never_clamps_example : (guard ≡ guard) × (guard ≤ guard) × (guard ≤ releasing_first.used)
release_never_clamps_example =
    release_never_clamps two_threads-IsConsistent first_releases [] (outside ∷ []) 40 40 40 refl

pending-record_example :
    (pending (record_channel_drop default (codes "prod")) ≡ 1)
    × (pending (record_memory_drop default (codes "prod")) ≡ 1)
pending-record_example = pending-record default (codes "prod") refl (omega arith)

abbrev config : ReaderConfig
config = record { max_frame_size = 1000; live_memory_bytes = 5000 }

abbrev moment : Moment
moment = record { unix_micros_now = some 601000000; used_bytes = 0; try_send = sent }

abbrev crowded : Moment
crowded = record { unix_micros_now = some 601000000; used_bytes = 0; try_send = full }

handle_connection_finishes_example :
    (handle_connection 41 config closed (λ i. moment) default (encode header vector)).finished
    ≡ true
handle_connection_finishes_example =
    handle_connection_finishes 41 config closed (λ i. moment) default (encode header vector) short
  where
    short : length (encode header vector) < 41
    short = unfold encode in omega arith

handle_connection_sound_example :
    All
      (IsEvent config)
      (handle_connection 41 config closed (λ i. moment) default (encode header vector)).sent
handle_connection_sound_example =
    handle_connection_sound 41 config closed (λ i. moment) default (encode header vector)

header-IsAcceptable : IsAcceptable config (header, vector)
unfolding encode
header-IsAcceptable = record { frame = header-IsFrame; cohort = prod_is_valid; sized = omega arith }

handle_connection-stream_example :
    (handle_connection 3 config closed
      (λ i. moment)
      default
      (stream ((header, vector) ∷ (header, vector) ∷ []))).sent
    ≡ events_of (λ i. 601000000) ((header, vector) ∷ (header, vector) ∷ [])
handle_connection-stream_example =
    handle_connection-stream 3 config closed (λ i. 601000000) (λ i. moment) default
      ((header, vector) ∷ (header, vector) ∷ []) (omega arith)
      (λ i. record { clock = refl; channel = refl; budget = omega arith })
      (header-IsAcceptable, (header-IsAcceptable, tt)) (omega arith)

default-HasRoom : HasRoom 41 default
default-HasRoom = record {
  valid = omega arith;
  drops = record {
    channel = omega arith;
    memory = omega arith;
    ledger = omega arith;
    healthy = refl;
  };
}

handle_connection-IsBalanced_example :
    IsBalanced default
      (handle_connection 41 config closed (λ i. crowded) default (encode header vector)).counters
      (length
        (handle_connection 41 config closed (λ i. crowded) default (encode header vector)).sent)
handle_connection-IsBalanced_example =
    handle_connection-IsBalanced 41 config closed (λ i. crowded) default (encode header vector)
      default-HasRoom

abbrev event : FrameEvent
event = record {
  cohort = codes "prod";
  receive_time = 601000000;
  frame = encode header vector;
  memory = 48;
}

abbrev environment : Environment
environment = record { ulid = λ n. codes "01ARZ3NDEKTSV4RRFFQ69G5FAV"; put = λ n. stored }

-- A writer whose tracker counts an event that is in flight, and seven bytes of others.
abbrev writer : Writer
writer = record {
  config = record { window_seconds = 60; per_cohort_memory_bytes = 1000; live_memory_bytes = 5000 };
  counters = default;
  memory = 55;
  states = [];
  current_window_start = 540;
  objects = [];
  keys_made = 0;
}

writer-Owns : Owns (48 + 7) writer
writer-Owns = record { distinct = tt; memory = refl }

writer-IsSound : IsSound writer
writer-IsSound = record {
  states = tt;
  ledger = tt;
  window_seconds = omega arith;
  window = omega arith;
  objects = tt;
}

abbrev signals : List Signal
signals = frame event ∷ tick (some 660) ∷ []

handle_frame-buffers_example :
    Owns 7 (handle_frame environment event writer)
    × ((records_at event.cohort (handle_frame environment event writer)
          ≡ records_at event.cohort writer ++ (buffered event ∷ []))
        ⊎ (records_at event.cohort (handle_frame environment event writer) ≡ buffered event ∷ []))
handle_frame-buffers_example = handle_frame-buffers environment event 7 writer writer-Owns

close_window-empties_example :
    (held (close_window environment (some 660) (handle_frame environment event writer)) ≡ 0)
    × ((close_window environment (some 660) (handle_frame environment event writer)).memory ≡ 7)
close_window-empties_example =
    close_window-empties environment (some 660) 7 (handle_frame environment event writer)
      (handle_frame-Owns environment event 7 writer writer-Owns)

run_releases_example : (run environment signals writer).memory ≡ 7
run_releases_example =
    run_releases environment signals 7 writer (record { distinct = tt; memory = refl })

run-IsSound_example : All IsStored (run environment signals writer).objects
run-IsSound_example =
    run-IsSound environment signals writer
      (record { name = prod_is_valid; time = omega arith }, (omega arith, tt)) writer-IsSound

event_window : aligned_window_start 601 60 ≡ ok 600
unfolding aligned_window_start
event_window = refl

handle_frame-window_example : (handle_frame environment event writer).current_window_start ≡ 600
handle_frame-window_example =
    handle_frame-window environment event 600 7 writer writer-Owns event_window

default_config_is_valid : validate_config default_config ≡ ok tt
unfolding validate_config live_memory_bytes
default_config_is_valid = refl

validate_config_lem_example :
    (live : ℕ) × (live_memory_bytes default_config ≡ ok live)
    × (live + default_config.per_cohort_memory_bytes + max_segment_overhead_bytes
        ≡ default_config.global_memory_bytes)
    × (try_reserve 0 (1000 + 8) live ≡ some (1000 + 8))
    × (1000 + 8 ≤ default_config.per_cohort_memory_bytes)
    × (0 < default_config.window_seconds)
validate_config_lem_example =
    validate_config_lem default_config 1000 default_config_is_valid (omega arith)

abbrev failing : Environment
failing = record environment { put = λ n. failed }

put_flush-Counts_example : Counts writer (
    put_flush failing
      (batch_of writer.config
        (codes "prod")
        540
        (record { records = []; bytes = 0; received_frame_count = 3 }))
      writer)
put_flush-Counts_example =
    put_flush-Counts failing
      (batch_of writer.config (codes "prod") 540
        (record { records = []; bytes = 0; received_frame_count = 3 }))
      writer (omega arith) (omega arith)

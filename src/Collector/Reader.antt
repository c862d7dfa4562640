-- ===== src/Collector/Reader.antt =====
-- crates/vectorseam-collector/src/reader.rs: one connection, read frame by frame.
--
-- The connection is the bytes that its peer has sent, and how it ends when they are used up: by the peer,
-- by shutdown, by the idle timeout or by an error. The loop waits for nothing else, so a shutdown or a
-- timeout in the middle of the stream is a shorter input. What the reader asks of the rest of the process
-- in a round is a `Moment`: the clock, the tracker's value at the reservation, the channel's answer.
pub mod Rounds
pub mod Delivery
pub mod Settles
pub mod Accounting
use vectorseam.Base.{
  ℕ, zero, suc, ◌+◌, ◌-◌, Bool, true, false, Option, none, some, List, [], ◌∷◌, ◌++◌, length, take,
  drop, ltb, leb, if◌then◌else◌, Bytes, Result, ok, err, checked_add, usize_max, bump,
}
use vectorseam.Core.Endian.{from_le_bytes}
use vectorseam.Core.Cohort
use vectorseam.Core.Cohort.{CohortName, CohortNameError}
use vectorseam.Core.Frame.{FrameHeader, FrameError, parse_frame_header}
use vectorseam.Collector.Memory.{try_reserve}
use vectorseam.Collector.Counters.{CollectorCounters, record_channel_drop, record_memory_drop}

pub record FrameEvent : Type 0 where
  pub cohort : CohortName
  pub receive_time : ℕ
  pub frame : Bytes
  pub memory : ℕ

pub record ReaderConfig : Type 0 where
  pub max_frame_size : ℕ
  pub live_memory_bytes : ℕ

-- How a connection ends.
pub data Ending : Type 0 where
  closed shutdown idle_timeout error : Ending

-- `ReadOutcome`; the bytes read and the bytes behind them, or the ending.
pub data ReadOutcome : Type 0 where
  read : Bytes → Bytes → ReadOutcome
  ended : Ending → ReadOutcome

-- What `try_send` answers.
pub data SendOutcome : Type 0 where
  sent full channel_closed : SendOutcome

pub record Moment : Type 0 where
  pub unix_micros_now : Option ℕ
  pub used_bytes : ℕ
  pub try_send : SendOutcome

unfoldable pub read_exact_or_shutdown : Bytes → ℕ → Ending → ReadOutcome
read_exact_or_shutdown input n ending =
    if leb n (length input) then read (take n input) (drop n input) else ended ending

-- The counter that an ending moves.
unfoldable pub count_ending : CollectorCounters → Ending → CollectorCounters
count_ending c closed = c
count_ending c shutdown = c
count_ending c idle_timeout = record c {
  idle_connection_timeouts = bump c.idle_connection_timeouts;
}
count_ending c error = record c { connection_errors = bump c.connection_errors }

-- What became of a frame: the loop goes on, with the event that was sent if one was, or the connection
-- is closed.
pub data Verdict : Type 0 where
  delivered : FrameEvent → Verdict
  dropped : Verdict
  hung_up : Verdict

-- An event that is not sent is dropped, and its guard with it.
unfoldable pub send_event : Moment → CollectorCounters → FrameEvent → CollectorCounters × Verdict
send_event moment c event = elim moment.try_send [
  | sent ↦ (c, delivered event)
  | full ↦ (record_channel_drop c event.cohort, dropped)
  | channel_closed ↦ (record_channel_drop c event.cohort, hung_up)
]

-- From the reservation on: the frame is valid and stamped.
unfoldable pub reserve_and_send :
    ReaderConfig → Moment → CollectorCounters → CohortName → ℕ → Bytes → CollectorCounters × Verdict
reserve_and_send config moment c cohort receive_time frame =
    elim (checked_add usize_max (length frame) 8) [
      | none ↦ (record_memory_drop c cohort, dropped)
      | some memory_bytes ↦
          elim (try_reserve moment.used_bytes memory_bytes config.live_memory_bytes) [
            | none ↦ (record_memory_drop c cohort, dropped)
            | some used ↦ send_event moment c (record {
              cohort = cohort;
              receive_time = receive_time;
              frame = frame;
              memory = memory_bytes;
            })
          ]
    ]

-- From the parser on: the whole frame has been read.
unfoldable pub take_frame :
    ReaderConfig → Moment → CollectorCounters → Bytes → CollectorCounters × Verdict
take_frame config moment c frame = elim (parse_frame_header frame) [
  | err e ↦ (record c { invalid_frames = bump c.invalid_frames }, dropped)
  | ok parsed ↦ elim (Cohort.try_from parsed.name) [
    | err e ↦ (record c { invalid_names = bump c.invalid_names }, dropped)
    | ok cohort ↦ elim moment.unix_micros_now [
      | none ↦ (c, dropped)
      | some receive_time ↦
          reserve_and_send config moment
            (record c { valid_frames_received = bump c.valid_frames_received }) cohort receive_time
            frame
    ]
  ]
]

-- One round: the counters, and either the connection is done or there is a verdict and more input.
pub data Round : Type 0 where
  done : CollectorCounters → Round
  took : CollectorCounters → Verdict → Bytes → Round

abbrev took_frame : CollectorCounters × Verdict → Bytes → Round
took_frame (c, v) rest = took c v rest

unfoldable pub read_body :
    ReaderConfig → Ending → Moment → CollectorCounters → Bytes → Bytes → ℕ → Round
read_body config ending moment c len_buf input frame_total_len =
    elim (read_exact_or_shutdown input (frame_total_len - 4) ending) [
      | ended e ↦ done (count_ending c e)
      | read body rest ↦ took_frame (take_frame config moment c (len_buf ++ body)) rest
    ]

abbrev count_read : CollectorCounters → CollectorCounters
count_read c = record c { frames_read = bump c.frames_read }

abbrev count_invalid : CollectorCounters → CollectorCounters
count_invalid c = record c { invalid_frames = bump c.invalid_frames }

abbrev count_oversized : CollectorCounters → CollectorCounters
count_oversized c = record c { oversized_frames = bump c.oversized_frames }

unfoldable pub read_round : ReaderConfig → Ending → Moment → CollectorCounters → Bytes → Round
read_round config ending moment c input = elim (read_exact_or_shutdown input 4 ending) [
  | ended e ↦ done (count_ending c e)
  | read len_buf rest ↦ elim (checked_add usize_max (from_le_bytes len_buf) 4) [
    | none ↦ done (count_invalid (count_read c))
    | some frame_total_len ↦
        if ltb config.max_frame_size frame_total_len
        then done (count_oversized (count_read c))
        else read_body config ending moment (count_read c) len_buf rest frame_total_len
  ]
]

-- A connection's run: its counters, the events in the order in which they were sent, and whether it ran
-- to its end; `false` says that the model's fuel ran out.
pub record Run : Type 0 where
  pub counters : CollectorCounters
  pub sent : List FrameEvent
  pub finished : Bool

abbrev with_event : FrameEvent → Run → Run
with_event event r = record r { sent = event ∷ r.sent }

-- The loop, on fuel; `moments` are those of the rounds to come.
unfoldable pub handle_connection :
    ℕ → ReaderConfig → Ending → (ℕ → Moment) → CollectorCounters → Bytes → Run
handle_connection zero config ending moments c input = record {
  counters = c;
  sent = [];
  finished = false;
}
handle_connection (suc fuel) config ending moments c input =
    elim (read_round config ending (moments 0) c input) [
      | done d ↦ record { counters = d; sent = []; finished = true }
      | took d (delivered event) rest ↦
          with_event event (handle_connection fuel config ending (λ i. moments (suc i)) d rest)
      | took d dropped rest ↦ handle_connection fuel config ending (λ i. moments (suc i)) d rest
      | took d hung_up rest ↦ record { counters = d; sent = []; finished = true }
    ]

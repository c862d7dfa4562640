-- ===== src/Collector/Reader/Settles.antt =====
-- What becomes of one frame, in the reader's counters.
use vectorseam.Base.{
  ℕ, suc, ◌+◌, ◌≤◌, ◌≡◌, refl, ◌∙◌, false, arith, length, Bytes, u64_max, usize_max, ok, err,
  Option, none, some, bump, Result, checked_add,
}
use vectorseam.Core.Cohort
use vectorseam.Core.Cohort.{CohortName, CohortNameError}
use vectorseam.Core.Frame.{FrameHeader, FrameError, parse_frame_header}
use vectorseam.Collector.Memory.{try_reserve}
use vectorseam.Collector.Counters.{CollectorCounters, record_channel_drop, record_memory_drop}
use vectorseam.Collector.Counters.Ledger.{
  record-channel_drop, record-memory_drop, pending, pending-record,
}
use vectorseam.Collector.Reader.{
  FrameEvent, ReaderConfig, Moment, SendOutcome, sent, full, channel_closed, Verdict, delivered,
  dropped, hung_up, send_event, reserve_and_send, take_frame,
}

-- The counters of dropped frames are `n` frames or more away from wrapping, and the ledger is usable.
pub record Fits (n : ℕ) (c : CollectorCounters) : Type 0 where
  pub channel : c.channel_dropped_frames + n ≤ u64_max
  pub memory : c.memory_dropped_frames + n ≤ u64_max
  pub ledger : pending c + n ≤ u64_max
  pub healthy : c.poisoned ≡ false

-- So too the counter of valid frames.
pub record HasRoom (n : ℕ) (c : CollectorCounters) : Type 0 where
  pub valid : c.valid_frames_received + n ≤ u64_max
  pub drops : Fits n c

-- From `c` to `d`, every frame counted as valid was sent or counted as dropped, and every frame counted as
-- dropped was recorded in the ledger.
pub record IsBalanced (c d : CollectorCounters) (n : ℕ) : Type 0 where
  pub frames :
      d.valid_frames_received + c.channel_dropped_frames + c.memory_dropped_frames
      ≡ c.valid_frames_received + d.channel_dropped_frames + d.memory_dropped_frames + n
  pub ledger :
      pending d + c.channel_dropped_frames + c.memory_dropped_frames
      ≡ pending c + d.channel_dropped_frames + d.memory_dropped_frames

abbrev pub sent_by : Verdict → ℕ
sent_by (delivered e) = 1
sent_by dropped = 0
sent_by hung_up = 0

-- One frame more is counted as valid than was, and it is sent or dropped.
record Settles (n : ℕ) (c : CollectorCounters) (r : CollectorCounters × Verdict) : Type 0 where
  room : Fits n r.0
  frames :
      r.0.channel_dropped_frames + r.0.memory_dropped_frames + sent_by r.1
      ≡ c.channel_dropped_frames + c.memory_dropped_frames + 1
  valid : r.0.valid_frames_received ≡ c.valid_frames_received
  ledger :
      pending r.0 + c.channel_dropped_frames + c.memory_dropped_frames
      ≡ pending c + r.0.channel_dropped_frames + r.0.memory_dropped_frames

module _ (n : ℕ) (c : CollectorCounters) (cohort : CohortName) (h : Fits (suc n) c) where
  channel_drop-Settles :
      (v : Verdict) → sent_by v ≡ 0 → Settles n c (record_channel_drop c cohort, v)
  channel_drop-Settles v z =
      let (p, _) = pending-record c cohort h.healthy (omega arith) in
      let (a, b, d, e) = record-channel_drop c cohort in
      record {
        room = record {
          channel = omega arith;
          memory = omega arith;
          ledger = omega arith;
          healthy = e ∙ h.healthy;
        };
        frames = omega arith;
        valid = d;
        ledger = omega arith;
      }

  memory_drop-Settles : (v : Verdict) → sent_by v ≡ 0 → Settles n c (record_memory_drop c cohort, v)
  memory_drop-Settles v z =
      let (_, p) = pending-record c cohort h.healthy (omega arith) in
      let (a, b, d, e) = record-memory_drop c cohort in
      record {
        room = record {
          channel = omega arith;
          memory = omega arith;
          ledger = omega arith;
          healthy = e ∙ h.healthy;
        };
        frames = omega arith;
        valid = d;
        ledger = omega arith;
      }

module _ (n : ℕ) (c : CollectorCounters) (h : Fits (suc n) c) where
  send_event-Settles :
      (m : Moment) (e : FrameEvent) (o : SendOutcome)
      → m.try_send ≡ o
      → Settles n c (send_event m c e)
  unfolding send_event
  send_event-Settles m e sent p =
      rw (p, send_event)
        (record {
          room = record {
            channel = omega arith;
            memory = omega arith;
            ledger = omega arith;
            healthy = h.healthy;
          };
          frames = omega arith;
          valid = refl;
          ledger = omega arith;
        })
  send_event-Settles m e full p =
      rw (p, send_event) (channel_drop-Settles n c e.cohort h dropped refl)
  send_event-Settles m e channel_closed p =
      rw (p, send_event) (channel_drop-Settles n c e.cohort h hung_up refl)

  reserve_and_send-Settles :
      (config : ReaderConfig) (m : Moment) (cohort : CohortName) (time : ℕ) (frame : Bytes)
      → Settles n c (reserve_and_send config m c cohort time frame)
  unfolding reserve_and_send
  reserve_and_send-Settles config m cohort time frame =
      after (checked_add usize_max (length frame) 8) refl
    where
      no_memory : Settles n c (record_memory_drop c cohort, dropped)
      no_memory = memory_drop-Settles n c cohort h dropped refl

      reserve :
          (bytes : ℕ) (o : Option ℕ)
          → checked_add usize_max (length frame) 8 ≡ some bytes
          → try_reserve m.used_bytes bytes config.live_memory_bytes ≡ o
          → Settles n c (reserve_and_send config m c cohort time frame)
      reserve bytes none p q = rw (p, reserve_and_send) (rw (q, reserve_and_send) no_memory)
      reserve bytes (some used) p q =
          rw (p, reserve_and_send)
            (rw (q, reserve_and_send) (send_event-Settles m _ m.try_send refl))

      after :
          (o : Option ℕ)
          → checked_add usize_max (length frame) 8 ≡ o
          → Settles n c (reserve_and_send config m c cohort time frame)
      after none p = rw (p, reserve_and_send) no_memory
      after (some bytes) p =
          reserve bytes (try_reserve m.used_bytes bytes config.live_memory_bytes) p refl

-- A round keeps the balance, and uses up one frame of the room.
pub record Keeps (n : ℕ) (c : CollectorCounters) (r : CollectorCounters × Verdict) : Type 0 where
  pub room : HasRoom n r.0
  pub balance : IsBalanced c r.0 (sent_by r.1)

-- Counters that do not count valid or dropped frames.
pub record Same (c d : CollectorCounters) : Type 0 where
  pub valid : d.valid_frames_received ≡ c.valid_frames_received
  pub channel : d.channel_dropped_frames ≡ c.channel_dropped_frames
  pub memory : d.memory_dropped_frames ≡ c.memory_dropped_frames
  pub ledger : pending d ≡ pending c
  pub healthy : d.poisoned ≡ c.poisoned

pub Same-Keeps :
    {n : ℕ} {c d : CollectorCounters} (v : Verdict)
    → sent_by v ≡ 0
    → HasRoom (suc n) c
    → Same c d
    → Keeps n c (d, v)
Same-Keeps v z h s = record {
  room = record {
    valid = omega arith;
    drops = record {
      channel = omega arith;
      memory = omega arith;
      ledger = omega arith;
      healthy = s.healthy ∙ h.drops.healthy;
    };
  };
  balance = record { frames = omega arith; ledger = omega arith };
}

pub take_frame-Keeps :
    (n : ℕ) (config : ReaderConfig) (m : Moment) (c : CollectorCounters) (frame : Bytes)
    → HasRoom (suc n) c
    → Keeps n c (take_frame config m c frame)
unfolding take_frame
take_frame-Keeps n config m c frame h = after (parse_frame_header frame) refl
  where
    counted : CollectorCounters
    counted = record c { valid_frames_received = bump c.valid_frames_received }

    fits : Fits (suc n) counted
    fits = record {
      channel = h.drops.channel;
      memory = h.drops.memory;
      ledger = h.drops.ledger;
      healthy = h.drops.healthy;
    }

    valid : (r : CollectorCounters × Verdict) → Settles n counted r → Keeps n c r
    valid r s = record {
      room = record { valid = omega (arith, s.valid); drops = s.room };
      balance = record {
        frames = omega (arith, s.valid, s.frames);
        ledger = omega (arith, s.ledger);
      };
    }

    same : (d : CollectorCounters) → Same c d → Keeps n c (d, dropped)
    same d s = Same-Keeps dropped refl h s

    at_clock :
        (header : FrameHeader) (cohort : CohortName) (t : Option ℕ)
        → parse_frame_header frame ≡ ok header
        → Cohort.try_from header.name ≡ ok cohort
        → m.unix_micros_now ≡ t
        → Keeps n c (take_frame config m c frame)
    at_clock header cohort none p q t =
        rw (p, take_frame)
          (rw (q, take_frame)
            (rw (t, take_frame)
              (same c (record {
                valid = refl;
                channel = refl;
                memory = refl;
                ledger = refl;
                healthy = refl;
              }))))
    at_clock header cohort (some time) p q t =
        rw (p, take_frame)
          (rw (q, take_frame)
            (rw (t, take_frame)
              (valid _ (reserve_and_send-Settles n counted fits config m cohort time frame))))

    at_name :
        (header : FrameHeader) (r : Result CohortNameError CohortName)
        → parse_frame_header frame ≡ ok header
        → Cohort.try_from header.name ≡ r
        → Keeps n c (take_frame config m c frame)
    at_name header (err x) p q =
        rw (p, take_frame)
          (rw (q, take_frame)
            (same _ (record {
              valid = refl;
              channel = refl;
              memory = refl;
              ledger = refl;
              healthy = refl;
            })))
    at_name header (ok cohort) p q = at_clock header cohort m.unix_micros_now p q refl

    after :
        (r : Result FrameError FrameHeader)
        → parse_frame_header frame ≡ r
        → Keeps n c (take_frame config m c frame)
    after (err x) p =
        rw (p, take_frame)
          (same _
            (record { valid = refl; channel = refl; memory = refl; ledger = refl; healthy = refl }))
    after (ok header) p = at_name header (Cohort.try_from header.name) p refl

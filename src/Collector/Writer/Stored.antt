-- ===== src/Collector/Writer/Stored.antt =====
-- What the store holds: every object that it has acknowledged reads back.
use vectorseam.Base.{
  ℕ, ◌≤◌, ◌≡◌, refl, List, [], ◌∷◌, arith, All, AllEntries, Bytes, map, length, Result, ok, err,
  u64_max, u32_max,
}
use vectorseam.Core.Cohort.{CohortName, validate_cohort_name}
use vectorseam.Core.Segment.{
  SegmentHeader, SegmentRecord, SegmentError, write_segment, read_segment,
}
use vectorseam.Core.Segment.Layout.{IsHeader}
use vectorseam.Core.Segment.RoundTrip.{IsTimed, read-write_segment}
use vectorseam.Core.Window.{WindowError, object_key}
use vectorseam.Collector.Writer.{
  Environment, Writer, WriterConfig, BufferedRecord, CohortState, PutOutcome, stored, failed,
  timed_out, default_state, add_received, after_put, put_flush, clamp_u64, first_time, last_time,
  batch_of, header_of, segment_record,
}

-- The cohort's name is valid and the buffer's times and counts are `u64`s; at least as many frames have been received as
-- are kept.
pub record IsState (cohort : CohortName) (s : CohortState) : Type 0 where
  pub name : validate_cohort_name cohort ≡ ok tt
  pub records : All IsTimed (map segment_record s.records)
  pub first : first_time s.records ≤ u64_max
  pub last : last_time s.records ≤ u64_max
  pub received : s.received_frame_count ≤ u64_max
  pub count : clamp_u64 (length s.records) ≤ s.received_frame_count

abbrev pub IsName : CohortName → ℕ → Type 0
IsName cohort drops = validate_cohort_name cohort ≡ ok tt

-- The object reads back to a segment that counts its records and no more of them than were received, and
-- stands under the key of its cohort and window.
pub record IsStored (object : Bytes × Bytes) : Type 0 where
  pub header : SegmentHeader
  pub records : List SegmentRecord
  pub part : Bytes
  pub reads : read_segment object.1 ≡ ok (record { header = header; records = records })
  pub key : object_key header.cohort header.window_start part ≡ ok object.0
  pub count : header.record_count ≡ clamp_u64 (length records)
  pub received : header.record_count ≤ header.received_frame_count

pub record IsSound (w : Writer) : Type 0 where
  pub states : AllEntries IsState w.states
  pub ledger : AllEntries IsName w.counters.pending_cohort_drops
  pub window_seconds : w.config.window_seconds ≤ u32_max
  pub window : w.current_window_start ≤ u64_max
  pub objects : All IsStored w.objects

pub clamp_le : (n : ℕ) → clamp_u64 n ≤ u64_max
clamp_le n = ground arith

pub length-map : (rs : List BufferedRecord) → length (map segment_record rs) ≡ length rs
length-map [] = refl
length-map (r ∷ rs) = omega (arith, length-map rs)

batch_IsHeader :
    (config : WriterConfig) (cohort : CohortName) (window_start : ℕ) (s : CohortState)
    → config.window_seconds ≤ u32_max
    → window_start ≤ u64_max
    → IsState cohort s
    → IsHeader (header_of config cohort window_start s)
batch_IsHeader config cohort window_start s ws b h = record {
  window_start = b;
  window_seconds = ws;
  first_receive = h.first;
  last_receive = h.last;
  received_frame_count = h.received;
  record_count = clamp_le (length s.records);
  cohort = h.name;
}

pub add_received-IsState :
    (drops : ℕ) (cohort : CohortName) (s : CohortState)
    → IsState cohort s
    → IsState cohort (add_received drops s)
add_received-IsState drops cohort s h = record {
  name = h.name;
  records = h.records;
  first = h.first;
  last = h.last;
  received = ground (arith, h.received);
  count = ground (arith, h.received, h.count, clamp_le (length s.records));
}

pub default_state-IsState :
    (cohort : CohortName) → validate_cohort_name cohort ≡ ok tt → IsState cohort default_state
default_state-IsState cohort h = record {
  name = h;
  records = tt;
  first = omega arith;
  last = omega arith;
  received = omega arith;
  count = omega arith;
}

-- Whatever the answer of the store, its objects stay sound when the batch's state was.
pub put_flush-IsSound :
    (env : Environment) (cohort : CohortName) (s : CohortState) (w : Writer) (window_start : ℕ)
    → IsState cohort s
    → window_start ≤ u64_max
    → IsSound w
    → IsSound (put_flush env (batch_of w.config cohort window_start s) w)
unfolding put_flush after_put
put_flush-IsSound env cohort s w window_start st b h =
    after (write_segment header (map segment_record s.records)) refl
  where
    header : SegmentHeader
    header = header_of w.config cohort window_start s

    Goal : Type 0
    Goal = IsSound (put_flush env (batch_of w.config cohort window_start s) w)

    at_answer :
        (segment key : Bytes) (o : PutOutcome)
        → write_segment header (map segment_record s.records) ≡ ok segment
        → object_key cohort window_start (env.ulid w.keys_made) ≡ ok key
        → env.put w.keys_made ≡ o
        → Goal
    at_answer segment key stored p q r =
        rw (p, put_flush)
          (rw (q, put_flush)
            (rw (r, put_flush)
              (record {
                states = h.states;
                ledger = h.ledger;
                window_seconds = h.window_seconds;
                window = h.window;
                objects = (
                  record {
                    header = header;
                    records = map segment_record s.records;
                    part = env.ulid w.keys_made;
                    reads =
                        read-write_segment header (map segment_record s.records) segment
                          (batch_IsHeader w.config cohort window_start s h.window_seconds b st)
                          st.records p;
                    key = q;
                    count = rw (length-map s.records);
                    received = st.count;
                  },
                  h.objects,
                );
              })))
    at_answer segment key failed p q r =
        rw (p, put_flush)
          (rw (q, put_flush)
            (rw (r, put_flush)
              (record {
                states = h.states;
                ledger = h.ledger;
                window_seconds = h.window_seconds;
                window = h.window;
                objects = h.objects;
              })))
    at_answer segment key timed_out p q r =
        rw (p, put_flush)
          (rw (q, put_flush)
            (rw (r, put_flush)
              (record {
                states = h.states;
                ledger = h.ledger;
                window_seconds = h.window_seconds;
                window = h.window;
                objects = h.objects;
              })))

    at_key :
        (segment : Bytes) (r : Result WindowError Bytes)
        → write_segment header (map segment_record s.records) ≡ ok segment
        → object_key cohort window_start (env.ulid w.keys_made) ≡ r
        → Goal
    at_key segment (err e) p q =
        rw (p, put_flush)
          (rw (q, put_flush)
            (record {
              states = h.states;
              ledger = h.ledger;
              window_seconds = h.window_seconds;
              window = h.window;
              objects = h.objects;
            }))
    at_key segment (ok key) p q = at_answer segment key (env.put w.keys_made) p q refl

    after :
        (r : Result SegmentError Bytes)
        → write_segment header (map segment_record s.records) ≡ r
        → Goal
    after (err e) p =
        rw (p, put_flush)
          (record {
            states = h.states;
            ledger = h.ledger;
            window_seconds = h.window_seconds;
            window = h.window;
            objects = h.objects;
          })
    after (ok segment) p =
        at_key segment (object_key cohort window_start (env.ulid w.keys_made)) p refl

-- ===== src/Core/Segment/Layout.antt =====
-- The layout of a segment as the format describes it: a header that may carry unknown bytes behind the
-- fields that this version knows, then the records.
use vectorseam.Base.{
  ◌+◌, ◌≤◌, ◌≡◌, List, ◌++◌, arith, length, length-append, Bytes, u32_max, u64_max, ok,
}
use vectorseam.Core.Endian.{to_le_bytes}
use vectorseam.Core.Cohort.{validate_cohort_name}
use vectorseam.Core.Frame.{FrameHeader, parse_frame_header}
use vectorseam.Core.Segment.{SegmentHeader, SegmentRecord, put_records, segment_magic}

-- The fields of a header fit their types, and its cohort is a cohort name.
pub record IsHeader (h : SegmentHeader) : Type 0 where
  pub window_start : h.window_start ≤ u64_max
  pub window_seconds : h.window_seconds ≤ u32_max
  pub first_receive : h.first_receive ≤ u64_max
  pub last_receive : h.last_receive ≤ u64_max
  pub received_frame_count : h.received_frame_count ≤ u64_max
  pub record_count : h.record_count ≤ u64_max
  pub cohort : validate_cohort_name h.cohort ≡ ok tt

-- The time is a `u64` and the frame parses.
pub record IsRecord (r : SegmentRecord) : Type 0 where
  pub receive_time : r.receive_time ≤ u64_max
  pub header : FrameHeader
  pub frame : parse_frame_header r.frame ≡ ok header

-- A segment whose header carries the bytes `tail` behind the cohort.
unfoldable pub layout : SegmentHeader → Bytes → List SegmentRecord → Bytes
layout h tail records =
    segment_magic
    ++ (to_le_bytes 4 (46 + length h.cohort + length tail)
        ++ (to_le_bytes 8 h.window_start
            ++ (to_le_bytes 4 h.window_seconds
                ++ (to_le_bytes 8 h.first_receive
                    ++ (to_le_bytes 8 h.last_receive
                        ++ (to_le_bytes 8 h.received_frame_count
                            ++ (to_le_bytes 8 h.record_count
                                ++ (to_le_bytes 2 (length h.cohort)
                                    ++ (h.cohort ++ (tail ++ put_records records))))))))))

pub length-layout :
    (h : SegmentHeader) (tail : Bytes) (records : List SegmentRecord)
    → length (layout h tail records)
      ≡ 54 + length h.cohort + length tail + length (put_records records)
unfolding layout
length-layout h tail records = omega (
  arith,
  length-append h.cohort (tail ++ put_records records),
  length-append tail (put_records records),
)

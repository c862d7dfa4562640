-- ===== src/Core/Segment.antt =====
-- crates/vectorseam-core/src/segment.rs: writing and reading `.vseam` segments.
pub mod Layout
pub mod Loop
pub mod RoundTrip
pub mod Parsed
use vectorseam.Base.{
  ℕ, zero, suc, ◌+◌, ◌-◌, Bool, true, false, not, Option, none, some, List, [], ◌∷◌, ◌++◌, length,
  take, drop, slice, ltb, if◌then◌else◌, Bytes, codes, bytes_eq, Result, ok, err, ◌>>=◌, ◌>>◌,
  fail_if, map_err, ok_or, try_from, checked_add, usize_max, u32_max, u16_max,
}
use vectorseam.Core.Endian.{to_le_bytes}
use vectorseam.Core.Binary.{ByteReadError, read_u16_le, read_u32_le, read_u64_le}
use vectorseam.Core.Utf8.{from_utf8}
use vectorseam.Core.Cohort
use vectorseam.Core.Cohort.{CohortName, CohortNameError, max_cohort_name_bytes}
use vectorseam.Core.Frame.{FrameError, FrameHeader, parse_frame_header, total_frame_len}

abbrev pub segment_magic : Bytes
segment_magic = codes "VSG1"

abbrev pub base_header_len : ℕ
base_header_len = 46

abbrev pub fixed_prefix_len : ℕ
fixed_prefix_len = 8

abbrev pub record_time_len : ℕ
record_time_len = 8

abbrev pub max_segment_overhead_bytes : ℕ
max_segment_overhead_bytes = fixed_prefix_len + base_header_len + max_cohort_name_bytes

pub record SegmentHeader : Type 0 where
  pub window_start : ℕ
  pub window_seconds : ℕ
  pub first_receive : ℕ
  pub last_receive : ℕ
  pub received_frame_count : ℕ
  pub record_count : ℕ
  pub cohort : CohortName

-- `SegmentRecord`, and the borrowed `SegmentRecordRef`.
pub record SegmentRecord : Type 0 where
  pub receive_time : ℕ
  pub frame : Bytes

pub record Segment : Type 0 where
  pub header : SegmentHeader
  pub records : List SegmentRecord

-- `out_of_fuel` is the model's own: the loop of `read_segment` never returns it.
pub data SegmentError : Type 0 where
  bad_magic : SegmentError
  truncated : ℕ → ℕ → SegmentError
  header_too_short cohort_too_long invalid_cohort_utf8 : SegmentError
  invalid_cohort : CohortNameError → SegmentError
  invalid_frame : FrameError → SegmentError
  length_overflow out_of_fuel : SegmentError

-- `impl From<ByteReadError> for SegmentError`
abbrev pub from_read_error : ByteReadError → SegmentError
from_read_error (ByteReadError.truncated needed actual) = SegmentError.truncated needed actual
from_read_error ByteReadError.length_overflow = SegmentError.length_overflow

abbrev plus : ℕ → ℕ → Result SegmentError ℕ
plus a b = ok_or (checked_add usize_max a b) length_overflow

-- The closure of `try_fold`, and the fold.
abbrev add_record_len : ℕ → SegmentRecord → Result SegmentError ℕ
add_record_len sum r = do
  map_err invalid_frame (parse_frame_header r.frame)
  with_time ← plus sum record_time_len
  plus with_time (length r.frame)

unfoldable pub records_len : ℕ → List SegmentRecord → Result SegmentError ℕ
records_len sum [] = ok sum
records_len sum (r ∷ rs) = do next ← add_record_len sum r; records_len next rs

-- `out.put_u64_le(record.receive_time); out.put_slice(record.frame);` for each record.
unfoldable pub put_records : List SegmentRecord → Bytes
put_records [] = []
put_records (r ∷ rs) = to_le_bytes 8 r.receive_time ++ (r.frame ++ put_records rs)

unfoldable pub put_header : SegmentHeader → ℕ → ℕ → Bytes
put_header header header_len cohort_len =
    segment_magic
    ++ (to_le_bytes 4 header_len
        ++ (to_le_bytes 8 header.window_start
            ++ (to_le_bytes 4 header.window_seconds
                ++ (to_le_bytes 8 header.first_receive
                    ++ (to_le_bytes 8 header.last_receive
                        ++ (to_le_bytes 8 header.received_frame_count
                            ++ (to_le_bytes 8 header.record_count
                                ++ (to_le_bytes 2 cohort_len ++ header.cohort))))))))

unfoldable pub write_segment : SegmentHeader → List SegmentRecord → Result SegmentError Bytes
write_segment header records = do
  cohort_len ← ok_or (try_from u16_max (length header.cohort)) cohort_too_long
  header_len ← ok_or (try_from u32_max (base_header_len + cohort_len)) length_overflow
  body_len ← records_len 0 records
  header_len_usize ← ok_or (try_from usize_max header_len) length_overflow
  prefix_len ← plus fixed_prefix_len header_len_usize
  plus prefix_len body_len
  ok (put_header header header_len cohort_len ++ put_records records)

abbrev read_u16 : Bytes → ℕ → Result SegmentError ℕ
read_u16 buffer offset = map_err from_read_error (read_u16_le buffer offset)

abbrev read_u32 : Bytes → ℕ → Result SegmentError ℕ
read_u32 buffer offset = map_err from_read_error (read_u32_le buffer offset)

abbrev read_u64 : Bytes → ℕ → Result SegmentError ℕ
read_u64 buffer offset = map_err from_read_error (read_u64_le buffer offset)

-- One round of the loop of `read_segment`: a record, and the offset behind it.
unfoldable pub read_record : Bytes → ℕ → Result SegmentError (SegmentRecord × ℕ)
read_record buffer record_offset = do
  receive_time_end ← plus record_offset record_time_len
  fail_if (ltb (length buffer) receive_time_end)
      (SegmentError.truncated receive_time_end (length buffer))
  receive_time ← read_u64 buffer record_offset
  let frame_start = receive_time_end
  frame_total_len ← map_err invalid_frame (total_frame_len (drop frame_start buffer))
  frame_end ← plus frame_start frame_total_len
  fail_if (ltb (length buffer) frame_end) (SegmentError.truncated frame_end (length buffer))
  map_err invalid_frame (parse_frame_header (slice buffer frame_start frame_end))
  ok (record { receive_time = receive_time; frame = slice buffer frame_start frame_end }, frame_end)

-- `while record_offset < buffer.len()`, on fuel.
unfoldable pub read_records : ℕ → Bytes → ℕ → Result SegmentError (List SegmentRecord)
read_records zero buffer record_offset = err out_of_fuel
read_records (suc fuel) buffer record_offset = elim (ltb record_offset (length buffer)) [
  | true ↦ read_record buffer record_offset >>= λ step.
      read_records fuel buffer step.1 >>= λ rest. ok (step.0 ∷ rest)
  | false ↦ ok []
]

-- The fields behind the prefix: the header, and where it ends.
unfoldable pub read_header : Bytes → Result SegmentError (SegmentHeader × ℕ)
read_header buffer = do
  fail_if (ltb (length buffer) fixed_prefix_len)
      (SegmentError.truncated fixed_prefix_len (length buffer))
  fail_if (not (bytes_eq (slice buffer 0 4) segment_magic)) SegmentError.bad_magic
  header_len ← read_u32 buffer 4
  fail_if (ltb header_len base_header_len) header_too_short
  header_end ← plus fixed_prefix_len header_len
  fail_if (ltb (length buffer) header_end) (SegmentError.truncated header_end (length buffer))
  window_start ← read_u64 buffer 8
  window_seconds ← read_u32 buffer 16
  first_receive ← read_u64 buffer 20
  last_receive ← read_u64 buffer 28
  received_frame_count ← read_u64 buffer 36
  record_count ← read_u64 buffer 44
  cohort_len ← read_u16 buffer 52
  cohort_end ← plus 54 cohort_len
  fail_if (ltb header_end cohort_end) header_too_short
  text ← ok_or (from_utf8 (slice buffer 54 cohort_end)) invalid_cohort_utf8
  cohort ← map_err invalid_cohort (Cohort.try_from text)
  ok (
    record {
      window_start = window_start;
      window_seconds = window_seconds;
      first_receive = first_receive;
      last_receive = last_receive;
      received_frame_count = received_frame_count;
      record_count = record_count;
      cohort = cohort;
    },
    header_end,
  )

-- Each round takes at least twelve bytes, so the buffer's length is fuel enough.
unfoldable pub read_segment : Bytes → Result SegmentError Segment
read_segment buffer = do
  (header, header_end) ← read_header buffer
  records ← read_records (suc (length buffer)) buffer header_end
  ok (record { header = header; records = records })
